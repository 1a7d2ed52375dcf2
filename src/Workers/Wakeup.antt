-- ===== src/Workers/Wakeup.antt =====
-- No wake-up is lost between `Push`, `WaitAndPop` and `Cancel`.
use mmo_wow.Prelude.{
  ℕ, ◌≡◌, ◌≤◌, refl, sym, ap, ◌⊎◌, inl, inr, arith, Bool, true, false, List, [], ◌∷◌, ◌++◌, map,
  none, some, length, length-append, Bool-cases, List-cases,
}
use mathlib.Core.Path.{subst}
use mmo_wow.Workers.{
  Pcq, size, after_attempt, Attempt, push, wait_and_pop, cancel, Phase, checking, asleep, popped,
  executing, exited, Worker, spawned, turn, rouse, roused, World, start, tally, empty_queue,
}
use mmo_wow.Workers.Steps.{
  worker, sleeping, awake, sleepers, seekers, Step, spawn, push_quiet, push_waking, work, spurious,
  mark, close, Later, here, next, tally-split, tally-at, wait-empty, wait-closed, wait-some,
}

-- No worker sleeps, or as many as there are operations are on their way to the queue.
pub record Ready (q : Pcq) (workers : List Worker) : Type 0 where
  pub either : (sleepers workers ≡ 0) ⊎ (length q.items ≤ seekers workers)
  pub closed : q.shutdown ≡ true → sleepers workers ≡ 0

Ready-start : Ready start.queue start.workers
unfolding start empty_queue tally
Ready-start = record { either = inl refl; closed = λ e. refl }

module _ {q : Pcq} {ws : List Worker} (r : Ready q ws) where
  -- A change of the workers by which no more of them sleep and no fewer seek.
  Ready-keeps :
      (us : List Worker) → sleepers us ≤ sleepers ws → seekers ws ≤ seekers us → Ready q us
  Ready-keeps us h k = record {
    either = elim r.either [
      | inl e ↦ inl (omega (arith, e, h))
      | inr l ↦ inr (omega (arith, l, k))
    ];
    closed = λ e. omega (arith, r.closed e, h);
  }

  Ready-quiet : (value : ℕ) → sleepers ws ≡ 0 → Ready (push value q) ws
  unfolding push
  Ready-quiet value e = record { either = inl e; closed = λ k. e }

  Ready-waking :
      (value : ℕ) (before : List Worker) (t : Bool) (after : List Worker)
      → ws ≡ before ++ (worker asleep t ∷ after)
      → Ready (push value q) (before ++ (worker checking t ∷ after))
  unfolding push sleeping awake
  Ready-waking value before t after e =
      let s = tally-at (λ s. sleeping s.phase) ws before (worker asleep t) after e in
      let a = tally-at (λ s. awake s.phase) ws before (worker asleep t) after e in
      let s' = tally-split (λ s. sleeping s.phase) before (worker checking t) after in
      let a' = tally-split (λ s. awake s.phase) before (worker checking t) after in
      let n = length-append q.items (value ∷ []) in
      record {
        either = elim r.either [
          | inl z ↦ inl (omega (arith, z, s, s'))
          | inr l ↦ inr (omega (arith, l, a, a', n))
        ];
        closed = λ k. omega (arith, r.closed k, s, s');
      }

  Ready-swap :
      (before : List Worker) (p : Phase) (t : Bool) (after : List Worker) (p' : Phase) (t' : Bool)
      → ws ≡ before ++ (worker p t ∷ after)
      → sleeping p' ≤ sleeping p
      → awake p ≤ awake p'
      → Ready q (before ++ (worker p' t' ∷ after))
  Ready-swap before p t after p' t' e h k =
      let s = tally-at (λ s. sleeping s.phase) ws before (worker p t) after e in
      let a = tally-at (λ s. awake s.phase) ws before (worker p t) after e in
      let s' = tally-split (λ s. sleeping s.phase) before (worker p' t') after in
      let a' = tally-split (λ s. awake s.phase) before (worker p' t') after in
      Ready-keeps (before ++ (worker p' t' ∷ after)) (omega (arith, h, s, s'))
        (omega (arith, k, a, a'))

  module _ (before : List Worker) (t : Bool) (after : List Worker)
      (e : ws ≡ before ++ (worker checking t ∷ after)) where
    Ready-waits : q.items ≡ [] → q.shutdown ≡ false → Ready q (before ++ (worker asleep t ∷ after))
    Ready-waits f k = record {
      either = inr (omega (arith, ap length f));
      closed = λ c. ground (arith, c, k);
    }

    Ready-returns : q.shutdown ≡ true → Ready q (before ++ (worker (popped none) t ∷ after))
    unfolding sleeping
    Ready-returns k =
        let s = tally-at (λ s. sleeping s.phase) ws before (worker checking t) after e in
        let s' = tally-split (λ s. sleeping s.phase) before (worker (popped none) t) after in
        let z : sleepers (before ++ (worker (popped none) t ∷ after)) ≡ 0 =
          omega (arith, s, s', r.closed k) in
        record { either = inl z; closed = λ c. z }

    Ready-pops :
        (v : ℕ) (rest : List ℕ)
        → q.items ≡ v ∷ rest
        → q.shutdown ≡ false
        → Ready (record q { items = rest }) (before ++ (worker (popped (some v)) t ∷ after))
    unfolding sleeping awake
    Ready-pops v rest f k =
        let new = worker (popped (some v)) t in
        let s = tally-at (λ s. sleeping s.phase) ws before (worker checking t) after e in
        let a = tally-at (λ s. awake s.phase) ws before (worker checking t) after e in
        let s' = tally-split (λ s. sleeping s.phase) before new after in
        let a' = tally-split (λ s. awake s.phase) before new after in
        record {
          either = elim r.either [
            | inl z ↦ inl (omega (arith, z, s, s'))
            | inr l ↦ inr (omega (arith, l, a, a', ap length f))
          ];
          closed = λ c. ground (arith, c, k);
        }

    Ready-attempt :
        Ready
          (after_attempt (wait_and_pop q) q).1
          (before ++ (worker (after_attempt (wait_and_pop q) q).0 t ∷ after))
    Ready-attempt =
        let Goal : Attempt → Type 0 =
          λ a. Ready (after_attempt a q).1 (before ++ (worker (after_attempt a q).0 t ∷ after)) in
        elim (Bool-cases q.shutdown) [
          | inl k ↦ subst Goal (sym (wait-closed q k)) (Ready-returns k)
          | inr k ↦ elim (List-cases q.items) [
            | inl f ↦ subst Goal (sym (wait-empty q f k)) (Ready-waits f k)
            | inr (v, rest, f) ↦ subst Goal (sym (wait-some q v rest f k)) (Ready-pops v rest f k)
          ]
        ]

  -- What a turn does to the rest: the thread that leaves the section neither hides an operation from
  -- the others nor sleeps while one waits.
  Ready-turn :
      (before : List Worker) (p : Phase) (t : Bool) (after : List Worker)
      → ws ≡ before ++ (worker p t ∷ after)
      → Ready (turn t p q).1 (before ++ (worker (turn t p q).0 t ∷ after))
  unfolding turn sleeping awake
  Ready-turn before checking t after e = Ready-attempt before t after e
  Ready-turn before asleep t after e =
      Ready-swap before asleep t after asleep t e (omega arith) (omega arith)
  Ready-turn before (popped none) t after e =
      Ready-swap before (popped none) t after exited t e (omega arith) (omega arith)
  Ready-turn before (popped (some op)) true after e =
      Ready-swap before (popped (some op)) true after exited true e (omega arith) (omega arith)
  Ready-turn before (popped (some op)) false after e =
      Ready-swap before (popped (some op)) false after (executing op) false e (omega arith)
        (omega arith)
  Ready-turn before (executing op) t after e =
      Ready-swap before (executing op) t after checking t e (omega arith) (omega arith)
  Ready-turn before exited t after e =
      Ready-swap before exited t after exited t e (omega arith) (omega arith)

sleepers-map-rouse : (ws : List Worker) → sleepers (map rouse ws) ≡ 0
unfolding tally sleeping
sleepers-map-rouse [] = refl
sleepers-map-rouse (w ∷ ws) = omega (arith, sleepers-map-rouse ws, roused-awake w.phase)
  where
    roused-awake : (p : Phase) → sleeping (roused p) ≡ 0
    roused-awake checking = refl
    roused-awake asleep = refl
    roused-awake (popped got) = refl
    roused-awake (executing op) = refl
    roused-awake exited = refl

Step-Ready : {w u : World} → Ready w.queue w.workers → Step w u → Ready u.queue u.workers
unfolding sleeping awake spawned tally cancel
Step-Ready {w} r spawn =
    let s = tally-split (λ s. sleeping s.phase) w.workers spawned [] in
    let a = tally-split (λ s. awake s.phase) w.workers spawned [] in
    Ready-keeps r (w.workers ++ (spawned ∷ [])) (omega (arith, s)) (omega (arith, a))
Step-Ready r (push_quiet value e) = Ready-quiet r value e
Step-Ready r (push_waking value before t after e) = Ready-waking r value before t after e
Step-Ready r (work before p t after e) = Ready-turn r before p t after e
Step-Ready r (spurious before t after e) =
    Ready-swap r before asleep t after checking t e (omega arith) (omega arith)
Step-Ready r (mark before p t after e) =
    Ready-swap r before p t after p true e (omega arith) (omega arith)
Step-Ready {w} r (close before p after e) =
    let z = sleepers-map-rouse w.workers in record { either = inl z; closed = λ c. z }

Later-Ready : {w u : World} → Ready w.queue w.workers → Later w u → Ready u.queue u.workers
Later-Ready r here = r
Later-Ready r (next l s) = Step-Ready (Later-Ready r l) s

-- In every state that can be reached, whatever the order of the steps: no worker sleeps on the
-- condition, or at least as many workers are awake and on their way to the queue as it has
-- operations. Once the queue is shut down, none sleeps.
pub Reach-Ready :
    {w : World}
    → Later start w
    → ((sleepers w.workers ≡ 0) ⊎ (size w.queue ≤ seekers w.workers))
      × ((w.queue.shutdown ≡ false) ⊎ (sleepers w.workers ≡ 0))
unfolding size
Reach-Ready {w} l =
    let r = Later-Ready Ready-start l in
    (r.either, elim (Bool-cases w.queue.shutdown) [ inl k ↦ inr (r.closed k) | inr k ↦ inl k ])

pub closed-awake : {w : World} → Later start w → w.queue.shutdown ≡ true → sleepers w.workers ≡ 0
closed-awake l k = (Later-Ready Ready-start l).closed k
