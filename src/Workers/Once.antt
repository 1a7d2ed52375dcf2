-- ===== src/Workers/Once.antt =====
-- How often an operation is executed, counted over the workers.
use mmo_wow.Prelude.{
  ℕ, suc, ◌+◌, ◌≡◌, ◌≤◌, ◌<◌, zero, refl, ap, ◌∙◌, ◌⊎◌, inl, inr, arith, Bool, true, false, List,
  [], ◌∷◌, ◌++◌, map, none, some, ◌==◌, if◌then◌else◌,
}
use mmo_wow.Workers.{
  Pcq, push, wait_and_pop, Phase, checking, asleep, popped, executing, exited, Worker, spawned,
  turn, taken_by, executed_by, lost_by, rouse, roused, World, start, tally, after_attempt, got_from,
  listed, Attempt, waits, returns,
}
use mmo_wow.Workers.Steps.{
  worker, worked, Step, spawn, push_quiet, push_waking, work, spurious, mark, close, Later, here,
  next, tally-split, tally-at,
}

abbrev pub count : ℕ → List ℕ → ℕ
count v [] = 0
count v (x ∷ xs) = (if x == v then 1 else 0) + count v xs

count-append : (v : ℕ) (xs ys : List ℕ) → count v (xs ++ ys) ≡ count v xs + count v ys
count-append v [] ys = omega arith
count-append v (x ∷ xs) ys = omega (arith, count-append v xs ys)

-- what a thread has taken out and not yet executed
unfoldable pub in_hand : Phase → List ℕ
in_hand checking = []
in_hand asleep = []
in_hand (popped got) = listed got
in_hand (executing op) = op ∷ []
in_hand exited = []

abbrev pub hands : ℕ → List Worker → ℕ
hands v = tally (λ s. count v (in_hand s.phase))

unfoldable pub mark_of : Bool → ℕ
mark_of true = 1
mark_of false = 0

-- how many workers are being destroyed
abbrev pub marked : List Worker → ℕ
marked = tally (λ s. mark_of s.token)

attempt-balance :
    (v : ℕ) (a : Attempt) (q : Pcq) → count v (in_hand (after_attempt a q).0) ≡ count v (got_from a)
unfolding in_hand
attempt-balance v waits q = refl
attempt-balance v (returns got left) q = refl

-- what a turn moves between a worker's hands and the lists
turn-balance :
    (v : ℕ) (t : Bool) (p : Phase) (q : Pcq)
    → count v (in_hand (turn t p q).0) + (count v (executed_by p) + count v (lost_by t p))
      ≡ count v (in_hand p) + count v (taken_by p q)
unfolding turn in_hand executed_by lost_by taken_by
turn-balance v t checking q = omega (arith, attempt-balance v (wait_and_pop q) q)
turn-balance v t asleep q = refl
turn-balance v true (popped none) q = refl
turn-balance v false (popped none) q = refl
turn-balance v true (popped (some op)) q = omega arith
turn-balance v false (popped (some op)) q = omega arith
turn-balance v t (executing op) q = omega arith
turn-balance v t exited q = refl

record Balance (w : World) : Type 0 where
  pub once : (v : ℕ) → count v w.taken ≡ (count v w.executed + count v w.lost) + hands v w.workers
  pub none_lost : marked w.workers ≡ 0 → w.lost ≡ []

Balance-start : Balance start
unfolding start tally
Balance-start = record { once = λ v. refl; none_lost = λ e. refl }

unmarked_loses : (t : Bool) (p : Phase) → mark_of t ≡ 0 → lost_by t p ≡ []
unfolding mark_of lost_by
unmarked_loses true p z = absurd (omega (arith, z))
unmarked_loses false checking z = refl
unmarked_loses false asleep z = refl
unmarked_loses false (popped got) z = refl
unmarked_loses false (executing op) z = refl
unmarked_loses false exited z = refl

module _ {w : World} (i : Balance w) (before : List Worker) (p : Phase) (t : Bool)
    (after : List Worker) (e : w.workers ≡ before ++ (worker p t ∷ after)) where
  -- Another phase in which the worker has the same in its hands, and a token that is not taken back.
  Balance-swap :
      (p' : Phase) (t' : Bool)
      → ((v : ℕ) → count v (in_hand p') ≡ count v (in_hand p))
      → mark_of t ≤ mark_of t'
      → (q : Pcq) (given : List ℕ)
      → Balance (record w { queue = q; given = given; workers = before ++ (worker p' t' ∷ after) })
  Balance-swap p' t' h k q given = record {
    once = λ v.
        let a = tally-at (λ s. count v (in_hand s.phase)) w.workers before (worker p t) after e in
        let b = tally-split (λ s. count v (in_hand s.phase)) before (worker p' t') after in
        omega (arith, i.once v, a, b, h v);
    none_lost = λ z.
        let a = tally-at (λ s. mark_of s.token) w.workers before (worker p t) after e in
        let b = tally-split (λ s. mark_of s.token) before (worker p' t') after in
        i.none_lost (omega (arith, a, b, z, k));
  }

  Balance-worked : Balance (worked w before p t after)
  Balance-worked = record {
    once = λ v.
        let a = tally-at (λ s. count v (in_hand s.phase)) w.workers before (worker p t) after e in
        let b =
          tally-split (λ s. count v (in_hand s.phase)) before (worker (turn t p w.queue).0 t)
            after in
        let m = turn-balance v t p w.queue in
        let x = count-append v w.taken (taken_by p w.queue) in
        let y = count-append v w.executed (executed_by p) in
        let z = count-append v w.lost (lost_by t p) in omega (arith, i.once v, a, b, m, x, y, z);
    none_lost = λ z.
        let a = tally-at (λ s. mark_of s.token) w.workers before (worker p t) after e in
        let b = tally-split (λ s. mark_of s.token) before (worker (turn t p w.queue).0 t) after in
        ap (λ xs. xs ++ lost_by t p) (i.none_lost (omega (arith, a, b, z)))
        ∙ unmarked_loses t p (omega (arith, b, z));
  }

hands-map-rouse : (v : ℕ) (ws : List Worker) → hands v (map rouse ws) ≡ hands v ws
unfolding tally in_hand
hands-map-rouse v [] = refl
hands-map-rouse v (w ∷ ws) = omega (arith, hands-map-rouse v ws, kept w.phase)
  where
    kept : (p : Phase) → count v (in_hand (roused p)) ≡ count v (in_hand p)
    kept checking = refl
    kept asleep = refl
    kept (popped got) = refl
    kept (executing op) = refl
    kept exited = refl

marked-map-rouse : (ws : List Worker) → marked (map rouse ws) ≡ marked ws
unfolding tally
marked-map-rouse [] = refl
marked-map-rouse (w ∷ ws) = omega (arith, marked-map-rouse ws)

Step-Balance : {w u : World} → Balance w → Step w u → Balance u
unfolding in_hand mark_of spawned tally
Step-Balance {w} i spawn = record {
  once = λ v.
      omega (arith, i.once v, tally-split (λ s. count v (in_hand s.phase)) w.workers spawned []);
  none_lost =
      λ z. i.none_lost (omega (arith, z, tally-split (λ s. mark_of s.token) w.workers spawned []));
}
Step-Balance i (push_quiet value e) = record { once = i.once; none_lost = i.none_lost }
Step-Balance {w} i (push_waking value before t after e) =
    Balance-swap i before asleep t after e checking t (λ v. refl) (omega arith) (push value w.queue)
      (w.given ++ (value ∷ []))
Step-Balance i (work before p t after e) = Balance-worked i before p t after e
Step-Balance {w} i (spurious before t after e) =
    Balance-swap i before asleep t after e checking t (λ v. refl) (omega arith) w.queue w.given
Step-Balance {w} i (mark before p true after e) =
    Balance-swap i before p true after e p true (λ v. refl) (omega arith) w.queue w.given
Step-Balance {w} i (mark before p false after e) =
    Balance-swap i before p false after e p true (λ v. refl) (omega arith) w.queue w.given
Step-Balance {w} i (close before p after e) = record {
  once = λ v. omega (arith, i.once v, hands-map-rouse v w.workers);
  none_lost = λ z. i.none_lost (omega (arith, z, marked-map-rouse w.workers));
}

Later-Balance : {w u : World} → Balance w → Later w u → Balance u
Later-Balance i here = i
Later-Balance i (next l s) = Step-Balance (Later-Balance i l) s

-- In every state that can be reached, each operation that the workers took out was executed or lost,
-- or is in the hands of one of them, as often as it was taken out; and while no worker is being
-- destroyed none was lost.
pub taken-once :
    {w : World}
    → Later start w
    → ((v : ℕ) → count v w.taken ≡ (count v w.executed + count v w.lost) + hands v w.workers)
      × ((0 < marked w.workers) ⊎ (w.lost ≡ []))
taken-once {w} l =
    let i = Later-Balance Balance-start l in (i.once, zero-or (marked w.workers) i.none_lost)
  where
    zero-or : (n : ℕ) → (n ≡ 0 → w.lost ≡ []) → (0 < n) ⊎ (w.lost ≡ [])
    zero-or zero h = inr (h refl)
    zero-or (suc n) h = inl (omega arith)
