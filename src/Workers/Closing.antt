-- ===== src/Workers/Closing.antt =====
-- The end of the workers: `~DatabaseWorker` of one of them closes the queue that all of them share.
use mmo_wow.Prelude.{
  ℕ, suc, ◌≡◌, refl, ap, ◌∙◌, arith, Bool, true, false, List, [], ◌∷◌, ◌++◌, none, some, append-nil,
  zero,
}
use mmo_wow.Workers.{
  Pcq, push, cancel, Phase, checking, asleep, popped, executing, exited, Worker, turn, taken_by,
  World, start, after_attempt, got_from,
}
use mmo_wow.Workers.Steps.{
  worker, Step, spawn, push_quiet, push_waking, work, spurious, mark, close, Later, here, next,
  wait-closed, sleeping, tally-at,
}
use mmo_wow.Workers.Wakeup.{closed-awake}

-- the state that no step leaves, once the queue is shut down
record Shut (w u : World) : Type 0 where
  pub closed : u.queue.shutdown ≡ true
  pub frozen : u.taken ≡ w.taken

turn-closed :
    (p : Phase) (t : Bool) (q : Pcq)
    → q.shutdown ≡ true
    → ((turn t p q).1 ≡ q) × (taken_by p q ≡ [])
unfolding turn taken_by
turn-closed checking t q k =
    (ap (λ a. (after_attempt a q).1) (wait-closed q k), ap got_from (wait-closed q k))
turn-closed asleep t q k = (refl, refl)
turn-closed (popped got) t q k = (refl, refl)
turn-closed (executing op) t q k = (refl, refl)
turn-closed exited t q k = (refl, refl)

Step-Shut : {w u v : World} → Shut w u → Step u v → Shut w v
unfolding push cancel
Step-Shut i spawn = record { closed = i.closed; frozen = i.frozen }
Step-Shut i (push_quiet value e) = record { closed = i.closed; frozen = i.frozen }
Step-Shut i (push_waking value before t after e) = record { closed = i.closed; frozen = i.frozen }
Step-Shut {u = u} i (work before p t after e) =
    let c = turn-closed p t u.queue i.closed in
    record {
      closed = ap (λ (q : Pcq). q.shutdown) c.0 ∙ i.closed;
      frozen = ap (λ xs. u.taken ++ xs) c.1 ∙ append-nil u.taken ∙ i.frozen;
    }
Step-Shut i (spurious before t after e) = record { closed = i.closed; frozen = i.frozen }
Step-Shut i (mark before p t after e) = record { closed = i.closed; frozen = i.frozen }
Step-Shut i (close before p after e) = record { closed = refl; frozen = i.frozen }

Later-Shut : {w u : World} → w.queue.shutdown ≡ true → Later w u → Shut w u
Later-Shut k here = record { closed = k; frozen = refl }
Later-Shut k (next l s) = Step-Shut (Later-Shut k l) s

-- Once the queue is shut down it stays so, and no worker takes an operation out of it any more,
-- whatever is pushed and whichever workers are spawned.
pub closed-forever :
    {w u : World}
    → w.queue.shutdown ≡ true
    → Later w u
    → (u.queue.shutdown ≡ true) × (u.taken ≡ w.taken)
closed-forever k l = let i = Later-Shut k l in (i.closed, i.frozen)

-- turns of one worker, while the queue is left alone
unfoldable pub turns : ℕ → Bool → Phase → Pcq → Phase × Pcq
turns zero t p q = (p, q)
turns (suc n) t p q = turns n t (turn t p q).0 (turn t p q).1

turn-empty_handed : (t : Bool) (q : Pcq) → q.shutdown ≡ true → turn t checking q ≡ (popped none, q)
unfolding turn
turn-empty_handed t q k = ap (λ a. after_attempt a q) (wait-closed q k)

turns-exited : (n : ℕ) (t : Bool) (q : Pcq) → turns n t exited q ≡ (exited, q)
unfolding turns turn
turns-exited zero t q = refl
turns-exited (suc n) t q = turns-exited n t q

turns-checking :
    (n : ℕ) (t : Bool) (q : Pcq)
    → q.shutdown ≡ true
    → turns (suc (suc n)) t checking q ≡ (exited, q)
unfolding turns turn
turns-checking n t q k =
    ap (λ (c : Phase × Pcq). turns n t (turn t c.0 c.1).0 (turn t c.0 c.1).1)
      (turn-empty_handed t q k)
    ∙ turns-exited n t q

turns-closed :
    (t : Bool) (p : Phase) (q : Pcq)
    → q.shutdown ≡ true
    → sleeping p ≡ 0
    → turns 4 t p q ≡ (exited, q)
unfolding turns turn sleeping
turns-closed t checking q k h = turns-checking 2 t q k
turns-closed t asleep q k h = absurd (omega (arith, h))
turns-closed t (popped none) q k h = turns-exited 3 t q
turns-closed true (popped (some op)) q k h = turns-exited 3 true q
turns-closed false (popped (some op)) q k h = turns-checking 0 false q k
turns-closed t (executing op) q k h = turns-checking 1 t q k
turns-closed t exited q k h = turns-exited 3 t q

-- In a state that can be reached with the queue shut down, every worker is gone after four turns of
-- its own, and the queue is as it was: the `join` of its destructor returns.
pub join-returns :
    {w : World} (before : List Worker) (p : Phase) (t : Bool) (after : List Worker)
    → Later start w
    → w.queue.shutdown ≡ true
    → w.workers ≡ before ++ (worker p t ∷ after)
    → turns 4 t p w.queue ≡ (exited, w.queue)
unfolding sleeping
join-returns {w} before p t after l k e = turns-closed t p w.queue k (
    omega (
      arith,
      closed-awake l k,
      tally-at (λ s. sleeping s.phase) w.workers before (worker p t) after e,
    ))
