-- ===== src/Transaction/Retry.antt =====
-- A transaction that meets a deadlock is tried again, for a minute.
use mmo_wow.Prelude.{
  ℕ, zero, suc, ◌≡◌, ◌<◌, refl, sym, inl, inr, Bool, true, false, List, [], Option, some, leb, ◌==◌,
  if◌then◌else◌, arith, lt→leb, Bool-cases, both_branches,
}
use mathlib.Core.Path.{subst}
use mmo_wow.Transaction.{
  Element, Statement, Transaction, cleanup, deadlock, execute_transaction, retry, finish,
  finish_retry, task_execute,
}

module _ {C : Type 0} (execute : Statement → C → Bool × C) (get_last_error : C → ℕ) where
  -- When the clock is past a minute after `n` attempts more, the attempts end.
  retry-ends :
      (n : ℕ) (clock : ℕ → ℕ) (queries : List Element) (c : C)
      → 60000 < clock n
      → (r : Bool × C) × (retry execute get_last_error (suc n) clock queries c ≡ some r)
  unfolding retry
  retry-ends zero clock queries c h =
      let a = execute_transaction execute get_last_error queries c in
      elim (Bool-cases (a.0 == 0)) [
        | inl e ↦ ((true, a.1), ground (arith, e))
        | inr e ↦ ((false, a.1), ground (arith, e, lt→leb (clock 0) 60000 h))
      ]
  retry-ends (suc n) clock queries c h =
      let a = execute_transaction execute get_last_error queries c in
      let (r, f) = retry-ends n (λ k. clock (suc k)) queries a.1 h in
      elim (Bool-cases (a.0 == 0)) [
        | inl e ↦ ((true, a.1), ground (arith, e))
        | inr e ↦ elim (Bool-cases (leb (clock 0) 60000)) [
          | inl l ↦ (r, ground (arith, e, l, f))
          | inr l ↦ ((false, a.1), ground (arith, e, l))
        ]
      ]

  abbrev pub kept_or_cleaned : Bool → Transaction → Transaction
  kept_or_cleaned done t = if done then t else cleanup t

  -- what a task leaves of its transaction
  record Left (t : Transaction) (o : Option (Bool × Transaction × C)) : Type 0 where
    pub done : Bool
    pub connection : C
    pub result : o ≡ some (done, kept_or_cleaned done t, connection)

  finish-Left : (t : Transaction) (r : Bool × C) → Left t (some (finish execute get_last_error t r))
  finish-Left t (true, c) = record { done = true; connection = c; result = refl }
  finish-Left t (false, c) = record { done = false; connection = c; result = refl }

  task-Left :
      (n : ℕ) (clock : ℕ → ℕ) (t : Transaction) (c : C)
      → 60000 < clock n
      → Left t (task_execute execute get_last_error (suc n) clock t c)
  unfolding task_execute
  task-Left n clock t c h =
      let first = execute_transaction execute get_last_error t.queries c in
      let (r, e) = retry-ends n clock t.queries first.1 h in
      both_branches (Left t) (first.0 == 0) (some (true, t, first.1)) _
        (record { done = true; connection = first.1; result = refl })
        (both_branches (Left t) (first.0 == deadlock)
          (finish_retry execute get_last_error t
            (retry execute get_last_error (suc n) clock t.queries first.1))
          (some (finish execute get_last_error t (false, first.1)))
          (subst (λ o. Left t (finish_retry execute get_last_error t o)) (sym e) (finish-Left t r))
          (finish-Left t (false, first.1)))

  freed_once :
      (t : Transaction) (done : Bool)
      → t.cleaned_up ≡ false
      → t.freed ≡ []
      → (cleanup (kept_or_cleaned done t)).freed ≡ t.queries
  unfolding cleanup
  freed_once t true e f = ground (arith, e, f)
  freed_once t false e f = ground (arith, e, f)

  -- When the clock is past a minute after some number of attempts, `TransactionTask::Execute` ends:
  -- it reports success and leaves the transaction as it is, or failure and has cleaned it up. The
  -- destructor of the transaction then has freed each of its queries, once and in order.
  pub task-ends :
      (n : ℕ) (clock : ℕ → ℕ) (t : Transaction) (c : C)
      → 60000 < clock n
      → t.cleaned_up ≡ false
      → t.freed ≡ []
      → (done : Bool) × (d : C) × (task_execute execute get_last_error (suc n) clock t c
          ≡ some (done, kept_or_cleaned done t, d))
        × ((cleanup (kept_or_cleaned done t)).freed ≡ t.queries)
  task-ends n clock t c h e f =
      let l = task-Left n clock t c h in (l.done, l.connection, l.result, freed_once t l.done e f)
