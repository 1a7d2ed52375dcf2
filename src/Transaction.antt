-- ===== src/Transaction.antt =====
-- Server/database/Database/Transaction.cpp, with MySQLConnection::ExecuteTransaction of
-- MySQLConnection.cpp and DatabaseWorkerPool::DirectCommitTransaction: statements that are all done or
-- none, and what is tried again. The connection and the clock are parameters.
pub mod Bracket
pub mod Retry
use mmo_wow.Prelude.{
  ℕ, zero, suc, ◌+◌, ◌-◌, ◌^◌, ◌≡◌, Bool, true, false, not, List, [], ◌∷◌, ◌++◌, Option, none, some,
  leb, ◌==◌, if◌then◌else◌,
}

-- `SQLElementData`, by the pointer to its text or its prepared statement
pub data Element : Type 0 where
  raw : ℕ → Element
  prepared : ℕ → Element

-- what a connection is given to execute
pub data Statement : Type 0 where
  start_transaction : Statement
  commit : Statement
  rollback : Statement
  element : Element → Statement

-- `TransactionBase`, with what `Cleanup` freed
pub record Transaction : Type 0 where
  pub queries : List Element
  pub cleaned_up : Bool
  pub freed : List Element

unfoldable pub new_transaction : Transaction
new_transaction = record { queries = []; cleaned_up = false; freed = [] }

-- `Append` of a text and `AppendPreparedStatement`
unfoldable pub append : ℕ → Transaction → Transaction
append sql t = record t { queries = t.queries ++ (raw sql ∷ []) }

unfoldable pub append_prepared_statement : ℕ → Transaction → Transaction
append_prepared_statement stmt t = record t { queries = t.queries ++ (prepared stmt ∷ []) }

unfoldable pub cleanup : Transaction → Transaction
cleanup t =
    if t.cleaned_up
    then t
    else record { queries = []; cleaned_up = true; freed = t.freed ++ t.queries }

-- `ER_LOCK_DEADLOCK`, and -1 as an `int`
abbrev pub deadlock : ℕ
deadlock = 1213

abbrev pub minus_one : ℕ
minus_one = 2 ^ 32 - 1

-- A connection: what `Execute` of a statement returns, and `GetLastError`.
module _ {C : Type 0} (execute : Statement → C → Bool × C) (get_last_error : C → ℕ) where
  -- the loop of `ExecuteTransaction`, and `CommitTransaction` or `RollbackTransaction`
  unfoldable pub execute_each : List Element → C → ℕ × C
  execute_each [] c = (0, (execute commit c).1)
  execute_each (q ∷ rest) c = elim (execute (element q) c).0 [
    | true ↦ execute_each rest (execute (element q) c).1
    | false ↦
        (get_last_error (execute (element q) c).1, (execute rollback (execute (element q) c).1).1)
  ]

  unfoldable pub execute_transaction : List Element → C → ℕ × C
  execute_transaction [] c = (minus_one, c)
  execute_transaction (q ∷ rest) c = execute_each (q ∷ rest) (execute start_transaction c).1

  -- The loop on a deadlock, on fuel: an attempt, and another while `GetMSTimeDiffToNow` is not past
  -- a minute. `clock k` is that difference after `k` attempts more.
  unfoldable pub retry : ℕ → (ℕ → ℕ) → List Element → C → Option (Bool × C)
  retry zero clock queries c = none
  retry (suc fuel) clock queries c = elim ((execute_transaction queries c).0 == 0) [
    | true ↦ some (true, (execute_transaction queries c).1)
    | false ↦ elim (leb (clock 0) 60000) [
      | true ↦ retry fuel (λ k. clock (suc k)) queries (execute_transaction queries c).1
      | false ↦ some (false, (execute_transaction queries c).1)
    ]
  ]

  -- what `TransactionTask::Execute` leaves when the attempts are over
  abbrev pub finish : Transaction → Bool × C → Bool × Transaction × C
  finish t (true, c) = (true, t, c)
  finish t (false, c) = (false, cleanup t, c)

  abbrev pub finish_retry : Transaction → Option (Bool × C) → Option (Bool × Transaction × C)
  finish_retry t none = none
  finish_retry t (some r) = some (finish t r)

  -- `TransactionTask::Execute`. `TransactionWithResultTask` sets its promise to what it returns.
  unfoldable pub task_execute : ℕ → (ℕ → ℕ) → Transaction → C → Option (Bool × Transaction × C)
  task_execute fuel clock t c =
      let first = execute_transaction t.queries c in
      if first.0 == 0
      then some (true, t, first.1)
      else (if first.0 == deadlock
          then finish_retry t (retry fuel clock t.queries first.1)
          else some (finish t (false, first.1)))

  -- the loop of `DirectCommitTransaction`
  unfoldable pub direct_retry : ℕ → List Element → C → C
  direct_retry zero queries c = c
  direct_retry (suc n) queries c = elim ((execute_transaction queries c).0 == 0) [
    | true ↦ (execute_transaction queries c).1
    | false ↦ direct_retry n queries (execute_transaction queries c).1
  ]

  unfoldable pub direct_commit_transaction : Transaction → C → Transaction × C
  direct_commit_transaction t c =
      let first = execute_transaction t.queries c in
      if first.0 == 0
      then (t, first.1)
      else (if first.0 == deadlock
          then (cleanup t, direct_retry 5 t.queries first.1)
          else (cleanup t, first.1))
