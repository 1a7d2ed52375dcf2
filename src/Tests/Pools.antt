-- ===== src/Tests/Pools.antt =====
-- Runs of the theorems on transactions, pools and the loader of the databases.
use mmo_wow.Prelude.{
  length, ok, ℕ, suc, arith, not, ◌==◌, ◌*◌, Bool, ◌≡◌, ◌<◌, refl, true, List, [], ◌∷◌, ◌++◌, some,
}
use mmo_wow.Workers.{World, start, tally}
use mmo_wow.Pool.{Server, Pool, new_pool, open_pool, opened_connection, get_free_connection}
use mmo_wow.Pool.Free.{get_free_connection-ends}
use mmo_wow.Pool.Reopen.{reopened-idle}
use mmo_wow.Pool.Loader.{
  Task, open_task, populate, update, prepare, Loader, new_loader, add_database, load, Loaded,
  load-Loaded,
}
use mmo_wow.Transaction.{
  Statement, start_transaction, Element, raw, prepared, Transaction, new_transaction, append,
  append_prepared_statement, cleanup, execute_transaction, execute_each, retry, task_execute,
}
use mmo_wow.Transaction.Bracket.{IsSent, noted, last_error, execute_transaction-IsSent}
use mmo_wow.Transaction.Retry.{kept_or_cleaned, task-ends}
use mmo_wow.Workers.Steps.{pushed, push_quiet, here, next}

-- A connection that counts what it executes, on which the second statement of a transaction fails.
abbrev second_fails : Statement → ℕ → Bool × ℕ
second_fails s n = (not (n == 2), suc n)

abbrev error_of : ℕ → ℕ
error_of n = 1213

abbrev two_queries : List Element
two_queries = raw 4 ∷ prepared 5 ∷ []

execute_transaction-IsSent_example :
    IsSent second_fails error_of two_queries ([] ++ (start_transaction ∷ [])) (
      execute_transaction
        (noted second_fails error_of)
        (last_error second_fails error_of)
        two_queries
        (0, []))
execute_transaction-IsSent_example =
    execute_transaction-IsSent second_fails error_of (raw 4) (prepared 5 ∷ []) 0 []

abbrev two_appended : Transaction
two_appended = append_prepared_statement 5 (append 4 new_transaction)

task-ends_example :
    (done : Bool) × (d : ℕ) × (task_execute second_fails error_of 2 (λ k. k * 70000) two_appended 0
      ≡ some (done, kept_or_cleaned second_fails error_of done two_appended, d))
    × ((cleanup (kept_or_cleaned second_fails error_of done two_appended)).freed
        ≡ two_appended.queries)
unfolding append append_prepared_statement new_transaction
task-ends_example =
    task-ends second_fails error_of 1 (λ k. k * 70000) two_appended 0 (omega arith) refl refl

-- the second attempt is not disturbed, and the task succeeds
two_attempts :
    task_execute second_fails error_of 2 (λ k. k * 70000) two_appended 0
    ≡ some (true, two_appended, 8)
unfolding task_execute retry execute_transaction execute_each append append_prepared_statement
    new_transaction
two_attempts = refl

-- a server that refuses every connection, and one that takes all
abbrev refusing : Server
refusing = record { error_of = λ i. 1049; is_supported = λ i. true }

abbrev taking : Server
taking = record { error_of = λ i. 0; is_supported = λ i. true }

abbrev configured_pool : Pool
configured_pool = record new_pool { async_threads = 1; synch_threads = 2 }

abbrev reopened_pool : Pool
reopened_pool = (open_pool taking taking (open_pool refusing taking configured_pool).1).1

abbrev idle_workers : World
idle_workers = record start { queue = reopened_pool.queue }

reopened-idle_example :
    ((open_pool refusing taking configured_pool).0 ≡ 1049)
    × ((open_pool taking taking (open_pool refusing taking configured_pool).1).0 ≡ 0)
    × ((pushed idle_workers 7 []).taken ≡ idle_workers.taken)
unfolding start tally
reopened-idle_example =
    reopened-idle refusing taking taking taking configured_pool idle_workers
      (pushed idle_workers 7 []) (omega arith) (omega arith) (λ i. refl) (λ i. refl) (λ i. refl)
      (λ i. refl) refl (next here (push_quiet 7 refl))

abbrev two_connections : Pool
two_connections = record new_pool { synch_connections = opened_connection ∷ opened_connection ∷ [] }

get_free_connection-ends_example :
    (c : ℕ) × (get_free_connection 255 (λ round j. j == 0) two_connections ≡ ok (some c))
    × (c < length two_connections.synch_connections)
get_free_connection-ends_example =
    get_free_connection-ends (λ round j. j == 0) two_connections 0 (omega arith) (omega arith)
      (λ round. refl)

-- the second of two databases cannot be opened
abbrev first_only : Task → Bool
first_only (open_task pool) = pool == 1
first_only (populate pool) = true
first_only (update pool) = true
first_only (prepare pool) = true

abbrev two_databases : Loader
two_databases = add_database true 2 (add_database true 1 new_loader)

load-Loaded_example :
    Loaded first_only two_databases
      (load first_only two_databases).0
      (load first_only two_databases).1
unfolding add_database new_loader
load-Loaded_example = load-Loaded first_only two_databases refl refl refl
