-- ===== src/Pool.antt =====
-- Server/database/Database/DatabaseWorkerPool.cpp and DatabaseLoader.cpp: the connections of a pool,
-- which share the queue of Workers, and the stages in which databases are opened, filled, updated and
-- prepared. What a connection reports when it is opened is a parameter.
pub mod Free
pub mod Reopen
pub mod Loader
use mmo_wow.Prelude.{
  ℕ, zero, suc, ◌+◌, ◌%◌, ◌≡◌, Bool, true, false, not, List, [], ◌∷◌, ◌++◌, Option, none, some,
  Result, ok, err, division_by_zero, ◌==◌, if◌then◌else◌, ◌>>=◌, length, u8, map,
}
use mmo_wow.Workers.{Pcq, empty_queue, cancel, push}

-- a connection of a pool, and whether its mutex is held
pub record Connection : Type 0 where
  pub locked : Bool

-- `DatabaseWorkerPool`
pub record Pool : Type 0 where
  pub queue : Pcq
  pub async_connections : List Connection
  pub synch_connections : List Connection
  pub async_threads : ℕ
  pub synch_threads : ℕ

unfoldable pub new_pool : Pool
new_pool = record {
  queue = empty_queue;
  async_connections = [];
  synch_connections = [];
  async_threads = 0;
  synch_threads = 0;
}

-- `SetConnectionInfo`
unfoldable pub set_connection_info : ℕ → ℕ → Pool → Pool
set_connection_info async synch p = record p { async_threads = async; synch_threads = synch }

-- the destruction of connections: one with a worker cancels the queue
unfoldable pub destroy_workers : List Connection → Pool → Pool
destroy_workers [] p = p
destroy_workers (c ∷ rest) p = destroy_workers rest (record p { queue = (cancel p.queue).1 })

abbrev pub opened_connection : Connection
opened_connection = record { locked = false }

-- What `Open` and the check of the version say of the connections, in the order of their creation:
-- an error, which is 0 for none, and whether the version is supported.
pub record Server : Type 0 where
  pub error_of : ℕ → ℕ
  pub is_supported : ℕ → Bool

abbrev pub later : Server → Server
later s = record { error_of = λ i. s.error_of (suc i); is_supported = λ i. s.is_supported (suc i) }

-- `_connections[IDX_ASYNC].clear()` with the connection that failed
unfoldable pub clear_async : Pool → Pool
clear_async p = record (destroy_workers p.async_connections p) { async_connections = [] }

-- `OpenConnections(IDX_ASYNC, n)`
unfoldable pub open_async : ℕ → Server → Pool → ℕ × Pool
open_async zero s p = (0, p)
open_async (suc n) s p = elim (s.error_of 0 == 0) [
  | false ↦ (s.error_of 0, destroy_workers (opened_connection ∷ []) (clear_async p))
  | true ↦ elim (s.is_supported 0) [
    | false ↦ (1, destroy_workers (opened_connection ∷ []) p)
    | true ↦
        open_async n (later s)
          (record p { async_connections = p.async_connections ++ (opened_connection ∷ []) })
  ]
]

-- `OpenConnections(IDX_SYNCH, n)`
unfoldable pub open_synch : ℕ → Server → Pool → ℕ × Pool
open_synch zero s p = (0, p)
open_synch (suc n) s p = elim (s.error_of 0 == 0) [
  | false ↦ (s.error_of 0, record p { synch_connections = [] })
  | true ↦ elim (s.is_supported 0) [
    | false ↦ (1, p)
    | true ↦
        open_synch n (later s)
          (record p { synch_connections = p.synch_connections ++ (opened_connection ∷ []) })
  ]
]

-- `Open`, on what the server says of the connections of each kind
unfoldable pub open_pool : Server → Server → Pool → ℕ × Pool
open_pool async synch p =
    if (open_async p.async_threads async p).0 == 0
    then open_synch p.synch_threads synch (open_async p.async_threads async p).1
    else open_async p.async_threads async p

-- `Close`
unfoldable pub close_pool : Pool → Pool
close_pool p = record (clear_async p) { synch_connections = [] }

-- `Enqueue`
unfoldable pub enqueue : ℕ → Pool → Pool
enqueue op p = record p { queue = push op p.queue }

-- `++i % num_cons`
unfoldable pub next_index : ℕ → ℕ → Result ℕ
next_index i zero = err division_by_zero
next_index i (suc n) = ok (i % suc n)

-- The loop of `GetFreeConnection` on fuel, by whether `LockIfReady` of a connection succeeds in a
-- round: the connection that is locked, or none when the fuel is used up.
unfoldable pub free_loop : ℕ → (ℕ → ℕ → Bool) → ℕ → ℕ → Result (Option ℕ)
free_loop zero ready i num_cons = ok none
free_loop (suc fuel) ready i num_cons = next_index (u8 (i + 1)) num_cons >>= λ k. elim (ready 0 k) [
  | true ↦ ok (some k)
  | false ↦ free_loop fuel (λ round. ready (suc round)) (u8 (i + 1)) num_cons
]

unfoldable pub get_free_connection : ℕ → (ℕ → ℕ → Bool) → Pool → Result (Option ℕ)
get_free_connection fuel ready p = free_loop fuel ready 0 (length p.synch_connections)
