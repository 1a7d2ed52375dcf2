-- ===== src/Network.antt =====
-- Server/Shared/Networking/NetworkThread.h, SocketMgr.h and AsyncAcceptor.h: the threads that own
-- the sockets, and the acceptor that spreads new ones over them. The sockets are those of an
-- interface, which Socket.h fills.
pub mod Counted
pub mod Fewest
pub mod Server
pub mod Sound
pub mod Spread
pub mod Plain
use mmo_wow.Prelude.{
  ℕ, zero, suc, ◌+◌, ◌-◌, ◌%◌, ◌^◌, ◌≡◌, Bool, true, false, ◌&&◌, ◌||◌, not, List, [], ◌∷◌, ◌++◌,
  Option, none, some, Result, ok, err, assertion, require, ltb, ◌==◌, if◌then◌else◌, ◌>>=◌, ◌>>◌,
  length, u32,
}

-- What a thread asks of its sockets. What the operating system does for one `Update` is an `Env`.
pub record SocketType (S Env : Type 0) : Type 1 where
  pub is_open : S → Bool
  pub update : Env → S → Bool × S
  pub close_socket : S → S
  pub closes : (s : S) → is_open (close_socket s) ≡ false

-- an `int32` is its residue
abbrev pub increment : ℕ → ℕ
increment c = u32 (c + 1)

abbrev pub decrement : ℕ → ℕ
decrement c = u32 (c + 2 ^ 32 - 1)

-- `<` on `int32`
abbrev pub signed_lt : ℕ → ℕ → Bool
signed_lt a b = ltb (u32 (a + 2 ^ 31)) (u32 (b + 2 ^ 31))

-- The thread's fields; `dropped` records what `SocketRemoved` is called with, the latest first.
pub record NetworkThread (S : Type 0) : Type 0 where
  pub connections : ℕ
  pub stopped : Bool
  pub has_thread : Bool
  pub new_sockets : List S
  pub sockets : List S
  pub dropped : List S

module _ {S Env : Type 0} (socket : SocketType S Env) where
  unfoldable pub new_thread : NetworkThread S
  new_thread = record {
    connections = 0;
    stopped = false;
    has_thread = false;
    new_sockets = [];
    sockets = [];
    dropped = [];
  }

  -- `Start`, `Stop` and `Wait`
  unfoldable pub start : NetworkThread S → Bool × NetworkThread S
  start t = if t.has_thread then (false, t) else (true, record t { has_thread = true })

  unfoldable pub stop : NetworkThread S → NetworkThread S
  stop t = record t { stopped = true }

  unfoldable pub wait : NetworkThread S → Result (NetworkThread S)
  wait t = require t.has_thread assertion >> ok (record t { has_thread = false })

  unfoldable pub add_socket : S → NetworkThread S → NetworkThread S
  add_socket sock t = record t {
    connections = increment t.connections;
    new_sockets = t.new_sockets ++ (sock ∷ []);
  }

  -- the body of the loop of `AddNewSockets`, by the socket's `IsOpen()`
  unfoldable pub place_one : Bool → S → NetworkThread S → NetworkThread S
  place_one true sock t = record t { sockets = t.sockets ++ (sock ∷ []) }
  place_one false sock t = record t {
    connections = decrement t.connections;
    dropped = sock ∷ t.dropped;
  }

  -- the loop of `AddNewSockets`, whose first socket is handled first
  unfoldable pub place : List S → NetworkThread S → NetworkThread S
  place [] t = t
  place (sock ∷ rest) t = place rest (place_one (socket.is_open sock) sock t)

  -- `AddNewSockets`, on `_newSockets`
  unfoldable pub take_in : List S → NetworkThread S → NetworkThread S
  take_in [] t = t
  take_in (sock ∷ rest) t = record (place (sock ∷ rest) t) { new_sockets = [] }

  unfoldable pub add_new_sockets : NetworkThread S → NetworkThread S
  add_new_sockets t = take_in t.new_sockets t

  -- a socket that is done is closed
  abbrev pub close_if_open : S → S
  close_if_open sock = if socket.is_open sock then socket.close_socket sock else sock

  -- the predicate of `Update` on an updated socket: kept, or removed
  unfoldable pub sweep_one : Bool × S → NetworkThread S → NetworkThread S
  sweep_one (true, sock) t = record t { sockets = t.sockets ++ (sock ∷ []) }
  sweep_one (false, sock) t = record t {
    connections = decrement t.connections;
    dropped = close_if_open sock ∷ t.dropped;
  }

  -- `remove_if` and `erase`: each socket is updated, in order, and kept or removed
  unfoldable pub sweep : (ℕ → Env) → List S → NetworkThread S → NetworkThread S
  sweep env [] t = t
  sweep env (sock ∷ rest) t =
      sweep (λ i. env (suc i)) rest (sweep_one (socket.update (env 0) sock) t)

  unfoldable pub swept : (ℕ → Env) → NetworkThread S → NetworkThread S
  swept env t = sweep env t.sockets (record t { sockets = [] })

  unfoldable pub update : (ℕ → Env) → NetworkThread S → NetworkThread S
  update env t = if t.stopped then t else swept env (add_new_sockets t)

-- the loop of `SelectThreadWithMinConnections` from `i` on, by the counts of the threads
unfoldable pub select_from : (ℕ → ℕ) → ℕ → ℕ → ℕ → ℕ
select_from counts zero i min = min
select_from counts (suc n) i min =
    select_from counts n (suc i) (if signed_lt (counts i) (counts min) then i else min)

unfoldable pub select_thread_with_min_connections : (ℕ → ℕ) → ℕ → ℕ
select_thread_with_min_connections counts thread_count = select_from counts (thread_count - 1) 1 0

-- `AsyncAcceptor`: whether it is closed, and the thread for which an accept is under way
pub record Acceptor : Type 0 where
  pub closed : Bool
  pub armed : Option ℕ

-- `Bind`, by whether each call on the acceptor has an error
unfoldable pub bind : Bool → Bool → Bool → Bool → Bool
bind opened reuse bound listened =
    if opened
    then false
    else (if reuse then false else (if bound then false else (if listened then false else true)))

-- `created` is the length of the array `_threads`, which `CreateThreads` makes.
pub record SocketMgr (S : Type 0) : Type 0 where
  pub acceptor : Acceptor
  pub thread_count : ℕ
  pub created : ℕ
  pub threads : ℕ → NetworkThread S

-- what `async_accept` and `newSocket->Start()` come to: an error, an exception, or a socket
pub data Accepted (S : Type 0) : Type 0 where
  failed : Accepted S
  not_started : Accepted S
  started : S → Accepted S
