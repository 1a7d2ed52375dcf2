-- ===== src/Network/Server.antt =====
-- The acceptor and the threads together: `SocketMgr`, and `AsyncAcceptWithCallback`.
use mmo_wow.Prelude.{
  ℕ, zero, suc, ◌≡◌, ◌<◌, Bool, true, false, not, none, some, Result, ok, assertion, out_of_bounds,
  require, ltb, if◌then◌else◌, ◌>>=◌, ◌>>◌, set,
}
use mmo_wow.Network.{
  SocketType, NetworkThread, new_thread, start, stop, wait, add_socket, update,
  select_thread_with_min_connections, SocketMgr, Accepted, failed, not_started, started,
}

-- the length of the array that `AuthSocketMgr::CreateThreads` makes
abbrev pub auth_create_threads : ℕ
auth_create_threads = 1

module _ {S Env : Type 0} (socket : SocketType S Env) where
  -- the `SocketMgr` before `StartNetwork`, with no acceptor and no thread
  unfoldable pub no_network : SocketMgr S
  no_network = record {
    acceptor = record { closed = true; armed = none };
    thread_count = 0;
    created = 0;
    threads = λ i. new_thread socket;
  }

  -- `GetSocketForAccept`
  unfoldable pub get_socket_for_accept : SocketMgr S → ℕ
  get_socket_for_accept m =
      select_thread_with_min_connections (λ i. (m.threads i).connections) m.thread_count

  -- `AsyncAcceptWithCallback` up to `async_accept`
  unfoldable pub async_accept : SocketMgr S → SocketMgr S
  async_accept m = record m {
    acceptor = record m.acceptor { armed = some (get_socket_for_accept m) };
  }

  -- `_acceptor`, `_threadCount` and `_threads`, an array of the length that `CreateThreads` chooses
  unfoldable pub with_threads : ℕ → ℕ → SocketMgr S
  with_threads created thread_count = record {
    acceptor = record { closed = false; armed = none };
    thread_count = thread_count;
    created = created;
    threads = λ i. new_thread socket;
  }

  -- the loop over `_threads[i].Start()`, from `i` on
  unfoldable pub start_each : ℕ → ℕ → SocketMgr S → Result (SocketMgr S)
  start_each zero i m = ok m
  start_each (suc n) i m = do
    require (ltb i m.created) out_of_bounds
    start_each n (suc i) (record m { threads = set m.threads i (start socket (m.threads i)).1 })

  -- `SocketMgr::StartNetwork`, by whether the acceptor is made and is bound, and by the length of
  -- the array that `CreateThreads` makes
  unfoldable pub start_network : Bool → Bool → ℕ → ℕ → SocketMgr S → Result (Bool × SocketMgr S)
  start_network made bound created thread_count m = do
    require (ltb 0 thread_count) assertion
    if not made
        then ok (false, m)
        else (if not bound
            then ok (false, m)
            else (start_each thread_count 0 (with_threads created thread_count) >>= λ u.
                ok (true, u)))

  abbrev pub accept_if : Bool × SocketMgr S → Bool × SocketMgr S
  accept_if (false, m) = (false, m)
  accept_if (true, m) = (true, async_accept m)

  -- `AuthSocketMgr::StartNetwork`, for any `CreateThreads`: the first accept
  unfoldable pub start_accepting : Bool → Bool → ℕ → ℕ → SocketMgr S → Result (Bool × SocketMgr S)
  start_accepting made bound created thread_count m =
      start_network made bound created thread_count m >>= λ x. ok (accept_if x)

  -- `OnSocketOpen`, on a socket whose start is done
  unfoldable pub on_socket_open : S → ℕ → SocketMgr S → SocketMgr S
  on_socket_open sock i m = record m {
    threads = set m.threads i (add_socket socket sock (m.threads i));
  }

  unfoldable pub accept_callback : Accepted S → ℕ → SocketMgr S → SocketMgr S
  accept_callback failed i m = m
  accept_callback not_started i m = m
  accept_callback (started sock) i m = on_socket_open sock i m

  -- `if (!_closed) AsyncAcceptWithCallback()`
  abbrev pub accept_again : Bool → SocketMgr S → SocketMgr S
  accept_again closed m =
      if not closed
      then async_accept m
      else record m { acceptor = record m.acceptor { armed = none } }

  -- the handler of `async_accept`
  unfoldable pub accepted : Accepted S → ℕ → SocketMgr S → SocketMgr S
  accepted outcome i m = accept_again m.acceptor.closed (accept_callback outcome i m)

  -- `StopNetwork` up to `Wait`
  unfoldable pub close_all : SocketMgr S → SocketMgr S
  close_all m = record m {
    acceptor = record m.acceptor { closed = true };
    threads = λ i. stop socket (m.threads i);
  }

  unfoldable pub wait_each : ℕ → ℕ → (ℕ → NetworkThread S) → Result (ℕ → NetworkThread S)
  wait_each zero i threads = ok threads
  wait_each (suc n) i threads =
      wait socket (threads i) >>= λ t. wait_each n (suc i) (set threads i t)

  unfoldable pub stop_network : SocketMgr S → Result (SocketMgr S)
  stop_network m = wait_each m.thread_count 0 (close_all m).threads >>= λ threads. ok no_network

  -- A network that is up: accepts end and threads update, in any order.
  pub data Up : SocketMgr S → Type 0 where
    opened :
        (made bound : Bool) (created thread_count : ℕ) (m : SocketMgr S) {u : SocketMgr S}
        → start_accepting made bound created thread_count m ≡ ok (true, u)
        → Up u
    accept_ends :
        {m : SocketMgr S} (outcome : Accepted S) (i : ℕ)
        → Up m
        → m.acceptor.armed ≡ some i
        → Up (accepted outcome i m)
    ticks :
        {m : SocketMgr S} (env : ℕ → Env) (i : ℕ)
        → Up m
        → i < m.thread_count
        → Up (record m { threads = set m.threads i (update socket env (m.threads i)) })
    halts : {m : SocketMgr S} → Up m → Up (close_all m)
