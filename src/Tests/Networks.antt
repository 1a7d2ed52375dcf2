-- ===== src/Tests/Networks.antt =====
-- Runs of the theorems on the network threads.
use mmo_wow.Prelude.{
  ℕ, zero, suc, ◌+◌, ◌^◌, ◌≡◌, ◌<◌, refl, Bool, true, false, [], some, Result, ok, err,
  out_of_bounds, arith, length, u32,
}
use mmo_wow.Socket.{Socket}
use mmo_wow.Network.{
  SocketMgr, started, new_thread, add_socket, start, select_thread_with_min_connections,
  select_from,
}
use mmo_wow.Network.Counted.{AreShut}
use mmo_wow.Network.Server.{
  Up, opened, accept_ends, start_network, start_each, start_accepting, with_threads,
  auth_create_threads, async_accept, accepted, no_network, get_socket_for_accept, accept_callback,
  on_socket_open,
}
use mmo_wow.Network.Spread.{Up-counted, AwaitsThread, held, Spread, fewest-selected}
use mmo_wow.Network.Plain.{plain_socket}

abbrev fresh_socket : Socket
fresh_socket = record {
  queue = [];
  is_closed = false;
  is_closing = false;
  is_writing = false;
  wire = [];
  closes = 0;
}

-- two threads, of which the first gets a socket
after_start : Result (Bool × SocketMgr Socket) → SocketMgr Socket
after_start (ok (b, m)) = m
after_start (err e) = no_network plain_socket

two_threads : SocketMgr Socket
unfolding after_start start_accepting
two_threads = after_start (start_accepting plain_socket true true 2 2 (no_network plain_socket))

two_threads-Up : Up plain_socket two_threads
unfolding start_accepting start_network start_each with_threads two_threads
two_threads-Up = opened true true 2 2 (no_network plain_socket) refl

-- `AuthSocketMgr` makes one thread, and starts two when it is told to.
auth_two :
    start_accepting plain_socket true true auth_create_threads 2 (no_network plain_socket)
    ≡ err out_of_bounds
unfolding start_accepting start_network start_each with_threads
auth_two = refl

abbrev one_socket : SocketMgr Socket
one_socket = accepted plain_socket (started fresh_socket) 0 two_threads

two_threads-armed : two_threads.acceptor.armed ≡ some 0
unfolding start_accepting start_network start_each with_threads two_threads async_accept
    get_socket_for_accept select_thread_with_min_connections select_from new_thread start
two_threads-armed = refl

two_threads-open : two_threads.acceptor.closed ≡ false
unfolding start_accepting start_network start_each with_threads two_threads async_accept
two_threads-open = refl

one_socket-Up : Up plain_socket one_socket
one_socket-Up = accept_ends (started fresh_socket) 0 two_threads-Up two_threads-armed

Up-counted_example :
    ((one_socket.threads 0).connections
      ≡ u32 (length (one_socket.threads 0).new_sockets + length (one_socket.threads 0).sockets))
    × AreShut plain_socket (one_socket.threads 0).dropped
    × AwaitsThread plain_socket one_socket
Up-counted_example = Up-counted plain_socket 0 one_socket-Up

few : (i : ℕ) → held plain_socket (one_socket.threads i) < 2 ^ 31
unfolding accepted async_accept accept_callback on_socket_open start_accepting start_network
    start_each with_threads two_threads after_start new_thread start add_socket
few zero = omega arith
few (suc zero) = omega arith
few (suc (suc i)) = grind arith

fewest-selected_example :
    (k : ℕ) × Spread plain_socket (started fresh_socket) 0 two_threads one_socket k
fewest-selected_example =
    fewest-selected plain_socket (started fresh_socket) 0 two_threads-Up two_threads-armed
      two_threads-open few
