-- ===== src/Network/Plain.antt =====
-- The sockets of Server/Shared/Networking/Socket.h as those of the network threads.
use mmo_wow.Prelude.{ℕ, ◌≡◌, arith, Bool, false, ◌&&◌, not}
use mmo_wow.Socket.{Socket, Sent, close_socket}
use mmo_wow.Socket
use mmo_wow.Network.{SocketType}

-- `IsOpen`
unfoldable pub is_open : Socket → Bool
is_open s = not s.is_closed && not s.is_closing

pub close_socket-shut : (s : Socket) → is_open (close_socket s) ≡ false
unfolding is_open close_socket
close_socket-shut s = ground arith

unfoldable pub plain_socket : SocketType Socket (ℕ → Sent)
plain_socket = record {
  is_open = is_open;
  update = Socket.update;
  close_socket = close_socket;
  closes = close_socket-shut;
}
