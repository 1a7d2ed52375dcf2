-- ===== src/Socket.antt =====
-- Server/Shared/Networking/Socket.h without IOCP, the write side: the queue of packets and how it is
-- sent. What `write_some` does is an input, and the bytes that it took are kept in `wire`.
pub mod Stream
pub mod Events
pub mod Drain
use mmo_wow.Prelude.{
  ℕ, zero, suc, ◌+◌, Bool, true, false, not, ◌&&◌, ◌||◌, List, [], ◌∷◌, ◌++◌, take, ltb, ◌==◌,
  if◌then◌else◌, length,
}
use mmo_wow.MessageBuffer
use mmo_wow.MessageBuffer.{MessageBuffer}
use mmo_wow.MessageBuffer.Window.{active}

pub record Socket : Type 0 where
  pub queue : List MessageBuffer
  pub is_closed : Bool
  pub is_closing : Bool
  pub is_writing : Bool
  -- what was sent, and how often `shutdown` and `OnClose` were called
  pub wire : List ℕ
  pub closes : ℕ

-- what `write_some` reports: `would_block` or `try_again`, another error, or the bytes that it took
pub data Sent : Type 0 where
  would_block : Sent
  failed : Sent
  wrote : ℕ → Sent

abbrev pub is_empty {ℓ} : {A : Type ℓ} → List A → Bool
is_empty [] = true
is_empty (x ∷ xs) = false

-- `QueuePacket`
unfoldable pub queue_packet : MessageBuffer → Socket → Socket
queue_packet b s = record s { queue = s.queue ++ (b ∷ []) }

-- `CloseSocket`
unfoldable pub close_socket : Socket → Socket
close_socket s = if s.is_closed then s else record s { is_closed = true; closes = s.closes + 1 }

-- `DelayedCloseSocket`
unfoldable pub delayed_close_socket : Socket → Socket
delayed_close_socket s = record s { is_closing = true }

-- `AsyncProcessQueue`, which reports false
unfoldable pub async_process_queue : Socket → Bool × Socket
async_process_queue s = (false, if s.is_writing then s else record s { is_writing = true })

-- `if (_closing && _writeQueue.empty()) CloseSocket()`
unfoldable pub close_if_drained : Socket → Socket
unfolding close_socket
close_if_drained s = if s.is_closing && is_empty s.queue then close_socket s else s

-- `HandleQueue` on the front of the queue
unfoldable pub send_front : Sent → MessageBuffer → List MessageBuffer → Socket → Bool × Socket
unfolding async_process_queue close_if_drained
send_front would_block b rest s = async_process_queue s
send_front failed b rest s = (false, close_if_drained (record s { queue = rest }))
send_front (wrote n) b rest s =
    if n == 0
    then (false, close_if_drained (record s { queue = rest }))
    else if ltb n (MessageBuffer.active_size b)
    then async_process_queue (record s {
      queue = MessageBuffer.read_completed n b ∷ rest;
      wire = s.wire ++ take n (active b);
    })
    else (
      not (is_empty rest),
      close_if_drained (record s { queue = rest; wire = s.wire ++ take n (active b) }),
    )

-- `HandleQueue`
unfoldable pub handle_queue : Sent → Socket → Bool × Socket
unfolding send_front
handle_queue out s = elim s.queue [ [] ↦ (false, s) | b ∷ rest ↦ send_front out b rest s ]

-- `for (; HandleQueue();) ;` on fuel; `outs k` is what the `k`-th call of `write_some` does
unfoldable pub write_loop : ℕ → (ℕ → Sent) → ℕ → Socket → Socket
unfolding handle_queue
write_loop zero outs k s = s
write_loop (suc fuel) outs k s =
    let later = write_loop fuel outs (suc k) (handle_queue (outs k) s).1 in
    if (handle_queue (outs k) s).0 then later else (handle_queue (outs k) s).1

-- `Update`
unfoldable pub update : (ℕ → Sent) → Socket → Bool × Socket
unfolding write_loop
update outs s =
    if s.is_closed
    then (false, s)
    else if s.is_writing || is_empty s.queue && not s.is_closing
    then (true, s)
    else (true, write_loop (length s.queue) outs 0 s)

-- `WriteHandlerWrapper`
unfoldable pub write_handler : Sent → Socket → Socket
unfolding handle_queue
write_handler out s = (handle_queue out (record s { is_writing = false })).1
