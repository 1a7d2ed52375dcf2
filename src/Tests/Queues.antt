-- ===== src/Tests/Queues.antt =====
-- Runs of the theorems on the write side of a socket and on the queue between threads.
use mmo_wow.Prelude.{
  ℕ, ◌≡◌, refl, ap, true, false, [], ◌∷◌, ◌++◌, none, some, ok, List, Option, arith,
}
use mmo_wow.MessageBuffer
use mmo_wow.MessageBuffer.{MessageBuffer}
use mmo_wow.MessageBuffer.Window.{active}
use mmo_wow.Socket.{Socket, wrote, is_empty, queue_packet, update}
use mmo_wow.Socket.Stream.{AreSound, stream, takes}
use mmo_wow.Socket.Events
use mmo_wow.Socket.Events.{Reach-stream}
use mmo_wow.Socket.Drain.{serve, serve-closed}
use mmo_wow.Mpsc.{
  Mpsc, initial, exchange_head, store_next, dequeue, start, Reach, here, next, begin, finish,
  take_out,
}
use mmo_wow.Mpsc
use mmo_wow.Mpsc.Fifo.{taken-prefix, dequeue-safe}

abbrev packet : MessageBuffer
packet = record { wpos = 3; rpos = 1; storage = 7 ∷ 8 ∷ 9 ∷ 0 ∷ [] }

abbrev idle_socket : Socket
idle_socket = record {
  queue = [];
  is_closed = false;
  is_closing = false;
  is_writing = false;
  wire = [];
  closes = 0;
}

abbrev busy_socket : Socket
busy_socket = record idle_socket { queue = packet ∷ []; is_closing = true }

packet-AreSound : AreSound (packet ∷ [])
unfolding MessageBuffer.active_size
packet-AreSound = (
  record {
    valid = record { read_le = omega arith; write_le = omega arith; small = omega arith };
    some_left = omega arith;
  },
  refl,
)

Reach-stream_example :
    (stream (update (λ j. wrote 1) (queue_packet packet idle_socket)).1
      ≡ [] ++ ((([] ++ []) ++ active packet) ++ []))
    × AreSound (update (λ j. wrote 1) (queue_packet packet idle_socket)).1.queue
Reach-stream_example = Reach-stream {s = idle_socket} refl (
    Events.next (Events.next Events.here (Events.push packet packet-AreSound.0 refl))
      (Events.turn (λ j. wrote 1) (λ j. takes (omega arith)) refl))

serve-closed_example :
    ((serve (1 ∷ 1 ∷ []) busy_socket).queue ≡ [])
    × ((serve (1 ∷ 1 ∷ []) busy_socket).is_closed ≡ true)
serve-closed_example =
    serve-closed (1 ∷ 1 ∷ []) busy_socket packet-AreSound
      (λ e. absurd (ground (arith, ap is_empty e))) refl (omega arith, (omega arith, refl))
      (omega arith)

-- Thread 4 has put in 50, and thread 2 has exchanged the head for 60.
abbrev after_begin : Mpsc.World
after_begin = record start {
  queue = (exchange_head 50 start.queue).1;
  threads = Mpsc.set start.threads 4 (some (0, 1));
  given = 50 ∷ [];
}

abbrev linked_heap : ℕ → Option Mpsc.Node
linked_heap = Mpsc.set after_begin.queue.heap 0 (some (record { data_of = 0; next_of = some 1 }))

abbrev linked_queue : Mpsc
linked_queue = record after_begin.queue { heap = linked_heap }

after_begin-Reach : Reach after_begin
unfolding start exchange_head initial
after_begin-Reach = next here (begin 4 50 refl)

store-linked : store_next (0, 1) after_begin.queue ≡ ok linked_queue
unfolding store_next start exchange_head initial
store-linked = refl

abbrev after_finish : Mpsc.World
after_finish = record after_begin {
  queue = linked_queue;
  threads = Mpsc.set after_begin.threads 4 none;
}

after_finish-Reach : Reach after_finish
after_finish-Reach = next after_begin-Reach (finish 4 (0, 1) linked_queue refl store-linked)

taken-prefix_example : (rest : List ℕ) × (after_finish.given ≡ after_finish.taken ++ rest)
taken-prefix_example = taken-prefix after_finish-Reach

dequeue-safe_example : (r : Option ℕ × Mpsc) × (dequeue linked_queue ≡ ok r)
dequeue-safe_example = dequeue-safe after_finish-Reach

no_threads : (t : ℕ) → after_finish.threads t ≡ none
unfolding start
no_threads t = ground arith
