-- ===== src/Socket/Stream.antt =====
-- The packets of a socket as one stream of bytes.
use mmo_wow.Prelude.{
  ℕ, zero, suc, ◌≡◌, ◌≤◌, ◌<◌, refl, sym, ap, ◌∙◌, inl, inr, Bool, true, false, not, ◌&&◌, ◌||◌,
  List, [], ◌∷◌, ◌++◌, take, ltb, if◌then◌else◌, length, arith, append_assoc, take_of_le,
  take_append_drop, length-drop, Bool-cases,
}
use mathlib.Core.Path.{subst}
use mmo_wow.MessageBuffer
use mmo_wow.MessageBuffer.{MessageBuffer}
use mmo_wow.MessageBuffer.Window.{active, IsValid, length-active, read_completed-active}
use mmo_wow.Socket.{
  is_empty, Socket, Sent, would_block, wrote, close_socket, async_process_queue, close_if_drained,
  send_front, handle_queue, write_loop, update, write_handler,
}

-- what waits to be sent
abbrev pub pending : List MessageBuffer → List ℕ
pending [] = []
pending (b ∷ bs) = active b ++ pending bs

-- a packet in the queue: well-formed, with bytes to send
pub record IsSound (b : MessageBuffer) : Type 0 where
  pub valid : IsValid b
  pub some_left : 0 < MessageBuffer.active_size b

abbrev pub AreSound : List MessageBuffer → Type 0
AreSound [] = true ≡ true
AreSound (b ∷ bs) = IsSound b × AreSound bs

-- the stream: what was sent and what waits, in order
abbrev pub stream : Socket → List ℕ
stream s = s.wire ++ pending s.queue

-- a report that takes bytes, or says to wait
pub data Takes : Sent → Type 0 where
  waits : Takes would_block
  takes : {n : ℕ} → 0 < n → Takes (wrote n)

pub close_if_drained-queue :
    (s : Socket) → ((close_if_drained s).queue ≡ s.queue) × ((close_if_drained s).wire ≡ s.wire)
unfolding close_if_drained close_socket
close_if_drained-queue s = ground arith

sent_part :
    (n : ℕ) (b : MessageBuffer) (rest : List MessageBuffer) (w : List ℕ)
    → IsSound b
    → n < MessageBuffer.active_size b
    → ((w ++ take n (active b)) ++ pending (MessageBuffer.read_completed n b ∷ rest)
        ≡ w ++ pending (b ∷ rest))
      × IsSound (MessageBuffer.read_completed n b)
sent_part n b rest w f h =
    let (v, e) = read_completed-active n f.valid (omega (arith, h)) in
    (
      append_assoc w (take n (active b)) _
          ∙ ap (λ xs. w ++ xs)
              (sym (
                  append_assoc (take n (active b)) (active (MessageBuffer.read_completed n b))
                    (pending rest))
                ∙ ap (λ xs. xs ++ pending rest)
                    (ap (λ xs. take n (active b) ++ xs) e ∙ take_append_drop n (active b))),
      record {
        valid = v;
        some_left =
            omega (
              arith,
              length-active v,
              length-active f.valid,
              ap length e,
              length-drop n (active b),
            );
      },
    )

sent_all :
    (n : ℕ) (b : MessageBuffer) (rest : List MessageBuffer) (w : List ℕ)
    → IsSound b
    → MessageBuffer.active_size b ≤ n
    → (w ++ take n (active b)) ++ pending rest ≡ w ++ pending (b ∷ rest)
sent_all n b rest w f h =
    append_assoc w (take n (active b)) (pending rest)
    ∙ ap (λ xs. w ++ (xs ++ pending rest))
        (take_of_le n (active b) (omega (arith, length-active f.valid)))

-- The stream is as it was, and the packets in the queue are sound.
abbrev pub Kept : Socket → Socket → Type 0
Kept s t = (stream t ≡ stream s) × AreSound t.queue

Kept-by :
    (s t : Socket) {q : List MessageBuffer} {w : List ℕ}
    → t.queue ≡ q
    → t.wire ≡ w
    → w ++ pending q ≡ stream s
    → AreSound q
    → Kept s t
Kept-by s t {w = w} e f g a = (
  ap (λ xs. xs ++ pending t.queue) f ∙ (ap (λ xs. w ++ pending xs) e ∙ g),
  subst AreSound (sym e) a,
)

send_front-Kept :
    (out : Sent) (b : MessageBuffer) (rest : List MessageBuffer) (s : Socket)
    → AreSound (b ∷ rest)
    → Takes out
    → Kept (record s { queue = b ∷ rest }) (send_front out b rest (record s { queue = b ∷ rest })).1
unfolding send_front async_process_queue
send_front-Kept out b rest s (f, a) waits =
    let u : Socket = record s { queue = b ∷ rest } in
    Kept-by u (send_front would_block b rest u).1 {q = b ∷ rest} {w = s.wire} (ground arith)
      (ground arith) refl (f, a)
send_front-Kept out b rest s (f, a) (takes {n} h) =
    let u : Socket = record s { queue = b ∷ rest } in
    let w : List ℕ = s.wire ++ take n (active b) in
    let t : Socket = (send_front (wrote n) b rest u).1 in
    elim (Bool-cases (ltb n (MessageBuffer.active_size b))) [
      | inl l ↦
          (let (e, g) = sent_part n b rest s.wire f (ground (arith, l)) in
            Kept-by u t {q = MessageBuffer.read_completed n b ∷ rest} {w = w} (ground (arith, l))
              (ground (arith, l)) e (g, a))
      | inr l ↦
          (let (e, g) = close_if_drained-queue (record s { queue = rest; wire = w }) in
            Kept-by u t {q = rest} {w = w} (ground (arith, l, e)) (ground (arith, l, g))
              (sent_all n b rest s.wire f (ground (arith, l))) a)
    ]

-- A call of `HandleQueue` that sends bytes, or is told to wait, keeps the stream.
pub handle_queue-Kept :
    (out : Sent) (s : Socket) → AreSound s.queue → Takes out → Kept s (handle_queue out s).1
unfolding handle_queue
handle_queue-Kept out s a h = go s.queue a
  where
    go :
        (q : List MessageBuffer)
        → AreSound q
        → Kept (record s { queue = q }) (handle_queue out (record s { queue = q })).1
    go [] a = (refl, a)
    go (b ∷ rest) a = send_front-Kept out b rest s a h

pub Kept-trans : (s t u : Socket) → Kept s t → Kept t u → Kept s u
Kept-trans s t u (e, _) (f, a) = (f ∙ e, a)

write_loop-Kept :
    (fuel : ℕ) (outs : ℕ → Sent) (k : ℕ) (s : Socket)
    → AreSound s.queue
    → ((j : ℕ) → Takes (outs j))
    → Kept s (write_loop fuel outs k s)
unfolding write_loop
write_loop-Kept zero outs k s a h = (refl, a)
write_loop-Kept (suc fuel) outs k s a h =
    go (handle_queue (outs k) s) (handle_queue-Kept (outs k) s a (h k))
      (write_loop-Kept fuel outs (suc k))
  where
    go :
        (r : Bool × Socket)
        → Kept s r.1
        → ((t : Socket)
            → AreSound t.queue
            → ((j : ℕ) → Takes (outs j))
            → Kept t (write_loop fuel outs (suc k) t))
        → Kept s (let later = write_loop fuel outs (suc k) r.1 in if r.0 then later else r.1)
    go (true, t) f ih = Kept-trans s t (write_loop fuel outs (suc k) t) f (ih t f.1 h)
    go (false, t) f ih = f

-- What an `Update` does whose writes take bytes or are told to wait: the stream of bytes stays.
pub update-Kept :
    (outs : ℕ → Sent) (s : Socket)
    → AreSound s.queue
    → ((j : ℕ) → Takes (outs j))
    → Kept s (update outs s).1
unfolding update
update-Kept outs s a h = go s.is_closed (s.is_writing || is_empty s.queue && not s.is_closing)
  where
    go :
        (x y : Bool)
        → Kept s
            (if◌then◌else◌ {A = Bool × Socket} x
              (false, s)
              (if y then (true, s) else (true, write_loop (length s.queue) outs 0 s))).1
    go true y = (refl, a)
    go false true = (refl, a)
    go false false = write_loop-Kept (length s.queue) outs 0 s a h

pub write_handler-Kept :
    (out : Sent) (s : Socket) → AreSound s.queue → Takes out → Kept s (write_handler out s)
unfolding write_handler
write_handler-Kept out s a h = handle_queue-Kept out (record s { is_writing = false }) a h

pub close_socket-Kept : (s : Socket) → AreSound s.queue → Kept s (close_socket s)
unfolding close_socket
close_socket-Kept s a =
    Kept-by s (close_socket s) {q = s.queue} {w = s.wire} (ground arith) (ground arith) refl a
