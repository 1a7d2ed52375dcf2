-- ===== src/Socket/Drain.antt =====
-- How the queue of a socket runs empty, and when the socket is closed for it.
use mmo_wow.Prelude.{
  ℕ, zero, suc, ◌≡◌, ◌≢◌, ◌≤◌, ◌<◌, refl, ap, ◌⊎◌, inl, inr, true, false, List, [], ◌∷◌, ◌++◌, take,
  length, List-cases, arith, Bool-cases, length-append, length-take,
}
use mathlib.Core.Path.{subst}
use mmo_wow.MessageBuffer.{MessageBuffer}
use mmo_wow.MessageBuffer.Window.{active, length-active}
use mmo_wow.Socket.{
  is_empty, Socket, Sent, would_block, failed, wrote, delayed_close_socket, close_socket,
  async_process_queue, close_if_drained, send_front, handle_queue, write_loop, update,
}
use mmo_wow.Socket.Stream.{pending, AreSound, takes, handle_queue-Kept, close_if_drained-queue}

-- calls of `HandleQueue` of which each takes the next number of bytes
abbrev pub serve : List ℕ → Socket → Socket
serve [] s = s
serve (n ∷ ns) s = serve ns (handle_queue (wrote n) s).1

abbrev pub ArePositive : List ℕ → Type 0
ArePositive [] = true ≡ true
ArePositive (n ∷ ns) = (0 < n) × ArePositive ns

close_if_drained-flags :
    (s : Socket)
    → ((close_if_drained s).is_closing ≡ s.is_closing) × ((close_if_drained s).wire ≡ s.wire)
unfolding close_if_drained close_socket
close_if_drained-flags s = ground arith

handle_queue-wire :
    (n : ℕ) (s : Socket) (b : MessageBuffer) (rest : List MessageBuffer)
    → s.queue ≡ b ∷ rest
    → 0 < n
    → (handle_queue (wrote n) s).1.wire ≡ s.wire ++ take n (active b)
unfolding handle_queue send_front async_process_queue
handle_queue-wire n s b rest q h = ground (
  arith,
  q,
  close_if_drained-flags (record s { queue = rest; wire = s.wire ++ take n (active b) }),
)

-- Each call shortens what waits.
handle_queue-shortens :
    (n : ℕ) (s : Socket) (b : MessageBuffer) (rest : List MessageBuffer)
    → s.queue ≡ b ∷ rest
    → AreSound s.queue
    → 0 < n
    → length (pending (handle_queue (wrote n) s).1.queue) < length (pending s.queue)
handle_queue-shortens n s b rest q a h =
    let t : Socket = (handle_queue (wrote n) s).1 in
    let (e, _) = handle_queue-Kept (wrote n) s a (takes h) in
    let (f, _) : AreSound (b ∷ rest) = subst AreSound q a in
    omega (
      arith,
      ap length e,
      length-append t.wire (pending t.queue),
      length-append s.wire (pending s.queue),
      ap length (handle_queue-wire n s b rest q h),
      length-append s.wire (take n (active b)),
      length-take n (active b),
      length-active f.valid,
      f.some_left,
    )

pending-none : (q : List MessageBuffer) → AreSound q → length (pending q) ≤ 0 → q ≡ []
pending-none [] a h = refl
pending-none (b ∷ bs) (f, a) h =
    absurd
      (omega (arith, length-append (active b) (pending bs), length-active f.valid, f.some_left, h))

serve-none : (ns : List ℕ) (s : Socket) → s.queue ≡ [] → (serve ns s).queue ≡ []
unfolding handle_queue
serve-none [] s h = h
serve-none (n ∷ ns) s h = serve-none ns (handle_queue (wrote n) s).1 (ground (arith, h))

-- With as many calls as bytes wait, of which each takes at least one byte, all is sent.
pub serve-empties :
    (ns : List ℕ) (s : Socket)
    → AreSound s.queue
    → ArePositive ns
    → length (pending s.queue) ≤ length ns
    → (serve ns s).queue ≡ []
serve-empties [] s a p h = pending-none s.queue a h
serve-empties (n ∷ ns) s a (p, ps) h = elim (List-cases s.queue) [
  | inl q ↦ serve-none (n ∷ ns) s q
  | inr (b, rest, q) ↦
      serve-empties ns (handle_queue (wrote n) s).1 (handle_queue-Kept (wrote n) s a (takes p)).1 ps
        (omega (arith, handle_queue-shortens n s b rest q a p, h))
]

-- A socket that is closing has something to send, or is closed.
abbrev pub Closes : Socket → Type 0
Closes s = (s.is_closing ≡ true) × ((is_empty s.queue ≡ false) ⊎ (s.is_closed ≡ true))

handle_queue-Closes : (n : ℕ) (s : Socket) → Closes s → Closes (handle_queue (wrote n) s).1
unfolding handle_queue send_front async_process_queue close_if_drained close_socket
handle_queue-Closes n s c = go s.queue c
  where
    go :
        (q : List MessageBuffer)
        → Closes (record s { queue = q })
        → Closes (handle_queue (wrote n) (record s { queue = q })).1
    go [] c = c
    go (b ∷ []) c = ground arith
    go (b ∷ x ∷ xs) c = ground arith

serve-Closes : (ns : List ℕ) (s : Socket) → Closes s → Closes (serve ns s)
serve-Closes [] s c = c
serve-Closes (n ∷ ns) s c = serve-Closes ns (handle_queue (wrote n) s).1 (handle_queue-Closes n s c)

-- A socket with sound packets in its queue that is to be closed once they are sent is closed, with
-- an empty queue, after as many calls of `HandleQueue` as bytes wait, of which each takes some.
pub serve-closed :
    (ns : List ℕ) (s : Socket)
    → AreSound s.queue
    → s.queue ≢ []
    → s.is_closing ≡ true
    → ArePositive ns
    → length (pending s.queue) ≤ length ns
    → ((serve ns s).queue ≡ []) × ((serve ns s).is_closed ≡ true)
serve-closed ns s a ne c p h =
    let e = serve-empties ns s a p h in
    let d = serve-Closes ns s (c, inl (ground (arith, ne, List-cases s.queue))) in
    (e, ground (arith, d, e))

-- A socket that is told to close after its queue is sent, while that is empty, is not closed by any
-- `Update`.
pub update-idle :
    (outs : ℕ → Sent) (s : Socket)
    → s.queue ≡ []
    → s.is_closed ≡ false
    → update outs (delayed_close_socket s) ≡ (true, delayed_close_socket s)
unfolding update delayed_close_socket write_loop
update-idle outs s q c = ground (arith, q, c)

handle_queue-pops :
    (out : Sent) (s : Socket)
    → (handle_queue out s).0 ≡ true
    → length (handle_queue out s).1.queue < length s.queue
unfolding handle_queue send_front async_process_queue
handle_queue-pops out s h = go out s.queue h
  where
    go :
        (out : Sent) (q : List MessageBuffer)
        → (handle_queue out (record s { queue = q })).0 ≡ true
        → length (handle_queue out (record s { queue = q })).1.queue < length q
    go out [] h = ground arith
    go would_block (b ∷ rest) h = ground arith
    go failed (b ∷ rest) h = ground arith
    go (wrote n) (b ∷ rest) h = ground (
      arith,
      close_if_drained-queue (record s { queue = rest; wire = s.wire ++ take n (active b) }),
    )

-- The loop of `Update` ends by itself within as many calls as there are packets: more fuel changes
-- nothing.
pub write_loop-enough :
    (n m : ℕ) (outs : ℕ → Sent) (k : ℕ) (s : Socket)
    → length s.queue ≤ n
    → n ≤ m
    → write_loop m outs k s ≡ write_loop n outs k s
unfolding write_loop handle_queue
write_loop-enough zero zero outs k s h l = refl
write_loop-enough zero (suc m) outs k s h l = elim (List-cases s.queue) [
  | inl q ↦ ground (arith, q)
  | inr (b, rest, q) ↦ absurd (omega (arith, h, ap length q))
]
write_loop-enough (suc n) zero outs k s h l = absurd (omega arith)
write_loop-enough (suc n) (suc m) outs k s h l =
    let t : Socket = (handle_queue (outs k) s).1 in
    elim (Bool-cases (handle_queue (outs k) s).0) [
      | inr e ↦ ground (arith, e)
      | inl e ↦
          (let i =
              write_loop-enough n m outs (suc k) t
                (omega (arith, handle_queue-pops (outs k) s e, h)) (omega arith) in
            ground (arith, e, i))
    ]
