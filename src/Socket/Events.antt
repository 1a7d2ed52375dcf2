-- ===== src/Socket/Events.antt =====
-- The events of a socket, and the stream along them.
use mmo_wow.Prelude.{
  ℕ, ◌≡◌, refl, sym, ap, ◌∙◌, true, List, [], ◌∷◌, ◌++◌, append_assoc, append-nil,
}
use mathlib.Core.Path.{subst}
use mmo_wow.Socket.Stream.{
  pending, IsSound, AreSound, stream, Takes, update-Kept, write_handler-Kept, close_socket-Kept,
}
use mmo_wow.MessageBuffer.{MessageBuffer}
use mmo_wow.MessageBuffer.Window.{active}
use mmo_wow.Socket.{
  Socket, Sent, queue_packet, delayed_close_socket, close_socket, update, write_handler,
}

-- An event of a socket whose writes take bytes or are told to wait, and the bytes that it queues.
pub data Step (s t : Socket) : List ℕ → Type 0 where
  push : (b : MessageBuffer) → IsSound b → t ≡ queue_packet b s → Step s t (active b)
  turn : (outs : ℕ → Sent) → ((j : ℕ) → Takes (outs j)) → t ≡ (update outs s).1 → Step s t []
  writable : (out : Sent) → Takes out → s.is_writing ≡ true → t ≡ write_handler out s → Step s t []
  close_later : t ≡ delayed_close_socket s → Step s t []
  close_now : t ≡ close_socket s → Step s t []

-- what is reached, with all the bytes that were queued on the way, in order
pub data Reach (s : Socket) : Socket → List ℕ → Type 0 where
  here : Reach s s []
  next : {t u : Socket} {xs ys : List ℕ} → Reach s t xs → Step t u ys → Reach s u (xs ++ ys)

pending_append : (xs ys : List MessageBuffer) → pending (xs ++ ys) ≡ pending xs ++ pending ys
pending_append [] ys = refl
pending_append (x ∷ xs) ys =
    ap (λ zs. active x ++ zs) (pending_append xs ys)
    ∙ sym (append_assoc (active x) (pending xs) (pending ys))

AreSound-append : (xs ys : List MessageBuffer) → AreSound xs → AreSound ys → AreSound (xs ++ ys)
AreSound-append [] ys a b = b
AreSound-append (x ∷ xs) ys (f, a) b = (f, AreSound-append xs ys a b)

-- One event: the stream grows by what is queued.
Step-stream :
    {s t : Socket} {xs : List ℕ}
    → AreSound s.queue
    → Step s t xs
    → (stream t ≡ stream s ++ xs) × AreSound t.queue
unfolding queue_packet delayed_close_socket close_socket
Step-stream {s} {t} a (push b f e) = (
  ap stream e
      ∙ ap (λ ys. s.wire ++ ys) (pending_append s.queue (b ∷ []))
      ∙ sym (append_assoc s.wire (pending s.queue) (active b ++ []))
      ∙ ap (λ ys. stream s ++ ys) (append-nil (active b)),
  subst (λ (u : Socket). AreSound u.queue) (sym e) (AreSound-append s.queue (b ∷ []) a (f, refl)),
)
Step-stream {s} {t} a (turn outs h e) =
    let (f, g) = update-Kept outs s a h in
    (
      ap stream e ∙ (f ∙ sym (append-nil (stream s))),
      subst (λ (u : Socket). AreSound u.queue) (sym e) g,
    )
Step-stream {s} {t} a (writable out h _ e) =
    let (f, g) = write_handler-Kept out s a h in
    (
      ap stream e ∙ (f ∙ sym (append-nil (stream s))),
      subst (λ (u : Socket). AreSound u.queue) (sym e) g,
    )
Step-stream {s} {t} a (close_later e) =
    (ap stream e ∙ sym (append-nil (stream s)), subst (λ (u : Socket). AreSound u.queue) (sym e) a)
Step-stream {s} {t} a (close_now e) =
    let (f, g) = close_socket-Kept s a in
    (
      ap stream e ∙ (f ∙ sym (append-nil (stream s))),
      subst (λ (u : Socket). AreSound u.queue) (sym e) g,
    )

-- Along all events whose writes take bytes or are told to wait, what was sent and what waits is
-- together the stream from before with the bytes that were queued since, in the order of queueing:
-- none is lost, doubled or out of place.
pub Reach-stream :
    {s t : Socket} {xs : List ℕ}
    → AreSound s.queue
    → Reach s t xs
    → (stream t ≡ stream s ++ xs) × AreSound t.queue
Reach-stream {s} a here = (sym (append-nil (stream s)), a)
Reach-stream {s} a (next {xs = xs} {ys = ys} r st) =
    let (e, b) = Reach-stream a r in
    let (f, c) = Step-stream b st in
    (f ∙ (ap (λ zs. zs ++ ys) e ∙ append_assoc (stream s) xs ys), c)
