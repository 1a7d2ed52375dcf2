-- ===== src/ByteBuffer/Stream.antt =====
-- A packet being written is a list of bytes that grows at its end, and one being read a list that
-- shrinks at its front.
use mmo_wow.Prelude.{
  ℕ, ◌+◌, ◌^◌, ◌≤◌, ◌<◌, ◌≡◌, refl, sym, ap, ◌∙◌, false, List, [], ◌++◌, ok, err, position,
  assertion, ◌⊎◌, drop-append_left, arith, length, take, drop, resize, read_at, write_at,
  length-append, length-drop, length-resize, take-append, drop-append, take-resize, drop_of_le,
  take_of_le, drop-drop, append-nil,
}
use mmo_wow.Prelude.Bytes.{of_bytes, to_bytes, length-to_bytes, of_bytes-to_bytes}
use mmo_wow.ByteBuffer.{ByteBuffer, empty, max_size, append, append_value, read_value}

-- Everything is written at the end, and the read position is inside.
pub record IsStream (b : ByteBuffer) : Type 0 where
  pub at_end : b.wpos ≡ length b.storage
  pub inside : b.rpos ≤ length b.storage
  pub small : length b.storage < 2 ^ 62

-- the bytes that are not read yet
abbrev pub unread : ByteBuffer → List ℕ
unread b = drop b.rpos b.storage

pub empty-IsStream : IsStream empty
empty-IsStream = omega arith

grown_and_filled :
    (w n : ℕ) (st src : List ℕ)
    → w ≡ length st
    → n ≡ length st + length src
    → take w (resize n 0 st) ++ (src ++ drop n (resize n 0 st)) ≡ st ++ src
grown_and_filled w n st src e f =
    rw
      (
        take-resize w n 0 st (omega arith) (omega arith),
        take_of_le w st (omega arith),
        drop_of_le n (resize n 0 st) (omega (arith, length-resize n 0 st)),
      )
      (ap (λ ys. st ++ ys) (append-nil src))

pub appended : ByteBuffer → List ℕ → ByteBuffer
appended b src = record {
  rpos = b.rpos;
  wpos = length b.storage + length src;
  storage = b.storage ++ src;
}

-- `append` of some bytes to a packet below the limit adds them at its end.
pub append-eq :
    {b : ByteBuffer} (src : List ℕ)
    → IsStream b
    → 0 < length src
    → length src < 2 ^ 61
    → length b.storage < max_size
    → append b src ≡ ok (appended b src)
unfolding append appended write_at
append-eq {b} src s pos short room = ground (
  arith,
  grown_and_filled b.wpos (b.wpos + length src) b.storage src s.at_end (omega arith),
  length-resize (b.wpos + length src) 0 b.storage,
)

pub appended-IsStream :
    {b : ByteBuffer} (src : List ℕ)
    → IsStream b
    → length src < 2 ^ 61
    → length b.storage < max_size
    → IsStream (appended b src)
unfolding appended
appended-IsStream {b} src s short room = omega (arith, length-append b.storage src)

-- What is appended stands behind all that was unread.
pub unread-appended :
    {b : ByteBuffer} (src : List ℕ) → IsStream b → unread (appended b src) ≡ unread b ++ src
unfolding appended
unread-appended {b} src s = drop-append_left b.rpos b.storage src s.inside

-- Past the limit `append` fails its ASSERT, as it does for no bytes at all.
pub append_limit :
    (b : ByteBuffer) (src : List ℕ)
    → (length src ≡ 0) ⊎ (max_size ≤ length b.storage)
    → append b src ≡ err assertion
unfolding append
append_limit b src h = ground arith

pub skipped : ByteBuffer → ℕ → ByteBuffer
skipped b n = record b { rpos = b.rpos + n }

-- With `w` bytes and more unread, `read<T>` takes the first `w` and moves past them.
pub read_value-eq :
    {b : ByteBuffer} (w : ℕ) (xs rest : List ℕ)
    → IsStream b
    → unread b ≡ xs ++ rest
    → length xs ≡ w
    → (read_value b w ≡ ok (of_bytes xs, skipped b w))
      × IsStream (skipped b w)
      × (unread (skipped b w) ≡ rest)
unfolding read_value read_at skipped
read_value-eq {b} w xs rest s e len = (
  ground (arith, fits, window, s.inside, s.small),
  omega (arith, fits),
  sym (drop-drop w b.rpos _ b.storage refl) ∙ ap (drop w) e ∙ drop-append w xs rest (sym len),
)
  where
    fits : b.rpos + w ≤ length b.storage
    fits = omega (arith, ap length e, length-append xs rest, length-drop b.rpos b.storage)

    window : take w (drop b.rpos b.storage) ≡ xs
    window = ap (take w) e ∙ take-append w xs rest (sym len)

-- With fewer than `w` bytes unread, `read<T>` throws and moves nothing. The exception is built
-- with the size of the value and the size of the buffer in exchanged places: its third argument,
-- which is named `size`, is `w`.
pub read_value_short :
    {b : ByteBuffer} (w : ℕ)
    → IsStream b
    → w < 2 ^ 63
    → length (unread b) < w
    → read_value b w ≡ err (position false b.rpos w (length b.storage))
unfolding read_value
read_value_short {b} w s small h = ground (arith, length-drop b.rpos b.storage, s.inside, s.small)

-- A number that is appended to a packet whose bytes are all read is the next to be read.
pub append_value_then_read :
    {b : ByteBuffer} (w n : ℕ)
    → IsStream b
    → unread b ≡ []
    → 0 < w
    → w < 2 ^ 61
    → n < 256 ^ w
    → length b.storage < max_size
    → (b' : ByteBuffer) × (append_value b w n ≡ ok b')
      × (read_value b' w ≡ ok (n, skipped b' w))
      × (unread (skipped b' w) ≡ [])
unfolding append_value
append_value_then_read {b} w n s e pos short fits room =
    let l = length-to_bytes w n in
    let (r, _, u) =
      read_value-eq {b = appended b (to_bytes w n)} w (to_bytes w n) []
        (appended-IsStream (to_bytes w n) s (omega (arith, l)) room)
        (unread-appended (to_bytes w n) s
          ∙ (ap (λ xs. xs ++ to_bytes w n) e ∙ sym (append-nil (to_bytes w n))))
        l in
    (
      appended b (to_bytes w n),
      append-eq (to_bytes w n) s (omega (arith, l)) (omega (arith, l)) room,
      r ∙ ap (λ x. ok (x, skipped (appended b (to_bytes w n)) w)) (of_bytes-to_bytes w n fits),
      u,
    )
