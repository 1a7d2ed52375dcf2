-- ===== src/MessageBuffer/Compact.antt =====
-- `Normalize` and `EnsureFreeSpace`: making room for the next read.
use mmo_wow.Prelude.{
  ℕ, ◌-◌, ◌*◌, ◌/◌, ◌^◌, ◌≤◌, ◌<◌, ◌≡◌, ◌≢◌, refl, sym, ◌∙◌, List, ◌++◌, ok, arith, length, take,
  drop, read_at, write_at, length-append, length-take, length-drop, length-resize, take-resize,
  drop_of_le, take-append, take-drop, ◌>>=◌, inl, inr, Bool-cases, ◌==◌, ==_iff,
}
use mmo_wow.MessageBuffer.{MessageBuffer, remaining_space, normalize, ensure_free_space}
use mmo_wow.MessageBuffer.Window.{IsValid, active}

window_size : MessageBuffer → ℕ
window_size b = b.wpos - b.rpos

-- what `memmove` leaves
compacted_storage : MessageBuffer → List ℕ
unfolding window_size
compacted_storage b = take (window_size b) (drop b.rpos b.storage) ++ drop (window_size b) b.storage

length-window :
    {b : MessageBuffer}
    → IsValid b
    → length (take (window_size b) (drop b.rpos b.storage)) ≡ window_size b
unfolding window_size
length-window {b} v =
    omega (arith, length-take (window_size b) (drop b.rpos b.storage), length-drop b.rpos b.storage)

window_size-eq : (b : MessageBuffer) → window_size b ≡ b.wpos - b.rpos
unfolding window_size
window_size-eq b = refl

length-compacted : {b : MessageBuffer} → IsValid b → length (compacted_storage b) ≡ length b.storage
unfolding compacted_storage
length-compacted {b} v = omega (
  arith,
  window_size-eq b,
  length-window v,
  length-append (take (window_size b) (drop b.rpos b.storage)) (drop (window_size b) b.storage),
  length-drop (window_size b) b.storage,
)

normalize-compacts :
    {b : MessageBuffer}
    → IsValid b
    → b.rpos ≢ 0
    → b.rpos ≢ b.wpos
    → normalize b ≡ ok (record { wpos = window_size b; rpos = 0; storage = compacted_storage b })
unfolding normalize read_at write_at compacted_storage
normalize-compacts {b} v n m = ground (arith, length-window v)

compacted :
    {b : MessageBuffer}
    → IsValid b
    → b.rpos ≢ 0
    → b.rpos ≢ b.wpos
    → (b' : MessageBuffer) × (normalize b ≡ ok b')
      × IsValid b'
      × (active b' ≡ active b)
      × (b'.rpos ≡ 0)
      × (length b'.storage ≡ length b.storage)
unfolding compacted_storage
compacted {b} v n m = (
  record { wpos = window_size b; rpos = 0; storage = compacted_storage b },
  normalize-compacts v n m,
  omega (arith, length-compacted v, window_size-eq b),
  take-append (window_size b) (take (window_size b) (drop b.rpos b.storage))
        (drop (window_size b) b.storage) (sym (length-window v))
      ∙ take-drop b.rpos b.wpos (window_size b) b.storage (omega (arith, window_size-eq b)),
  refl,
  length-compacted v,
)

-- `Normalize` moves the waiting bytes to the front of the storage and changes none of them.
pub normalize-active :
    {b : MessageBuffer}
    → IsValid b
    → (b' : MessageBuffer) × (normalize b ≡ ok b')
      × IsValid b'
      × (active b' ≡ active b)
      × (b'.rpos ≡ 0)
      × (length b'.storage ≡ length b.storage)
normalize-active {b} v = elim (Bool-cases (b.rpos == 0)) [
  | inl front ↦ (b, unfold normalize in rw front, v, refl, (==_iff b.rpos 0).0 front, refl)
  | inr later ↦ elim (Bool-cases (b.rpos == b.wpos)) [
    | inl drained ↦ (
      record { wpos = 0; rpos = 0; storage = b.storage },
      unfold normalize in ground (arith, v.write_le, v.small),
      omega arith,
      sym (
          drop_of_le b.rpos (take b.wpos b.storage)
            (omega (arith, length-take b.wpos b.storage, (==_iff b.rpos b.wpos).0 drained))),
      refl,
      refl,
    )
    | inr some_left ↦ compacted v (ground arith) (ground arith)
  ]
]

-- After `Normalize`, `EnsureFreeSpace` leaves room to read into, and changes no waiting byte. (A
-- buffer of fewer than two bytes would not grow: 1 * 3 / 2 is 1.)
pub ensure_free_space-active :
    {b : MessageBuffer}
    → IsValid b
    → 2 ≤ length b.storage
    → length b.storage < 2 ^ 62
    → IsValid (ensure_free_space b)
      × (active (ensure_free_space b) ≡ active b)
      × (0 < remaining_space (ensure_free_space b))
      × (length b.storage ≤ length (ensure_free_space b).storage)
      × ((ensure_free_space b).rpos ≡ b.rpos)
unfolding ensure_free_space
ensure_free_space-active {b} v two small = ground (
  arith,
  length-resize (length b.storage * 3 / 2) 0 b.storage,
  take-resize b.wpos (length b.storage * 3 / 2) 0 b.storage,
)

-- On a well-formed buffer of 2 bytes or more, below 2 ^ 62, the `Normalize` and `EnsureFreeSpace` of
-- an `AsyncRead` do not fault; the buffer stays well formed, the waiting bytes stay, in order, and
-- move to the front, there is room behind them, and the storage does not shrink.
pub normalize_then_ensure :
    {b : MessageBuffer}
    → IsValid b
    → 2 ≤ length b.storage
    → length b.storage < 2 ^ 62
    → (b' : MessageBuffer) × ((normalize b >>= λ n. ok (ensure_free_space n)) ≡ ok b')
      × IsValid b'
      × (active b' ≡ active b)
      × (b'.rpos ≡ 0)
      × (0 < remaining_space b')
      × (length b.storage ≤ length b'.storage)
normalize_then_ensure {b} v two small =
    let (n, e, w, same, front, len) = normalize-active v in
    let (w', same', room, grown, front') = ensure_free_space-active w (omega arith) (omega arith) in
    (ensure_free_space n, rw e, w', same' ∙ same, front' ∙ front, room, omega arith)
