-- ===== src/MessageBuffer/Window.antt =====
-- A message buffer seen as a queue of bytes: what was written and not yet read.
use mmo_wow.Prelude.{
  ℕ, ◌+◌, ◌-◌, ◌%◌, append-nil, ◌^◌, ◌≤◌, ◌<◌, ◌≡◌, refl, sym, List, [], ◌∷◌, ◌++◌, ok, err,
  out_of_bounds, arith, length, take, drop, write_at, length-append, length-take, length-drop,
  take-append, drop-append_left, drop-drop, append_assoc,
}
use mmo_wow.MessageBuffer.{MessageBuffer, read_completed, active_size, remaining_space, write}

-- The read position does not pass the write position, nor that the storage; a vector is shorter
-- than 2 ^ 63 bytes.
pub record IsValid (b : MessageBuffer) : Type 0 where
  pub read_le : b.rpos ≤ b.wpos
  pub write_le : b.wpos ≤ length b.storage
  pub small : length b.storage < 2 ^ 63

-- the bytes that wait to be read, oldest first
abbrev pub active : MessageBuffer → List ℕ
active b = drop b.rpos (take b.wpos b.storage)

pub active_size-eq : {b : MessageBuffer} → IsValid b → active_size b ≡ b.wpos - b.rpos
unfolding active_size
active_size-eq v = omega arith

-- `GetActiveSize` is the number of waiting bytes.
pub length-active : {b : MessageBuffer} → IsValid b → length (active b) ≡ active_size b
length-active {b} v = omega (
  arith,
  active_size-eq v,
  length-drop b.rpos (take b.wpos b.storage),
  length-take b.wpos b.storage,
)

-- `ReadCompleted` drops the bytes that were read from the front.
pub read_completed-active :
    {b : MessageBuffer} (n : ℕ)
    → IsValid b
    → n ≤ active_size b
    → IsValid (read_completed n b) × (active (read_completed n b) ≡ drop n (active b))
unfolding read_completed
read_completed-active {b} n v h =
    let e = active_size-eq v in
    (omega (arith, e), sym (drop-drop n b.rpos _ (take b.wpos b.storage) (omega (arith, e))))

overwrite-window :
    (r w : ℕ) (st src : List ℕ)
    → r ≤ w
    → w + length src ≤ length st
    → drop r (take (w + length src) (take w st ++ (src ++ drop (w + length src) st)))
      ≡ drop r (take w st) ++ src
overwrite-window r w st src h fits =
    rw (← append_assoc (take w st) src (drop (w + length src) st)) (
      rw (take-append (w + length src) (take w st ++ src) (drop (w + length src) st) lengths)
        (drop-append_left r (take w st) src (omega (arith, length-take w st))))
  where
    lengths : w + length src ≡ length (take w st ++ src)
    lengths = omega (arith, length-append (take w st) src, length-take w st)

length-overwrite :
    (w : ℕ) (st src : List ℕ)
    → w + length src ≤ length st
    → length (take w st ++ (src ++ drop (w + length src) st)) ≡ length st
length-overwrite w st src fits = omega (
  arith,
  length-append (take w st) (src ++ drop (w + length src) st),
  length-append src (drop (w + length src) st),
  length-take w st,
  length-drop (w + length src) st,
)

-- `Write` of bytes that fit the remaining space appends them to the waiting bytes.
pub write-active :
    {b : MessageBuffer} (src : List ℕ)
    → IsValid b
    → length src ≤ remaining_space b
    → (b' : MessageBuffer) × (write src b ≡ ok b')
      × IsValid b'
      × (active b' ≡ active b ++ src)
      × (b'.rpos ≡ b.rpos)
      × (length b'.storage ≡ length b.storage)
write-active {b} [] v h = (b, unfold write in refl, v, sym (append-nil (active b)), refl, refl)
write-active {b} (x ∷ xs) v h = (
  b',
  unfold write write_at in ground (arith, fits, wraps),
  omega (arith, fits, wraps, same),
  rw wraps (overwrite-window b.rpos b.wpos b.storage (x ∷ xs) v.read_le fits),
  refl,
  same,
)
  where
    fits : b.wpos + length (x ∷ xs) ≤ length b.storage
    fits = unfold remaining_space in omega (arith, h)

    wraps : (b.wpos + length (x ∷ xs)) % 2 ^ 64 ≡ b.wpos + length (x ∷ xs)
    wraps = omega (arith, fits)

    same :
        length (take b.wpos b.storage ++ ((x ∷ xs) ++ drop (b.wpos + length (x ∷ xs)) b.storage))
        ≡ length b.storage
    same = length-overwrite b.wpos b.storage (x ∷ xs) fits

    b' : MessageBuffer
    b' = record {
      wpos = (b.wpos + length (x ∷ xs)) % 2 ^ 64;
      rpos = b.rpos;
      storage = take b.wpos b.storage ++ ((x ∷ xs) ++ drop (b.wpos + length (x ∷ xs)) b.storage);
    }

-- `Write` never writes past the storage unnoticed: what does not fit is a fault.
pub write_fault :
    {b : MessageBuffer} (src : List ℕ)
    → IsValid b
    → remaining_space b < length src
    → write src b ≡ err out_of_bounds
unfolding write write_at remaining_space
write_fault src v h = ground arith
