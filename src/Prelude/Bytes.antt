-- ===== src/Prelude/Bytes.antt =====
-- Byte strings: equality, and numbers as bytes, the least significant first.
use mmo_wow.Prelude.Tests.{◌==◌}
use Prim.Native.Nat.{ℕ, zero, suc, ◌+◌, ◌*◌, ◌/◌, ◌%◌, ◌^◌, ◌<◌}
use mathlib.Core.Path.{◌≡◌, refl, ap}
use mathlib.Core.Bool.{Bool, true, false, ◌&&◌}
use mathlib.Core.List.{List, [], ◌∷◌}
use native.Mathlib.Nat.{pow-suc}
use native.Mathlib.Omega.{arith}
use mmo_wow.Prelude.Lists.{length, take, drop, length-take, length-drop}
use mmo_wow.Prelude.Slices.{read_at}
use mmo_wow.Prelude.Tests.{leb, leb→le, Bool-cases}
use mmo_wow.Prelude.Outcome.{ok}
use mathlib.Core.Logic.{inl, inr}

abbrev pub bytes_eq : List ℕ → List ℕ → Bool
bytes_eq [] [] = true
bytes_eq [] (y ∷ ys) = false
bytes_eq (x ∷ xs) [] = false
bytes_eq (x ∷ xs) (y ∷ ys) = x == y && bytes_eq xs ys

-- the `w` bytes of a number, as they stand in memory on a little-endian host
abbrev pub to_bytes : ℕ → ℕ → List ℕ
to_bytes zero n = []
to_bytes (suc w) n = n % 256 ∷ to_bytes w (n / 256)

abbrev pub of_bytes : List ℕ → ℕ
of_bytes [] = 0
of_bytes (x ∷ xs) = x + 256 * of_bytes xs

pub bytes_eq→eq : (xs ys : List ℕ) → bytes_eq xs ys ≡ true → xs ≡ ys
bytes_eq→eq [] [] h = refl
bytes_eq→eq [] (y ∷ ys) h = cc
bytes_eq→eq (x ∷ xs) [] h = cc
bytes_eq→eq (x ∷ xs) (y ∷ ys) h = ground (arith, bytes_eq→eq xs ys)

pub bytes_eq_refl : (xs : List ℕ) → bytes_eq xs xs ≡ true
bytes_eq_refl [] = refl
bytes_eq_refl (x ∷ xs) = ground (arith, bytes_eq_refl xs)

pub length-to_bytes : (w n : ℕ) → length (to_bytes w n) ≡ w
length-to_bytes zero n = refl
length-to_bytes (suc w) n = ap suc (length-to_bytes w (n / 256))

-- A number that fits `w` bytes is read back from them.
pub of_bytes-to_bytes : (w n : ℕ) → n < 256 ^ w → of_bytes (to_bytes w n) ≡ n
of_bytes-to_bytes zero n h = omega arith
of_bytes-to_bytes (suc w) n h =
    omega (arith, of_bytes-to_bytes w (n / 256) (omega (arith, pow-suc 256 w)))

-- every number of the list is a byte
abbrev pub IsBytes : List ℕ → Type 0
IsBytes [] = true ≡ true
IsBytes (x ∷ xs) = (x < 256) × IsBytes xs

take-IsBytes : (n : ℕ) (xs : List ℕ) → IsBytes xs → IsBytes (take n xs)
take-IsBytes zero xs h = refl
take-IsBytes (suc n) [] h = refl
take-IsBytes (suc n) (x ∷ xs) (b, h) = (b, take-IsBytes n xs h)

drop-IsBytes : (n : ℕ) (xs : List ℕ) → IsBytes xs → IsBytes (drop n xs)
drop-IsBytes zero xs h = h
drop-IsBytes (suc n) [] h = refl
drop-IsBytes (suc n) (x ∷ xs) (b, h) = drop-IsBytes n xs h

of_bytes_lt : (xs : List ℕ) → IsBytes xs → of_bytes xs < 256 ^ length xs
of_bytes_lt [] h = omega arith
of_bytes_lt (x ∷ xs) (b, h) = omega (arith, of_bytes_lt xs h, pow-suc 256 (length xs))

-- Bytes that are read from a place inside a list of bytes.
pub read_at-of_bytes :
    (off w : ℕ) (xs : List ℕ) {ys : List ℕ}
    → IsBytes xs
    → read_at off w xs ≡ ok ys
    → (length ys ≡ w) × (of_bytes ys < 256 ^ w)
unfolding read_at
read_at-of_bytes off w xs {ys} h e = elim (Bool-cases (leb (off + w) (length xs))) [
  | inr q ↦ ground arith
  | inl q ↦
      (let v : ys ≡ take w (drop off xs) = ground arith in
        let l : length (take w (drop off xs)) ≡ w =
          omega (arith, length-take w (drop off xs), length-drop off xs, leb→le _ _ q) in
        let b = of_bytes_lt _ (take-IsBytes w _ (drop-IsBytes off xs h)) in ground (arith, v, l, b))
]
