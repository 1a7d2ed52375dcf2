-- ===== src/Prelude/Slices.antt =====
-- Windows of a vector: the laws of `take` and `drop`, and reads and writes that fault out of bounds.
use Prim.Native.Nat.{ℕ, zero, suc, ◌+◌, ◌≤◌}
use mathlib.Core.Path.{◌≡◌, refl, sym, ap, ◌∙◌}
use mathlib.Core.List.{List, [], ◌∷◌, ◌++◌}
use native.Mathlib.Omega.{arith}
use mmo_wow.Prelude.Tests.{leb, if◌then◌else◌}
use mmo_wow.Prelude.Outcome.{Result, ok, err, out_of_bounds}
use mmo_wow.Prelude.Lists.{length, take, drop, resize}

module _ {ℓ} {A : Type ℓ} where
  pub drop-nil : (n : ℕ) → drop {A = A} n [] ≡ []
  drop-nil zero = refl
  drop-nil (suc n) = refl

  pub take-nil : (n : ℕ) → take {A = A} n [] ≡ []
  take-nil zero = refl
  take-nil (suc n) = refl

  -- Growing a vector keeps what it held.
  pub take-resize :
      (k n : ℕ) (d : A) (xs : List A) → k ≤ length xs → k ≤ n → take k (resize n d xs) ≡ take k xs
  take-resize zero n d xs h g = refl
  take-resize (suc k) zero d xs h g = absurd (omega arith)
  take-resize (suc k) (suc n) d [] h g = absurd (omega arith)
  take-resize (suc k) (suc n) d (x ∷ xs) h g =
      ap (λ ys. x ∷ ys) (take-resize k n d xs (omega arith) (omega arith))

  pub resize_self : (d : A) (xs : List A) → resize (length xs) d xs ≡ xs
  resize_self d [] = refl
  resize_self d (x ∷ xs) = ap (λ ys. x ∷ ys) (resize_self d xs)

  pub take_of_le : (n : ℕ) (xs : List A) → length xs ≤ n → take n xs ≡ xs
  take_of_le zero [] h = refl
  take_of_le zero (x ∷ xs) h = absurd (omega arith)
  take_of_le (suc n) [] h = refl
  take_of_le (suc n) (x ∷ xs) h = ap (λ ys. x ∷ ys) (take_of_le n xs (omega arith))

  pub drop_of_le : (n : ℕ) (xs : List A) → length xs ≤ n → drop n xs ≡ []
  drop_of_le zero [] h = refl
  drop_of_le zero (x ∷ xs) h = absurd (omega arith)
  drop_of_le (suc n) [] h = refl
  drop_of_le (suc n) (x ∷ xs) h = drop_of_le n xs (omega arith)

  pub take-append_left : (n : ℕ) (xs ys : List A) → n ≤ length xs → take n (xs ++ ys) ≡ take n xs
  take-append_left zero xs ys h = refl
  take-append_left (suc n) [] ys h = absurd (omega arith)
  take-append_left (suc n) (x ∷ xs) ys h =
      ap (λ zs. x ∷ zs) (take-append_left n xs ys (omega arith))

  pub drop-append_left :
      (n : ℕ) (xs ys : List A) → n ≤ length xs → drop n (xs ++ ys) ≡ drop n xs ++ ys
  drop-append_left zero xs ys h = refl
  drop-append_left (suc n) [] ys h = absurd (omega arith)
  drop-append_left (suc n) (x ∷ xs) ys h = drop-append_left n xs ys (omega arith)

  -- Cutting an append after its first part, whose length is given by an equation.
  pub take-append : (n : ℕ) (xs ys : List A) → n ≡ length xs → take n (xs ++ ys) ≡ xs
  take-append zero [] ys e = refl
  take-append zero (x ∷ xs) ys e = absurd (omega arith)
  take-append (suc n) [] ys e = absurd (omega arith)
  take-append (suc n) (x ∷ xs) ys e = ap (λ zs. x ∷ zs) (take-append n xs ys (omega arith))

  pub drop-append : (n : ℕ) (xs ys : List A) → n ≡ length xs → drop n (xs ++ ys) ≡ ys
  drop-append zero [] ys e = refl
  drop-append zero (x ∷ xs) ys e = absurd (omega arith)
  drop-append (suc n) [] ys e = absurd (omega arith)
  drop-append (suc n) (x ∷ xs) ys e = drop-append n xs ys (omega arith)

  drop_nil_nil : (a b : ℕ) → drop {A = A} a [] ≡ drop b []
  drop_nil_nil a b = drop-nil a ∙ sym (drop-nil b)

  pub drop-drop : (m n k : ℕ) (xs : List A) → k ≡ n + m → drop m (drop n xs) ≡ drop k xs
  drop-drop m zero k xs e = ap (λ (j : ℕ). drop j xs) (omega arith)
  drop-drop m (suc n) k [] e = drop_nil_nil m k
  drop-drop m (suc n) zero (x ∷ xs) e = absurd (omega arith)
  drop-drop m (suc n) (suc k) (x ∷ xs) e = drop-drop m n k xs (omega arith)

  -- A window by its start and length is the window by its start and end.
  pub take-drop : (r w n : ℕ) (xs : List A) → w ≡ r + n → take n (drop r xs) ≡ drop r (take w xs)
  take-drop zero w n xs e = ap (λ (j : ℕ). take j xs) (omega arith)
  take-drop (suc r) zero n xs e = absurd (omega arith)
  take-drop (suc r) (suc w) n [] e = take-nil n
  take-drop (suc r) (suc w) n (x ∷ xs) e = take-drop r w n xs (omega arith)

  -- A list is what `take` keeps and what `drop` leaves.
  pub take_append_drop : (n : ℕ) (xs : List A) → take n xs ++ drop n xs ≡ xs
  take_append_drop zero xs = refl
  take_append_drop (suc n) [] = refl
  take_append_drop (suc n) (x ∷ xs) = ap (λ ys. x ∷ ys) (take_append_drop n xs)

module _ {ℓ} {A : Type ℓ} where
  -- `n` elements from index `pos` on
  unfoldable pub read_at : ℕ → ℕ → List A → Result (List A)
  read_at pos n xs =
      if leb (pos + n) (length xs) then ok (take n (drop pos xs)) else err out_of_bounds

  overwrite : ℕ → List A → List A → List A
  overwrite pos src xs = take pos xs ++ (src ++ drop (pos + length src) xs)

  -- `memcpy` of `src` to index `pos`
  unfoldable pub write_at : ℕ → List A → List A → Result (List A)
  unfolding overwrite
  write_at pos src xs =
      if leb (pos + length src) (length xs) then ok (overwrite pos src xs) else err out_of_bounds
