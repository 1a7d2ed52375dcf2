-- ===== src/Pool/Free.antt =====
-- `GetFreeConnection` tries every connection.
use mmo_wow.Prelude.{
  ℕ, zero, suc, ◌+◌, ◌%◌, ◌≡◌, ◌<◌, sym, ap, ◌∙◌, Bool, true, some, ok, arith, length, u8,
  Bool-cases, inl, inr,
}
use native.Mathlib.Nat.{mod-lt, mod-eq_of_lt, mod_self}
use mmo_wow.Pool.{Pool, next_index, free_loop, get_free_connection}

-- A connection that is ready in the round in which its turn comes ends the loop.
free_loop-ends :
    (fuel : ℕ) (ready : ℕ → ℕ → Bool) (i n k : ℕ)
    → i + k + 1 < 256
    → k < fuel
    → ready k ((i + k + 1) % suc n) ≡ true
    → (c : ℕ) × (free_loop fuel ready i (suc n) ≡ ok (some c)) × (c < suc n)
unfolding free_loop next_index
free_loop-ends zero ready i n k h l r = absurd (omega (arith, l))
free_loop-ends (suc fuel) ready i n zero h l r =
    let e : u8 (i + 1) ≡ i + 0 + 1 = omega (arith, h) in
    let f : ready 0 (u8 (i + 1) % suc n) ≡ true = ap (λ j. ready 0 (j % suc n)) e ∙ r in
    (u8 (i + 1) % suc n, ground (arith, f), mod-lt (u8 (i + 1)) (omega arith))
free_loop-ends (suc fuel) ready i n (suc k) h l r =
    let e : u8 (i + 1) + k + 1 ≡ i + suc k + 1 = omega (arith, h) in
    let (c, f, b) =
      free_loop-ends fuel (λ round. ready (suc round)) (u8 (i + 1)) n k (omega (arith, h))
        (omega (arith, l)) (ap (λ j. ready (suc k) (j % suc n)) e ∙ r) in
    elim (Bool-cases (ready 0 (u8 (i + 1) % suc n))) [
      | inl g ↦ (u8 (i + 1) % suc n, ground (arith, g), mod-lt (u8 (i + 1)) (omega arith))
      | inr g ↦ (c, ground (arith, f, g), b)
    ]

whole : (n : ℕ) → (0 + n + 1) % suc n ≡ 0
whole n = ap (λ k. k % suc n) (plus n) ∙ mod_self (suc n)
  where
    plus : (n : ℕ) → 0 + n + 1 ≡ suc n
    plus n = omega arith

-- With 1 to 255 synchronous connections, GetFreeConnection ends with one of them if some connection
-- `j` is free whenever it is tried.
pub get_free_connection-ends :
    (ready : ℕ → ℕ → Bool) (p : Pool) (j : ℕ)
    → length p.synch_connections < 256
    → j < length p.synch_connections
    → ((round : ℕ) → ready round j ≡ true)
    → (c : ℕ) × (get_free_connection 255 ready p ≡ ok (some c)) × (c < length p.synch_connections)
unfolding get_free_connection
get_free_connection-ends ready p j h l r = of_count (length p.synch_connections) j h l r
  where
    of_count :
        (n j : ℕ)
        → n < 256
        → j < n
        → ((round : ℕ) → ready round j ≡ true)
        → (c : ℕ) × (free_loop 255 ready 0 n ≡ ok (some c)) × (c < n)
    of_count zero j h l r = absurd (omega (arith, l))
    of_count (suc n) zero h l r =
        let e : 0 ≡ (0 + n + 1) % suc n = sym (whole n) in
        free_loop-ends 255 ready 0 n n (omega (arith, h)) (omega (arith, h))
          (ap (λ k. ready n k) (sym e) ∙ r n)
    of_count (suc n) (suc j) h l r =
        let e : suc j ≡ (0 + j + 1) % suc n =
          let q : 0 + j + 1 ≡ suc j = omega arith in sym (ap (λ k. k % suc n) q ∙ mod-eq_of_lt l) in
        free_loop-ends 255 ready 0 n j (omega (arith, h, l)) (omega (arith, h, l))
          (ap (λ k. ready j k) (sym e) ∙ r j)
