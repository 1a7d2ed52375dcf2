-- ===== src/Crypto/Interleave.antt =====
-- `SHA1Interleave` of Server/Common/Cryptography/Authentication/SRP6.cpp against the interleaved hash
-- of RFC 2945.
use mmo_wow.Prelude.{
  ℕ, zero, suc, ◌+◌, ◌%◌, ◌/◌, ◌≡◌, ◌≤◌, refl, sym, ap, ◌∙◌, inl, inr, false, List, [], ◌∷◌, length,
  drop, length-drop, arith, ◌==◌, if◌then◌else◌, Bool-cases, ==_iff,
}
use mmo_wow.Crypto.{Crypto}
use mmo_wow.Crypto.Srp6.{evens, odds, leading_zeros, half_offset, weave, interleave}

-- The hash as the RFC describes it: without its leading zeros, and without its first byte if their
-- number is then odd, the bytes are dealt in turn to two lists; the bytes of their digests alternate.
abbrev pub strip_zeros : List ℕ → List ℕ
strip_zeros [] = []
strip_zeros (zero ∷ xs) = strip_zeros xs
strip_zeros (suc x ∷ xs) = suc x ∷ xs

abbrev pub drop_odd : List ℕ → List ℕ
drop_odd xs = if length xs % 2 == 1 then drop 1 xs else xs

abbrev pub deal : List ℕ → List ℕ × List ℕ
deal [] = ([], [])
deal (x ∷ xs) = (x ∷ (deal xs).1, (deal xs).0)

-- the bytes of two lists in turn, as far as the shorter one goes
abbrev pub alternate : List ℕ → List ℕ → List ℕ
alternate (x ∷ xs) (y ∷ ys) = x ∷ y ∷ alternate xs ys
alternate _ _ = []

module _ (sha1 : List ℕ → List ℕ) where
  abbrev pub rfc_interleave : List ℕ → List ℕ
  rfc_interleave s = let (e, f) = deal (drop_odd (strip_zeros s)) in alternate (sha1 e) (sha1 f)

weave-alternate : (xs ys : List ℕ) → weave xs ys ≡ alternate xs ys
weave-alternate [] ys = refl
weave-alternate (x ∷ xs) [] = refl
weave-alternate (x ∷ xs) (y ∷ ys) = ap (λ zs. x ∷ y ∷ zs) (weave-alternate xs ys)

evens-deal : (xs : List ℕ) → evens xs ≡ (deal xs).0
evens-deal [] = refl
evens-deal (x ∷ []) = refl
evens-deal (x ∷ y ∷ xs) = ap (λ zs. x ∷ zs) (evens-deal xs)

odds-deal : (xs : List ℕ) → odds xs ≡ (deal xs).1
odds-deal [] = refl
odds-deal (x ∷ []) = refl
odds-deal (x ∷ y ∷ xs) = ap (λ zs. y ∷ zs) (odds-deal xs)

twice : ℕ → ℕ
twice zero = zero
twice (suc n) = suc (suc (twice n))

twice-eq : (n : ℕ) → twice n ≡ n + n
unfolding twice
twice-eq zero = refl
twice-eq (suc n) = omega (arith, twice-eq n)

drop-evens : (n : ℕ) (xs : List ℕ) → drop n (evens xs) ≡ evens (drop (twice n) xs)
unfolding twice
drop-evens zero xs = refl
drop-evens (suc n) [] = refl
drop-evens (suc zero) (x ∷ []) = refl
drop-evens (suc (suc n)) (x ∷ []) = refl
drop-evens (suc n) (x ∷ y ∷ xs) = drop-evens n xs

drop-odds : (n : ℕ) (xs : List ℕ) → drop n (odds xs) ≡ odds (drop (twice n) xs)
unfolding twice
drop-odds zero xs = refl
drop-odds (suc n) [] = refl
drop-odds (suc n) (x ∷ []) = refl
drop-odds (suc n) (x ∷ y ∷ xs) = drop-odds n xs

strip_zeros-drop : (xs : List ℕ) → strip_zeros xs ≡ drop (leading_zeros xs) xs
strip_zeros-drop [] = refl
strip_zeros-drop (zero ∷ xs) = strip_zeros-drop xs
strip_zeros-drop (suc x ∷ xs) = refl

leading_zeros_le : (xs : List ℕ) → leading_zeros xs ≤ length xs
leading_zeros_le [] = omega arith
leading_zeros_le (zero ∷ xs) = omega (arith, leading_zeros_le xs)
leading_zeros_le (suc x ∷ xs) = omega arith

drop-suc : (n : ℕ) (xs : List ℕ) → drop 1 (drop n xs) ≡ drop (suc n) xs
drop-suc zero xs = refl
drop-suc (suc n) [] = refl
drop-suc (suc n) (x ∷ xs) = drop-suc n xs

-- what the two offsets leave out is what the RFC leaves out
half_offset-drop :
    (s : List ℕ) → length s % 2 ≡ 0 → drop (twice (half_offset s)) s ≡ drop_odd (strip_zeros s)
unfolding half_offset
half_offset-drop s h =
    let p = leading_zeros s in
    let l = length-drop p s in
    elim (Bool-cases (p % 2 == 1)) [
      | inl e ↦
          (let o = (==_iff (p % 2) 1).0 e in
            let n : length (drop p s) % 2 ≡ 1 = omega (arith, l, o, h, leading_zeros_le s) in
            ap (λ b. drop (twice ((if b then p + 1 else p) / 2)) s) e
            ∙ ap (λ k. drop k s) (twice-eq ((p + 1) / 2) ∙ halves_odd p o)
            ∙ sym (drop-suc p s)
            ∙ sym (ap (λ b. if b then drop 1 (drop p s) else drop p s) ((==_iff _ 1).1 n))
            ∙ ap drop_odd (sym (strip_zeros-drop s)))
      | inr e ↦
          (let o : p % 2 ≡ 0 = ground (arith, e) in
            let n : (length (drop p s) % 2 == 1) ≡ false =
              ground (arith, l, o, h, leading_zeros_le s) in
            ap (λ b. drop (twice ((if b then p + 1 else p) / 2)) s) e
            ∙ ap (λ k. drop k s) (twice-eq (p / 2) ∙ halves_even p o)
            ∙ sym (ap (λ b. if b then drop 1 (drop p s) else drop p s) n)
            ∙ ap drop_odd (sym (strip_zeros-drop s)))
    ]
  where
    halves_odd : (p : ℕ) → p % 2 ≡ 1 → (p + 1) / 2 + (p + 1) / 2 ≡ suc p
    halves_odd p o = omega (arith, o)

    halves_even : (p : ℕ) → p % 2 ≡ 0 → p / 2 + p / 2 ≡ p
    halves_even p o = omega (arith, o)

-- On an even number of bytes `SHA1Interleave` is the interleaved hash of the RFC.
pub interleave-rfc :
    (c : Crypto) (s : List ℕ) → length s % 2 ≡ 0 → interleave c s ≡ rfc_interleave c.sha1 s
unfolding interleave
interleave-rfc c s h =
    let t = drop_odd (strip_zeros s) in
    let k = half_offset s in
    let e = half_offset-drop s h in
    ap (λ xs. weave (c.sha1 xs) (c.sha1 (drop k (odds s))))
      (drop-evens k s ∙ ap evens e ∙ evens-deal t)
    ∙ ap (λ xs. weave (c.sha1 (deal t).0) (c.sha1 xs)) (drop-odds k s ∙ ap odds e ∙ odds-deal t)
    ∙ weave-alternate (c.sha1 (deal t).0) (c.sha1 (deal t).1)
