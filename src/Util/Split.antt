-- ===== src/Util/Split.antt =====
-- Tokenize against a text that is cut at its separators.
use mmo_wow.Prelude.{
  ℕ, zero, suc, ◌+◌, ◌-◌, ◌≡◌, ◌≤◌, ◌<◌, refl, sym, ap, ◌∙◌, Bool, true, false, ◌||◌, List, [], ◌∷◌,
  ◌++◌, none, some, inl, inr, ◌==◌, ==_iff, ltb, if◌then◌else◌, length, take, drop, arith,
  Bool-cases, Option-cases, append_assoc, append-nil, length-drop, length-take,
}
use mmo_wow.Util.{index_from, find, tokenize_loop, tokenize}

abbrev pub prepend : ℕ → List (List ℕ) → List (List ℕ)
prepend x [] = (x ∷ []) ∷ []
prepend x (t ∷ ts) = (x ∷ t) ∷ ts

-- the text cut at each separator, empty pieces included
abbrev pub split : ℕ → List ℕ → List (List ℕ)
split sep [] = [] ∷ []
split sep (x ∷ xs) = if x == sep then [] ∷ split sep xs else prepend x (split sep xs)

-- the pieces that Tokenize keeps
abbrev pub kept : Bool → List (List ℕ) → List (List ℕ)
kept keep_empty [] = []
kept keep_empty (t ∷ ts) =
    if keep_empty || ltb 0 (length t) then t ∷ kept keep_empty ts else kept keep_empty ts

-- the pieces with a separator between any two
abbrev pub join : ℕ → List (List ℕ) → List ℕ
join sep [] = []
join sep (t ∷ []) = t
join sep (t ∷ u ∷ ts) = t ++ (sep ∷ join sep (u ∷ ts))

split-none :
    (sep : ℕ) (xs : List ℕ) (i : ℕ)
    → index_from (λ x. x == sep) xs i ≡ none
    → split sep xs ≡ xs ∷ []
split-none sep [] i h = refl
split-none sep (x ∷ xs) i h = ground (arith, h, split-none sep xs (suc i))

split-some :
    (sep : ℕ) (xs : List ℕ) (i e : ℕ)
    → index_from (λ x. x == sep) xs i ≡ some e
    → (k : ℕ) × (e ≡ i + k)
      × (k < length xs)
      × (split sep xs ≡ take k xs ∷ split sep (drop (suc k) xs))
split-some sep [] i e h = ground (arith, h)
split-some sep (x ∷ xs) i e h = elim (Bool-cases (x == sep)) [
  | inl q ↦ (0, ground (arith, h, q), omega arith, ground (arith, q))
  | inr q ↦
      (let (k, f, l, g) = split-some sep xs (suc i) e (ground (arith, h, q)) in
        (suc k, omega (arith, f), omega (arith, l), ground (arith, q, g)))
]

drop_nil : (n : ℕ) → drop {A = ℕ} n [] ≡ []
drop_nil zero = refl
drop_nil (suc n) = refl

drop-drop : (m n : ℕ) (xs : List ℕ) → drop n (drop m xs) ≡ drop (m + n) xs
drop-drop zero n xs = ap (λ k. drop k xs) (omega arith)
drop-drop (suc m) zero [] = sym (drop_nil (suc m + zero))
drop-drop (suc m) (suc n) [] = sym (drop_nil (suc m + suc n))
drop-drop (suc m) zero (x ∷ xs) =
    (let e : suc (m + zero) ≡ suc m + zero = omega arith in
      drop-drop m zero xs ∙ ap (λ k. drop k (x ∷ xs)) e)
drop-drop (suc m) (suc n) (x ∷ xs) =
    (let e : suc (m + suc n) ≡ suc m + suc n = omega arith in
      drop-drop m (suc n) xs ∙ ap (λ k. drop k (x ∷ xs)) e)

kept-cons :
    (keep_empty : Bool) (tokens : List (List ℕ)) (t : List ℕ) (ts : List (List ℕ)) (b : Bool)
    → b ≡ ltb 0 (length t)
    → (if keep_empty || b then tokens ++ (t ∷ []) else tokens) ++ kept keep_empty ts
      ≡ tokens ++ kept keep_empty (t ∷ ts)
kept-cons true tokens t ts b h = append_assoc tokens (t ∷ []) (kept true ts)
kept-cons false tokens t ts true h =
    append_assoc tokens (t ∷ []) (kept false ts) ∙ ground (arith, h)
kept-cons false tokens t ts false h = ground (arith, h)

loop-split :
    (fuel : ℕ) (str : List ℕ) (sep : ℕ) (keep_empty : Bool) (start : ℕ) (tokens : List (List ℕ))
    → start ≤ length str
    → length str - start < fuel
    → tokenize_loop fuel str sep keep_empty start tokens
      ≡ some (tokens ++ kept keep_empty (split sep (drop start str)))
unfolding tokenize_loop find
loop-split zero str sep keep_empty start tokens h l = absurd (omega arith)
loop-split (suc fuel) str sep keep_empty start tokens h l =
    elim (Option-cases (index_from (λ x. x == sep) (drop start str) start)) [
      | inl q ↦
          (let b : ltb start (length str) ≡ ltb 0 (length (drop start str)) =
              ground (arith, length-drop start str) in
            let e : (if keep_empty || ltb start (length str)
                  then tokens ++ (drop start str ∷ [])
                  else tokens)
                ≡ tokens ++ kept keep_empty (split sep (drop start str)) =
              sym (append-nil _)
              ∙ (kept-cons keep_empty tokens (drop start str) [] (ltb start (length str)) b
                  ∙ ap (λ ts. tokens ++ kept keep_empty ts)
                      (sym (split-none sep (drop start str) start q))) in
            ground (arith, q, e))
      | inr (end, q) ↦
          (let (k, f, m, g) = split-some sep (drop start str) start end q in
            let d : drop (suc k) (drop start str) ≡ drop (end + 1) str =
              drop-drop start (suc k) str ∙ ap (λ j. drop j str) (omega (arith, f)) in
            let w : end - start ≡ k = omega (arith, f) in
            let i : start < length str = omega (arith, m, length-drop start str) in
            let b : ltb start end ≡ ltb 0 (length (take (end - start) (drop start str))) =
              ground (arith, f, m, length-take (end - start) (drop start str)) in
            let r =
              loop-split fuel str sep keep_empty (end + 1)
                (if keep_empty || ltb start end
                  then tokens ++ (take (end - start) (drop start str) ∷ [])
                  else tokens)
                (omega (arith, f, m, length-drop start str)) (omega (arith, f, l, i)) in
            let x =
              kept-cons keep_empty tokens (take (end - start) (drop start str))
                (split sep (drop (end + 1) str)) (ltb start end) b in
            let y : take (end - start) (drop start str) ∷ split sep (drop (end + 1) str)
                ≡ split sep (drop start str) =
              ap (λ j. take j (drop start str) ∷ split sep (drop (end + 1) str)) w
              ∙ (ap (λ ys. take k (drop start str) ∷ split sep ys) (sym d) ∙ sym g) in
            let z = ap some x ∙ ap (λ ts. some (tokens ++ kept keep_empty ts)) y in
            ground (arith, q, r ∙ z))
    ]

-- Tokenize ends and yields the pieces between the separators in order, either all of them or, if
-- empty ones are not kept, those that are not empty.
pub tokenize-split :
    (str : List ℕ) (sep : ℕ) (keep_empty : Bool)
    → tokenize str sep keep_empty ≡ some (kept keep_empty (split sep str))
unfolding tokenize
tokenize-split str sep keep_empty =
    loop-split (suc (length str)) str sep keep_empty 0 [] (omega arith) (omega arith)

join-prepend : (sep x : ℕ) (ts : List (List ℕ)) → join sep (prepend x ts) ≡ x ∷ join sep ts
join-prepend sep x [] = refl
join-prepend sep x (t ∷ []) = refl
join-prepend sep x (t ∷ u ∷ ts) = refl

join-nil : (sep : ℕ) (xs : List ℕ) → join sep ([] ∷ split sep xs) ≡ sep ∷ join sep (split sep xs)
join-nil sep [] = refl
join-nil sep (x ∷ xs) =
    go (if x == sep then [] ∷ split sep xs else prepend x (split sep xs)) (some_piece x)
  where
    prepend-cons :
        (x : ℕ) (ts : List (List ℕ)) → (t : List ℕ) × (us : List (List ℕ)) × (prepend x ts ≡ t ∷ us)
    prepend-cons x [] = (_, _, refl)
    prepend-cons x (t ∷ ts) = (_, _, refl)

    some_piece :
        (x : ℕ)
        → (t : List ℕ) × (us : List (List ℕ)) × ((if x == sep
              then [] ∷ split sep xs
              else prepend x (split sep xs))
            ≡ t ∷ us)
    some_piece x = elim (Bool-cases (x == sep)) [
      | inl q ↦ ([], split sep xs, ground (arith, q))
      | inr q ↦ (let (t, us, e) = prepend-cons x (split sep xs) in (t, us, ground (arith, q, e)))
    ]

    go :
        (ts : List (List ℕ))
        → ((t : List ℕ) × (us : List (List ℕ)) × (ts ≡ t ∷ us))
        → join sep ([] ∷ ts) ≡ sep ∷ join sep ts
    go [] (t, us, e) = ground (arith, e)
    go (t ∷ ts) c = refl

join-split : (sep : ℕ) (xs : List ℕ) → join sep (split sep xs) ≡ xs
join-split sep [] = refl
join-split sep (x ∷ xs) = elim (Bool-cases (x == sep)) [
  | inl q ↦
      (let e : x ≡ sep = ground (arith, q, ==_iff x sep) in
        let i =
          join-nil sep xs ∙ (ap (λ ys. sep ∷ ys) (join-split sep xs) ∙ ap (λ y. y ∷ xs) (sym e)) in
        ground (arith, q, i))
  | inr q ↦
      (let i = join-prepend sep x (split sep xs) ∙ ap (λ ys. x ∷ ys) (join-split sep xs) in
        ground (arith, q, i))
]

kept-all : (ts : List (List ℕ)) → kept true ts ≡ ts
kept-all [] = refl
kept-all (t ∷ ts) = ap (λ us. t ∷ us) (kept-all ts)

-- The tokens of a text of which empty ones are kept, joined with the separator, are the text.
pub tokenize_then_join :
    (str : List ℕ) (sep : ℕ)
    → (tokens : List (List ℕ)) × (tokenize str sep true ≡ some tokens) × (join sep tokens ≡ str)
tokenize_then_join str sep = (
  kept true (split sep str),
  tokenize-split str sep true,
  ap (join sep) (kept-all (split sep str)) ∙ join-split sep str,
)
