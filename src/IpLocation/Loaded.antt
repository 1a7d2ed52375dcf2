-- ===== src/IpLocation/Loaded.antt =====
-- The reading of the table ends, and what is found in the table that it makes.
use mmo_wow.Prelude.{
  ℕ, zero, suc, ◌≡◌, ◌<◌, Bool, true, false, List, [], ◌∷◌, some, ok, err, assertion, ◌==◌, ◌⊎◌,
  inl, inr, ◌↔◌, arith, Bool-cases, Option-cases, length,
}
use mathlib.Core.List.{Memᴰ}
use mmo_wow.IpLocation.{
  IpLocationRecord, Stream, cut_at, getline_from, getline, add_record, read_lines, are_apart, load,
  get_location_record,
}
use mmo_wow.IpLocation.Lookup.{AreRanges, Covers, location_iff}

cut_at-shorter : (sep : ℕ) (xs ys : List ℕ) → (cut_at sep xs).1 ≡ some ys → length ys < length xs
cut_at-shorter sep [] ys h = ground (arith, h)
cut_at-shorter sep (x ∷ xs) ys h = elim (Bool-cases (x == sep)) [
  | inl q ↦ ground (arith, h, q)
  | inr q ↦ omega (arith, cut_at-shorter sep xs ys (ground (arith, h, q)))
]

getline-shorter :
    (sep : ℕ) (s : Stream) (t : List ℕ)
    → (getline sep s).0 ≡ some t
    → length (getline sep s).1.rest < length s.rest
unfolding getline
getline-shorter sep s t h = go s.rest s.is_good h
  where
    go :
        (xs : List ℕ) (g : Bool)
        → (getline_from sep xs g).0 ≡ some t
        → length (getline_from sep xs g).1.rest < length xs
    go [] g h = ground (arith, h)
    go (x ∷ xs) false h = ground (arith, h)
    go (x ∷ xs) true h = elim (Option-cases (cut_at sep (x ∷ xs)).1) [
      | inl q ↦ ground (arith, q)
      | inr (ys, q) ↦ ground (arith, q, cut_at-shorter sep (x ∷ xs) ys q)
    ]

-- The loop ends on more fuel than characters.
read_lines-ends :
    (fuel : ℕ) (s : Stream) (store : List IpLocationRecord)
    → length s.rest < fuel
    → (out : List IpLocationRecord) × (read_lines fuel s store ≡ some out)
unfolding read_lines
read_lines-ends zero s store h = absurd (omega arith)
read_lines-ends (suc fuel) s store h =
    let s1 : Stream = (getline 44 s).1 in
    let s2 : Stream = (getline 44 s1).1 in
    let s3 : Stream = (getline 44 s2).1 in
    elim (Bool-cases s.is_good) [
      | inr g ↦ (store, ground (arith, g))
      | inl g ↦ elim (Option-cases (getline 44 s).0) [
        | inl n ↦ (store, ground (arith, g, n))
        | inr (t1, e1) ↦ elim (Option-cases (getline 44 s1).0) [
          | inl n ↦ (store, ground (arith, g, e1, n))
          | inr (t2, e2) ↦ elim (Option-cases (getline 44 s2).0) [
            | inl n ↦ (store, ground (arith, g, e1, e2, n))
            | inr (t3, e3) ↦ elim (Option-cases (getline 10 s3).0) [
              | inl n ↦ (store, ground (arith, g, e1, e2, e3, n))
              | inr (t4, e4) ↦
                  (let l1 = getline-shorter 44 s t1 e1 in
                    let l2 = getline-shorter 44 s1 t2 e2 in
                    let l3 = getline-shorter 44 s2 t3 e3 in
                    let l4 = getline-shorter 10 s3 t4 e4 in
                    let (out, i) =
                      read_lines-ends fuel (getline 10 s3).1 (add_record t1 t2 t3 t4 store)
                        (omega arith) in
                    (out, ground (arith, g, e1, e2, e3, e4, i)))
            ]
          ]
        ]
      ]
    ]

-- The reading of a file ends for every text: with a table whose records do not overlap, or in a
-- failed ASSERT.
pub load-ends :
    (sort : List IpLocationRecord → List IpLocationRecord) (text : List ℕ)
    → (load sort (some text) ≡ err assertion)
      ⊎ ((store : List IpLocationRecord) × (load sort (some text) ≡ ok (some store))
          × (are_apart store ≡ true))
unfolding load
load-ends sort text =
    let (out, e) =
      read_lines-ends (suc (length text)) (record { rest = text; is_good = true }) []
        (omega arith) in
    elim (Bool-cases (are_apart (sort out))) [
      | inl q ↦ inr (sort out, ground (arith, e, q), q)
      | inr q ↦ inl (ground (arith, e, q))
    ]

-- In the table that was read, if its records end where they begin or later, the record that is found
-- for an address is the one of the table that begins at the address or before and ends after it.
pub load-location :
    (sort : List IpLocationRecord → List IpLocationRecord) (text : List ℕ)
    (store : List IpLocationRecord) (ip : ℕ) (r : IpLocationRecord)
    → load sort (some text) ≡ ok (some store)
    → AreRanges store
    → (get_location_record (some ip) store ≡ some r) ↔ (Memᴰ r store × Covers r ip)
load-location sort text store ip r e p = elim (load-ends sort text) [
  | inl q ↦ ground (arith, e, q)
  | inr (other, q, a) ↦ location_iff ip store r (ground (arith, e, q, a)) p
]
