-- ===== src/IpLocation/Lookup.antt =====
-- Which record is found for an address.
use mmo_wow.Prelude.{
  ℕ, ◌≡◌, ◌≤◌, ◌<◌, refl, ap, true, List, [], ◌∷◌, some, ltb, ltb→lt, lt→ltb, inl, inr, ◌↔◌, arith,
  Bool-cases, Option-cases,
}
use mathlib.Core.Path.{subst}
use mathlib.Core.List.{Memᴰ}
use mathlib.Core.List.Memᴰ.{head, tail}
use mmo_wow.IpLocation.{IpLocationRecord, are_apart, upper_bound, get_location_record}

-- every record ends where it begins or later
abbrev pub AreRanges : List IpLocationRecord → Type 0
AreRanges [] = true ≡ true
AreRanges (r ∷ rest) = (r.ip_from ≤ r.ip_to) × AreRanges rest

-- the addresses of a record: its end is not one of them
abbrev pub Covers : IpLocationRecord → ℕ → Type 0
Covers r ip = (r.ip_from ≤ ip) × (ip < r.ip_to)

apart-tail :
    (a : IpLocationRecord) (rest : List IpLocationRecord)
    → are_apart (a ∷ rest) ≡ true
    → are_apart rest ≡ true
apart-tail a [] h = refl
apart-tail a (b ∷ rest) h = ground (arith, h)

-- What follows a record begins at its end or later.
later-from :
    (a r : IpLocationRecord) (rest : List IpLocationRecord)
    → are_apart (a ∷ rest) ≡ true
    → AreRanges (a ∷ rest)
    → Memᴰ r rest
    → a.ip_to ≤ r.ip_from
later-from a r [] h p i = elim i [ ]
later-from a r (b ∷ rest) h p (head e) =
    ground (arith, h, ap (λ (y : IpLocationRecord). y.ip_from) e)
later-from a r (b ∷ rest) h (p, (q, s)) (tail i) =
    let l = later-from b r rest (apart-tail a (b ∷ rest) h) (q, s) i in
    let m : a.ip_to ≤ b.ip_from = ground (arith, h) in omega (arith, l, m, q)

upper_bound-in :
    (ip : ℕ) (store : List IpLocationRecord) (r : IpLocationRecord)
    → upper_bound ip store ≡ some r
    → Memᴰ r store × (ip < r.ip_to)
upper_bound-in ip [] r h = ground (arith, h)
upper_bound-in ip (x ∷ rest) r h = elim (Bool-cases (ltb ip x.ip_to)) [
  | inl q ↦
      (let e : x ≡ r = ground (arith, h, q) in
        (
          subst (λ y. Memᴰ y (x ∷ rest)) e (head refl),
          subst (λ (y : IpLocationRecord). ip < y.ip_to) e (ltb→lt ip x.ip_to q),
        ))
  | inr q ↦ (let (i, l) = upper_bound-in ip rest r (ground (arith, h, q)) in (tail i, l))
]

covered-found :
    (ip : ℕ) (store : List IpLocationRecord) (r : IpLocationRecord)
    → are_apart store ≡ true
    → AreRanges store
    → Memᴰ r store
    → Covers r ip
    → upper_bound ip store ≡ some r
covered-found ip [] r h p i c = elim i [ ]
covered-found ip (x ∷ rest) r h p (head e) (a, b) =
    ground (arith, e, lt→ltb ip r.ip_to b, ap (λ (y : IpLocationRecord). ltb ip y.ip_to) e)
covered-found ip (x ∷ rest) r h (p, q) (tail i) (a, b) =
    let l = later-from x r rest h (p, q) i in
    let m = covered-found ip rest r (apart-tail x rest h) q i (a, b) in ground (arith, l, m, a)

-- In a table whose records do not overlap and end where they begin or later, the record that is
-- found for an address is the one that has it between its begin, included, and its end, excluded.
pub location_iff :
    (ip : ℕ) (store : List IpLocationRecord) (r : IpLocationRecord)
    → are_apart store ≡ true
    → AreRanges store
    → (get_location_record (some ip) store ≡ some r) ↔ (Memᴰ r store × Covers r ip)
unfolding get_location_record
location_iff ip store r h p = (
  λ e. found e,
  λ c. let (i, (a, b)) = c in ground (arith, covered-found ip store r h p i (a, b), a),
)
  where
    found : get_location_record (some ip) store ≡ some r → Memᴰ r store × Covers r ip
    found e = elim (Option-cases (upper_bound ip store)) [
      | inl n ↦ ground (arith, e, n)
      | inr (x, n) ↦
          (let (i, l) = upper_bound-in ip store x n in
            let y : x ≡ r = ground (arith, e, n) in
            let f : x.ip_from ≤ ip = ground (arith, e, n) in
            subst (λ z. Memᴰ z store × Covers z ip) y (i, (f, l)))
    ]
