-- ===== src/Updater/Table.antt =====
-- The rows of the table after each of its statements.
use mmo_wow.Prelude.{
  ℕ, ◌≡◌, ◌≢◌, refl, sym, ap, ◌∙◌, true, false, List, [], ◌∷◌, ◌++◌, none, some, inl, inr, arith,
  Bool-cases,
}
use mmo_wow.Prelude.Bytes.{bytes_eq, bytes_eq→eq, bytes_eq_refl}
use mmo_wow.Updater.{
  State, Row, find_row, erase_row, name_of_hash, rename_rows, set_state, erase_rows,
}
use mmo_wow.Updater.Decide.{find-erased}

-- The names are the primary key.
abbrev pub AreRows : List Row → Type 0
AreRows [] = true ≡ true
AreRows (r ∷ rows) = (find_row r.name rows ≡ none) × AreRows rows

pub bytes_ne : (n m : List ℕ) → n ≢ m → bytes_eq n m ≡ false
bytes_ne n m h = elim (Bool-cases (bytes_eq n m)) [
  | inl q ↦ absurd (h (bytes_eq→eq n m q))
  | inr q ↦ q
]

pub find-erase : (n : List ℕ) (rows : List Row) → find_row n (erase_row n rows) ≡ none
find-erase n [] = refl
find-erase n (r ∷ rows) = elim (Bool-cases (bytes_eq r.name n)) [
  | inl q ↦ ground (arith, q, find-erase n rows)
  | inr q ↦ ground (arith, q, find-erase n rows)
]

pub find-name : (n : List ℕ) (rows : List Row) (r : Row) → find_row n rows ≡ some r → r.name ≡ n
find-name n [] r h = ground (arith, h)
find-name n (x ∷ rows) r h = elim (Bool-cases (bytes_eq x.name n)) [
  | inl q ↦
      (let e : x ≡ r = ground (arith, h, q) in
        ap (λ (y : Row). y.name) (sym e) ∙ bytes_eq→eq x.name n q)
  | inr q ↦ find-name n rows r (ground (arith, h, q))
]

pub find-append_none :
    (n : List ℕ) (xs ys : List Row) → find_row n xs ≡ none → find_row n (xs ++ ys) ≡ find_row n ys
find-append_none n [] ys h = refl
find-append_none n (x ∷ xs) ys h = elim (Bool-cases (bytes_eq x.name n)) [
  | inl q ↦ ground (arith, h, q)
  | inr q ↦ ground (arith, q, find-append_none n xs ys (ground (arith, h, q)))
]

pub find-append_other :
    (n : List ℕ) (xs : List Row) (r : Row)
    → r.name ≢ n
    → find_row n (xs ++ (r ∷ [])) ≡ find_row n xs
find-append_other n [] r h = ground (arith, bytes_ne r.name n h)
find-append_other n (x ∷ xs) r h = ground (arith, find-append_other n xs r h)

-- `REPLACE` puts the row, and leaves the others.
pub find-replaced :
    (rows : List Row) (r : Row) → find_row r.name (erase_row r.name rows ++ (r ∷ [])) ≡ some r
find-replaced rows r =
    find-append_none r.name (erase_row r.name rows) (r ∷ []) (find-erase r.name rows)
    ∙ ground (arith, bytes_eq_refl r.name)

pub find-replaced_other :
    (n : List ℕ) (rows : List Row) (r : Row)
    → n ≢ r.name
    → find_row n (erase_row r.name rows ++ (r ∷ [])) ≡ find_row n rows
find-replaced_other n rows r h =
    find-append_other n (erase_row r.name rows) r (λ e. h (sym e)) ∙ find-erased n r.name rows h

-- Setting a state keeps names and hashes.
pub find-set_state :
    (n m : List ℕ) (s : State) (rows : List Row) (r : Row)
    → find_row n rows ≡ some r
    → (x : Row) × (find_row n (set_state m s rows) ≡ some x) × (x.hash ≡ r.hash)
find-set_state n m s [] r h = ground (arith, h)
find-set_state n m s (y ∷ rows) r h = elim (Bool-cases (bytes_eq y.name m)) [
  | inl p ↦ elim (Bool-cases (bytes_eq y.name n)) [
    | inl q ↦ (record y { state = s }, ground (arith, p, q), ground (arith, h, q))
    | inr q ↦
        (let (x, e, f) = find-set_state n m s rows r (ground (arith, h, q)) in
          (x, ground (arith, p, q, e), f))
  ]
  | inr p ↦ elim (Bool-cases (bytes_eq y.name n)) [
    | inl q ↦ (y, ground (arith, p, q), ground (arith, h, q))
    | inr q ↦
        (let (x, e, f) = find-set_state n m s rows r (ground (arith, h, q)) in
          (x, ground (arith, p, q, e), f))
  ]
]

-- Renaming leaves the names that are neither the old nor the new one.
pub find-renamed_other :
    (n from to : List ℕ) (rows : List Row)
    → n ≢ from
    → n ≢ to
    → find_row n (rename_rows from to rows) ≡ find_row n rows
find-renamed_other n from to [] h k = refl
find-renamed_other n from to (y ∷ rows) h k =
    let i = find-renamed_other n from to rows h k in
    elim (Bool-cases (bytes_eq y.name from)) [
      | inl p ↦
          (let e : y.name ≡ from = bytes_eq→eq y.name from p in
            let a : bytes_eq y.name n ≡ false = bytes_ne y.name n (λ q. h (sym q ∙ e)) in
            let b : bytes_eq to n ≡ false = bytes_ne to n (λ q. k (sym q)) in
            ground (arith, p, a, b, i))
      | inr p ↦ ground (arith, p, i)
    ]

-- A row that is renamed to a free name is found under it.
pub find-renamed :
    (from to : List ℕ) (rows : List Row) (r : Row)
    → find_row to rows ≡ none
    → find_row from rows ≡ some r
    → find_row to (rename_rows from to rows) ≡ some (record r { name = to })
find-renamed from to [] r h k = ground (arith, k)
find-renamed from to (y ∷ rows) r h k = elim (Bool-cases (bytes_eq y.name from)) [
  | inl p ↦ ground (arith, p, k, bytes_eq_refl to)
  | inr p ↦
      (let q : bytes_eq y.name to ≡ false = elim (Bool-cases (bytes_eq y.name to)) [
        | inl z ↦ ground (arith, h, z)
        | inr z ↦ z
      ] in
        let i = find-renamed from to rows r (ground (arith, h, q)) (ground (arith, k, p)) in
        ground (arith, p, q, i))
]

-- A clean-up of rows leaves a name that is not among them.
pub find-cleaned :
    (n : List ℕ) (rows table : List Row)
    → find_row n rows ≡ none
    → find_row n (erase_rows rows table) ≡ find_row n table
find-cleaned n [] table h = refl
find-cleaned n (r ∷ rows) table h = elim (Bool-cases (bytes_eq r.name n)) [
  | inl q ↦ ground (arith, h, q)
  | inr q ↦
      find-cleaned n rows (erase_row r.name table) (ground (arith, h, q))
      ∙ find-erased n r.name table
          (λ e. ground (arith, q, ap (λ z. bytes_eq z n) (sym e), bytes_eq_refl n))
]

-- The name that is kept for a hash is that of a row with the hash.
pub name_of_hash-row :
    (hash : List ℕ) (rows : List Row) (name : List ℕ)
    → AreRows rows
    → name_of_hash hash rows ≡ some name
    → (r : Row) × (find_row name rows ≡ some r) × (r.hash ≡ hash)
name_of_hash-row hash [] name d h = ground (arith, h)
name_of_hash-row hash (x ∷ rows) name (n, d) h = elim (Bool-cases (bytes_eq x.hash hash)) [
  | inl q ↦
      (let e : x.name ≡ name = ground (arith, h, q) in
        (
          x,
          ground (arith, ap (λ z. bytes_eq x.name z) e, bytes_eq_refl x.name),
          bytes_eq→eq x.hash hash q,
        ))
  | inr q ↦
      (let (r, f, g) = name_of_hash-row hash rows name d (ground (arith, h, q)) in
        let z : bytes_eq x.name name ≡ false = elim (Bool-cases (bytes_eq x.name name)) [
          | inl y ↦ ground (arith, n, f, ap (λ w. find_row w rows) (bytes_eq→eq x.name name y))
          | inr y ↦ y
        ] in
        (r, ground (arith, z, f), g))
]

pub find-set_state_other :
    (n m : List ℕ) (s : State) (rows : List Row)
    → n ≢ m
    → find_row n (set_state m s rows) ≡ find_row n rows
find-set_state_other n m s [] h = refl
find-set_state_other n m s (y ∷ rows) h =
    let i = find-set_state_other n m s rows h in
    elim (Bool-cases (bytes_eq y.name m)) [
      | inl p ↦
          (let e : y.name ≡ m = bytes_eq→eq y.name m p in
            let a : bytes_eq y.name n ≡ false = bytes_ne y.name n (λ q. h (sym q ∙ e)) in
            ground (arith, p, a, i))
      | inr p ↦ ground (arith, p, i)
    ]

-- A name without a row is without one after any row is erased.
pub find-erased_none :
    (n m : List ℕ) (rows : List Row) → find_row n rows ≡ none → find_row n (erase_row m rows) ≡ none
find-erased_none n m [] h = refl
find-erased_none n m (y ∷ rows) h = elim (Bool-cases (bytes_eq y.name n)) [
  | inl p ↦ ground (arith, h, p)
  | inr p ↦ ground (arith, p, find-erased_none n m rows (ground (arith, h, p)))
]
