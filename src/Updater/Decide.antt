-- ===== src/Updater/Decide.antt =====
-- Which files are run: what a round of the loop does, by the rows that the table has at the start.
use mmo_wow.Prelude.{
  ℕ, ◌+◌, ◌≡◌, ◌≢◌, refl, sym, ◌∙◌, Bool, true, false, not, ◌&&◌, List, [], ◌∷◌, ◌++◌, append-nil,
  Option, none, some, ◌⊎◌, inl, inr, if◌then◌else◌, length, arith, Bool-cases, Option-cases,
}
use mathlib.Core.Path.{subst}
use mmo_wow.Prelude.Bytes.{bytes_eq, bytes_eq→eq}
use mmo_wow.Updater.{
  Row, File, Settings, find_row, erase_row, name_of_hash, is_available, Progress, erased,
  import_file, unseen_file, seen_file, is_skipped, update_file, update_entry, update_state,
  rename_entry, apply,
}

-- A file without a row is run unless a row of its hash belongs to a file that is gone.
abbrev pub is_new : List ℕ → List Row → List File → Bool
is_new hash first available = elim (name_of_hash hash first) [
  | none ↦ true
  | some old ↦ is_available old available
]

-- A file with a row is run if its hash has changed.
abbrev pub has_changed : Settings → Row → List ℕ → Bool
has_changed c r hash = not (c.allow_rehash && bytes_eq r.hash []) && not (bytes_eq r.hash hash)

-- whether a file is run
abbrev pub runs_text :
    (List ℕ → List ℕ) → Settings → List File → List Row → Option Row → File → List ℕ → Bool
runs_text hash_of c available first none f text = is_new (hash_of text) first available
runs_text hash_of c available first (some r) f text =
    not (is_skipped c f r) && has_changed c r (hash_of text)

abbrev pub runs : (List ℕ → List ℕ) → Settings → List File → List Row → File → Bool
runs hash_of c available first f = elim f.content [
  | none ↦ false
  | some text ↦ runs_text hash_of c available first (find_row f.file_name first) f text
]

pub find-erased :
    (n m : List ℕ) (rows : List Row) → n ≢ m → find_row n (erase_row m rows) ≡ find_row n rows
find-erased n m [] h = refl
find-erased n m (r ∷ rows) h = elim (Bool-cases (bytes_eq r.name m)) [
  | inl q ↦
      (let e : r.name ≡ m = bytes_eq→eq r.name m q in
        let d : (bytes_eq r.name n ≡ true) → n ≡ m = λ x. sym (bytes_eq→eq r.name n x) ∙ e in
        elim (Bool-cases (bytes_eq r.name n)) [
          | inl y ↦ absurd (h (d y))
          | inr y ↦ ground (arith, q, y, find-erased n m rows h)
        ])
  | inr q ↦ ground (arith, q, find-erased n m rows h)
]

module _ (hash_of : List ℕ → List ℕ) (c : Settings) (available : List File) (first : List Row) where
  -- the names of the files that a round runs
  abbrev pub run_names : File → List (List ℕ)
  run_names f = if runs hash_of c available first f then f.file_name ∷ [] else []

  -- What a round does: it runs the file or not, and takes a row off the applied ones, that of the
  -- file or of a file that is gone.
  pub record Round (f : File) (p q : Progress) : Type 0 where
    pub ran-eq : q.database.ran ≡ p.database.ran ++ run_names f
    pub count-eq : q.imported ≡ p.imported + length (run_names f)
    pub erased-eq :
        (q.applied ≡ erase_row f.file_name p.applied)
        ⊎ ((old : List ℕ) × (is_available old available ≡ false)
            × (q.applied ≡ erase_row old p.applied))

  unseen-Round :
      (f : File) (p : Progress) (text : List ℕ)
      → f.content ≡ some text
      → find_row f.file_name first ≡ none
      → Round f p (unseen_file hash_of c available first f text p)
  unfolding unseen_file import_file update_entry rename_entry apply
  unseen-Round f p text e n = elim (Option-cases (name_of_hash (hash_of text) first)) [
    | inl x ↦ record {
      ran-eq = ground (arith, e, n, x);
      count-eq = ground (arith, e, n, x);
      erased-eq = inl (ground (arith, e, n, x));
    }
    | inr (old, x) ↦ elim (Bool-cases (is_available old available)) [
      | inl y ↦ record {
        ran-eq = ground (arith, e, n, x, y);
        count-eq = ground (arith, e, n, x, y);
        erased-eq = inl (ground (arith, e, n, x, y));
      }
      | inr y ↦ record {
        ran-eq = ground (arith, e, n, x, y, append-nil p.database.ran);
        count-eq = ground (arith, e, n, x, y);
        erased-eq = inr (old, y, ground (arith, e, n, x, y));
      }
    ]
  ]

  seen-Round :
      (f : File) (p : Progress) (text : List ℕ) (r : Row)
      → f.content ≡ some text
      → find_row f.file_name first ≡ some r
      → is_skipped c f r ≡ false
      → Round f p (seen_file hash_of c available first f text r p)
  unfolding seen_file import_file update_entry update_state apply
  seen-Round f p text r e n s = elim (Bool-cases (c.allow_rehash && bytes_eq r.hash [])) [
    | inl x ↦ record {
      ran-eq = ground (arith, e, n, s, x, append-nil p.database.ran);
      count-eq = ground (arith, e, n, s, x);
      erased-eq = inl (ground (arith, x));
    }
    | inr x ↦ elim (Bool-cases (bytes_eq r.hash (hash_of text))) [
      | inl y ↦ record {
        ran-eq = ground (arith, e, n, s, x, y, append-nil p.database.ran);
        count-eq = ground (arith, e, n, s, x, y);
        erased-eq = inl (ground (arith, x, y));
      }
      | inr y ↦ record {
        ran-eq = ground (arith, e, n, s, x, y);
        count-eq = ground (arith, e, n, s, x, y);
        erased-eq = inl (ground (arith, x, y));
      }
    ]
  ]

  -- A round at which the row of the file is still as at the start.
  pub update_file-Round :
      (f : File) (p q : Progress)
      → find_row f.file_name p.applied ≡ find_row f.file_name first
      → update_file hash_of c available first f p ≡ some q
      → Round f p q
  unfolding update_file
  update_file-Round f p q g e = elim (Option-cases (find_row f.file_name first)) [
    | inl n ↦ elim (Option-cases f.content) [
      | inl x ↦ ground (arith, g, e, n, x)
      | inr (text, x) ↦
          (let h : unseen_file hash_of c available first f text p ≡ q =
              ground (arith, g, e, n, x) in
            subst (Round f p) h (unseen-Round f p text x n))
    ]
    | inr (r, n) ↦ elim (Bool-cases (is_skipped c f r)) [
      | inl s ↦
          (let h : erased f.file_name p ≡ q = ground (arith, g, e, n, s) in
            subst (Round f p) h (record {
              ran-eq = not_run r n s;
              count-eq = count_kept r n s;
              erased-eq = inl refl;
            }))
      | inr s ↦ elim (Option-cases f.content) [
        | inl x ↦ ground (arith, g, e, n, s, x)
        | inr (text, x) ↦
            (let h : seen_file hash_of c available first f text r p ≡ q =
                ground (arith, g, e, n, s, x) in
              subst (Round f p) h (seen-Round f p text r x n s))
      ]
    ]
  ]
    where
      skipped :
          (r : Row)
          → find_row f.file_name first ≡ some r
          → is_skipped c f r ≡ true
          → runs hash_of c available first f ≡ false
      skipped r n s = elim (Option-cases f.content) [
        | inl x ↦ ground (arith, x)
        | inr (text, x) ↦ ground (arith, x, n, s)
      ]

      not_run :
          (r : Row)
          → find_row f.file_name first ≡ some r
          → is_skipped c f r ≡ true
          → (erased f.file_name p).database.ran ≡ p.database.ran ++ run_names f
      not_run r n s = ground (arith, skipped r n s, append-nil p.database.ran)

      count_kept :
          (r : Row)
          → find_row f.file_name first ≡ some r
          → is_skipped c f r ≡ true
          → p.imported ≡ p.imported + length (run_names f)
      count_kept r n s = ground (arith, skipped r n s)
