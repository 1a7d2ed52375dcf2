-- ===== src/Updater/Settle.antt =====
-- What a round leaves in the table for its file and for the others.
pub mod Loop
pub mod Twice
use mmo_wow.Prelude.{
  ℕ, zero, suc, ◌≡◌, ◌≢◌, refl, sym, ap, ◌∙◌, Bool, true, false, not, ◌&&◌, ◌||◌, List, [], ◌∷◌,
  ◌++◌, Option, none, some, ◌⊎◌, inl, inr, if◌then◌else◌, arith, Bool-cases, Option-cases,
}
use mathlib.Core.Path.{subst}
use mmo_wow.Prelude.Bytes.{bytes_eq, bytes_eq→eq, bytes_eq_refl}
use mmo_wow.Updater.{
  State, state_eq, Row, File, Settings, Database, find_row, erase_row, name_of_hash, is_available,
  Progress, erased, row_of, import_file, unseen_file, seen_file, is_skipped, update_file,
  update_entry, update_state, rename_entry, apply, rename_rows, set_state,
}
use mmo_wow.Updater.Decide.{find-erased}
use mmo_wow.Updater.Table.{
  AreRows, find-erase, find-replaced, find-replaced_other, find-set_state, find-set_state_other,
  find-renamed, find-renamed_other, name_of_hash-row, find-erased_none,
}

module _ (hash_of : List ℕ → List ℕ) where
  -- The table has a row for the file, with its hash.
  pub record HasRow (table : List Row) (f : File) : Type 0 where
    pub text : List ℕ
    pub text-eq : f.content ≡ some text
    pub row : Row
    pub row-eq : find_row f.file_name table ≡ some row
    pub hash-eq : row.hash ≡ hash_of text

module _ (hash_of : List ℕ → List ℕ) (c : Settings) (available : List File) (first : List Row) where
  -- What a round leaves: the row of its file, the rows of other names, except one that it renames,
  -- and nothing more to be seen of its file.
  pub record Effect (f : File) (p q : Progress) : Type 0 where
    pub has : HasRow hash_of q.database.table f
    pub keeps :
        (n : List ℕ)
        → n ≢ f.file_name
        → ((text : List ℕ)
            → f.content ≡ some text
            → (is_available n available ≡ true) ⊎ (name_of_hash (hash_of text) first ≢ some n))
        → find_row n q.database.table ≡ find_row n p.database.table
    pub gone : find_row f.file_name q.applied ≡ none

  -- the table and the applied rows are right for the file
  pub record IsReady (f : File) (p : Progress) : Type 0 where
    pub applied-eq : find_row f.file_name p.applied ≡ find_row f.file_name first
    pub table-eq : find_row f.file_name p.database.table ≡ find_row f.file_name first
    pub old-eq :
        (text old : List ℕ)
        → f.content ≡ some text
        → name_of_hash (hash_of text) first ≡ some old
        → is_available old available ≡ false
        → find_row old p.database.table ≡ find_row old first

  import-Effect :
      (f : File) (text : List ℕ) (p : Progress)
      → f.content ≡ some text
      → Effect f p (import_file hash_of c available first f text p)
  unfolding import_file update_entry apply
  import-Effect f text p e = record {
    has = record {
      text = text;
      text-eq = e;
      row = row_of hash_of c available first f text;
      row-eq = find-replaced p.database.table (row_of hash_of c available first f text);
      hash-eq = refl;
    };
    keeps =
        λ n h k. find-replaced_other n p.database.table (row_of hash_of c available first f text) h;
    gone = find-erase f.file_name p.applied;
  }

  rehash-Effect :
      (f : File) (text : List ℕ) (p : Progress)
      → f.content ≡ some text
      → Effect f p (
          erased f.file_name (record p {
            database = update_entry (row_of hash_of c available first f text) p.database;
          }))
  unfolding update_entry
  rehash-Effect f text p e = record {
    has = record {
      text = text;
      text-eq = e;
      row = row_of hash_of c available first f text;
      row-eq = find-replaced p.database.table (row_of hash_of c available first f text);
      hash-eq = refl;
    };
    keeps =
        λ n h k. find-replaced_other n p.database.table (row_of hash_of c available first f text) h;
    gone = find-erase f.file_name p.applied;
  }

  kept-Effect :
      (f : File) (text : List ℕ) (r : Row) (p : Progress)
      → f.content ≡ some text
      → find_row f.file_name p.database.table ≡ some r
      → r.hash ≡ hash_of text
      → Effect f p (erased f.file_name p)
  kept-Effect f text r p e h g = record {
    has = record { text = text; text-eq = e; row = r; row-eq = h; hash-eq = g };
    keeps = λ n h k. refl;
    gone = find-erase f.file_name p.applied;
  }

  state-Effect :
      (f : File) (text : List ℕ) (r : Row) (p : Progress)
      → f.content ≡ some text
      → find_row f.file_name p.database.table ≡ some r
      → r.hash ≡ hash_of text
      → Effect f p (
          erased f.file_name
            (record p { database = update_state f.file_name f.directory_state p.database }))
  unfolding update_state
  state-Effect f text r p e h g =
      let (x, a, b) =
        find-set_state f.file_name f.file_name f.directory_state p.database.table r h in
      record {
        has = record { text = text; text-eq = e; row = x; row-eq = a; hash-eq = b ∙ g };
        keeps = λ n h k. find-set_state_other n f.file_name f.directory_state p.database.table h;
        gone = find-erase f.file_name p.applied;
      }

  rename-Effect :
      (f : File) (text old : List ℕ) (p : Progress)
      → AreRows first
      → IsReady f p
      → is_available f.file_name available ≡ true
      → f.content ≡ some text
      → find_row f.file_name first ≡ none
      → name_of_hash (hash_of text) first ≡ some old
      → is_available old available ≡ false
      → Effect f p (record p {
        database = rename_entry old f.file_name p.database;
        applied = erase_row old p.applied;
      })
  unfolding rename_entry
  rename-Effect f text old p d i a e n o v =
      let (r, x, y) = name_of_hash-row (hash_of text) first old d o in
      let ne : old ≢ f.file_name =
        λ z. ground (arith, a, v, ap (λ w. is_available w available) z) in
      let b : find_row old (erase_row f.file_name p.database.table) ≡ some r =
        find-erased old f.file_name p.database.table ne ∙ (i.old-eq text old e o v ∙ x) in
      record {
        has = record {
          text = text;
          text-eq = e;
          row = record r { name = f.file_name };
          row-eq =
              find-renamed old f.file_name (erase_row f.file_name p.database.table) r
                (find-erase f.file_name p.database.table) b;
          hash-eq = y;
        };
        keeps = λ n h k.
            find-renamed_other n old f.file_name (erase_row f.file_name p.database.table)
              (λ z. elim (k text e) [
                | inl t ↦ ground (arith, t, v, ap (λ w. is_available w available) z)
                | inr t ↦ absurd (t (o ∙ ap some (sym z)))
              ])
              h
            ∙ find-erased n f.file_name p.database.table h;
        gone = find-erased_none f.file_name old p.applied (i.applied-eq ∙ n);
      }

  -- A round at which the file is ready, with all checks.
  pub update_file-Effect :
      (f : File) (p q : Progress)
      → AreRows first
      → c.redundancy_checks ≡ true
      → c.archived_redundancy ≡ true
      → is_available f.file_name available ≡ true
      → IsReady f p
      → update_file hash_of c available first f p ≡ some q
      → Effect f p q
  unfolding update_file unseen_file seen_file
  update_file-Effect f p q d rc ar a i e = elim (Option-cases f.content) [
    | inl x ↦ elim (Option-cases (find_row f.file_name first)) [
      | inl n ↦ ground (arith, i.applied-eq, e, n, x)
      | inr (r, n) ↦ ground (arith, i.applied-eq, e, n, x, rc, ar)
    ]
    | inr (text, x) ↦ elim (Option-cases (find_row f.file_name first)) [
      | inl n ↦ unseen text x n
      | inr (r, n) ↦ seen text r x n
    ]
  ]
    where
      unseen :
          (text : List ℕ) → f.content ≡ some text → find_row f.file_name first ≡ none → Effect f p q
      unseen text x n = elim (Option-cases (name_of_hash (hash_of text) first)) [
        | inl o ↦
            (let h : import_file hash_of c available first f text p ≡ q =
                ground (arith, i.applied-eq, e, n, x, o) in
              subst (Effect f p) h (import-Effect f text p x))
        | inr (old, o) ↦ elim (Bool-cases (is_available old available)) [
          | inl v ↦
              (let h : import_file hash_of c available first f text p ≡ q =
                  ground (arith, i.applied-eq, e, n, x, o, v) in
                subst (Effect f p) h (import-Effect f text p x))
          | inr v ↦
              (let h : record p {
                database = rename_entry old f.file_name p.database;
                applied = erase_row old p.applied;
              }
                    ≡ q =
                  ground (arith, i.applied-eq, e, n, x, o, v) in
                subst (Effect f p) h (rename-Effect f text old p d i a x n o v))
        ]
      ]

      seen :
          (text : List ℕ) (r : Row)
          → f.content ≡ some text
          → find_row f.file_name first ≡ some r
          → Effect f p q
      seen text r x n =
          let s : is_skipped c f r ≡ false = ground (arith, rc, ar) in
          let g : seen_file hash_of c available first f text r p ≡ q =
            ground (arith, i.applied-eq, e, n, x, s) in
          elim (Bool-cases (c.allow_rehash && bytes_eq r.hash [])) [
            | inl y ↦
                (let h : erased f.file_name (record p {
                  database = update_entry (row_of hash_of c available first f text) p.database;
                })
                      ≡ q =
                    ground (arith, g, y) in
                  subst (Effect f p) h (rehash-Effect f text p x))
            | inr y ↦ elim (Bool-cases (bytes_eq r.hash (hash_of text))) [
              | inr z ↦
                  (let h : import_file hash_of c available first f text p ≡ q =
                      ground (arith, g, y, z) in
                    subst (Effect f p) h (import-Effect f text p x))
              | inl z ↦ elim (Bool-cases (state_eq r.state f.directory_state)) [
                | inl w ↦
                    (let h : erased f.file_name p ≡ q = ground (arith, g, y, z, w) in
                      subst (Effect f p) h (
                        kept-Effect f text r p x (i.table-eq ∙ n)
                          (bytes_eq→eq r.hash (hash_of text) z)))
                | inr w ↦
                    (let h : erased f.file_name (record p {
                      database = update_state f.file_name f.directory_state p.database;
                    })
                          ≡ q =
                        ground (arith, g, y, z, w) in
                      subst (Effect f p) h (
                        state-Effect f text r p x (i.table-eq ∙ n)
                          (bytes_eq→eq r.hash (hash_of text) z)))
              ]
            ]
          ]
