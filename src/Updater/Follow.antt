-- ===== src/Updater/Follow.antt =====
-- The files that Update runs, and its count of them.
use mmo_wow.Prelude.{
  ℕ, ◌+◌, ◌≡◌, refl, sym, ap, ◌∙◌, true, false, List, [], ◌∷◌, ◌++◌, append-nil, append_assoc, some,
  inl, inr, length, length-append, arith, Option-cases,
}
use mathlib.Core.Path.{subst}
use mmo_wow.Prelude.Bytes.{bytes_eq, bytes_eq_refl}
use mmo_wow.Updater.{
  Row, File, Settings, Database, UpdateResult, find_row, erase_row, is_available, Progress,
  update_file, update_files, finish_update, update, clean_up,
}
use mmo_wow.Updater.Decide.{run_names, update_file-Round, find-erased}

-- No two files have the same name.
abbrev pub AreDistinct : List File → Type 0
AreDistinct [] = true ≡ true
AreDistinct (f ∷ files) = (is_available f.file_name files ≡ false) × AreDistinct files

-- the rows of the files are as at the start
abbrev Agree : List Row → List Row → List File → Type 0
Agree first rows [] = true ≡ true
Agree first rows (f ∷ files) =
    (find_row f.file_name rows ≡ find_row f.file_name first) × Agree first rows files

Agree-erased :
    (first rows : List Row) (name : List ℕ) (files : List File)
    → is_available name files ≡ false
    → Agree first rows files
    → Agree first (erase_row name rows) files
Agree-erased first rows name [] h a = refl
Agree-erased first rows name (f ∷ files) h (e, a) = (
  find-erased f.file_name name rows
        (λ q. ground (arith, h, ap (λ n. bytes_eq n name) q, bytes_eq_refl name))
      ∙ e,
  Agree-erased first rows name files (ground (arith, h)) a,
)

Agree-refl : (rows : List Row) (files : List File) → Agree rows rows files
Agree-refl rows [] = refl
Agree-refl rows (f ∷ files) = (refl, Agree-refl rows files)

module _ (hash_of : List ℕ → List ℕ) (c : Settings) (available : List File) (first : List Row) where
  -- the names of the files that are to be run, in order
  abbrev pub to_run : List File → List (List ℕ)
  to_run [] = []
  to_run (f ∷ files) = run_names hash_of c available first f ++ to_run files

  files-run :
      (files : List File) (p q : Progress)
      → AreDistinct files
      → ((name : List ℕ) → is_available name available ≡ false → is_available name files ≡ false)
      → Agree first p.applied files
      → update_files hash_of c available first files p ≡ some q
      → (q.database.ran ≡ p.database.ran ++ to_run files)
        × (q.imported ≡ p.imported + length (to_run files))
  unfolding update_files
  files-run [] p q d w a e = (ground (arith, e, append-nil p.database.ran), ground (arith, e))
  files-run (f ∷ files) p q (n, d) w (x, a) e =
      elim (Option-cases (update_file hash_of c available first f p)) [
        | inl y ↦ ground (arith, e, y)
        | inr (m, y) ↦
            (let r = update_file-Round hash_of c available first f p m x y in
              let b : Agree first m.applied files = elim r.erased-eq [
                | inl z ↦
                    subst (λ (rows : List Row). Agree first rows files) (sym z)
                      (Agree-erased first p.applied f.file_name files n a)
                | inr (old, v, z) ↦
                    subst (λ (rows : List Row). Agree first rows files) (sym z)
                      (Agree-erased first p.applied old files (ground (arith, w old v)) a)
              ] in
              let (s, t) =
                files-run files m q d (λ name h. ground (arith, w name h)) b
                  (ground (arith, e, y)) in
              (
                s
                    ∙ (ap (λ xs. xs ++ to_run files) r.ran-eq
                        ∙ append_assoc p.database.ran (run_names hash_of c available first f)
                            (to_run files)),
                omega (
                  arith,
                  t,
                  r.count-eq,
                  length-append (run_names hash_of c available first f) (to_run files),
                ),
              ))
      ]

abbrev pub begun : Database → Progress
begun db = record { database = db; applied = db.table; imported = 0 }

finish-ran : (c : Settings) (p : Progress) → (finish_update c p).ran ≡ p.database.ran
unfolding finish_update clean_up
finish-ran c p = ground arith

-- If no two files have the same name and Update ends without an exception, it has run exactly the
-- files, in their order, that are to be run by the rows at its start: those that are new, and those
-- with a changed hash that are neither skipped nor only hashed again; and it reports their number.
pub update-runs :
    (hash_of : List ℕ → List ℕ) (c : Settings) (available : List File) (db db' : Database)
    (result : UpdateResult)
    → AreDistinct available
    → update hash_of c available db ≡ some (db', result)
    → (db'.ran ≡ db.ran ++ to_run hash_of c available db.table available)
      × (result.updated ≡ length (to_run hash_of c available db.table available))
unfolding update
update-runs hash_of c available db db' result d e =
    elim (Option-cases (update_files hash_of c available db.table available (begun db))) [
      | inl n ↦ ground (arith, e, n)
      | inr (q, n) ↦
          (let (s, t) =
              files-run hash_of c available db.table available (begun db) q d (λ name h. h)
                (Agree-refl db.table available) n in
            let x : finish_update c q ≡ db' = ground (arith, e, n) in
            let y : q.imported ≡ result.updated = ground (arith, e, n) in
            (ap (λ (z : Database). z.ran) (sym x) ∙ (finish-ran c q ∙ s), omega (arith, sym y, t)))
    ]
