-- ===== src/Updater/Settle/Twice.antt =====
-- The table after Update, and a second Update.
use mmo_wow.Prelude.{
  ℕ, ◌≡◌, refl, sym, ap, ◌∙◌, true, false, List, [], ◌∷◌, some, inl, inr, length, arith, Bool-cases,
  Option-cases,
}
use mathlib.Core.Path.{subst}
use mmo_wow.Prelude.Bytes.{bytes_eq, bytes_eq_refl}
use mmo_wow.Updater.{
  Row, File, Settings, Database, UpdateResult, Progress, update_files, does_clean_up, finish_update,
  update, clean_up,
}
use mmo_wow.Updater.Decide.{runs}
use mmo_wow.Updater.Follow.{AreDistinct, to_run, begun}
use mmo_wow.Updater.Table.{AreRows, find-cleaned}
use mmo_wow.Updater.Settle.Loop.{AreApart, AreSettled, AreGone, files-Loop, start-AreReady}

settled-cleaned :
    (hash_of : List ℕ → List ℕ) (c : Settings) (available : List File) (first : List Row)
    (q : Progress) (files : List File)
    → AreSettled hash_of q.database.table files
    → AreGone hash_of c available first q.applied files
    → AreSettled hash_of (finish_update c q).table files
unfolding finish_update clean_up
settled-cleaned hash_of c available first q [] s g = refl
settled-cleaned hash_of c available first q (f ∷ files) (s, ss) (g, gs) = (
  elim (Bool-cases (does_clean_up c.clean_max_count (length q.applied))) [
    | inl y ↦ record {
      text = s.text;
      text-eq = s.text-eq;
      row = s.row;
      row-eq = ground (arith, y, find-cleaned f.file_name q.applied q.database.table g, s.row-eq);
      hash-eq = s.hash-eq;
    }
    | inr y ↦ record {
      text = s.text;
      text-eq = s.text-eq;
      row = s.row;
      row-eq = ground (arith, y, s.row-eq);
      hash-eq = s.hash-eq;
    }
  ],
  settled-cleaned hash_of c available first q files ss gs,
)

settled-idle :
    (hash_of : List ℕ → List ℕ) (c : Settings) (available : List File) (table : List Row)
    (files : List File)
    → AreSettled hash_of table files
    → to_run hash_of c available table files ≡ []
settled-idle hash_of c available table [] s = refl
settled-idle hash_of c available table (f ∷ files) (s, ss) =
    let b : bytes_eq s.row.hash (hash_of s.text) ≡ true =
      ap (bytes_eq s.row.hash) (sym s.hash-eq) ∙ bytes_eq_refl s.row.hash in
    let x : runs hash_of c available table f ≡ false = ground (arith, s.text-eq, s.row-eq, b) in
    ground (arith, x, settled-idle hash_of c available table files ss)

-- If the names of the rows, the names of the files and their hashes are distinct, then after an
-- Update with all checks that ends without an exception every file has a row with its hash, and by
-- those rows no file is to be run again.
pub update_settles :
    (hash_of : List ℕ → List ℕ) (c : Settings) (available : List File) (db db' : Database)
    (result : UpdateResult)
    → AreRows db.table
    → AreDistinct available
    → AreApart hash_of available
    → c.redundancy_checks ≡ true
    → c.archived_redundancy ≡ true
    → update hash_of c available db ≡ some (db', result)
    → AreSettled hash_of db'.table available × (to_run hash_of c available db'.table available ≡ [])
unfolding update
update_settles hash_of c available db db' result d n h rc ar e =
    elim (Option-cases (update_files hash_of c available db.table available (begun db))) [
      | inl y ↦ ground (arith, e, y)
      | inr (q, y) ↦
          (let i =
              files-Loop hash_of c available db.table available (begun db) q d rc ar n h (λ k z. z)
                (start-AreReady hash_of c available db.table available (begun db) refl refl) y in
            let x : finish_update c q ≡ db' = ground (arith, e, y) in
            let s = settled-cleaned hash_of c available db.table q available i.settled i.all_gone in
            let t : AreSettled hash_of db'.table available =
              subst (λ (z : Database). AreSettled hash_of z.table available) x s in
            (t, settled-idle hash_of c available db'.table available t))
    ]
