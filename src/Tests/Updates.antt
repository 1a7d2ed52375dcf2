-- ===== src/Tests/Updates.antt =====
-- Runs of the theorems on the update of a database: one file is changed, one is renamed, one is new.
use mmo_wow.Prelude.{◌≡◌, refl, true, List, [], ◌∷◌, none, some}
use mmo_wow.Updater.{Row, File, Settings, Database, UpdateResult, released, archived, update}
use mmo_wow.Prelude.{arith}
use mmo_wow.Updater.Settle.Loop.{AreApart, AreSettled}
use mmo_wow.Updater.Settle.Twice.{update_settles}
use mmo_wow.Updater.Follow.{to_run}

abbrev rows : List Row
rows =
    record { name = 1 ∷ []; hash = 11 ∷ []; state = released }
    ∷ record { name = 2 ∷ []; hash = 12 ∷ []; state = archived }
    ∷ []

abbrev files : List File
files =
    record { file_name = 1 ∷ []; directory_state = released; content = some (21 ∷ []) }
    ∷ record { file_name = 3 ∷ []; directory_state = released; content = some (12 ∷ []) }
    ∷ record { file_name = 4 ∷ []; directory_state = released; content = some (14 ∷ []) }
    ∷ []

abbrev settings : Settings
settings = record {
  redundancy_checks = true;
  allow_rehash = true;
  archived_redundancy = true;
  clean_max_count = none;
}

abbrev before : Database
before = record { table = rows; ran = [] }

abbrev after : Database
after = record {
  table =
      record { name = 3 ∷ []; hash = 12 ∷ []; state = archived }
      ∷ record { name = 1 ∷ []; hash = 21 ∷ []; state = released }
      ∷ record { name = 4 ∷ []; hash = 14 ∷ []; state = released }
      ∷ [];
  ran = (1 ∷ []) ∷ (4 ∷ []) ∷ [];
}

abbrev counts : UpdateResult
counts = record { updated = 2; recent = 1; archived_count = 1 }

update-eq : update (λ text. text) settings files before ≡ some (after, counts)
unfolding update
update-eq = refl

files-AreApart : AreApart (λ text. text) files
files-AreApart =
    (λ text e. ground (arith, e), (λ text e. ground (arith, e), (λ text e. refl, refl)))

update_settles_example :
    AreSettled (λ text. text) after.table files
    × (to_run (λ text. text) settings files after.table files ≡ [])
update_settles_example =
    update_settles (λ text. text) settings files before after counts (refl, (refl, refl))
      (refl, (refl, (refl, refl))) files-AreApart refl refl update-eq
