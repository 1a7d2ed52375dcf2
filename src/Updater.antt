-- ===== src/Updater.antt =====
-- Server/database/Updater/UpdateFetcher.cpp: which SQL files are run on a database, and the table
-- `updates` of the files that were. The files come in the order of their names; their hash is a
-- parameter, and names and hashes are texts.
pub mod Decide
pub mod Follow
pub mod Table
pub mod Settle
use mmo_wow.Prelude.{
  ℕ, zero, suc, ◌+◌, Bool, true, false, not, ◌&&◌, ◌||◌, List, [], ◌∷◌, ◌++◌, Option, none, some,
  ◌==◌, leb, if◌then◌else◌, length,
}
use mmo_wow.Prelude.Bytes.{bytes_eq}

-- `State`
pub data State : Type 0 where
  released : State
  archived : State

abbrev pub state_eq : State → State → Bool
state_eq released released = true
state_eq released archived = false
state_eq archived released = false
state_eq archived archived = true

-- a row of `updates`: `AppliedFileEntry`
pub record Row : Type 0 where
  pub name : List ℕ
  pub hash : List ℕ
  pub state : State

-- an available file: its name, the state of its directory, and its text, if it can be opened
pub record File : Type 0 where
  pub file_name : List ℕ
  pub directory_state : State
  pub content : Option (List ℕ)

-- the arguments of Update; a `cleanDeadReferencesMaxCount` below 0 is none
pub record Settings : Type 0 where
  pub redundancy_checks : Bool
  pub allow_rehash : Bool
  pub archived_redundancy : Bool
  pub clean_max_count : Option ℕ

-- The database: the table, and the names of the files that were run, oldest first.
pub record Database : Type 0 where
  pub table : List Row
  pub ran : List (List ℕ)

-- `find(name)`
abbrev pub find_row : List ℕ → List Row → Option Row
find_row name [] = none
find_row name (r ∷ rows) = if bytes_eq r.name name then some r else find_row name rows

-- `erase(name)`, and `DELETE ... WHERE name = ...`
abbrev pub erase_row : List ℕ → List Row → List Row
erase_row name [] = []
erase_row name (r ∷ rows) =
    if bytes_eq r.name name then erase_row name rows else r ∷ erase_row name rows

-- `hashToName.find(hash)`, filled from the rows in order
abbrev pub name_of_hash : List ℕ → List Row → Option (List ℕ)
name_of_hash hash [] = none
name_of_hash hash (r ∷ rows) = if bytes_eq r.hash hash then some r.name else name_of_hash hash rows

-- whether a file of that name is available
abbrev pub is_available : List ℕ → List File → Bool
is_available name [] = false
is_available name (f ∷ files) = bytes_eq f.file_name name || is_available name files

-- `UpdateEntry`: `REPLACE INTO updates`
unfoldable pub update_entry : Row → Database → Database
update_entry r db = record db { table = erase_row r.name db.table ++ (r ∷ []) }

abbrev pub rename_rows : List ℕ → List ℕ → List Row → List Row
rename_rows from to [] = []
rename_rows from to (r ∷ rows) =
    (if bytes_eq r.name from then record r { name = to } else r) ∷ rename_rows from to rows

-- `RenameEntry`
unfoldable pub rename_entry : List ℕ → List ℕ → Database → Database
rename_entry from to db = record db { table = rename_rows from to (erase_row to db.table) }

abbrev pub set_state : List ℕ → State → List Row → List Row
set_state name s [] = []
set_state name s (r ∷ rows) =
    (if bytes_eq r.name name then record r { state = s } else r) ∷ set_state name s rows

-- `UpdateState`
unfoldable pub update_state : List ℕ → State → Database → Database
update_state name s db = record db { table = set_state name s db.table }

-- `Apply`
unfoldable pub apply : List ℕ → Database → Database
apply name db = record db { ran = db.ran ++ (name ∷ []) }

-- `CleanUp`
abbrev pub erase_rows : List Row → List Row → List Row
erase_rows [] table = table
erase_rows (r ∷ rows) table = erase_rows rows (erase_row r.name table)

unfoldable pub clean_up : List Row → Database → Database
clean_up rows db = record db { table = erase_rows rows db.table }

-- What the loop keeps: the database, the applied files not yet seen, and the count of imports.
pub record Progress : Type 0 where
  pub database : Database
  pub applied : List Row
  pub imported : ℕ

-- `continue` after `applied.erase(name)`
abbrev pub erased : List ℕ → Progress → Progress
erased name p = record p { applied = erase_row name p.applied }

-- whether the checks of a file that is applied are left out
abbrev pub is_skipped : Settings → File → Row → Bool
is_skipped c f r =
    not c.redundancy_checks
    || not c.archived_redundancy && state_eq r.state archived && state_eq f.directory_state archived

module _ (hash_of : List ℕ → List ℕ) (c : Settings) (available : List File) (first : List Row) where
  abbrev pub row_of : File → List ℕ → Row
  row_of f text = record { name = f.file_name; hash = hash_of text; state = f.directory_state }

  -- MODE_APPLY, and what follows the switch
  unfoldable pub import_file : File → List ℕ → Progress → Progress
  unfolding update_entry apply
  import_file f text p = record p {
    database = update_entry (row_of f text) (apply f.file_name p.database);
    applied = erase_row f.file_name p.applied;
    imported = suc p.imported;
  }

  -- a file that is not among the applied ones
  unfoldable pub unseen_file : File → List ℕ → Progress → Progress
  unfolding import_file rename_entry
  unseen_file f text p = elim (name_of_hash (hash_of text) first) [
    | none ↦ import_file f text p
    | some old ↦
        (if is_available old available then import_file f text p else record p {
          database = rename_entry old f.file_name p.database;
          applied = erase_row old p.applied;
        })
  ]

  -- a file that is, with its row
  unfoldable pub seen_file : File → List ℕ → Row → Progress → Progress
  unfolding import_file update_entry update_state
  seen_file f text r p =
      if c.allow_rehash && bytes_eq r.hash []
      then erased f.file_name (record p { database = update_entry (row_of f text) p.database })
      else if not (bytes_eq r.hash (hash_of text))
      then import_file f text p
      else erased f.file_name (
          if state_eq r.state f.directory_state
          then p
          else record p { database = update_state f.file_name f.directory_state p.database })

  -- one round of the loop; no result is an UpdateException
  unfoldable pub update_file : File → Progress → Option Progress
  unfolding unseen_file seen_file
  update_file f p = elim (find_row f.file_name p.applied) [
    | none ↦ elim f.content [ none ↦ none | some text ↦ some (unseen_file f text p) ]
    | some r ↦
        (if is_skipped c f r
          then some (erased f.file_name p)
          else elim f.content [ none ↦ none | some text ↦ some (seen_file f text r p) ])
  ]

  unfoldable pub update_files : List File → Progress → Option Progress
  unfolding update_file
  update_files [] p = some p
  update_files (f ∷ files) p = elim (update_file f p) [
    | none ↦ none
    | some q ↦ update_files files q
  ]

-- whether there is a clean-up of that many rows
abbrev pub does_clean_up : Option ℕ → ℕ → Bool
does_clean_up none n = true
does_clean_up (some most) n = leb n most

-- the clean-up of what was not seen
unfoldable pub finish_update : Settings → Progress → Database
unfolding clean_up
finish_update c p =
    if does_clean_up c.clean_max_count (length p.applied)
    then clean_up p.applied p.database
    else p.database

-- `UpdateResult`
pub record UpdateResult : Type 0 where
  pub updated : ℕ
  pub recent : ℕ
  pub archived_count : ℕ

-- how many rows are in a state
abbrev pub count_state : State → List Row → ℕ
count_state s [] = 0
count_state s (r ∷ rows) =
    if state_eq r.state s then suc (count_state s rows) else count_state s rows

-- `Update`
unfoldable pub update :
    (List ℕ → List ℕ) → Settings → List File → Database → Option (Database × UpdateResult)
unfolding update_files finish_update
update hash_of c available db =
    elim (update_files hash_of c available db.table available
      (record { database = db; applied = db.table; imported = 0 })) [
        | none ↦ none
        | some p ↦ some (
          finish_update c p,
          record {
            updated = p.imported;
            recent = count_state released db.table;
            archived_count = count_state archived db.table;
          },
        )
      ]
