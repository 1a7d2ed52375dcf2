-- ===== src/Secrets/Load/Outcome.antt =====
-- What a load of the secret leaves: in the accounts, in the digest, and when it fails.
use mmo_wow.Prelude.{
  ℕ, ◌≡◌, refl, sym, ap, ◌∙◌, Bool, true, false, List, [], ◌∷◌, ◌++◌, Option, none, some, Result,
  ok, if◌then◌else◌, >>=-eq-ok, ◌⊎◌, inl, inr, Bool-cases, length, arith, Option-cases,
}
use mmo_wow.Secrets.Cipher.{Library, IsSound, iv_size}
use mmo_wow.Secrets.{
  get_hex_from_config, Database, Statement, delete_digest, insert_digest, execute, execute_all,
  commit, Reason, recode_rows, replace_digest, attempt_transition,
}
use mmo_wow.Secrets.Recode.{lookup, AreDistinct, reads, recode-reads, rows-digest, rows-row}
use mmo_wow.Secrets.Load.{
  Secret, Config, secret_bits, loaded, failed, differs, is_wrong_old, transition, change,
  attempt_load,
}

abbrev pub has_digest : Option (List ℕ) → Bool
has_digest none = false
has_digest (some d) = true

module _ (lib : Library) where
  -- what follows the loop
  abbrev after_rows :
      Bool
      → Option ℕ
      → List ℕ
      → Bool
      → Database
      → Reason ⊎ List Statement
      → Result (Option Reason × Database)
  after_rows had new salt committed db (inl reason) = ok (some reason, db)
  after_rows had new salt committed db (inr sts) =
      ok (replace_digest lib had new salt sts committed db)

  execute_all-append :
      (xs ys : List Statement) (db : Database)
      → execute_all (xs ++ ys) db ≡ execute_all ys (execute_all xs db)
  unfolding execute_all
  execute_all-append [] ys db = refl
  execute_all-append (x ∷ xs) ys db = execute_all-append xs ys (execute x db)

  -- What follows the loop leaves the accounts, and puts the digest of the new secret, if the
  -- transaction succeeds.
  replace_digest-eq :
      (had : Bool) (new : Option ℕ) (salt : List ℕ) (sts : List Statement) (db db' : Database)
      → IsSound lib
      → had ≡ has_digest db.digest
      → (execute_all sts db).digest ≡ db.digest
      → replace_digest lib had new salt sts true db ≡ (none, db')
      → (db'.accounts ≡ (execute_all sts db).accounts) × (differs lib db'.digest new ≡ false)
  unfolding replace_digest commit execute execute_all
  replace_digest-eq false none salt sts db db' s h q e =
      let a = execute_all-append sts [] db in
      elim (Option-cases db.digest) [
        | inl n ↦ ground (arith, n, q, e, a)
        | inr (d, n) ↦ ground (arith, n, h)
      ]
  replace_digest-eq true none salt sts db db' s h q e =
      let a = execute_all-append sts (delete_digest ∷ []) db in ground (arith, e, a)
  replace_digest-eq had (some n) salt sts db db' s h q e =
      elim (Option-cases (Library.hash lib (Library.hex_of lib n) salt)) [
        | inl x ↦ ground (arith, x, e)
        | inr (d, x) ↦
            (let v = s.verifies (Library.hex_of lib n) salt d x in
              let a = execute_all-append sts (delete_digest ∷ insert_digest d ∷ []) db in
              let b = execute_all-append sts (insert_digest d ∷ []) db in
              elim (Bool-cases had) [
                | inl y ↦ ground (arith, x, y, e, v, a)
                | inr y ↦ ground (arith, x, y, e, v, b)
              ])
      ]

  -- and nothing changes if it does not succeed
  replace_digest-rolled_back :
      (had : Bool) (new : Option ℕ) (salt : List ℕ) (sts : List Statement) (db db' : Database)
      → replace_digest lib had new salt sts false db ≡ (none, db')
      → db' ≡ db
  unfolding replace_digest commit
  replace_digest-rolled_back had none salt sts db db' e = ground (arith, e)
  replace_digest-rolled_back had (some n) salt sts db db' e =
      elim (Option-cases (Library.hash lib (Library.hex_of lib n) salt)) [
        | inl x ↦ ground (arith, x, e)
        | inr (d, x) ↦ ground (arith, x, e)
      ]

  -- A transition went through the loop.
  transition_rows :
      (new old : Option ℕ) (had : Bool) (ivs : ℕ → List ℕ) (salt : List ℕ) (committed : Bool)
      (db db' : Database)
      → attempt_transition lib new old had ivs salt committed db ≡ ok (none, db')
      → (sts : List Statement) × (recode_rows lib had old new ivs 0 db.accounts ≡ ok (inr sts))
        × (replace_digest lib had new salt sts committed db ≡ (none, db'))
  unfolding attempt_transition
  transition_rows new old had ivs salt committed db db' e =
      let (r, f, g) = >>=-eq-ok (recode_rows lib had old new ivs 0 db.accounts) _ e in go r f g
    where
      go :
          (r : Reason ⊎ List Statement)
          → recode_rows lib had old new ivs 0 db.accounts ≡ ok r
          → after_rows had new salt committed db r ≡ ok (none, db')
          → (sts : List Statement) × (recode_rows lib had old new ivs 0 db.accounts ≡ ok (inr sts))
            × (replace_digest lib had new salt sts committed db ≡ (none, db'))
      go (inl x) f g = ground (arith, g)
      go (inr sts) f g = (sts, f, ground (arith, g))

-- A transition to a new secret that is not refused, with a sound library, vectors of 12 bytes and
-- accounts with distinct ids, carries every TOTP secret over: an account that had one still has one,
-- from which one secret reads what the old secret, if a digest was stored, read before: the new one
-- if the transaction that was enqueued succeeds, and the old one if it does not.
pub transition_carries :
    (lib : Library) (new old : Option ℕ) (had : Bool) (ivs : ℕ → List ℕ) (salt : List ℕ)
    (committed : Bool) (db db' : Database) (i : ℕ) (stored : List ℕ)
    → IsSound lib
    → ((k : ℕ) → length (ivs k) ≡ iv_size)
    → AreDistinct db.accounts
    → had ≡ has_digest db.digest
    → attempt_transition lib new old had ivs salt committed db ≡ ok (none, db')
    → lookup i db.accounts ≡ some (some stored)
    → (plain : List ℕ) × (b : List ℕ) × (reads lib (if had then old else none) stored
        ≡ ok (plain, true))
      × (lookup i db'.accounts ≡ some (some b))
      × (reads lib (if committed then new else (if had then old else none)) b ≡ ok (plain, true))
transition_carries lib new old had ivs salt committed db db' i stored s v d h e l =
    let (sts, f, g) = transition_rows lib new old had ivs salt committed db db' e in
    let (j, b, r, m) =
      rows-row lib had old new ivs 0 i stored db.accounts sts db (some stored) d f l l in
    let (plain, x, y) = recode-reads lib had old new (ivs j) stored b s (v j) r in
    by_outcome committed sts g f b plain x y m
  where
    key : Option ℕ
    key = if had then old else none

    by_outcome :
        (committed : Bool) (sts : List Statement)
        → replace_digest lib had new salt sts committed db ≡ (none, db')
        → recode_rows lib had old new ivs 0 db.accounts ≡ ok (inr sts)
        → (b plain : List ℕ) → reads lib key stored ≡ ok (plain, true)
        → reads lib new b ≡ ok (plain, true)
        → lookup i (execute_all sts db).accounts ≡ some (some b)
        → (plain : List ℕ) × (b : List ℕ) × (reads lib key stored ≡ ok (plain, true))
          × (lookup i db'.accounts ≡ some (some b))
          × (reads lib (if committed then new else key) b ≡ ok (plain, true))
    by_outcome true sts g f b plain x y m =
        let (a, _) =
          replace_digest-eq lib had new salt sts db db' s h
            (rows-digest lib had old new ivs 0 db.accounts sts db f) g in
        (plain, b, x, ap (lookup i) a ∙ m, y)
    by_outcome false sts g f b plain x y m =
        let a = replace_digest-rolled_back lib had new salt sts db db' g in
        (plain, stored, x, ap (λ (z : Database). lookup i z.accounts) a ∙ l, x)

module _ (lib : Library) (c : Config) (current : Option ℕ) where
  -- A load fails and leaves the database, or it takes the current secret into use, whose digest the
  -- database then has if the transaction succeeds.
  abbrev pub Ends : Secret → Database → Secret × Database → Type 0
  Ends s db r =
      (r ≡ (failed s, db))
      ⊎ ((r.0 ≡ loaded current s) × (c.committed ≡ true → differs lib r.1.digest current ≡ false))

  attempt-refused :
      (old : Option ℕ) (had : Bool) (db : Database) (x : Reason) (db' : Database)
      → attempt_transition lib current old had c.ivs c.salt c.committed db ≡ ok (some x, db')
      → db' ≡ db
  unfolding attempt_transition replace_digest
  attempt-refused old had db x db' e =
      let (r, f, g) = >>=-eq-ok (recode_rows lib had old current c.ivs 0 db.accounts) _ e in
      go r current g
    where
      go :
          (r : Reason ⊎ List Statement) (new : Option ℕ)
          → after_rows lib had new c.salt c.committed db r ≡ ok (some x, db')
          → db' ≡ db
      go (inl y) new g = ground (arith, g)
      go (inr sts) none g = ground (arith, g)
      go (inr sts) (some n) g =
          elim (Option-cases (Library.hash lib (Library.hex_of lib n) c.salt)) [
            | inl y ↦ ground (arith, g, y)
            | inr (d, y) ↦ ground (arith, g, y)
          ]

  transition-Ends :
      (old : Option ℕ) (had : Bool) (s : Secret) (db : Database) (r : Secret × Database)
      → IsSound lib
      → had ≡ has_digest db.digest
      → transition lib c current old had s db ≡ ok r
      → Ends s db r
  unfolding transition
  transition-Ends old had s db r i h e =
      let ((o, db'), f, g) =
        >>=-eq-ok (attempt_transition lib current old had c.ivs c.salt c.committed db) _ e in
      go o db' f g
    where
      go :
          (o : Option Reason) (db' : Database)
          → attempt_transition lib current old had c.ivs c.salt c.committed db ≡ ok (o, db')
          → ok (elim o [ none ↦ (loaded current s, db') | some reason ↦ (failed s, db') ]) ≡ ok r
          → Ends s db r
      go none db' f g =
          let (sts, p, q) = transition_rows lib current old had c.ivs c.salt c.committed db db' f in
          let d : c.committed ≡ true → differs lib db'.digest current ≡ false = λ t.
            (replace_digest-eq lib had current c.salt sts db db' i h
              (rows-digest lib had old current c.ivs 0 db.accounts sts db p)
              (ap (λ b. replace_digest lib had current c.salt sts b db) (sym t) ∙ q)).1 in
          let x : (loaded current s, db') ≡ r = ground (arith, g) in
          inr (
            ap (λ y. y.0) (sym x),
            λ t. ap (λ (y : Secret × Database). differs lib y.1.digest current) (sym x) ∙ d t,
          )
      go (some x) db' f g =
          let q = attempt-refused old had db x db' f in
          let y : (failed s, db') ≡ r = ground (arith, g) in
          inl (sym y ∙ ap (λ (z : Database). (failed s, z)) q)

  change-Ends :
      (s : Secret) (db : Database) (r : Secret × Database)
      → IsSound lib
      → change lib c current db.digest s db ≡ ok r
      → Ends s db r
  unfolding change
  change-Ends s db r i e = elim (Option-cases db.digest) [
    | inl n ↦
        transition-Ends none false s db r i (ap has_digest (sym n))
          (ap (λ d. change lib c current d s db) (sym n) ∙ e)
    | inr (d, n) ↦ old_secret d n (ap (λ d. change lib c current d s db) (sym n) ∙ e)
  ]
    where
      wrong_or_not :
          (d : List ℕ) (old : Option ℕ)
          → true ≡ has_digest db.digest
          → (if is_wrong_old lib old d
              then ok (failed s, db)
              else transition lib c current old true s db)
            ≡ ok r
          → Ends s db r
      wrong_or_not d old h g = elim (Bool-cases (is_wrong_old lib old d)) [
        | inl w ↦ inl (ground (arith, g, w))
        | inr w ↦ transition-Ends old true s db r i h (ground (arith, g, w))
      ]

      old_secret :
          (d : List ℕ)
          → db.digest ≡ some d
          → change lib c current (some d) s db ≡ ok r
          → Ends s db r
      old_secret d n g =
          let (old, _, k) = >>=-eq-ok (get_hex_from_config c.read_hex c.old_text secret_bits) _ g in
          wrong_or_not d old (ap has_digest (sym n)) k

-- AttemptLoad with the current secret that the configuration gives.
pub load-Ends :
    (lib : Library) (c : Config) (s : Secret) (db : Database) (r : Secret × Database)
    → IsSound lib
    → attempt_load lib c s db ≡ ok r
    → (current : Option ℕ) × (get_hex_from_config c.read_hex c.current_text secret_bits
        ≡ ok current)
      × Ends lib c current s db r
unfolding attempt_load
load-Ends lib c s db r i e =
    let (current, f, g) =
      >>=-eq-ok (get_hex_from_config c.read_hex c.current_text secret_bits) _ e in
    (current, f, go current g)
  where
    owned :
        (current : Option ℕ) (o : Bool)
        → (if o then change lib c current db.digest s db else ok (failed s, db)) ≡ ok r
        → Ends lib c current s db r
    owned current true g = change-Ends lib c current s db r i g
    owned current false g = inl (ground (arith, g))

    go :
        (current : Option ℕ)
        → (if differs lib db.digest current
            then (if c.is_owner then change lib c current db.digest s db else ok (failed s, db))
            else ok (loaded current s, db))
          ≡ ok r
        → Ends lib c current s db r
    go current g = elim (Bool-cases (differs lib db.digest current)) [
      | inl w ↦ owned current c.is_owner (ground (arith, g, w))
      | inr w ↦
          (let x : (loaded current s, db) ≡ r = ground (arith, g, w) in
            inr (
              ap (λ y. y.0) (sym x),
              λ t. ap (λ (y : Secret × Database). differs lib y.1.digest current) (sym x) ∙ w,
            ))
    ]
