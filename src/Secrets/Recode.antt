-- ===== src/Secrets/Recode.antt =====
-- What the loop over the accounts leaves in the database.
use mmo_wow.Prelude.{
  ℕ, suc, ◌≡◌, ◌≢◌, refl, sym, ap, ◌∙◌, Bool, true, false, List, [], ◌∷◌, Option, none, some,
  Result, ok, ◌==◌, ==_iff, if◌then◌else◌, ◌>>=◌, >>=-eq-ok, ◌⊎◌, inl, inr, Bool-cases, length,
  arith,
}
use mmo_wow.Secrets.Cipher.{Library, IsSound, iv_size, ae_decrypt, ae_decrypt-ae_encrypt}
use mmo_wow.Secrets.{
  to_key, Database, Statement, update_totp_secret, set_secret, execute, execute_all, Reason,
  wrong_old_key, encrypt_new, recode, with_row, recode_rows,
}

-- the row with an id
abbrev pub lookup : ℕ → List (ℕ × Option (List ℕ)) → Option (Option (List ℕ))
lookup i [] = none
lookup i ((j, s) ∷ rows) = if i == j then some s else lookup i rows

-- The ids are the primary key.
abbrev pub AreDistinct : List (ℕ × Option (List ℕ)) → Type 0
AreDistinct [] = true ≡ true
AreDistinct ((i, s) ∷ rows) = (lookup i rows ≡ none) × AreDistinct rows

-- the TOTP secret that stands in an account, read with the master secret
abbrev pub reads : Library → Option ℕ → List ℕ → Result (List ℕ × Bool)
reads lib none stored = ok (stored, true)
reads lib (some n) stored = to_key n >>= λ key. ae_decrypt lib key stored

module _ (lib : Library) where
  encrypt_new-reads :
      (new : Option ℕ) (iv plain b : List ℕ)
      → IsSound lib
      → length iv ≡ iv_size
      → encrypt_new lib new iv plain ≡ ok b
      → reads lib new b ≡ ok (plain, true)
  unfolding encrypt_new
  encrypt_new-reads none iv plain b s h e = ground (arith, e)
  encrypt_new-reads (some n) iv plain b s h e =
      let (key, k, f) = >>=-eq-ok (to_key n) _ e in
      ap (λ r. r >>= λ key. ae_decrypt lib key b) k ∙ ae_decrypt-ae_encrypt lib key iv plain s h f

  -- One account: what was read with the old secret is read with the new one.
  pub recode-reads :
      (had : Bool) (old new : Option ℕ) (iv stored b : List ℕ)
      → IsSound lib
      → length iv ≡ iv_size
      → recode lib had old new iv stored ≡ ok (inr b)
      → (plain : List ℕ) × (reads lib (if had then old else none) stored ≡ ok (plain, true))
        × (reads lib new b ≡ ok (plain, true))
  unfolding recode
  recode-reads false old new iv stored b s h e =
      let (x, k, f) = >>=-eq-ok (encrypt_new lib new iv stored) _ e in
      (stored, refl, encrypt_new-reads new iv stored b s h (ground (arith, k, f)))
  recode-reads true none new iv stored b s h e = ground (arith, e)
  recode-reads true (some o) new iv stored b s h e =
      let (key, k, f) = >>=-eq-ok (to_key o) _ e in
      let ((plain, good), d, g) = >>=-eq-ok (ae_decrypt lib key stored) _ f in
      go key plain good k d g
    where
      go :
          (key plain : List ℕ) (good : Bool)
          → to_key o ≡ ok key
          → ae_decrypt lib key stored ≡ ok (plain, good)
          → (if good
              then (encrypt_new lib new iv plain >>= λ b. ok (inr b))
              else ok (inl wrong_old_key))
            ≡ ok (inr b)
          → (plain : List ℕ) × (reads lib (some o) stored ≡ ok (plain, true))
            × (reads lib new b ≡ ok (plain, true))
      go key plain false k d g = ground (arith, g)
      go key plain true k d g =
          let (x, m, f) = >>=-eq-ok (encrypt_new lib new iv plain) _ g in
          (
            plain,
            ap (λ r. r >>= λ key. ae_decrypt lib key stored) k ∙ d,
            encrypt_new-reads new iv plain b s h (ground (arith, m, f)),
          )

  -- The loop went through a row with a secret.
  recode_rows-row :
      (had : Bool) (old new : Option ℕ) (ivs : ℕ → List ℕ) (k i : ℕ) (stored : List ℕ)
      (rows : List (ℕ × Option (List ℕ))) (sts : List Statement)
      → recode_rows lib had old new ivs k ((i, some stored) ∷ rows) ≡ ok (inr sts)
      → (b : List ℕ) × (later : List Statement) × (recode lib had old new (ivs k) stored
          ≡ ok (inr b))
        × (recode_rows lib had old new ivs (suc k) rows ≡ ok (inr later))
        × (sts ≡ update_totp_secret b i ∷ later)
  unfolding recode_rows
  recode_rows-row had old new ivs k i stored rows sts e =
      let (r, f, g) = >>=-eq-ok (recode lib had old new (ivs k) stored) _ e in first r f g
    where
      second :
          (b : List ℕ)
          → recode lib had old new (ivs k) stored ≡ ok (inr b)
          → (l : Reason ⊎ List Statement) → recode_rows lib had old new ivs (suc k) rows ≡ ok l
          → ok (with_row i b l) ≡ ok (inr sts)
          → (b : List ℕ) × (later : List Statement) × (recode lib had old new (ivs k) stored
              ≡ ok (inr b))
            × (recode_rows lib had old new ivs (suc k) rows ≡ ok (inr later))
            × (sts ≡ update_totp_secret b i ∷ later)
      second b f (inl x) q h = ground (arith, h)
      second b f (inr later) q h = (b, later, f, q, ground (arith, h))

      first :
          (r : Reason ⊎ List ℕ)
          → recode lib had old new (ivs k) stored ≡ ok r
          → elim r [
            | inl reason ↦ ok (inl reason)
            | inr b ↦
                (recode_rows lib had old new ivs (suc k) rows >>= λ sts. ok (with_row i b sts))
          ]
            ≡ ok (inr sts)
          → (b : List ℕ) × (later : List Statement) × (recode lib had old new (ivs k) stored
              ≡ ok (inr b))
            × (recode_rows lib had old new ivs (suc k) rows ≡ ok (inr later))
            × (sts ≡ update_totp_secret b i ∷ later)
      first (inl x) f g = ground (arith, g)
      first (inr b) f g =
          let (l, q, h) = >>=-eq-ok (recode_rows lib had old new ivs (suc k) rows) _ g in
          second b f l q h

set_secret-lookup :
    (b : List ℕ) (i : ℕ) (s : Option (List ℕ)) (rows : List (ℕ × Option (List ℕ)))
    → lookup i rows ≡ some s
    → lookup i (set_secret b i rows) ≡ some (some b)
set_secret-lookup b i s [] h = ground (arith, h)
set_secret-lookup b i s ((j, t) ∷ rows) h = ground (arith, h, set_secret-lookup b i s rows)

set_secret-other :
    (b : List ℕ) (i j : ℕ) (rows : List (ℕ × Option (List ℕ)))
    → i ≢ j
    → lookup j (set_secret b i rows) ≡ lookup j rows
set_secret-other b i j [] h = refl
set_secret-other b i j ((k, t) ∷ rows) h =
    ground (arith, h, set_secret-other b i j rows h, ==_iff i k, ==_iff j k)

module _ (lib : Library) (had : Bool) (old new : Option ℕ) (ivs : ℕ → List ℕ) where
  -- The loop leaves the digest alone.
  pub rows-digest :
      (k : ℕ) (rows : List (ℕ × Option (List ℕ))) (sts : List Statement) (db : Database)
      → recode_rows lib had old new ivs k rows ≡ ok (inr sts)
      → (execute_all sts db).digest ≡ db.digest
  unfolding recode_rows execute_all execute
  rows-digest k [] sts db e = ground (arith, e)
  rows-digest k ((i, none) ∷ rows) sts db e = rows-digest (suc k) rows sts db e
  rows-digest k ((i, some stored) ∷ rows) sts db e =
      let (b, later, f, g, h) = recode_rows-row lib had old new ivs k i stored rows sts e in
      ap (λ x. (execute_all x db).digest) h
      ∙ rows-digest (suc k) rows later (execute (update_totp_secret b i) db) g

  -- An account that is not among the rows is left alone.
  rows-other :
      (k i : ℕ) (rows : List (ℕ × Option (List ℕ))) (sts : List Statement) (db : Database)
      → recode_rows lib had old new ivs k rows ≡ ok (inr sts)
      → lookup i rows ≡ none
      → lookup i (execute_all sts db).accounts ≡ lookup i db.accounts
  unfolding recode_rows execute_all execute
  rows-other k i [] sts db e n = ground (arith, e)
  rows-other k i ((j, none) ∷ rows) sts db e n =
      rows-other (suc k) i rows sts db e (ground (arith, n))
  rows-other k i ((j, some stored) ∷ rows) sts db e n =
      let (b, later, f, g, h) = recode_rows-row lib had old new ivs k j stored rows sts e in
      ap (λ x. lookup i (execute_all x db).accounts) h
      ∙ (rows-other (suc k) i rows later (execute (update_totp_secret b j) db) g (ground (arith, n))
          ∙ set_secret-other b j i db.accounts (ground (arith, n, ==_iff i j)))

  -- An account with a secret among the rows has the recoded secret after them.
  pub rows-row :
      (k i : ℕ) (stored : List ℕ) (rows : List (ℕ × Option (List ℕ))) (sts : List Statement)
      (db : Database) (s : Option (List ℕ))
      → AreDistinct rows
      → recode_rows lib had old new ivs k rows ≡ ok (inr sts)
      → lookup i rows ≡ some (some stored)
      → lookup i db.accounts ≡ some s
      → (j : ℕ) × (b : List ℕ) × (recode lib had old new (ivs j) stored ≡ ok (inr b))
        × (lookup i (execute_all sts db).accounts ≡ some (some b))
  unfolding recode_rows execute_all execute
  rows-row k i stored [] sts db s d e l h = ground (arith, l)
  rows-row k i stored ((j, none) ∷ rows) sts db s (n, d) e l h =
      rows-row (suc k) i stored rows sts db s d e (ground (arith, l)) h
  rows-row k i stored ((j, some x) ∷ rows) sts db s (n, d) e l h =
      let (b, later, f, g, q) = recode_rows-row lib had old new ivs k j x rows sts e in
      elim (Bool-cases (i == j)) [
        | inl y ↦
            (let w : i ≡ j = ground (arith, y, ==_iff i j) in
              let v : x ≡ stored = ground (arith, l, y) in
              (
                k,
                b,
                ap (recode lib had old new (ivs k)) (sym v) ∙ f,
                ap (λ z. lookup i (execute_all z db).accounts) q
                    ∙ (rows-other (suc k) i rows later (execute (update_totp_secret b j) db) g
                          (ap (λ z. lookup z rows) w ∙ n)
                        ∙ (ap (λ z. lookup i (set_secret b z db.accounts)) (sym w)
                            ∙ set_secret-lookup b i s db.accounts h)),
              ))
        | inr y ↦
            (let m = set_secret-other b j i db.accounts (ground (arith, y, ==_iff i j)) in
              let (j', b', f', l') =
                rows-row (suc k) i stored rows later (execute (update_totp_secret b j) db) s d g
                  (ground (arith, l, y)) (m ∙ h) in
              (j', b', f', ap (λ z. lookup i (execute_all z db).accounts) q ∙ l'))
      ]
