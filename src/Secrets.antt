-- ===== src/Secrets.antt =====
-- Server/Shared/Secrets/SecretMgr.cpp: the master secret for the TOTP secrets of the accounts, and
-- how the database is carried over to a new one. The functions of OpenSSL and argon2 are parameters.
pub mod Cipher
pub mod Load
pub mod Recode
use mmo_wow.Prelude.{
  ℕ, zero, suc, ◌*◌, ◌^◌, ◌%◌, ◌+◌, Bool, true, false, not, ◌&&◌, ◌||◌, List, [], ◌∷◌, ◌++◌, Option,
  none, some, Result, ok, err, assertion, ◌==◌, ltb, if◌then◌else◌, ◌>>=◌, require, ◌⊎◌, inl, inr,
}
use mmo_wow.Prelude.Bytes.{to_bytes}
use mmo_wow.Secrets.Cipher.{Library, ae_encrypt, ae_decrypt}

-- a number of OpenSSL: its sign and its magnitude
pub record BigNumber : Type 0 where
  pub is_negative : Bool
  pub magnitude : ℕ

-- `BigNumber(0) <= secret && secret < threshold`
unfoldable pub in_range : ℕ → BigNumber → Bool
in_range threshold n = (not n.is_negative || n.magnitude == 0) && ltb n.magnitude threshold

-- the value after the test of its range
unfoldable pub cut : ℕ → BigNumber → BigNumber
unfolding in_range
cut threshold n =
    if in_range threshold n then n else record n { magnitude = n.magnitude % threshold }

-- `GetHexFromConfig` on the text of the configuration; `read_hex` is `BN_hex2bn`
unfoldable pub get_hex_from_config : (List ℕ → Option BigNumber) → List ℕ → ℕ → Result (Option ℕ)
unfolding cut
get_hex_from_config read_hex [] bits = ok none
get_hex_from_config read_hex (c ∷ cs) bits = elim (read_hex (c ∷ cs)) [
  | none ↦ err assertion
  | some n ↦
      (require (in_range (2 * 2 ^ bits) (cut (2 * 2 ^ bits) n)) assertion >>= λ _.
      ok (some (cut (2 * 2 ^ bits) n).magnitude))
]

-- `ToByteArray<16>`, which is little-endian
unfoldable pub to_key : ℕ → Result (List ℕ)
to_key n = if ltb n (2 ^ 128) then ok (to_bytes 16 n) else err assertion

-- the rows of `account`, each with its id and its TOTP secret, and the digest of the secret in use
pub record Database : Type 0 where
  pub accounts : List (ℕ × Option (List ℕ))
  pub digest : Option (List ℕ)

-- the statements of a transaction
pub data Statement : Type 0 where
  update_totp_secret : List ℕ → ℕ → Statement
  delete_digest : Statement
  insert_digest : List ℕ → Statement

-- `UPDATE account SET totp_secret = ? WHERE id = ?`
abbrev pub set_secret : List ℕ → ℕ → List (ℕ × Option (List ℕ)) → List (ℕ × Option (List ℕ))
set_secret b i [] = []
set_secret b i ((j, s) ∷ rows) = (j, if i == j then some b else s) ∷ set_secret b i rows

unfoldable pub execute : Statement → Database → Database
execute (update_totp_secret b i) db = record db { accounts = set_secret b i db.accounts }
execute delete_digest db = record db { digest = none }
execute (insert_digest d) db = record db { digest = some d }

unfoldable pub execute_all : List Statement → Database → Database
execute_all [] db = db
execute_all (st ∷ sts) db = execute_all sts (execute st db)

-- What the task that `CommitTransaction` enqueues does to the database: all statements are executed,
-- or, when its attempts fail, none. The code that enqueues it does not wait for the outcome.
unfoldable pub commit : Bool → List Statement → Database → Database
unfolding execute_all
commit true sts db = execute_all sts db
commit false sts db = db

-- why a transition is refused
pub data Reason : Type 0 where
  no_old_key : Reason
  wrong_old_key : Reason
  hash_failed : Reason

-- what the transaction gets for the rest of the rows
abbrev pub with_row : ℕ → List ℕ → Reason ⊎ List Statement → Reason ⊎ List Statement
with_row i b (inl r) = inl r
with_row i b (inr sts) = inr (update_totp_secret b i ∷ sts)

module _ (lib : Library) where
  -- `if (newSecret) AEEncryptWithRandomIV`
  unfoldable pub encrypt_new : Option ℕ → List ℕ → List ℕ → Result (List ℕ)
  unfolding to_key ae_encrypt
  encrypt_new none iv plain = ok plain
  encrypt_new (some n) iv plain = to_key n >>= λ key. ae_encrypt lib key iv plain

  -- the TOTP secret of one account, from the old to the new secret
  unfoldable pub recode : Bool → Option ℕ → Option ℕ → List ℕ → List ℕ → Result (Reason ⊎ List ℕ)
  unfolding encrypt_new
  recode false old new iv stored = encrypt_new new iv stored >>= λ b. ok (inr b)
  recode true none new iv stored = ok (inl no_old_key)
  recode true (some o) new iv stored = do
    key ← to_key o
    plain ← ae_decrypt lib key stored
    if plain.1 then (encrypt_new new iv plain.0 >>= λ b. ok (inr b)) else ok (inl wrong_old_key)

  -- the loop over the accounts; `ivs k` is the random vector for the k-th row
  unfoldable pub recode_rows :
      Bool
      → Option ℕ
      → Option ℕ
      → (ℕ → List ℕ)
      → ℕ
      → List (ℕ × Option (List ℕ))
      → Result (Reason ⊎ List Statement)
  unfolding recode
  recode_rows had old new ivs k [] = ok (inr [])
  recode_rows had old new ivs k ((i, none) ∷ rows) = recode_rows had old new ivs (suc k) rows
  recode_rows had old new ivs k ((i, some stored) ∷ rows) =
      let later = recode_rows had old new ivs (suc k) rows in
      recode had old new (ivs k) stored >>= λ r. elim r [
        | inl reason ↦ ok (inl reason)
        | inr b ↦ (later >>= λ sts. ok (with_row i b sts))
      ]

  -- what follows the loop: the digests, and the commit, by whether the transaction succeeds
  unfoldable pub replace_digest :
      Bool → Option ℕ → List ℕ → List Statement → Bool → Database → Option Reason × Database
  unfolding commit
  replace_digest had none salt sts committed db =
      (none, commit committed (sts ++ (if had then delete_digest ∷ [] else [])) db)
  replace_digest had (some n) salt sts committed db =
      elim (Library.hash lib (Library.hex_of lib n) salt) [
        | none ↦ (some hash_failed, db)
        | some d ↦ (
          none,
          commit committed
              (sts ++ (if had then delete_digest ∷ insert_digest d ∷ [] else insert_digest d ∷ []))
              db,
        )
      ]

  -- `AttemptTransition`
  unfoldable pub attempt_transition :
      Option ℕ
      → Option ℕ
      → Bool
      → (ℕ → List ℕ)
      → List ℕ
      → Bool
      → Database
      → Result (Option Reason × Database)
  unfolding recode_rows replace_digest
  attempt_transition new old had ivs salt committed db =
      recode_rows had old new ivs 0 db.accounts >>= λ r. elim r [
        | inl reason ↦ ok (some reason, db)
        | inr sts ↦ ok (replace_digest had new salt sts committed db)
      ]
