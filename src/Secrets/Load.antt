-- ===== src/Secrets/Load.antt =====
-- Server/Shared/Secrets/SecretMgr.cpp, .h: how a secret is loaded, checked against the digest in the
-- database, and changed.
pub mod Outcome
pub mod Again
use mmo_wow.Prelude.{
  ℕ, Bool, true, false, not, List, Option, none, some, Result, ok, err, assertion, if◌then◌else◌,
  ◌>>=◌,
}
use mmo_wow.Secrets.Cipher.{Library}
use mmo_wow.Secrets.{BigNumber, get_hex_from_config, Database, Reason, attempt_transition}

-- the state of a `Secret`
pub data State : Type 0 where
  not_loaded_yet : State
  load_failed : State
  not_present : State
  present : State

-- `Secret`
pub record Secret : Type 0 where
  pub state : State
  pub value : ℕ

-- What a load reads: the texts of the two configuration keys, whether this server owns the secret,
-- the random bytes that it may need, and whether the transaction that it may enqueue succeeds.
pub record Config : Type 0 where
  pub read_hex : List ℕ → Option BigNumber
  pub current_text : List ℕ
  pub old_text : List ℕ
  pub is_owner : Bool
  pub ivs : ℕ → List ℕ
  pub salt : List ℕ
  pub committed : Bool

-- the `bits` of `secret_info`
abbrev pub secret_bits : ℕ
secret_bits = 128

-- `IsAvailable`
abbrev pub is_available : State → Bool
is_available not_loaded_yet = false
is_available load_failed = false
is_available not_present = true
is_available present = true

-- `if (currentValue) ... else ...`, at the end of AttemptLoad
abbrev pub loaded : Option ℕ → Secret → Secret
loaded none s = record s { state = not_present }
loaded (some v) s = record s { state = present; value = v }

-- `_secrets[i].state = Secret::LOAD_FAILED`
abbrev pub failed : Secret → Secret
failed s = record s { state = load_failed }

module _ (lib : Library) where
  -- whether the digest and the current secret differ
  abbrev pub differs : Option (List ℕ) → Option ℕ → Bool
  differs none none = false
  differs none (some v) = true
  differs (some d) none = true
  differs (some d) (some v) = not (Library.verify lib (Library.hex_of lib v) d)

  -- `oldSecret && !Verify(oldSecret, *oldDigest)`
  abbrev pub is_wrong_old : Option ℕ → List ℕ → Bool
  is_wrong_old none d = false
  is_wrong_old (some o) d = not (Library.verify lib (Library.hex_of lib o) d)

  -- the call of AttemptTransition and what follows
  unfoldable pub transition :
      Config → Option ℕ → Option ℕ → Bool → Secret → Database → Result (Secret × Database)
  unfolding attempt_transition
  transition c current old had s db =
      attempt_transition lib current old had c.ivs c.salt c.committed db >>= λ r.
      ok (elim r.0 [ none ↦ (loaded current s, r.1) | some reason ↦ (failed s, r.1) ])

  -- the old secret, and the transition
  unfoldable pub change :
      Config → Option ℕ → Option (List ℕ) → Secret → Database → Result (Secret × Database)
  unfolding transition get_hex_from_config
  change c current none s db = transition c current none false s db
  change c current (some d) s db = get_hex_from_config c.read_hex c.old_text secret_bits >>= λ old.
      (if is_wrong_old old d then ok (failed s, db) else transition c current old true s db)

  -- `AttemptLoad`
  unfoldable pub attempt_load : Config → Secret → Database → Result (Secret × Database)
  unfolding change get_hex_from_config
  attempt_load c s db = get_hex_from_config c.read_hex c.current_text secret_bits >>= λ current.
      (if differs db.digest current
        then (if c.is_owner then change c current db.digest s db else ok (failed s, db))
        else ok (loaded current s, db))

  -- `GetSecret`
  unfoldable pub get_secret : Config → Secret → Database → Result (Secret × Database)
  unfolding attempt_load
  get_secret c s db = elim s.state [
    | not_loaded_yet ↦ attempt_load c s db
    | load_failed ↦ ok (s, db)
    | not_present ↦ ok (s, db)
    | present ↦ ok (s, db)
  ]

  -- `Initialize`, for the one secret, which a server may load later
  unfoldable pub initialize : Bool → Config → Secret → Database → Result (Secret × Database)
  unfolding attempt_load
  initialize true c s db = ok (s, db)
  initialize false c s db =
      attempt_load c s db >>= λ r. (if is_available r.0.state then ok r else err assertion)
