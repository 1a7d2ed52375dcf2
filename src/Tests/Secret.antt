-- ===== src/Tests/Secret.antt =====
-- Runs of the theorems on the loading of the master secret.
use mmo_wow.Prelude.{
  ℕ, ◌^◌, ◌≡◌, refl, true, false, List, [], ◌∷◌, ◌++◌, none, some, ok, err, assertion, replicate,
  Option, arith,
}
use mmo_wow.Prelude.Bytes.{bytes_eq, bytes_eq_refl}
use mmo_wow.Secrets.Cipher.{Library, IsSound, ae_encrypt, ae_decrypt, ae_decrypt-ae_encrypt}
use mmo_wow.Secrets.{BigNumber, get_hex_from_config, to_key, Database, attempt_transition}
use mmo_wow.Secrets.Recode.{lookup, reads}
use mmo_wow.Secrets.Load.{Secret, not_loaded_yet, present, load_failed, Config, attempt_load}
use mmo_wow.Secrets.Load.Outcome.{transition_carries}
use mmo_wow.Secrets.Load.Again.{attempt_load-failed, secret_too_long}

-- a cipher that changes nothing, with a tag of zeros, and digests that are the text
abbrev toy_library : Library
toy_library = record {
  process_encrypt = λ key iv plain. some (plain, replicate 12 0);
  process_decrypt = λ key iv out tag. (out, true);
  hex_of = λ n. n ∷ [];
  verify = bytes_eq;
  hash = λ text salt. some text;
}

toy_library-IsSound : IsSound toy_library
toy_library-IsSound = record {
  decrypts = λ key iv plain out tag e. ground (arith, e);
  tag_length = λ key iv plain out tag e. ground (arith, e);
  verifies = λ text salt d e. ground (arith, e, bytes_eq_refl text);
}

abbrev iv : List ℕ
iv = replicate 12 1

abbrev stored : List ℕ
stored = 9 ∷ (iv ++ replicate 12 0)

ae_decrypt-ae_encrypt_example : ae_decrypt toy_library [] stored ≡ ok (9 ∷ [], true)
unfolding ae_encrypt
ae_decrypt-ae_encrypt_example =
    ae_decrypt-ae_encrypt toy_library [] iv (9 ∷ []) toy_library-IsSound refl refl

abbrev before : Database
before = record { accounts = (4, none) ∷ (5, some stored) ∷ []; digest = some (7 ∷ []) }

abbrev after : Database
after = record { accounts = (4, none) ∷ (5, some stored) ∷ []; digest = some (3 ∷ []) }

transition-eq :
    attempt_transition toy_library (some 3) (some 7) true (λ k. iv) [] true before
    ≡ ok (none, after)
unfolding attempt_transition ae_decrypt mmo_wow.Secrets.execute
transition-eq = refl

transition_carries_example :
    (plain : List ℕ) × (b : List ℕ) × (reads toy_library (some 7) stored ≡ ok (plain, true))
    × (lookup 5 after.accounts ≡ some (some b))
    × (reads toy_library (some 3) b ≡ ok (plain, true))
transition_carries_example =
    transition_carries toy_library (some 3) (some 7) true (λ k. iv) [] true before after 5 stored
      toy_library-IsSound (λ k. refl) (refl, (refl, refl)) refl transition-eq refl

abbrev toy_hex : List ℕ → Option BigNumber
toy_hex [] = none
toy_hex (c ∷ cs) = some (record { is_negative = false; magnitude = c })

abbrev config : Config
config = record {
  read_hex = toy_hex;
  current_text = 3 ∷ [];
  old_text = 7 ∷ [];
  is_owner = true;
  ivs = λ k. iv;
  salt = [];
  committed = true;
}

abbrev unloaded : Secret
unloaded = record { state = not_loaded_yet; value = 0 }

load-eq :
    attempt_load toy_library config unloaded before
    ≡ ok (record { state = present; value = 3 }, after)
unfolding attempt_load ae_decrypt mmo_wow.Secrets.execute
load-eq = refl

abbrev wrong_config : Config
wrong_config = record config { old_text = 6 ∷ [] }

load_failed-eq :
    attempt_load toy_library wrong_config unloaded before
    ≡ ok (record { state = load_failed; value = 0 }, before)
unfolding attempt_load
load_failed-eq = refl

attempt_load-failed_example : before ≡ before
attempt_load-failed_example =
    attempt_load-failed toy_library wrong_config unloaded
      (record { state = load_failed; value = 0 }) before before toy_library-IsSound load_failed-eq
      refl

long_hex : List ℕ → Option BigNumber
long_hex cs = some (record { is_negative = false; magnitude = 2 ^ 128 })

secret_too_long_example :
    (get_hex_from_config long_hex (49 ∷ []) 128 ≡ ok (some (2 ^ 128)))
    × (to_key (2 ^ 128) ≡ err assertion)
unfolding long_hex
secret_too_long_example = secret_too_long long_hex 49 [] (2 ^ 128) refl (omega arith) (omega arith)
