-- ===== src/Auth/Verdict.antt =====
-- How `LogonChallengeCallback` answers, against a table of the reasons for a refusal.
use mathlib.Core.Path.{subst}
use mmo_wow.Prelude.{
  ℕ, ◌≡◌, refl, sym, ◌∙◌, inl, inr, Bool, true, false, not, List, [], ◌∷◌, Option, none, some,
  arith, ◌==◌, ◌&&◌, if◌then◌else◌, Option-cases,
}
use mmo_wow.Prelude.Bytes.{bytes_eq}
use mmo_wow.Crypto.Srp6
use mmo_wow.Crypto.Srp6.{Srp6}
use mmo_wow.Realm.{is_accepted, is_some}
use mmo_wow.Auth.Code
use mmo_wow.Auth.Protocol.{logon_proof}
use mmo_wow.Auth.Session.{Env, Session, send_all}
use mmo_wow.Auth.Challenge.{
  AccountRow, LogonRow, load_result, refusal, check_lock, check_ban, load_totp, challenge_packet,
  start_proof, answer_challenge, logon_challenge_callback,
}

-- the country of the peer, as far as it is known
abbrev pub peer_country : Env → Session → List ℕ
peer_country env s = elim (env.country_of s.remote_ip) [ none ↦ s.ip_country | some c ↦ c ]

abbrev pub is_locked_to_country : AccountRow → Bool
is_locked_to_country r =
    not (bytes_eq r.lock_country []) && not (bytes_eq r.lock_country (48 ∷ 48 ∷ []))

-- the stored TOTP secret cannot be decrypted
abbrev pub is_totp_broken : Env → Option (List ℕ) → Bool
is_totp_broken env none = false
is_totp_broken env (some stored) = elim env.totp_master_key [
  | none ↦ false
  | some key ↦ not (env.crypto.decrypt stored key).1
]

-- The reasons for a refusal with their codes, the first that holds counting.
abbrev pub reasons : Env → LogonRow → Session → List (Bool × ℕ)
reasons env row s =
    let r = row.account in
    (r.locked && not (bytes_eq r.last_ip s.remote_ip), Code.locked_enforced)
    ∷ (
      not r.locked
          && is_locked_to_country r
          && not (bytes_eq (peer_country env s) [])
          && not (bytes_eq (peer_country env s) r.lock_country),
      Code.unlockable_lock,
    )
    ∷ (not (r.banned == 0) && not (r.permanently_banned == 0), Code.banned)
    ∷ (not (r.banned == 0), Code.suspended)
    ∷ (is_totp_broken env row.totp_secret, Code.db_busy)
    ∷ (not (is_accepted env.builds s.build), Code.version_invalid)
    ∷ []

abbrev pub first : List (Bool × ℕ) → Option ℕ
first [] = none
first ((holds, code) ∷ rest) = if holds then some code else first rest

-- What the callback does: it refuses with the code and leaves the status, or it sends the challenge
-- of a new SRP6 object and awaits the proof.
abbrev pub Answer : Env → List ℕ → LogonRow → Session → Option ℕ → Type 0
Answer env random row s (some code) =
    (u : Session) × (logon_challenge_callback env random (some row) s ≡ send_all (refusal code) u)
    × (u.status ≡ s.status)
    × (u.write_queue ≡ s.write_queue)
Answer env random row s none =
    (u : Session) × (srp : Srp6) × (srp
      ≡ Srp6.new env.crypto (env.upper row.account.username) row.salt row.verifier random)
    × (logon_challenge_callback env random (some row) s
        ≡ send_all (challenge_packet srp (if is_some row.totp_secret then 4 else 0)) u)
    × (u.srp6 ≡ some srp)
    × (u.status ≡ logon_proof)
    × (u.write_queue ≡ s.write_queue)

lock-refused :
    (env : Env) (row : LogonRow) (s : Session) {code : ℕ}
    → (check_lock env (record s { account = load_result env row.account })).0 ≡ some code
    → first (reasons env row s) ≡ some code
unfolding check_lock load_result
lock-refused env row s h = ground arith

ban-refused :
    (env : Env) (row : LogonRow) (s : Session) {code : ℕ}
    → (check_lock env (record s { account = load_result env row.account })).0 ≡ none
    → check_ban (load_result env row.account) ≡ some code
    → first (reasons env row s) ≡ some code
unfolding check_lock load_result check_ban
ban-refused env row s h k = ground arith

rest-refused :
    (env : Env) (row : LogonRow) (s : Session)
    → (check_lock env (record s { account = load_result env row.account })).0 ≡ none
    → check_ban (load_result env row.account) ≡ none
    → first (reasons env row s) ≡ (
        if is_totp_broken env row.totp_secret
        then some Code.db_busy
        else if is_accepted env.builds s.build
        then none
        else some Code.version_invalid)
unfolding check_lock load_result check_ban
rest-refused env row s h k = ground arith

-- the session that the checks work on, and the one that goes on from there
abbrev loaded : Env → LogonRow → Session → Session
loaded env row s = record s { account = load_result env row.account }

abbrev checked : Env → LogonRow → Session → Session
checked env row s = record (loaded env row s) { ip_country = (check_lock env (loaded env row s)).1 }

callback-locked :
    (env : Env) (random : List ℕ) (row : LogonRow) (s : Session) {code : ℕ}
    → (check_lock env (loaded env row s)).0 ≡ some code
    → logon_challenge_callback env random (some row) s ≡ send_all (refusal code) (checked env row s)
unfolding logon_challenge_callback check_lock load_result
callback-locked env random row s h = rw h

callback-banned :
    (env : Env) (random : List ℕ) (row : LogonRow) (s : Session) {code : ℕ}
    → (check_lock env (loaded env row s)).0 ≡ none
    → check_ban (load_result env row.account) ≡ some code
    → logon_challenge_callback env random (some row) s ≡ send_all (refusal code) (checked env row s)
unfolding logon_challenge_callback check_lock load_result check_ban
callback-banned env random row s h k = rw h (rw k)

callback-answered :
    (env : Env) (random : List ℕ) (row : LogonRow) (s : Session)
    → (check_lock env (loaded env row s)).0 ≡ none
    → check_ban (load_result env row.account) ≡ none
    → logon_challenge_callback env random (some row) s
      ≡ answer_challenge env random row (checked env row s)
unfolding logon_challenge_callback check_lock load_result check_ban
callback-answered env random row s h k = rw h (rw k)

load_totp-good :
    (env : Env) (stored old : Option (List ℕ))
    → (load_totp env stored old).1 ≡ not (is_totp_broken env stored)
unfolding load_totp
load_totp-good env none old = refl
load_totp-good env (some stored) old = ground arith

-- the session that the SRP6 object is made in
abbrev with_totp : Env → LogonRow → Session → Session
with_totp env row s = record (checked env row s) {
  totp_secret = (load_totp env row.totp_secret s.totp_secret).0;
}

abbrev new_srp : Env → List ℕ → LogonRow → Srp6
new_srp env random row =
    Srp6.new env.crypto (env.upper row.account.username) row.salt row.verifier random

answer_broken :
    (env : Env) (random : List ℕ) (row : LogonRow) (s : Session)
    → is_totp_broken env row.totp_secret ≡ true
    → answer_challenge env random row (checked env row s)
      ≡ send_all (refusal Code.db_busy) (with_totp env row s)
unfolding answer_challenge
answer_broken env random row s h = ground (arith, load_totp-good env row.totp_secret s.totp_secret)

answer_sound :
    (env : Env) (random : List ℕ) (row : LogonRow) (s : Session)
    → is_totp_broken env row.totp_secret ≡ false
    → answer_challenge env random row (checked env row s)
      ≡ start_proof env random row (if is_some row.totp_secret then 4 else 0) (with_totp env row s)
unfolding answer_challenge
answer_sound env random row s h = ground (arith, load_totp-good env row.totp_secret s.totp_secret)

-- the session that the answer is sent from
abbrev answering : Env → List ℕ → LogonRow → Session → Session
answering env random row s = record (with_totp env row s) { srp6 = some (new_srp env random row) }

start_proof-eq :
    (env : Env) (random : List ℕ) (row : LogonRow) (s : Session) (flags : ℕ)
    → start_proof env random row flags (with_totp env row s) ≡ (
        if is_accepted env.builds s.build
        then send_all
            (challenge_packet (new_srp env random row) flags)
            (record (answering env random row s) { status = logon_proof })
        else send_all (refusal Code.version_invalid) (answering env random row s))
unfolding start_proof load_result
start_proof-eq env random row s flags = refl

answer_challenge-Answer :
    (env : Env) (random : List ℕ) (row : LogonRow) (s : Session)
    → logon_challenge_callback env random (some row) s
      ≡ answer_challenge env random row (checked env row s)
    → Answer env random row s (
        if is_totp_broken env row.totp_secret
        then some Code.db_busy
        else if is_accepted env.builds s.build
        then none
        else some Code.version_invalid)
answer_challenge-Answer env random row s q =
    go (is_totp_broken env row.totp_secret) (is_accepted env.builds s.build) refl refl
  where
    go :
        (b c : Bool)
        → is_totp_broken env row.totp_secret ≡ b
        → is_accepted env.builds s.build ≡ c
        → Answer env random row s
            (if b then some Code.db_busy else if c then none else some Code.version_invalid)
    go true c x y = (with_totp env row s, q ∙ answer_broken env random row s x, refl, refl)
    go false true x y = (
      record (answering env random row s) { status = logon_proof },
      new_srp env random row,
      refl,
      (q ∙ answer_sound env random row s x) ∙ (start_proof-eq env random row s _ ∙ rw y),
      refl,
      refl,
      refl,
    )
    go false false x y = (
      answering env random row s,
      (q ∙ answer_sound env random row s x) ∙ (start_proof-eq env random row s _ ∙ rw y),
      refl,
      refl,
    )

-- On a row of the account, `LogonChallengeCallback` refuses with the code of the first reason that
-- holds, and leaves the status; if none holds it sends the challenge of a new SRP6 object and
-- awaits the proof.
pub logon_challenge_callback-Answer :
    (env : Env) (random : List ℕ) (row : LogonRow) (s : Session)
    → Answer env random row s (first (reasons env row s))
logon_challenge_callback-Answer env random row s =
    elim (Option-cases (check_lock env (loaded env row s)).0) [
      | inr (code, e) ↦
          subst (Answer env random row s) (sym (lock-refused env row s e))
            (checked env row s, callback-locked env random row s e, refl, refl)
      | inl e ↦ elim (Option-cases (check_ban (load_result env row.account))) [
        | inr (code, k) ↦
            subst (Answer env random row s) (sym (ban-refused env row s e k))
              (checked env row s, callback-banned env random row s e k, refl, refl)
        | inl k ↦
            subst (Answer env random row s) (sym (rest-refused env row s e k))
              (answer_challenge-Answer env random row s (callback-answered env random row s e k))
      ]
    ]
