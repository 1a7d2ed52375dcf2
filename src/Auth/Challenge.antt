-- ===== src/Auth/Challenge.antt =====
-- `HandleLogonChallenge`, `HandleReconnectChallenge` and the callbacks that answer them.
use mathlib.Core.List.{reverse}
use mmo_wow.Prelude.{
  ℕ, ◌-◌, Bool, true, false, not, ◌||◌, List, [], ◌∷◌, ◌++◌, Option, none, some, Result, ok,
  sub_size, bit_and, ◌==◌, if◌then◌else◌, ◌>>=◌,
}
use mmo_wow.Prelude.Bytes.{to_bytes, bytes_eq}
use mmo_wow.Crypto.Srp6
use mmo_wow.Crypto.Srp6.{Srp6}
use mmo_wow.Realm.{is_pre_bc_accepted, is_post_bc_accepted, is_accepted}
use mmo_wow.Auth.Protocol.{
  cmd_logon_challenge, cmd_reconnect_challenge, version_challenge, challenge_size,
  challenge_initial_size, closed, logon_proof, reconnect_proof,
}
use mmo_wow.Auth.Code
use mmo_wow.Auth.Session.{
  Env, Account, Query, logon_challenge, reconnect_challenge, Session, send_all, bytes_of, field_of,
}

-- `ExpansionFlags`: POST_BC_EXP_FLAG, PRE_BC_EXP_FLAG, NO_VALID_EXP_FLAG
abbrev pub post_bc : ℕ
post_bc = 2

abbrev pub pre_bc : ℕ
pre_bc = 1

abbrev pub no_valid : ℕ
no_valid = 0

-- the `_expversion` of a client build
unfoldable pub expansion_of : Env → ℕ → ℕ
expansion_of env build =
    if is_post_bc_accepted env.builds build
    then post_bc
    else if is_pre_bc_accepted env.builds build
    then pre_bc
    else no_valid

-- a `char` array read as a C string: up to the first zero
abbrev pub c_string : List ℕ → List ℕ
c_string [] = []
c_string (c ∷ cs) = if c == 0 then [] else c ∷ c_string cs

-- What both challenge handlers do with the packet, whose login the query gets.
unfoldable pub handle_challenge : (List ℕ → Query) → Env → Session → Result (Bool × Session)
unfolding expansion_of
handle_challenge query env s0 = do
  let s = record s0 { status = closed }
  size ← field_of s 2 2
  login_len ← field_of s 33 1
  if not (sub_size size (challenge_size - challenge_initial_size - 1) == login_len)
      then ok (false, s)
      else (do
        login ← bytes_of s 34 login_len
        build ← field_of s 11 2
        os ← bytes_of s 17 4
        country ← bytes_of s 21 4
        ok (
          true,
          record s {
            build = build;
            expversion = expansion_of env build;
            os = reverse (c_string os);
            localization_name = reverse country;
            queries = s.queries ++ (query login ∷ []);
          },
        ))

-- `HandleLogonChallenge`
unfoldable pub handle_logon_challenge : Env → Session → Result (Bool × Session)
unfolding handle_challenge
handle_logon_challenge = handle_challenge logon_challenge

-- `HandleReconnectChallenge`
unfoldable pub handle_reconnect_challenge : Env → Session → Result (Bool × Session)
unfolding handle_challenge
handle_reconnect_challenge = handle_challenge reconnect_challenge

-- the columns that both queries select
pub record AccountRow : Type 0 where
  pub id : ℕ
  pub username : List ℕ
  pub locked : Bool
  pub lock_country : List ℕ
  pub last_ip : List ℕ
  pub failed_logins : ℕ
  pub banned : ℕ
  pub permanently_banned : ℕ
  pub security_level : ℕ

-- `AccountInfo::LoadResult`
unfoldable pub load_result : Env → AccountRow → Account
load_result env r = record {
  id = r.id;
  login = env.upper r.username;
  is_locked_to_ip = r.locked;
  lock_country = r.lock_country;
  last_ip = r.last_ip;
  failed_logins = r.failed_logins;
  is_banned = not (r.banned == 0);
  is_permanently_banned = not (r.permanently_banned == 0);
  security_level = r.security_level;
}

-- a row of LOGIN_SEL_LOGONCHALLENGE; `totp_secret` may be NULL
pub record LogonRow : Type 0 where
  pub account : AccountRow
  pub totp_secret : Option (List ℕ)
  pub salt : List ℕ
  pub verifier : List ℕ

-- the packet that a failed challenge is answered with
abbrev pub refusal : ℕ → List (List ℕ)
refusal code = (cmd_logon_challenge ∷ []) ∷ (0 ∷ []) ∷ (code ∷ []) ∷ []

-- The check of the address: the code of a refusal, and the country that was looked up.
unfoldable pub check_lock : Env → Session → Option ℕ × List ℕ
check_lock env s =
    if s.account.is_locked_to_ip
    then (if not (bytes_eq s.account.last_ip s.remote_ip)
        then (some Code.locked_enforced, s.ip_country)
        else (none, s.ip_country))
    else (let country : List ℕ = elim (env.country_of s.remote_ip) [
      | none ↦ s.ip_country
      | some c ↦ c
    ] in
        if bytes_eq s.account.lock_country [] || bytes_eq s.account.lock_country (48 ∷ 48 ∷ [])
        then (none, country)
        else if bytes_eq country []
        then (none, country)
        else if not (bytes_eq country s.account.lock_country)
        then (some Code.unlockable_lock, country)
        else (none, country))

-- The check for a ban.
unfoldable pub check_ban : Account → Option ℕ
check_ban a =
    if a.is_banned
    then (if a.is_permanently_banned then some Code.banned else some Code.suspended)
    else none

-- The stored TOTP secret, decrypted if there is a master key: the two members of the pair are the
-- new `_totpSecret` and whether decryption went well.
unfoldable pub load_totp : Env → Option (List ℕ) → Option (List ℕ) → Option (List ℕ) × Bool
load_totp env none old = (old, true)
load_totp env (some stored) old = elim env.totp_master_key [
  | none ↦ (some stored, true)
  | some key ↦ (let (plain, good) = env.crypto.decrypt stored key in (some plain, good))
]

-- The packet of a challenge that may go on. Security flags are 4 (a token is wanted) or 0.
abbrev pub challenge_packet : Srp6 → ℕ → List (List ℕ)
challenge_packet srp security_flags =
    (cmd_logon_challenge ∷ [])
    ∷ (0 ∷ [])
    ∷ (Code.success ∷ [])
    ∷ srp.public_key
    ∷ (1 ∷ [])
    ∷ (Srp6.generator ∷ [])
    ∷ (32 ∷ [])
    ∷ to_bytes 32 Srp6.modulus
    ∷ srp.salt
    ∷ version_challenge
    ∷ (security_flags ∷ [])
    ∷ (if bit_and security_flags 4 == 0 then [] else (1 ∷ []) ∷ [])

-- The last part of `LogonChallengeCallback`: the SRP6 object and the answer.
unfoldable pub start_proof : Env → List ℕ → LogonRow → ℕ → Session → Result Session
start_proof env random row security_flags s0 =
    let srp = Srp6.new env.crypto s0.account.login row.salt row.verifier random in
    let s = record s0 { srp6 = some srp } in
    if is_accepted env.builds s.build
    then send_all (challenge_packet srp security_flags) (record s { status = logon_proof })
    else send_all (refusal Code.version_invalid) s

-- The middle part: the TOTP secret.
unfoldable pub answer_challenge : Env → List ℕ → LogonRow → Session → Result Session
unfolding start_proof
answer_challenge env random row s =
    let (secret, good) = load_totp env row.totp_secret s.totp_secret in
    let flags : ℕ = elim row.totp_secret [ none ↦ 0 | some _ ↦ 4 ] in
    if good
    then start_proof env random row flags (record s { totp_secret = secret })
    else send_all (refusal Code.db_busy) (record s { totp_secret = secret })

-- `LogonChallengeCallback`, with the 32 random bytes that the SRP6 object draws
unfoldable pub logon_challenge_callback : Env → List ℕ → Option LogonRow → Session → Result Session
unfolding answer_challenge
logon_challenge_callback env random none s = send_all (refusal Code.unknown_account) s
logon_challenge_callback env random (some row) s0 =
    let loaded = record s0 { account = load_result env row.account } in
    let (lock, country) = check_lock env loaded in
    let s = record loaded { ip_country = country } in
    elim lock [
      | some code ↦ send_all (refusal code) s
      | none ↦ elim (check_ban s.account) [
        | some code ↦ send_all (refusal code) s
        | none ↦ answer_challenge env random row s
      ]
    ]

-- a row of LOGIN_SEL_RECONNECTCHALLENGE
pub record ReconnectRow : Type 0 where
  pub account : AccountRow
  pub session_key : List ℕ

-- `ReconnectChallengeCallback`, with the 16 random bytes that it draws
unfoldable pub reconnect_challenge_callback :
    Env → List ℕ → Option ReconnectRow → Session → Result Session
reconnect_challenge_callback env random none s =
    send_all ((cmd_reconnect_challenge ∷ []) ∷ (Code.unknown_account ∷ []) ∷ []) s
reconnect_challenge_callback env random (some row) s0 =
    send_all
      ((cmd_reconnect_challenge ∷ []) ∷ (Code.success ∷ []) ∷ random ∷ version_challenge ∷ [])
      (record s0 {
        account = load_result env row.account;
        session_key = row.session_key;
        reconnect_seed = random;
        status = reconnect_proof;
      })
