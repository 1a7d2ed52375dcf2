-- ===== src/Auth/Login.antt =====
-- What a login rests on: the branches of `HandleLogonProof` that set the status `authed`.
use mmo_wow.Prelude.{
  ℕ, ◌≡◌, ◌≢◌, refl, sym, ◌∙◌, inl, inr, Bool, true, false, List, [], ◌∷◌, ◌++◌, Option, none, some,
  ok, deref, bit_and, arith, ◌==◌, >>=-eq-ok, Bool-cases, if◌then◌else◌, Option-cases,
}
use mmo_wow.Crypto.Totp
use mmo_wow.Crypto.Srp6.{Srp6}
use mmo_wow.Auth.Protocol.{authed, closed}
use mmo_wow.Auth.Code
use mmo_wow.Auth.Session
use mmo_wow.Crypto.Verify.{Proves}
use mmo_wow.Auth.Session.{Env, Query, Session, send_packet, send_all, put_all, bytes_of, field_of}
use mmo_wow.Auth.Proof.{
  loopback_text, verify_version, take_token, right_password, check_token, accept_proof,
  record_login, finish_proof, after_verify,
}
use mmo_wow.Auth.Status.{
  send_packet-queue, refuse_version-Frame, refuse_proof-Frame, wrong_password-Frame,
  check_token-Frame,
}

-- The token of a packet with security flags `flags` is right: none is due and none is sent, or the
-- one behind the packet is that of the account's secret.
pub data TokenRight (env : Env) (now flags : ℕ) (s : Session) : Type 0 where
  no_token : s.totp_secret ≡ none → bit_and flags 4 ≡ 0 → TokenRight env now flags s
  token :
      (secret sent : List ℕ) (size : ℕ)
      → s.totp_secret ≡ some secret
      → bit_and flags 4 ≢ 0
      → field_of s 75 1 ≡ ok size
      → bytes_of s 76 size ≡ ok sent
      → Totp.validate_token env.crypto secret (env.atoi sent) now ≡ true
      → TokenRight env now flags s

take_token-eq :
    (env : Env) (now : ℕ) (secret : List ℕ) (s : Session) {g : Bool} {t : Session}
    → take_token env now secret s ≡ ok (g, t)
    → (size : ℕ) × (sent : List ℕ) × (field_of s 75 1 ≡ ok size)
      × (bytes_of s 76 size ≡ ok sent)
      × (g ≡ Totp.validate_token env.crypto secret (env.atoi sent) now)
      × (t ≡ record s { read_buffer = t.read_buffer; totp_secret = t.totp_secret })
unfolding take_token
take_token-eq env now secret s h =
    let (size, e, h1) = >>=-eq-ok (field_of s 75 1) _ h in
    let (sent, e1, h2) = >>=-eq-ok (bytes_of s 76 size) _ h1 in
    (size, sent, e, e1, ground arith, ground arith)

check_token-true :
    (env : Env) (now flags : ℕ) (s : Session) {t : Session}
    → check_token env now flags s ≡ ok (true, t)
    → TokenRight env now flags s
      × (t ≡ record s { read_buffer = t.read_buffer; totp_secret = t.totp_secret })
unfolding check_token
check_token-true env now flags s {t} h = elim (Option-cases s.totp_secret) [
  | inl e ↦ (no_token e (ground arith), ground arith)
  | inr (secret, e) ↦ elim (Bool-cases (bit_and flags 4 == 0)) [
    | inl e1 ↦ ground arith
    | inr e1 ↦
        (let (size, sent, p, q, v, r) =
            take_token-eq env now secret s {g = true} {t = t} (ground arith) in
          (token secret sent size e (ground arith) p q (sym v), r))
  ]
]

accept_proof-eq :
    (env : Env) (a m k : List ℕ) (s : Session) {g : Bool} {t : Session}
    → accept_proof env a m k s ≡ ok (g, t)
    → (g ≡ true)
      × (t ≡ record (record_login env k s) { status = authed; write_queue = t.write_queue })
unfolding accept_proof
accept_proof-eq env a m k s h =
    let (u, e, h') = >>=-eq-ok (send_packet _ _) _ h in ground (arith, send_packet-queue _ _ e)

finish_proof-authed :
    (env : Env) (a m k crc : List ℕ) (good : Bool) (s : Session) {g : Bool} {t : Session}
    → s.status ≡ closed
    → t.status ≡ authed
    → finish_proof env a m k crc good s ≡ ok (g, t)
    → (good ≡ true)
      × (verify_version env s a crc false ≡ true)
      × (t ≡ record (record_login env k s) { status = authed; write_queue = t.write_queue })
unfolding finish_proof
finish_proof-authed env a m k crc false s c d h = ground (arith, refuse_proof-Frame _ s h)
finish_proof-authed env a m k crc true s {g} {t} c d h =
    elim (Bool-cases (verify_version env s a crc false)) [
      | inr e ↦ ground (arith, refuse_version-Frame s {g = g} {t = t} (rw e at h))
      | inl e ↦ (refl, e, (accept_proof-eq env a m k s (rw e at h)).1)
    ]

TokenRight-same :
    (env : Env) (now flags : ℕ) (s t : Session)
    → t.read_buffer ≡ s.read_buffer
    → t.totp_secret ≡ s.totp_secret
    → TokenRight env now flags s
    → TokenRight env now flags t
unfolding field_of bytes_of
TokenRight-same env now flags s t e1 e2 (no_token p q) = no_token (e2 ∙ p) q
TokenRight-same env now flags s t e1 e2 (token secret sent size p q r u v) =
    token secret sent size (e2 ∙ p) q (ground (arith, e1)) (ground (arith, e1)) v

-- the rest of a login, once the key is agreed on
pub record Cleared (env : Env) (now : ℕ) (a key : List ℕ) (s t : Session) : Type 0 where
  pub crc : List ℕ
  pub flags : ℕ
  pub crc_read : bytes_of s 53 20 ≡ ok crc
  pub flags_read : field_of s 74 1 ≡ ok flags
  pub token_right : TokenRight env now flags s
  pub version_right : verify_version env s a crc false ≡ true
  pub session_key : t.session_key ≡ key
  pub account : t.account ≡ s.account
  pub recorded :
      t.statements
      ≡ s.statements
        ++ (Session.logon_proof key
              (if env.allow_logging_ip then s.remote_ip else loopback_text)
              (env.locale_of s.localization_name)
              s.os
              s.account.login
            ∷ [])

finish_proof-Cleared :
    (env : Env) (now flags : ℕ) (a m k crc : List ℕ) (good : Bool) (s u : Session) {g : Bool}
    {t : Session}
    → s.status ≡ closed
    → t.status ≡ authed
    → field_of s 74 1 ≡ ok flags
    → bytes_of s 53 20 ≡ ok crc
    → check_token env now flags (record s { session_key = k }) ≡ ok (good, u)
    → finish_proof env a m k crc good u ≡ ok (g, t)
    → Cleared env now a k s t
unfolding verify_version record_login finish_proof
finish_proof-Cleared env now flags a m k crc false s u {g = g} {t = t} c d p q w h = ground (
  arith,
  check_token-Frame env now flags (record s { session_key = k }) {g = false} {t = u} w,
  refuse_proof-Frame Code.unknown_account u {g = g} {t = t} h,
)
finish_proof-Cleared env now flags a m k crc true s u c d p q w h =
    let (x, e) = check_token-true env now flags (record s { session_key = k }) w in
    let (_, v, r) = finish_proof-authed env a m k crc true u (ground (arith, e)) d h in
    record {
      crc = crc;
      flags = flags;
      crc_read = q;
      flags_read = p;
      token_right = TokenRight-same env now flags (record s { session_key = k }) s refl refl x;
      version_right = ground (arith, e, v);
      session_key = ground (arith, e, r);
      account = ground (arith, e, r);
      recorded = ground (arith, e, r);
    }

right_password-Cleared :
    (env : Env) (now : ℕ) (a m k : List ℕ) (s : Session) {g : Bool} {t : Session}
    → s.status ≡ closed
    → t.status ≡ authed
    → right_password env now a m k s ≡ ok (g, t)
    → Cleared env now a k s t
unfolding right_password
right_password-Cleared env now a m k s {g} {t} c d h =
    let (flags, p5, h6) = >>=-eq-ok (field_of s 74 1) _ h in
    let (crc, p6, h7) = >>=-eq-ok (bytes_of s 53 20) _ h6 in
    let s2 : Session = record s { session_key = k } in
    let ((good, u), p7, h8) = >>=-eq-ok (check_token env now flags s2) _ h7 in
    finish_proof-Cleared env now flags a m k crc good s u c d p5 p6 p7 h8

pub deref-ok {ℓ} : {A : Type ℓ} (o : Option A) {a : A} → deref o ≡ ok a → o ≡ some a
deref-ok o h = ground arith

-- What a login rests on, and what it leaves: the packet in the buffer of `s` proves the secret of
-- its SRP6 object, its token and its version are right, and `t` has the key that was agreed on.
pub record LoggedIn (env : Env) (now : ℕ) (s t : Session) : Type 0 where
  pub srp : Srp6
  pub a : List ℕ
  pub client_proof : List ℕ
  pub key : List ℕ
  pub has_srp : s.srp6 ≡ some srp
  pub a_read : bytes_of s 1 32 ≡ ok a
  pub proof_read : bytes_of s 33 20 ≡ ok client_proof
  pub proves : Proves env.crypto srp a client_proof key
  pub cleared : Cleared env now a key s t

pub Cleared-same :
    (env : Env) (now : ℕ) (a k : List ℕ) (srp : Srp6) (s t : Session)
    → Cleared env now a k (record s { status = closed; srp6 = some srp }) t
    → Cleared env now a k s t
unfolding field_of bytes_of verify_version
Cleared-same env now a k srp s t c = record {
  crc = c.crc;
  flags = c.flags;
  crc_read = c.crc_read;
  flags_read = c.flags_read;
  token_right = TokenRight-same env now c.flags _ s refl refl c.token_right;
  version_right = c.version_right;
  session_key = c.session_key;
  account = c.account;
  recorded = c.recorded;
}

pub after_verify-authed :
    (env : Env) (now : ℕ) (a m : List ℕ) (key : Option (List ℕ)) (s : Session) {g : Bool}
    {t : Session}
    → s.status ≡ closed
    → t.status ≡ authed
    → after_verify env now a m key s ≡ ok (g, t)
    → (k : List ℕ) × (key ≡ some k) × Cleared env now a k s t
unfolding after_verify
after_verify-authed env now a m none s {g} {t} c d h =
    ground (arith, wrong_password-Frame env s {g = g} {t = t} h)
after_verify-authed env now a m (some k) s c d h =
    (k, refl, right_password-Cleared env now a m k s c d h)
