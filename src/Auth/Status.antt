-- ===== src/Auth/Status.antt =====
-- What each handler leaves alone, and what it does to the status.
use mmo_wow.Prelude.{
  ℕ, ◌≡◌, ◌⊎◌, inl, inr, Bool, true, false, List, Option, none, some, ok, deref, arith, ◌==◌,
  >>=-eq-ok, Bool-cases,
}
use mmo_wow.ByteBuffer.{ByteBuffer}
use mmo_wow.Crypto.Srp6
use mmo_wow.Crypto.Srp6.{Srp6}
use mmo_wow.Auth.Protocol.{authed, closed}
use mmo_wow.Auth.Session.{Env, Session, send_packet, send_all, put_all, bytes_of, field_of}
use mmo_wow.Auth.Challenge.{no_valid}
use mmo_wow.Auth.Proof.{
  refuse_version, wrong_password, record_failure, right_password, check_token, accept_proof,
  refuse_proof, finish_proof, after_verify, handle_logon_proof, handle_reconnect_proof,
  accept_reconnect, refuse_reconnect,
}

-- What the answers and the book-keeping of a handler leave alone.
pub record Frame (s t : Session) : Type 0 where
  pub status : t.status ≡ s.status
  pub srp6 : t.srp6 ≡ s.srp6
  pub queries : t.queries ≡ s.queries
  pub build : t.build ≡ s.build
  pub expversion : t.expversion ≡ s.expversion
  pub is_closed : t.is_closed ≡ s.is_closed
  pub is_closing : t.is_closing ≡ s.is_closing
  pub is_reading : t.is_reading ≡ s.is_reading

pub Frame-refl : (s : Session) → Frame s s
Frame-refl s = ground arith

-- Sending changes the write queue alone.
pub send_packet-queue :
    (p : ByteBuffer) (s : Session) {t : Session}
    → send_packet p s ≡ ok t
    → t ≡ record s { write_queue = t.write_queue }
unfolding send_packet
send_packet-queue p s h = ground arith

pub send_all-queue :
    (xs : List (List ℕ)) (s : Session) {t : Session}
    → send_all xs s ≡ ok t
    → t ≡ record s { write_queue = t.write_queue }
unfolding send_all
send_all-queue xs s h = let (p, _, e) = >>=-eq-ok (put_all xs _) _ h in send_packet-queue p s e

pub send_all-Frame :
    (xs : List (List ℕ)) (s : Session) {t : Session} → send_all xs s ≡ ok t → Frame s t
send_all-Frame xs s h = ground (arith, send_all-queue xs s h)

pub refuse_proof-Frame :
    (code : ℕ) (s : Session) {g : Bool} {t : Session} → refuse_proof code s ≡ ok (g, t) → Frame s t
unfolding refuse_proof
refuse_proof-Frame code s h =
    let (u, e, h') = >>=-eq-ok (send_all _ s) _ h in ground (arith, send_all-Frame _ s e)

pub refuse_version-Frame :
    (s : Session) {g : Bool} {t : Session} → refuse_version s ≡ ok (g, t) → Frame s t
unfolding refuse_version
refuse_version-Frame s h =
    let (u, e, h') = >>=-eq-ok (send_all _ s) _ h in ground (arith, send_all-Frame _ s e)

record_failure-Frame : (env : Env) (s : Session) → Frame s (record_failure env s)
unfolding record_failure
record_failure-Frame env s = ground arith

pub wrong_password-Frame :
    (env : Env) (s : Session) {g : Bool} {t : Session}
    → wrong_password env s ≡ ok (g, t)
    → Frame s t
unfolding wrong_password
wrong_password-Frame env s h =
    let (u, e, h') = >>=-eq-ok (send_all _ s) _ h in
    ground (arith, send_all-Frame _ s e, record_failure-Frame env u)

pub check_token-Frame :
    (env : Env) (now flags : ℕ) (s : Session) {g : Bool} {t : Session}
    → check_token env now flags s ≡ ok (g, t)
    → Frame s t
unfolding check_token
check_token-Frame env now flags s h = ground arith

accept_proof-Frame :
    (env : Env) (a m k : List ℕ) (s : Session) {g : Bool} {t : Session}
    → accept_proof env a m k s ≡ ok (g, t)
    → Frame (record s { status = authed }) t
unfolding accept_proof
accept_proof-Frame env a m k s h =
    let (u, e, h') = >>=-eq-ok (send_packet _ _) _ h in ground (arith, send_packet-queue _ _ e)

-- A proof is refused, or lets the client in.
abbrev pub Decided : Session → Session → Type 0
Decided s t = Frame s t ⊎ Frame (record s { status = authed }) t

Decided-trans : (s t u : Session) → Frame s t → Decided t u → Decided s u
Decided-trans s t u f d = ground arith

finish_proof-Decided :
    (env : Env) (a m k crc : List ℕ) (good : Bool) (s : Session) {g : Bool} {t : Session}
    → finish_proof env a m k crc good s ≡ ok (g, t)
    → Decided s t
unfolding finish_proof
finish_proof-Decided env a m k crc false s h = inl (refuse_proof-Frame _ s h)
finish_proof-Decided env a m k crc true s {g} {t} h =
    ground (
      arith,
      accept_proof-Frame env a m k s {g = g} {t = t},
      refuse_version-Frame s {g = g} {t = t},
    )

right_password-Decided :
    (env : Env) (now : ℕ) (a m k : List ℕ) (s : Session) {g : Bool} {t : Session}
    → right_password env now a m k s ≡ ok (g, t)
    → Decided s t
unfolding right_password
right_password-Decided env now a m k s h =
    let (flags, _, h1) = >>=-eq-ok (field_of s 74 1) _ h in
    let (crc, _, h2) = >>=-eq-ok (bytes_of s 53 20) _ h1 in
    let s' : Session = record s { session_key = k } in
    let ((good, u), e, h3) = >>=-eq-ok (check_token env now flags s') _ h2 in
    Decided-trans s u _ (ground (arith, check_token-Frame env now flags s' e))
      (finish_proof-Decided env a m k crc good u h3)

after_verify-Decided :
    (env : Env) (now : ℕ) (a m : List ℕ) (key : Option (List ℕ)) (s : Session) {g : Bool}
    {t : Session}
    → after_verify env now a m key s ≡ ok (g, t)
    → Decided s t
unfolding after_verify
after_verify-Decided env now a m none s h = inl (wrong_password-Frame env s h)
after_verify-Decided env now a m (some k) s h = right_password-Decided env now a m k s h

-- the session that `HandleLogonProof` works on once the SRP6 object is used
abbrev pub closed_with : Session → Srp6 → Session
closed_with s used = record s { status = closed; srp6 = some used }

-- `HandleLogonProof` either gives up on a client with no valid version, or uses the SRP6 object and
-- decides.
pub handle_logon_proof-Decided :
    (env : Env) (now : ℕ) (s : Session) {g : Bool} {t : Session}
    → handle_logon_proof env now s ≡ ok (g, t)
    → ((s.expversion ≡ no_valid) × (g ≡ false) × (t ≡ record s { status = closed }))
      ⊎ ((used : Srp6) × Decided (closed_with s used) t)
unfolding handle_logon_proof
handle_logon_proof-Decided env now s {g} {t} h = elim (Bool-cases (s.expversion == no_valid)) [
  | inl e ↦ inl (ground arith)
  | inr e ↦
      (let s' : Session = record s { status = closed } in
        let h0 = rw e at h in
        let (a, _, h1) = >>=-eq-ok (bytes_of s' 1 32) _ h0 in
        let (m, _, h2) = >>=-eq-ok (bytes_of s' 33 20) _ h1 in
        let (srp, _, h3) = >>=-eq-ok (deref s'.srp6) _ h2 in
        let ((key, used), _, h4) = >>=-eq-ok (Srp6.verify env.crypto srp a m) _ h3 in
        inr (used, after_verify-Decided env now a m key (closed_with s used) h4))
]

accept_reconnect-Frame :
    (s : Session) {g : Bool} {t : Session}
    → accept_reconnect s ≡ ok (g, t)
    → Frame (record s { status = authed }) t
unfolding accept_reconnect
accept_reconnect-Frame s h =
    let (u, e, h') = >>=-eq-ok (send_all _ s) _ h in ground (arith, send_all-Frame _ s e)

pub refuse_reconnect-Frame :
    (s : Session) {g : Bool} {t : Session} → refuse_reconnect s ≡ ok (g, t) → Frame s t
unfolding refuse_reconnect
refuse_reconnect-Frame s h =
    let (u, e, h') = >>=-eq-ok (send_all _ s) _ h in ground (arith, send_all-Frame _ s e)

pub handle_reconnect_proof-Decided :
    (env : Env) (s : Session) {g : Bool} {t : Session}
    → handle_reconnect_proof env s ≡ ok (g, t)
    → Decided (record s { status = closed }) t
unfolding handle_reconnect_proof
handle_reconnect_proof-Decided env s {g} {t} h =
    let s' : Session = record s { status = closed } in
    ground (
      arith,
      accept_reconnect-Frame s' {g = g} {t = t},
      refuse_reconnect-Frame s' {g = g} {t = t},
      Frame-refl s',
    )
