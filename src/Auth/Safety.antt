-- ===== src/Auth/Safety.antt =====
-- What it takes to be let in by `HandleLogonProof` and `HandleReconnectProof`.
use mmo_wow.Prelude.{
  ℕ, ◌≡◌, ◌≢◌, refl, ap, ◌∙◌, inl, inr, Bool, true, List, [], some, ok, deref, length, arith, ◌==◌,
  >>=-eq-ok, Bool-cases,
}
use mmo_wow.Prelude.Bytes.{bytes_eq, bytes_eq→eq}
use mmo_wow.Crypto.Srp6
use mmo_wow.Crypto.Srp6.{Srp6}
use mmo_wow.Auth.Protocol.{authed, closed}
use mmo_wow.Crypto.Verify.{verify-some}
use mmo_wow.Auth.Session.{Env, Session, send_all, bytes_of}
use mmo_wow.Auth.Challenge.{no_valid}
use mmo_wow.Auth.Proof.{
  verify_version, handle_logon_proof, handle_reconnect_proof, accept_reconnect, reconnect_digest,
}
use mmo_wow.Auth.Status.{refuse_reconnect-Frame, send_all-queue}
use mmo_wow.Auth.Login.{LoggedIn, deref-ok, after_verify-authed, Cleared-same}

-- `HandleLogonProof` lets a client in only by a right proof, with a right token and version.
pub handle_logon_proof-authed :
    (env : Env) (now : ℕ) (s : Session) {g : Bool} {t : Session}
    → handle_logon_proof env now s ≡ ok (g, t)
    → t.status ≡ authed
    → LoggedIn env now s t
unfolding handle_logon_proof bytes_of
handle_logon_proof-authed env now s {g} {t} h d = elim (Bool-cases (s.expversion == no_valid)) [
  | inl e ↦ ground arith
  | inr e ↦
      (let s' : Session = record s { status = closed } in
        let h0 = rw e at h in
        let (a, p1, h1) = >>=-eq-ok (bytes_of s' 1 32) _ h0 in
        let (m, p2, h2) = >>=-eq-ok (bytes_of s' 33 20) _ h1 in
        let (srp, p3, h3) = >>=-eq-ok (deref s'.srp6) _ h2 in
        let ((key, used), p4, h4) = >>=-eq-ok (Srp6.verify env.crypto srp a m) _ h3 in
        let (k, q, c) =
          after_verify-authed env now a m key (record s' { srp6 = some used }) refl d h4 in
        record {
          srp = srp;
          a = a;
          client_proof = m;
          key = k;
          has_srp = deref-ok s.srp6 p3;
          a_read = p1;
          proof_read = p2;
          proves = verify-some env.crypto srp a m (p4 ∙ ap (λ x. ok (x, used)) q);
          cleared = Cleared-same env now a k used s t c;
        })
]

-- What a reconnection rests on, and what it leaves.
pub record Reconnected (env : Env) (s t : Session) : Type 0 where
  pub r1 : List ℕ
  pub r3 : List ℕ
  pub r1_read : bytes_of s 1 16 ≡ ok r1
  pub has_login : s.account.login ≢ []
  pub digest_read : bytes_of s 17 20 ≡ ok (reconnect_digest env s r1)
  pub r3_read : bytes_of s 37 20 ≡ ok r3
  pub version_right : verify_version env s r1 r3 true ≡ true
  pub session_key : t.session_key ≡ s.session_key
  pub account : t.account ≡ s.account

accept_reconnect-eq :
    (s : Session) {g : Bool} {t : Session}
    → accept_reconnect s ≡ ok (g, t)
    → t ≡ record s { status = authed; write_queue = t.write_queue }
unfolding accept_reconnect
accept_reconnect-eq s h =
    let (u, e, h') = >>=-eq-ok (send_all _ s) _ h in ground (arith, send_all-queue _ s e)

-- `HandleReconnectProof` lets a client in only by the digest of the session key, with a right
-- version.
pub handle_reconnect_proof-authed :
    (env : Env) (s : Session) {g : Bool} {t : Session}
    → handle_reconnect_proof env s ≡ ok (g, t)
    → t.status ≡ authed
    → Reconnected env s t
unfolding handle_reconnect_proof bytes_of verify_version
handle_reconnect_proof-authed env s {g} {t} h d = elim (Bool-cases (length s.account.login == 0)) [
  | inl e ↦ ground arith
  | inr e ↦
      (let s' : Session = record s { status = closed } in
        let h0 = rw e at h in
        let (r1, p1, h1) = >>=-eq-ok (bytes_of s' 1 16) _ h0 in
        let (r2, p2, h2) = >>=-eq-ok (bytes_of s' 17 20) _ h1 in
        let (r3, p3, h3) = >>=-eq-ok (bytes_of s' 37 20) _ h2 in
        elim (Bool-cases (bytes_eq (reconnect_digest env s r1) r2)) [
          | inr x ↦ ground arith
          | inl x ↦ elim (Bool-cases (verify_version env s' r1 r3 true)) [
            | inr y ↦ ground (arith, refuse_reconnect-Frame s' {g = g} {t = t})
            | inl y ↦
                (let q = accept_reconnect-eq s' {g = g} {t = t} (ground arith) in
                  record {
                    r1 = r1;
                    r3 = r3;
                    r1_read = p1;
                    has_login = ground arith;
                    digest_read = ground (arith, bytes_eq→eq (reconnect_digest env s r1) r2 x);
                    r3_read = p3;
                    version_right = y;
                    session_key = ground (arith, q);
                    account = ground (arith, q);
                  })
          ]
        ])
]
