-- ===== src/Auth/Invariant.antt =====
-- The phases of `Auth.Phase` under the events of AuthSession.cpp and Socket.h.
use mmo_wow.Prelude.{
  ℕ, ◌≡◌, ◌≢◌, refl, inl, inr, false, List, [], ◌∷◌, Option, none, some, ok, arith, >>=-eq-ok,
  Bool-cases, Option-cases,
}
use mmo_wow.Crypto.Srp6
use mmo_wow.Crypto.Srp6.{Srp6}
use mmo_wow.Realm.{is_accepted}
use mmo_wow.Auth.Protocol.{challenge, logon_proof, reconnect_proof, waiting_for_realm_list, closed}
use mmo_wow.Auth.Session.{Env, Session, ip_info, send_packet}
use mmo_wow.Auth.Challenge.{
  expansion_of, start_proof, answer_challenge, load_result, check_lock, check_ban, load_totp,
  LogonRow, ReconnectRow, logon_challenge_callback, reconnect_challenge_callback,
}
use mmo_wow.Auth.RealmReply.{realm_list_packet, realm_list_callback}
use mmo_wow.Auth.Status.{Frame, send_all-Frame, send_packet-queue}
use mmo_wow.Auth.Phase.{Phase, idle, ready, Same-Frame, Same-Phase}
use mmo_wow.Auth.Step.{
  start, any_banned, check_ip_callback, receive_error, answered, Step, arrive, fail, ip_answer,
  logon_answer, reconnect_answer, realm_answer, Reach, here, next,
}
use mmo_wow.Auth.Rounds.{close_socket-Same, async_read-Same, receive-Phase}

-- A callback whose answer leaves no query waiting and does not ask for a proof.
idle-Frame :
    (env : Env) (s t : Session)
    → s.queries ≡ []
    → s.status ≢ logon_proof
    → s.status ≢ waiting_for_realm_list
    → Frame s t
    → Phase env t
idle-Frame env s t q a b f = Same-Phase env s t (Same-Frame s t f) (idle q a b)

start_proof-Phase :
    (env : Env) (random : List ℕ) (row : LogonRow) (flags : ℕ) (s : Session) {t : Session}
    → s.queries ≡ []
    → s.status ≡ closed
    → s.expversion ≡ expansion_of env s.build
    → start_proof env random row flags s ≡ ok t
    → Phase env t
unfolding start_proof
start_proof-Phase env random row flags s {t} q c x h =
    let srp : Srp6 = Srp6.new env.crypto s.account.login row.salt row.verifier random in
    let s' : Session = record s { srp6 = some srp } in
    elim (Bool-cases (is_accepted env.builds s.build)) [
      | inl e ↦
          Same-Phase env (record s' { status = logon_proof }) t
            (Same-Frame _ t (send_all-Frame _ (record s' { status = logon_proof }) (rw e at h)))
            (ready srp q refl refl (unfold Srp6.new in refl) x e)
      | inr e ↦
          idle-Frame env s' t q (ground arith) (ground arith) (send_all-Frame _ s' (rw e at h))
    ]

answer_challenge-Phase :
    (env : Env) (random : List ℕ) (row : LogonRow) (s : Session) {t : Session}
    → s.queries ≡ []
    → s.status ≡ closed
    → s.expversion ≡ expansion_of env s.build
    → answer_challenge env random row s ≡ ok t
    → Phase env t
unfolding answer_challenge
answer_challenge-Phase env random row s {t} q c x h =
    let s' : Session = record s { totp_secret = (load_totp env row.totp_secret s.totp_secret).0 } in
    elim (Bool-cases (load_totp env row.totp_secret s.totp_secret).1) [
      | inl e ↦ start_proof-Phase env random row _ s' {t = t} q c x (rw e at h)
      | inr e ↦
          idle-Frame env s' t q (ground arith) (ground arith) (send_all-Frame _ s' (rw e at h))
    ]

logon_challenge_callback-Phase :
    (env : Env) (random : List ℕ) (row : Option LogonRow) (s : Session) {t : Session}
    → s.queries ≡ []
    → s.status ≡ closed
    → s.expversion ≡ expansion_of env s.build
    → logon_challenge_callback env random row s ≡ ok t
    → Phase env t
unfolding logon_challenge_callback check_lock load_result
logon_challenge_callback-Phase env random none s {t} q c x h =
    idle-Frame env s t q (ground arith) (ground arith) (send_all-Frame _ s h)
logon_challenge_callback-Phase env random (some row) s {t} q c x h =
    let loaded : Session = record s { account = load_result env row.account } in
    let s' : Session = record loaded { ip_country = (check_lock env loaded).1 } in
    elim (Option-cases (check_lock env loaded).0) [
      | inr (code, e) ↦
          idle-Frame env s' t q (ground arith) (ground arith) (send_all-Frame _ s' (rw e at h))
      | inl e ↦ elim (Option-cases (check_ban s'.account)) [
        | inr (code, e2) ↦
            idle-Frame env s' t q (ground arith) (ground arith)
              (send_all-Frame _ s' (rw e2 at (rw e at h)))
        | inl e2 ↦ answer_challenge-Phase env random row s' {t = t} q c x (rw e2 at (rw e at h))
      ]
    ]

reconnect_challenge_callback-Phase :
    (env : Env) (random : List ℕ) (row : Option ReconnectRow) (s : Session) {t : Session}
    → s.queries ≡ []
    → s.status ≡ closed
    → reconnect_challenge_callback env random row s ≡ ok t
    → Phase env t
unfolding reconnect_challenge_callback
reconnect_challenge_callback-Phase env random none s {t} q c h =
    idle-Frame env s t q (ground arith) (ground arith) (send_all-Frame _ s h)
reconnect_challenge_callback-Phase env random (some row) s {t} q c h =
    let s' : Session = record s {
      account = load_result env row.account;
      session_key = row.session_key;
      reconnect_seed = random;
      status = reconnect_proof;
    } in
    idle-Frame env s' t q (ground arith) (ground arith) (send_all-Frame _ s' h)

realm_list_callback-Phase :
    (env : Env) (rows : List (ℕ × ℕ)) (s : Session) {t : Session}
    → s.queries ≡ []
    → realm_list_callback env rows s ≡ ok t
    → Phase env t
unfolding realm_list_callback
realm_list_callback-Phase env rows s {t} q h =
    let (p, _, h1) = >>=-eq-ok (realm_list_packet env rows s) _ h in
    let (u, e, h7) = >>=-eq-ok (send_packet p s) _ h1 in
    idle (ground (arith, send_packet-queue _ s e)) (ground (arith, send_packet-queue _ s e))
      (ground (arith, send_packet-queue _ s e))

check_ip_callback-Phase :
    (env : Env) (rows : Option (List ℕ)) (s : Session) {t : Session}
    → s.queries ≡ []
    → s.status ≡ challenge
    → check_ip_callback rows s ≡ ok t
    → Phase env t
unfolding check_ip_callback
check_ip_callback-Phase env none s {t} q c h =
    Same-Phase env s t (async_read-Same s h) (idle q (ground arith) (ground arith))
check_ip_callback-Phase env (some rows) s {t} q c h = elim (Bool-cases (any_banned rows)) [
  | inl e ↦ idle-Frame env s t q (ground arith) (ground arith) (send_all-Frame _ s (rw e at h))
  | inr e ↦
      Same-Phase env s t (async_read-Same s (rw e at h)) (idle q (ground arith) (ground arith))
]

-- A session waits for the answer about its address, and does not read; or it is past that.
pub data Inv (env : Env) (s : Session) : Type 0 where
  fresh :
      (ip : List ℕ)
      → s.queries ≡ ip_info ip ∷ []
      → s.is_reading ≡ false
      → s.status ≡ challenge
      → Inv env s
  past : Phase env s → Inv env s

pub Inv-Step : (env : Env) (s t : Session) → Inv env s → Step env s t → Inv env t
Inv-Step env s t (fresh ip q r c) (arrive now bytes a _ _ _) = ground arith
Inv-Step env s t (past f) (arrive now bytes _ _ _ h) = past (receive-Phase env now bytes s f h)
Inv-Step env s t (fresh ip q r c) (fail a _) = ground arith
Inv-Step env s t (past f) (fail _ e) = past (
    Same-Phase env s t
      (unfold receive_error in ground (arith, close_socket-Same (record s { is_reading = false })))
      f)
Inv-Step env s t (fresh ip q r c) (ip_answer ip' rest rows _ w h) =
    past (check_ip_callback-Phase env rows (answered rest s) {t = t} (ground arith) c h)
Inv-Step env s t (past f) (ip_answer ip' rest rows _ w h) = ground (arith, f)
Inv-Step env s t i (logon_answer login rest random row _ w h) =
    let (q, c, x) : (rest ≡ []) × (s.status ≡ closed) × (s.expversion ≡ expansion_of env s.build) =
      ground (arith, i) in
    past (logon_challenge_callback-Phase env random row (answered rest s) {t = t} q c x h)
Inv-Step env s t i (reconnect_answer login rest random row _ w h) =
    let (q, c) : (rest ≡ []) × (s.status ≡ closed) = ground (arith, i) in
    past (reconnect_challenge_callback-Phase env random row (answered rest s) {t = t} q c h)
Inv-Step env s t i (realm_answer id rest rows _ w h) =
    let q : rest ≡ [] = ground (arith, i) in
    past (realm_list_callback-Phase env rows (answered rest s) {t = t} q h)

pub Inv-start : (env : Env) (ip : List ℕ) (address : ℕ) → Inv env (start ip address)
unfolding start
Inv-start env ip address = fresh ip refl refl refl

-- Every session that is reached from a new connection, by whatever packets, errors and answers, is in
-- one of the phases: at most one query waits and it fits the status, and where a logon proof is
-- awaited there is an unused SRP6 object and the client's build is accepted.
pub Reach-Inv :
    (env : Env) (ip : List ℕ) (address : ℕ) (s : Session)
    → Reach env (start ip address) s
    → Inv env s
Reach-Inv env ip address s here = Inv-start env ip address
Reach-Inv env ip address s (next {t = t} r st) = Inv-Step env t s (Reach-Inv env ip address t r) st
