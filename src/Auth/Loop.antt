-- ===== src/Auth/Loop.antt =====
-- The rounds of the loop of `ReadHandler` (Server/AuthServer/Server/AuthSession.cpp), counted.
use mmo_wow.Prelude.{
  ℕ, List, zero, suc, ◌<◌, ◌≡◌, refl, inl, inr, Bool, true, some, Result, ok, err, arith, ◌==◌,
  >>=-eq-ok, Bool-cases, ltb, ◌&&◌, if◌then◌else◌, Option-cases, Result-cases, false,
}
use mmo_wow.MessageBuffer
use mmo_wow.Auth.Protocol.{
  max_challenge_size, Status, challenge, logon_proof, reconnect_proof, authed,
  waiting_for_realm_list, closed, status_eq,
}
use mmo_wow.Auth.Session.{field_of, Env, Session, close_socket, async_read}
use mmo_wow.Auth.Challenge.{handle_logon_challenge, handle_reconnect_challenge}
use mmo_wow.Auth.RealmReply.{handle_realm_list}
use mmo_wow.Auth.Reader.{
  Command, status_for, run, Round, again, stop, leave, handle, dispatch, round, read_loop,
  is_challenge, packet_size, size_of, command_of,
}
use mmo_wow.Auth.Reader
use mmo_wow.Auth.Step.{receive, fuel}
use mmo_wow.Auth.Status.{handle_logon_proof-Decided, handle_reconnect_proof-Decided}
use mmo_wow.Auth.Queued.{handle_challenge-Challenged}

-- how many packets can still be handled
abbrev pub rank : Status → ℕ
rank challenge = 1
rank logon_proof = 2
rank reconnect_proof = 2
rank authed = 1
rank waiting_for_realm_list = 0
rank closed = 0

pub status_eq→eq : (a b : Status) → status_eq a b ≡ true → a ≡ b
status_eq→eq a b h = ground arith

run-rank :
    (env : Env) (now : ℕ) (c : Command) (s : Session) {g : Bool} {t : Session}
    → run env now c s ≡ ok (g, t)
    → rank t.status < rank (status_for c)
unfolding run
run-rank env now Reader.logon_challenge s {g} {t} h =
    unfold handle_logon_challenge in
    ground (arith, handle_challenge-Challenged _ env s {g = g} {t = t} h)
run-rank env now Reader.logon_proof s h = ground (arith, handle_logon_proof-Decided env now s h)
run-rank env now Reader.reconnect_challenge s {g} {t} h =
    unfold handle_reconnect_challenge in
    ground (arith, handle_challenge-Challenged _ env s {g = g} {t = t} h)
run-rank env now Reader.reconnect_proof s h = ground (arith, handle_reconnect_proof-Decided env s h)
run-rank env now Reader.realm_list s h = unfold handle_realm_list in ground arith

handle-rank :
    (env : Env) (now : ℕ) (c : Command) (size : ℕ) (s : Session) {t : Session}
    → handle env now c size s ≡ ok (again t)
    → rank t.status < rank (status_for c)
unfolding handle
handle-rank env now c size s h =
    let ((g, u), e, h') = >>=-eq-ok (run env now c s) _ h in ground (arith, run-rank env now c s e)

proceed-rank :
    (env : Env) (now : ℕ) (c : Command) (s : Session) {t : Session} (size : ℕ)
    → (if is_challenge c && ltb max_challenge_size size
        then ok (leave (close_socket s))
        else if ltb (MessageBuffer.active_size s.read_buffer) size
        then ok (stop s)
        else handle env now c size s)
      ≡ ok (again t)
    → rank t.status < rank (status_for c)
proceed-rank env now c s {t} size h = ground (arith, handle-rank env now c size s {t = t})

dispatch-rank :
    (env : Env) (now : ℕ) (c : Command) (s : Session) {t : Session}
    → dispatch env now c s ≡ ok (again t)
    → rank t.status < rank s.status
unfolding dispatch
dispatch-rank env now c s {t} h = elim (Bool-cases (status_eq s.status (status_for c))) [
  | inr e ↦ ground (arith)
  | inl e ↦
      (let h0 = rw e at h in
        elim (Bool-cases (ltb (MessageBuffer.active_size s.read_buffer) (packet_size c))) [
          | inl e2 ↦ ground arith
          | inr e2 ↦
              (let h1 = rw e2 at h0 in
                let (size, _, h2) = >>=-eq-ok (size_of c s) _ h1 in
                ground (
                  arith,
                  status_eq→eq s.status (status_for c) e,
                  proceed-rank env now c s {t = t} size h2,
                ))
        ])
]

round-rank :
    (env : Env) (now : ℕ) (s : Session) {t : Session}
    → round env now s ≡ ok (again t)
    → rank t.status < rank s.status
unfolding round
round-rank env now s {t} h = elim (Bool-cases (MessageBuffer.active_size s.read_buffer == 0)) [
  | inl e ↦ ground arith
  | inr e ↦
      (let (cmd, _, h1) = >>=-eq-ok (field_of s 0 1) _ (rw e at h) in
        elim (Option-cases (command_of cmd)) [
          | inl e2 ↦ ground arith
          | inr (c, e2) ↦ dispatch-rank env now c s (rw e2 at h1)
        ])
]

-- Whatever the configuration, the time and the state of the session, `ReadHandler` ends: with fuel
-- above the rank of the status the loop has a result, and every rank is below 3.
pub read_loop-ends :
    (env : Env) (now fuel : ℕ) (s : Session)
    → rank s.status < fuel
    → (r : Result Session) × (read_loop env now fuel s ≡ some r)
unfolding read_loop
read_loop-ends env now zero s h = ground arith
read_loop-ends env now (suc fuel) s h =
    go (round env now s) refl
      (λ t q. read_loop-ends env now fuel t (ground (arith, round-rank env now s q)))
  where
    go :
        (m : Result Round)
        → round env now s ≡ m
        → ((t : Session)
            → round env now s ≡ ok (again t)
            → (r : Result Session) × (read_loop env now fuel t ≡ some r))
        → (r : Result Session) × (read_loop env now (suc fuel) s ≡ some r)
    go (err e) q ih = (err e, ground arith)
    go (ok (again t)) q ih = let (r, p) = ih t q in (r, ground arith)
    go (ok (stop t)) q ih = (async_read t, ground arith)
    go (ok (leave t)) q ih = (ok t, ground arith)

-- Whatever arrives, `ReadHandlerInternal` ends, on the fuel of `receive`.
pub receive_ends :
    (env : Env) (now : ℕ) (bytes : List ℕ) (s : Session)
    → (r : Result Session) × (receive env now bytes s ≡ some r)
unfolding receive
receive_ends env now bytes s = elim (Result-cases (MessageBuffer.write bytes s.read_buffer)) [
  | inl (e, q) ↦ (err e, ground arith)
  | inr (b, q) ↦
      (let u : Session = record s { read_buffer = b; is_reading = false } in
        let (r, p) = read_loop-ends env now fuel u (ground arith) in (r, ground (arith, p, q)))
]
