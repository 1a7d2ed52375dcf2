-- ===== src/Auth/Rounds.antt =====
-- The phases of `Auth.Phase` under the loop of `ReadHandler`.
use mmo_wow.Prelude.{
  ℕ, zero, suc, ◌≡◌, refl, inl, inr, false, List, [], some, Result, ok, err, arith, ◌==◌, >>=-eq-ok,
  Bool-cases, ltb, ◌&&◌, if◌then◌else◌, Option-cases, Result-cases,
}
use mmo_wow.MessageBuffer
use mmo_wow.Auth.Protocol.{status_eq, max_challenge_size}
use mmo_wow.Auth.Session.{Env, Session, close_socket, async_read, field_of}
use mmo_wow.Auth.Loop.{status_eq→eq}
use mmo_wow.Auth.Phase.{Phase, Same, Same-Phase, queries-status_for, run-Phase}
use mmo_wow.Auth.Reader.{
  Command, status_for, run, Round, again, stop, leave, handle, dispatch, round, read_loop, size_of,
  command_of, packet_size, is_challenge,
}
use mmo_wow.Auth.Step.{receive, fuel}

abbrev result : Round → Session
result (again s) = s
result (stop s) = s
result (leave s) = s

pub close_socket-Same : (s : Session) → Same s (close_socket s)
unfolding close_socket
close_socket-Same s = ground arith

pub async_read-Same : (s : Session) {t : Session} → async_read s ≡ ok t → Same s t
unfolding async_read
async_read-Same s h = ground arith

handle-Phase :
    (env : Env) (now : ℕ) (c : Command) (size : ℕ) (s : Session) {m : Round}
    → s.queries ≡ []
    → handle env now c size s ≡ ok m
    → Phase env (result m)
unfolding handle
handle-Phase env now c size s {m} q h =
    let ((g, u), e, h') = >>=-eq-ok (run env now c s) _ h in
    elim (Bool-cases g) [
      | inl p ↦ Same-Phase env u _ (ground (arith)) (run-Phase env now c s q e)
      | inr p ↦ Same-Phase env u _ (ground (arith, close_socket-Same u)) (run-Phase env now c s q e)
    ]

proceed-Phase :
    (env : Env) (now : ℕ) (c : Command) (s : Session) {m : Round} (size : ℕ)
    → Phase env s
    → s.queries ≡ []
    → (if is_challenge c && ltb max_challenge_size size
        then ok (leave (close_socket s))
        else if ltb (MessageBuffer.active_size s.read_buffer) size
        then ok (stop s)
        else handle env now c size s)
      ≡ ok m
    → Phase env (result m)
proceed-Phase env now c s {m} size f q h =
    elim (Bool-cases (is_challenge c && ltb max_challenge_size size)) [
      | inl e ↦ Same-Phase env s _ (ground (arith, close_socket-Same s)) f
      | inr e ↦ elim (Bool-cases (ltb (MessageBuffer.active_size s.read_buffer) size)) [
        | inl e2 ↦ Same-Phase env s _ (ground (arith)) f
        | inr e2 ↦ handle-Phase env now c size s {m = m} q (ground arith)
      ]
    ]

dispatch-Phase :
    (env : Env) (now : ℕ) (c : Command) (s : Session) {m : Round}
    → Phase env s
    → dispatch env now c s ≡ ok m
    → Phase env (result m)
unfolding dispatch
dispatch-Phase env now c s {m} f h = elim (Bool-cases (status_eq s.status (status_for c))) [
  | inr e ↦ Same-Phase env s _ (ground (arith, close_socket-Same s)) f
  | inl e ↦
      (let h0 = rw e at h in
        elim (Bool-cases (ltb (MessageBuffer.active_size s.read_buffer) (packet_size c))) [
          | inl e2 ↦ Same-Phase env s _ (ground arith) f
          | inr e2 ↦
              (let h1 = rw e2 at h0 in
                let (size, _, h2) = >>=-eq-ok (size_of c s) _ h1 in
                proceed-Phase env now c s {m = m} size f
                  (queries-status_for env c s (status_eq→eq s.status (status_for c) e) f) h2)
        ])
]

round-Phase :
    (env : Env) (now : ℕ) (s : Session) {m : Round}
    → Phase env s
    → round env now s ≡ ok m
    → Phase env (result m)
unfolding round
round-Phase env now s {m} f h = elim (Bool-cases (MessageBuffer.active_size s.read_buffer == 0)) [
  | inl e ↦ Same-Phase env s _ (ground arith) f
  | inr e ↦
      (let (cmd, _, h1) = >>=-eq-ok (field_of s 0 1) _ (rw e at h) in
        elim (Option-cases (command_of cmd)) [
          | inl e2 ↦ Same-Phase env s _ (ground arith) f
          | inr (c, e2) ↦ dispatch-Phase env now c s {m = m} f (rw e2 at h1)
        ])
]

read_loop-Phase :
    (env : Env) (now n : ℕ) (s : Session) {t : Session}
    → Phase env s
    → read_loop env now n s ≡ some (ok t)
    → Phase env t
unfolding read_loop
read_loop-Phase env now zero s f h = ground arith
read_loop-Phase env now (suc n) s {t} f h =
    go (round env now s) refl (λ u k. read_loop-Phase env now n u {t = t} k)
  where
    go :
        (m : Result Round)
        → round env now s ≡ m
        → ((u : Session) → Phase env u → read_loop env now n u ≡ some (ok t) → Phase env t)
        → Phase env t
    go (err e) q ih = ground arith
    go (ok (again u)) q ih = ih u (round-Phase env now s f q) (ground arith)
    go (ok (stop u)) q ih =
        Same-Phase env u t (async_read-Same u (ground arith)) (round-Phase env now s f q)
    go (ok (leave u)) q ih = Same-Phase env u t (ground arith) (round-Phase env now s f q)

pub receive-Phase :
    (env : Env) (now : ℕ) (bytes : List ℕ) (s : Session) {t : Session}
    → Phase env s
    → receive env now bytes s ≡ some (ok t)
    → Phase env t
unfolding receive
receive-Phase env now bytes s {t} f h =
    elim (Result-cases (MessageBuffer.write bytes s.read_buffer)) [
      | inl (e, q) ↦ ground arith
      | inr (b, q) ↦
          read_loop-Phase env now fuel (record s { read_buffer = b; is_reading = false }) {t = t}
            (Same-Phase env s _ (ground arith) f) (ground arith)
    ]
