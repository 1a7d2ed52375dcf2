-- ===== src/Auth/Dead.antt =====
-- Sessions of AuthSession.cpp whose status is `STATUS_CLOSED` and that wait for no query.
use mmo_wow.Prelude.{
  ℕ, zero, suc, ◌≡◌, refl, sym, ◌∙◌, inl, inr, Bool, true, false, List, [], Option, none, some,
  Result, ok, err, arith, ◌==◌, ◌>>=◌, if◌then◌else◌, Result-cases,
}
use mathlib.Core.Path.{subst}
use mmo_wow.MessageBuffer
use mmo_wow.MessageBuffer.{MessageBuffer}
use mmo_wow.Auth.Protocol.{closed}
use mmo_wow.Auth.Session.{Env, Session, close_socket, async_read, field_of}
use mmo_wow.Auth.Reader.{
  Command, status_for, run, Round, again, stop, leave, handle, dispatch, round, read_loop, size_of,
  command_of, packet_size, is_challenge,
}
use mmo_wow.Auth.Reader
use mmo_wow.Auth.Step.{
  receive, receive_error, Step, arrive, fail, ip_answer, logon_answer, reconnect_answer,
  realm_answer, Reach, here, next, fuel,
}

-- Only the read buffer and the flags of the socket differ.
pub record Untouched (s t : Session) : Type 0 where
  pub status : t.status ≡ s.status
  pub queries : t.queries ≡ s.queries
  pub write_queue : t.write_queue ≡ s.write_queue
  pub statements : t.statements ≡ s.statements
  pub account : t.account ≡ s.account
  pub session_key : t.session_key ≡ s.session_key

Untouched-refl : (s : Session) → Untouched s s
Untouched-refl s = ground arith

Untouched-trans : (s t u : Session) → Untouched s t → Untouched t u → Untouched s u
Untouched-trans s t u f g = record {
  status = g.status ∙ f.status;
  queries = g.queries ∙ f.queries;
  write_queue = g.write_queue ∙ f.write_queue;
  statements = g.statements ∙ f.statements;
  account = g.account ∙ f.account;
  session_key = g.session_key ∙ f.session_key;
}

-- A round in a closed session handles no packet.
abbrev pub Ends : Session → Result Round → Type 0
Ends s (err e) = true ≡ true
Ends s (ok (again t)) = false ≡ true
Ends s (ok (stop t)) = Untouched s t
Ends s (ok (leave t)) = Untouched s t

dispatch-closed :
    (env : Env) (now : ℕ) (c : Command) (s : Session)
    → s.status ≡ closed
    → dispatch env now c s ≡ ok (leave (close_socket s))
unfolding dispatch
dispatch-closed env now Reader.logon_challenge s h = ground arith
dispatch-closed env now Reader.logon_proof s h = ground arith
dispatch-closed env now Reader.reconnect_challenge s h = ground arith
dispatch-closed env now Reader.reconnect_proof s h = ground arith
dispatch-closed env now Reader.realm_list s h = ground arith

dispatch-Ends :
    (env : Env) (now : ℕ) (c : Command) (s : Session)
    → s.status ≡ closed
    → Ends s (dispatch env now c s)
unfolding close_socket
dispatch-Ends env now c s h = subst (Ends s) (sym (dispatch-closed env now c s h)) (ground arith)

command-Ends :
    (env : Env) (now : ℕ) (o : Option Command) (s : Session)
    → s.status ≡ closed
    → Ends s (elim o [
      | none ↦ ok (stop (record s { read_buffer = MessageBuffer.reset s.read_buffer }))
      | some c ↦ dispatch env now c s
    ])
command-Ends env now none s h = ground arith
command-Ends env now (some c) s h = dispatch-Ends env now c s h

field-Ends :
    (env : Env) (now : ℕ) (m : Result ℕ) (s : Session)
    → s.status ≡ closed
    → Ends s (
        m >>= λ cmd. elim (command_of cmd) [
          | none ↦ ok (stop (record s { read_buffer = MessageBuffer.reset s.read_buffer }))
          | some c ↦ dispatch env now c s
        ])
field-Ends env now (err e) s h = refl
field-Ends env now (ok cmd) s h = command-Ends env now (command_of cmd) s h

round-Ends : (env : Env) (now : ℕ) (s : Session) → s.status ≡ closed → Ends s (round env now s)
unfolding round
round-Ends env now s h = go (MessageBuffer.active_size s.read_buffer == 0)
  where
    go :
        (b : Bool)
        → Ends s (
            if b
            then ok (stop s)
            else (field_of s 0 1 >>= λ cmd. elim (command_of cmd) [
              | none ↦ ok (stop (record s { read_buffer = MessageBuffer.reset s.read_buffer }))
              | some c ↦ dispatch env now c s
            ]))
    go true = Untouched-refl s
    go false = field-Ends env now (field_of s 0 1) s h

async_read-Untouched : (s : Session) {t : Session} → async_read s ≡ ok t → Untouched s t
unfolding async_read
async_read-Untouched s h = ground arith

read_loop-closed :
    (env : Env) (now n : ℕ) (s : Session) {t : Session}
    → s.status ≡ closed
    → read_loop env now n s ≡ some (ok t)
    → Untouched s t
unfolding read_loop
read_loop-closed env now zero s c h = ground arith
read_loop-closed env now (suc n) s {t} c h = go (round env now s) refl (round-Ends env now s c)
  where
    go : (m : Result Round) → round env now s ≡ m → Ends s m → Untouched s t
    go (err e) q k = ground arith
    go (ok (again u)) q k = ground arith
    go (ok (stop u)) q k = Untouched-trans s u t k (async_read-Untouched u (ground arith))
    go (ok (leave u)) q k = ground (arith, k)

receive-closed :
    (env : Env) (now : ℕ) (bytes : List ℕ) (s : Session) {t : Session}
    → s.status ≡ closed
    → receive env now bytes s ≡ some (ok t)
    → Untouched s t
unfolding receive
receive-closed env now bytes s {t} c h =
    elim (Result-cases (MessageBuffer.write bytes s.read_buffer)) [
      | inl (e, q) ↦ ground arith
      | inr (b, q) ↦
          (let u : Session = record s { read_buffer = b; is_reading = false } in
            ground (arith, read_loop-closed env now fuel u {t = t} c (ground arith)))
    ]

Step-closed :
    (env : Env) (s t : Session) → s.status ≡ closed → s.queries ≡ [] → Step env s t → Untouched s t
Step-closed env s t c q (arrive now bytes _ _ _ h) = receive-closed env now bytes s c h
Step-closed env s t c q (fail _ e) = unfold receive_error close_socket in ground arith
Step-closed env s t c q (ip_answer ip rest rows _ w h) = ground arith
Step-closed env s t c q (logon_answer login rest random row _ w h) = ground arith
Step-closed env s t c q (reconnect_answer login rest random row _ w h) = ground arith
Step-closed env s t c q (realm_answer id rest rows _ w h) = ground arith

-- From a session whose status is `closed` and that waits for no query, nothing is reached but
-- sessions of that kind, and no statement is executed, no packet sent and no account changed: after a
-- proof that was refused, the connection allows no second one.
pub Reach-closed :
    (env : Env) (s t : Session) → s.status ≡ closed → s.queries ≡ [] → Reach env s t → Untouched s t
Reach-closed env s t c q here = Untouched-refl s
Reach-closed env s t c q (next {t = u} r st) =
    let f = Reach-closed env s u c q r in
    Untouched-trans s u t f (Step-closed env u t (f.status ∙ c) (f.queries ∙ q) st)
