-- ===== src/Auth/Phase.antt =====
-- The phases of a session: which query is waiting in which status, and when a proof can be checked.
use mmo_wow.Prelude.{
  ℕ, ◌≡◌, ◌≢◌, refl, ◌∙◌, inl, inr, Bool, true, false, List, [], ◌∷◌, some, ok, arith,
}
use mmo_wow.Crypto.Srp6.{Srp6}
use mmo_wow.Realm.{is_accepted}
use mmo_wow.Auth.Protocol.{logon_proof, waiting_for_realm_list, closed}
use mmo_wow.Auth.Session.{Env, Session, logon_challenge, reconnect_challenge, character_counts}
use mmo_wow.Auth.Challenge.{expansion_of, handle_logon_challenge, handle_reconnect_challenge}
use mmo_wow.Auth.RealmReply.{handle_realm_list}
use mmo_wow.Auth.Status.{Frame, Decided, handle_logon_proof-Decided, handle_reconnect_proof-Decided}
use mmo_wow.Auth.Queued.{handle_challenge-Challenged}
use mmo_wow.Auth.Reader.{
  Command, status_for, run, Round, again, stop, leave, handle, dispatch, round, read_loop,
}
use mmo_wow.Auth.Reader

-- Past the check of the address there is at most one query waiting, and it fits the status; a proof
-- is awaited only of a client whose build is accepted, with an SRP6 object that is not used up.
pub data Phase (env : Env) (s : Session) : Type 0 where
  idle : s.queries ≡ [] → s.status ≢ logon_proof → s.status ≢ waiting_for_realm_list → Phase env s
  ready :
      (srp : Srp6)
      → s.queries ≡ []
      → s.status ≡ logon_proof
      → s.srp6 ≡ some srp
      → srp.used ≡ false
      → s.expversion ≡ expansion_of env s.build
      → is_accepted env.builds s.build ≡ true
      → Phase env s
  asked_logon :
      (login : List ℕ)
      → s.queries ≡ logon_challenge login ∷ []
      → s.status ≡ closed
      → s.expversion ≡ expansion_of env s.build
      → Phase env s
  asked_reconnect :
      (login : List ℕ)
      → s.queries ≡ reconnect_challenge login ∷ []
      → s.status ≡ closed
      → Phase env s
  asked_realms :
      (id : ℕ)
      → s.queries ≡ character_counts id ∷ []
      → s.status ≡ waiting_for_realm_list
      → Phase env s

-- what a phase speaks of
pub record Same (s t : Session) : Type 0 where
  pub status : t.status ≡ s.status
  pub srp6 : t.srp6 ≡ s.srp6
  pub queries : t.queries ≡ s.queries
  pub build : t.build ≡ s.build
  pub expversion : t.expversion ≡ s.expversion

pub Same-Frame : (s t : Session) → Frame s t → Same s t
Same-Frame s t f = record {
  status = f.status;
  srp6 = f.srp6;
  queries = f.queries;
  build = f.build;
  expversion = f.expversion;
}

pub Same-Phase : (env : Env) (s t : Session) → Same s t → Phase env s → Phase env t
Same-Phase env s t f (idle q a b) = idle (f.queries ∙ q) (ground arith) (ground arith)
Same-Phase env s t f (ready srp q a b c d e) =
    ready srp (f.queries ∙ q) (f.status ∙ a) (f.srp6 ∙ b) c (ground arith) (ground arith)
Same-Phase env s t f (asked_logon l q a b) =
    asked_logon l (f.queries ∙ q) (f.status ∙ a) (ground arith)
Same-Phase env s t f (asked_reconnect l q a) = asked_reconnect l (f.queries ∙ q) (f.status ∙ a)
Same-Phase env s t f (asked_realms l q a) = asked_realms l (f.queries ∙ q) (f.status ∙ a)

-- No query waits while a packet can be handled.
pub queries-status_for :
    (env : Env) (c : Command) (s : Session) → s.status ≡ status_for c → Phase env s → s.queries ≡ []
queries-status_for env c s e (idle q a b) = q
queries-status_for env c s e (ready srp q a b d f g) = q
queries-status_for env c s e (asked_logon l q a b) = ground arith
queries-status_for env c s e (asked_reconnect l q a) = ground arith
queries-status_for env c s e (asked_realms l q a) = ground arith

Decided-Phase :
    (env : Env) (s t : Session) → s.queries ≡ [] → s.status ≡ closed → Decided s t → Phase env t
Decided-Phase env s t q c (inl f) = idle (f.queries ∙ q) (ground arith) (ground arith)
Decided-Phase env s t q c (inr f) = idle (f.queries ∙ q) (ground arith) (ground arith)

pub run-Phase :
    (env : Env) (now : ℕ) (c : Command) (s : Session) {g : Bool} {t : Session}
    → s.queries ≡ []
    → run env now c s ≡ ok (g, t)
    → Phase env t
unfolding run
run-Phase env now Reader.logon_challenge s q h =
    unfold handle_logon_challenge in
    (elim (handle_challenge-Challenged _ env s h) [
      | inl (_, e) ↦ idle (ground arith) (ground arith) (ground arith)
      | inr (l, _, d) ↦ asked_logon l (ground arith) (d.status) (d.expversion)
    ])
run-Phase env now Reader.reconnect_challenge s q h =
    unfold handle_reconnect_challenge in
    (elim (handle_challenge-Challenged _ env s h) [
      | inl (_, e) ↦ idle (ground arith) (ground arith) (ground arith)
      | inr (l, _, d) ↦ asked_reconnect l (ground arith) (d.status)
    ])
run-Phase env now Reader.logon_proof s q h = elim (handle_logon_proof-Decided env now s h) [
  | inl (_, _, e) ↦ idle (ground arith) (ground arith) (ground arith)
  | inr (used, d) ↦ Decided-Phase env (record s { status = closed; srp6 = some used }) _ q refl d
]
run-Phase env now Reader.reconnect_proof s q h =
    Decided-Phase env (record s { status = closed }) _ q refl
      (handle_reconnect_proof-Decided env s h)
run-Phase env now Reader.realm_list s q h =
    unfold handle_realm_list in asked_realms s.account.id (ground arith) (ground arith)
