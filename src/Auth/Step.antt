-- ===== src/Auth/Step.antt =====
-- What can happen to a session: bytes arrive, a read fails, or a query is answered.
use mmo_wow.Prelude.{
  ℕ, ◌≤◌, ◌<◌, ◌≡◌, Bool, true, false, not, ◌||◌, List, [], ◌∷◌, Option, none, some, Result, ok,
  err, length, resize, ◌==◌, if◌then◌else◌,
}
use mmo_wow.MessageBuffer
use mmo_wow.MessageBuffer.{MessageBuffer}
use mmo_wow.Auth.Protocol.{challenge}
use mmo_wow.Auth.Code
use mmo_wow.Auth.Session.{
  Env, no_account, Query, ip_info, logon_challenge, reconnect_challenge, character_counts, Session,
  close_socket, async_read, send_all,
}
use mmo_wow.Auth.Challenge.{
  refusal, LogonRow, ReconnectRow, logon_challenge_callback, reconnect_challenge_callback,
}
use mmo_wow.Auth.RealmReply.{realm_list_callback}
use mmo_wow.Auth.Reader.{read_loop}

-- READ_BLOCK_SIZE
abbrev pub read_block_size : ℕ
read_block_size = 4096

-- The constructors of `Socket` and `AuthSession`, and `AuthSession::Start`.
unfoldable pub start : List ℕ → ℕ → Session
start ip address = record {
  remote_ip = ip;
  remote_address = address;
  read_buffer = MessageBuffer.resize_to read_block_size (MessageBuffer.with_size 4096);
  write_queue = [];
  is_closed = false;
  is_closing = false;
  is_reading = false;
  status = challenge;
  srp6 = none;
  session_key = resize 40 0 [];
  reconnect_seed = resize 16 0 [];
  account = no_account;
  totp_secret = none;
  localization_name = [];
  os = [];
  ip_country = [];
  build = 0;
  expversion = 0;
  queries = ip_info ip ∷ [];
  statements = [];
}

-- `banned`: whether some row of the answer says so
abbrev pub any_banned : List ℕ → Bool
any_banned [] = false
any_banned (x ∷ xs) = not (x == 0) || any_banned xs

-- `CheckIpCallback`
unfoldable pub check_ip_callback : Option (List ℕ) → Session → Result Session
check_ip_callback none s = async_read s
check_ip_callback (some rows) s =
    if any_banned rows then send_all (refusal Code.banned) s else async_read s

-- rounds of the loop of `ReadHandler`; `Auth.Loop` has why they are enough
abbrev pub fuel : ℕ
fuel = 3

-- `Socket::ReadHandlerInternal` after `bytes` arrived in the buffer
unfoldable pub receive : Env → ℕ → List ℕ → Session → Option (Result Session)
receive env now bytes s = elim (MessageBuffer.write bytes s.read_buffer) [
  | err e ↦ some (err e)
  | ok b ↦ read_loop env now fuel (record s { read_buffer = b; is_reading = false })
]

-- `Socket::ReadHandlerInternal` with an error
unfoldable pub receive_error : Session → Session
receive_error s = close_socket (record s { is_reading = false })

-- Takes an answered query off `_queryProcessor`.
abbrev pub answered : List Query → Session → Session
answered rest s = record s { queries = rest }

-- One event. A read ends only if one is under way, with at least one byte and no more than fit; a
-- query is answered only if it is waiting, by `AuthSession::Update`, which does so while the socket is
-- not closed. `ProcessReadyCallbacks` answers the ready ones in order.
pub data Step (env : Env) (s t : Session) : Type 0 where
  arrive :
      (now : ℕ) (bytes : List ℕ)
      → s.is_reading ≡ true
      → 0 < length bytes
      → length bytes ≤ MessageBuffer.remaining_space s.read_buffer
      → receive env now bytes s ≡ some (ok t)
      → Step env s t
  fail : s.is_reading ≡ true → t ≡ receive_error s → Step env s t
  ip_answer :
      (ip : List ℕ) (rest : List Query) (rows : Option (List ℕ))
      → s.is_closed ≡ false
      → s.queries ≡ ip_info ip ∷ rest
      → check_ip_callback rows (answered rest s) ≡ ok t
      → Step env s t
  logon_answer :
      (login : List ℕ) (rest : List Query) (random : List ℕ) (row : Option LogonRow)
      → s.is_closed ≡ false
      → s.queries ≡ logon_challenge login ∷ rest
      → logon_challenge_callback env random row (answered rest s) ≡ ok t
      → Step env s t
  reconnect_answer :
      (login : List ℕ) (rest : List Query) (random : List ℕ) (row : Option ReconnectRow)
      → s.is_closed ≡ false
      → s.queries ≡ reconnect_challenge login ∷ rest
      → reconnect_challenge_callback env random row (answered rest s) ≡ ok t
      → Step env s t
  realm_answer :
      (id : ℕ) (rest : List Query) (rows : List (ℕ × ℕ))
      → s.is_closed ≡ false
      → s.queries ≡ character_counts id ∷ rest
      → realm_list_callback env rows (answered rest s) ≡ ok t
      → Step env s t

pub data Reach (env : Env) (s : Session) : Session → Type 0 where
  here : Reach env s s
  next : {t u : Session} → Reach env s t → Step env t u → Reach env s u
