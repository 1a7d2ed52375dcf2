-- ===== src/Auth/Reader.antt =====
-- `AuthSession::ReadHandler`: the packets in the read buffer, one after the other.
use mmo_wow.Prelude.{
  ℕ, zero, suc, ◌+◌, Bool, true, false, not, ◌&&◌, Option, none, some, Result, ok, err, ltb, u16,
  ◌==◌, if◌then◌else◌, ◌>>=◌,
}
use mmo_wow.MessageBuffer
use mmo_wow.Auth.Protocol.{
  cmd_logon_challenge, cmd_logon_proof, cmd_reconnect_challenge, cmd_reconnect_proof,
  cmd_realm_list, challenge_initial_size, max_challenge_size, logon_proof_size,
  reconnect_proof_size, realm_list_size, Status, status_eq,
}
use mmo_wow.Auth.Protocol
use mmo_wow.Auth.Session.{Env, Session, close_socket, async_read, field_of}
use mmo_wow.Auth.Challenge.{handle_logon_challenge, handle_reconnect_challenge}
use mmo_wow.Auth.Proof.{handle_logon_proof, handle_reconnect_proof}
use mmo_wow.Auth.RealmReply.{handle_realm_list}

-- the keys of `Handlers`
pub data Command : Type 0 where
  logon_challenge logon_proof reconnect_challenge reconnect_proof realm_list : Command

-- `Handlers.find(cmd)`
unfoldable pub command_of : ℕ → Option Command
command_of cmd =
    if cmd == cmd_logon_challenge
    then some logon_challenge
    else if cmd == cmd_logon_proof
    then some logon_proof
    else if cmd == cmd_reconnect_challenge
    then some reconnect_challenge
    else if cmd == cmd_reconnect_proof
    then some reconnect_proof
    else if cmd == cmd_realm_list
    then some realm_list
    else none

-- `AuthHandler::status`
abbrev pub status_for : Command → Status
status_for logon_challenge = Protocol.challenge
status_for logon_proof = Protocol.logon_proof
status_for reconnect_challenge = Protocol.challenge
status_for reconnect_proof = Protocol.reconnect_proof
status_for realm_list = Protocol.authed

-- `AuthHandler::packetSize`
abbrev pub packet_size : Command → ℕ
packet_size logon_challenge = challenge_initial_size
packet_size logon_proof = logon_proof_size
packet_size reconnect_challenge = challenge_initial_size
packet_size reconnect_proof = reconnect_proof_size
packet_size realm_list = realm_list_size

abbrev pub is_challenge : Command → Bool
is_challenge logon_challenge = true
is_challenge reconnect_challenge = true
is_challenge _ = false

-- `AuthHandler::handler`, at the time `now`
unfoldable pub run : Env → ℕ → Command → Session → Result (Bool × Session)
run env now logon_challenge s = handle_logon_challenge env s
run env now logon_proof s = handle_logon_proof env now s
run env now reconnect_challenge s = handle_reconnect_challenge env s
run env now reconnect_proof s = handle_reconnect_proof env s
run env now realm_list s = handle_realm_list env s

-- How a round of the loop ends: with the next round, with `break`, or with `return`.
pub data Round : Type 0 where
  again : Session → Round
  stop : Session → Round
  leave : Session → Round

-- `size`: of a challenge, the length that it states is added, in 16 bits
unfoldable pub size_of : Command → Session → Result ℕ
size_of c s =
    if is_challenge c
    then (field_of s 2 2 >>= λ stated. ok (u16 (packet_size c + stated)))
    else ok (packet_size c)

-- The part of a round from the call of the handler on.
unfoldable pub handle : Env → ℕ → Command → ℕ → Session → Result Round
handle env now c size s0 = do
  (good, s) ← run env now c s0
  if not good
      then ok (leave (close_socket s))
      else ok (again (record s { read_buffer = MessageBuffer.read_completed size s.read_buffer }))

-- The part of a round from the check of the status on.
unfoldable pub dispatch : Env → ℕ → Command → Session → Result Round
unfolding size_of handle
dispatch env now c s =
    if not (status_eq s.status (status_for c))
    then ok (leave (close_socket s))
    else if ltb (MessageBuffer.active_size s.read_buffer) (packet_size c)
    then ok (stop s)
    else do
      size ← size_of c s
      if is_challenge c && ltb max_challenge_size size
          then ok (leave (close_socket s))
          else if ltb (MessageBuffer.active_size s.read_buffer) size
          then ok (stop s)
          else handle env now c size s

-- One round of the loop.
unfoldable pub round : Env → ℕ → Session → Result Round
unfolding dispatch command_of
round env now s = if MessageBuffer.active_size s.read_buffer == 0 then ok (stop s) else do
  cmd ← field_of s 0 1
  elim (command_of cmd) [
    | none ↦ ok (stop (record s { read_buffer = MessageBuffer.reset s.read_buffer }))
    | some c ↦ dispatch env now c s
  ]

-- The loop, on fuel; `none` would be that the fuel ran out.
unfoldable pub read_loop : Env → ℕ → ℕ → Session → Option (Result Session)
read_loop env now zero s = none
read_loop env now (suc fuel) s = elim (round env now s) [
  | err e ↦ some (err e)
  | ok (again s') ↦ read_loop env now fuel s'
  | ok (stop s') ↦ some (async_read s')
  | ok (leave s') ↦ some (ok s')
]
