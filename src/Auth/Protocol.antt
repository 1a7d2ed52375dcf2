-- ===== src/Auth/Protocol.antt =====
-- The commands, the result codes and the packed structures of the protocol, by their offsets.
use mmo_wow.Prelude.{ℕ, ◌+◌, Bool, true, false, List, [], ◌∷◌}

-- `eAuthCmd`, the commands that the server handles
abbrev pub cmd_logon_challenge : ℕ
cmd_logon_challenge = 0x00

abbrev pub cmd_logon_proof : ℕ
cmd_logon_proof = 0x01

abbrev pub cmd_reconnect_challenge : ℕ
cmd_reconnect_challenge = 0x02

abbrev pub cmd_reconnect_proof : ℕ
cmd_reconnect_proof = 0x03

abbrev pub cmd_realm_list : ℕ
cmd_realm_list = 0x10

-- `VersionChallenge`
abbrev pub version_challenge : List ℕ
version_challenge =
    0xBA ∷ 0xA3 ∷ 0x1E ∷ 0x99 ∷ 0xA0 ∷ 0x0B ∷ 0x21 ∷ 0x57 ∷ 0xFC ∷ 0x37 ∷ 0x3F ∷ 0xB3 ∷ 0x69 ∷ 0xCD
    ∷ 0xD2 ∷ 0xF1 ∷ []

-- `sizeof(AUTH_LOGON_CHALLENGE_C)`, one byte of the login included, and the part before `gamename`
abbrev pub challenge_size : ℕ
challenge_size = 35

abbrev pub challenge_initial_size : ℕ
challenge_initial_size = 4

-- `MAX_ACCEPTED_CHALLENGE_SIZE`
abbrev pub max_challenge_size : ℕ
max_challenge_size = challenge_size + 16

-- `sizeof(AUTH_LOGON_PROOF_C)`
abbrev pub logon_proof_size : ℕ
logon_proof_size = 75

-- `sizeof(AUTH_RECONNECT_PROOF_C)`
abbrev pub reconnect_proof_size : ℕ
reconnect_proof_size = 58

abbrev pub realm_list_size : ℕ
realm_list_size = 5

-- `AuthStatus`
pub data Status : Type 0 where
  challenge logon_proof reconnect_proof authed waiting_for_realm_list closed : Status

abbrev pub status_eq : Status → Status → Bool
status_eq challenge challenge = true
status_eq logon_proof logon_proof = true
status_eq reconnect_proof reconnect_proof = true
status_eq authed authed = true
status_eq waiting_for_realm_list waiting_for_realm_list = true
status_eq closed closed = true
status_eq _ _ = false
