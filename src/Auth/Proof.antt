-- ===== src/Auth/Proof.antt =====
-- `HandleLogonProof`, `HandleReconnectProof` and `VerifyVersion`.
use mmo_wow.Prelude.{
  ℕ, ◌+◌, Bool, true, false, not, List, [], ◌∷◌, ◌++◌, Option, none, some, Result, ok, deref,
  bit_and, leb, ltb, length, replicate, u32, ◌==◌, if◌then◌else◌, ◌>>=◌,
}
use mmo_wow.Prelude.Bytes.{to_bytes, bytes_eq}
use mmo_wow.MessageBuffer
use mmo_wow.ByteBuffer
use mmo_wow.Crypto.Srp6
use mmo_wow.Crypto.Totp
use mmo_wow.Realm.{BuildInfo, get_build_info}
use mmo_wow.Auth.Protocol.{cmd_logon_proof, cmd_reconnect_proof, logon_proof_size, closed, authed}
use mmo_wow.Auth.Code
use mmo_wow.Auth.Session.{
  Env, Statement, logon_proof, failed_password, count_failure, ban_account, ban_ip, Session,
  send_packet, send_all, bytes_of, field_of,
}
use mmo_wow.Auth.Challenge.{post_bc, no_valid}

-- 20 zero bytes
abbrev pub zeros : List ℕ
zeros = replicate 20 0

-- the texts "Win" and "OSX"
abbrev pub win : List ℕ
win = 87 ∷ 105 ∷ 110 ∷ []

abbrev pub osx : List ℕ
osx = 79 ∷ 83 ∷ 88 ∷ []

-- the hash of a build for a system: `versionHash`, or none for the null pointer
unfoldable pub version_hash : BuildInfo → List ℕ → Option (List ℕ)
version_hash info os =
    if bytes_eq os win
    then some info.windows_hash
    else if bytes_eq os osx
    then some info.mac_hash
    else none

-- `VerifyVersion(a, aLength, versionProof, isReconnect)`
unfoldable pub verify_version : Env → Session → List ℕ → List ℕ → Bool → Bool
unfolding version_hash
verify_version env s a proof is_reconnect =
    if not env.strict_version_check
    then true
    else if is_reconnect
    then bytes_eq proof (env.crypto.sha1 (a ++ zeros))
    else elim (get_build_info env.builds s.build) [
      | none ↦ false
      | some info ↦ elim (version_hash info s.os) [
        | none ↦ false
        | some hash ↦
            if bytes_eq zeros hash then true else bytes_eq proof (env.crypto.sha1 (a ++ hash))
      ]
    ]

-- the text "127.0.0.1"
abbrev pub loopback_text : List ℕ
loopback_text = 49 ∷ 50 ∷ 55 ∷ 46 ∷ 48 ∷ 46 ∷ 48 ∷ 46 ∷ 49 ∷ []

abbrev pub execute : Statement → Session → Session
execute q s = record s { statements = s.statements ++ (q ∷ []) }

-- the packet of a refused proof, with the `LoginFlags`
abbrev pub proof_refusal : ℕ → List (List ℕ)
proof_refusal code = (cmd_logon_proof ∷ []) ∷ (code ∷ []) ∷ to_bytes 2 0 ∷ []

-- the ban for one failure too many
unfoldable pub ban : Env → Session → Session
ban env s =
    if env.wrong_pass_ban_account
    then execute (ban_account s.account.id env.wrong_pass_ban_time) s
    else execute (ban_ip s.remote_ip env.wrong_pass_ban_time) s

-- what the branch of a wrong password records
unfoldable pub record_failure : Env → Session → Session
unfolding ban
record_failure env s0 =
    let s =
      if env.wrong_pass_logging
      then execute (failed_password s0.account.id s0.remote_ip) s0
      else s0 in
    if ltb 0 env.wrong_pass_max_count
    then (let counted = execute (count_failure s.account.login) s in
        let failed = record counted {
          account = record counted.account { failed_logins = u32 (s.account.failed_logins + 1) };
        } in
        if leb env.wrong_pass_max_count failed.account.failed_logins
        then ban env failed
        else failed)
    else s

-- the branch of a wrong password
unfoldable pub wrong_password : Env → Session → Result (Bool × Session)
unfolding record_failure
wrong_password env s = do
  s ← send_all (proof_refusal Code.unknown_account) s
  ok (true, record_failure env s)

-- the token behind the packet, which is then skipped and checked
unfoldable pub take_token : Env → ℕ → List ℕ → Session → Result (Bool × Session)
take_token env now secret s = do
  size ← field_of s logon_proof_size 1
  token ← bytes_of s (logon_proof_size + 1) size
  ok (
    Totp.validate_token env.crypto secret (env.atoi token) now,
    record s {
      read_buffer = MessageBuffer.read_completed (1 + size) s.read_buffer;
      totp_secret = some (replicate (length secret) 0);
    },
  )

-- `tokenSuccess`
unfoldable pub check_token : Env → ℕ → ℕ → Session → Result (Bool × Session)
unfolding take_token
check_token env now flags s = elim s.totp_secret [
  | none ↦ ok (bit_and flags 4 == 0, s)
  | some secret ↦ elim (bit_and flags 4 == 0) [
    | true ↦ ok (false, s)
    | false ↦ take_token env now secret s
  ]
]

-- `sAuthLogonProof_S` or `sAuthLogonProof_S_Old`, as bytes
unfoldable pub proof_bytes : ℕ → List ℕ → List ℕ
proof_bytes expversion m2 =
    if not (bit_and expversion post_bc == 0)
    then (cmd_logon_proof ∷ 0 ∷ [])
      ++ (m2 ++ (to_bytes 4 0x00800000 ++ (to_bytes 4 0 ++ to_bytes 2 0)))
    else (cmd_logon_proof ∷ 0 ∷ []) ++ (m2 ++ to_bytes 4 0)

-- `packet.resize(sizeof(proof))` and the copy over its contents
unfoldable pub packet_of : List ℕ → ByteBuffer.ByteBuffer
packet_of bytes = record { rpos = 0; wpos = length bytes; storage = bytes }

-- the answer to a proof that is refused
unfoldable pub refuse_proof : ℕ → Session → Result (Bool × Session)
refuse_proof code s = do s ← send_all (proof_refusal code) s; ok (true, s)

-- the answer to a client whose version is not the right one; it has no `LoginFlags`
unfoldable pub refuse_version : Session → Result (Bool × Session)
refuse_version s = do
  s ← send_all ((cmd_logon_proof ∷ []) ∷ (Code.version_invalid ∷ []) ∷ []) s
  ok (true, s)

-- the record of a proof that is accepted, and the session key
unfoldable pub record_login : Env → List ℕ → Session → Session
record_login env key s =
    let address = if env.allow_logging_ip then s.remote_ip else loopback_text in
    execute (logon_proof key address (env.locale_of s.localization_name) s.os s.account.login) s

-- a proof that is accepted
unfoldable pub accept_proof : Env → List ℕ → List ℕ → List ℕ → Session → Result (Bool × Session)
unfolding proof_bytes packet_of record_login
accept_proof env a client_proof key s = do
  let m2 = Srp6.session_verifier env.crypto a client_proof key
  s ← send_packet (packet_of (proof_bytes s.expversion m2)) (record_login env key s)
  ok (true, record s { status = authed })

-- the part of a right password behind the token
unfoldable pub finish_proof :
    Env → List ℕ → List ℕ → List ℕ → List ℕ → Bool → Session → Result (Bool × Session)
unfolding accept_proof refuse_proof refuse_version
finish_proof env a client_proof key crc false s = refuse_proof Code.unknown_account s
finish_proof env a client_proof key crc true s =
    if verify_version env s a crc false
    then accept_proof env a client_proof key s
    else refuse_version s

-- the branch of a right password
unfoldable pub right_password :
    Env → ℕ → List ℕ → List ℕ → List ℕ → Session → Result (Bool × Session)
unfolding check_token finish_proof
right_password env now a client_proof key s0 = do
  flags ← field_of s0 74 1
  crc ← bytes_of s0 53 20
  (good, s) ← check_token env now flags (record s0 { session_key = key })
  finish_proof env a client_proof key crc good s

-- the two branches
unfoldable pub after_verify :
    Env → ℕ → List ℕ → List ℕ → Option (List ℕ) → Session → Result (Bool × Session)
unfolding right_password wrong_password
after_verify env now a client_proof none s = wrong_password env s
after_verify env now a client_proof (some key) s = right_password env now a client_proof key s

-- `HandleLogonProof` at the time `now`
unfoldable pub handle_logon_proof : Env → ℕ → Session → Result (Bool × Session)
unfolding after_verify
handle_logon_proof env now s0 =
    let s = record s0 { status = closed } in
    if s.expversion == no_valid then ok (false, s) else do
      a ← bytes_of s 1 32
      client_proof ← bytes_of s 33 20
      srp ← deref s.srp6
      (key, used) ← Srp6.verify env.crypto srp a client_proof
      after_verify env now a client_proof key (record s { srp6 = some used })

-- the digest that a reconnecting client has to send
abbrev pub reconnect_digest : Env → Session → List ℕ → List ℕ
reconnect_digest env s r1 =
    env.crypto.sha1 (s.account.login ++ (r1 ++ (s.reconnect_seed ++ s.session_key)))

-- the two answers to a reconnecting client whose digest is right
unfoldable pub refuse_reconnect : Session → Result (Bool × Session)
refuse_reconnect s = do
  s ← send_all ((cmd_reconnect_proof ∷ []) ∷ (Code.version_invalid ∷ []) ∷ []) s
  ok (true, s)

unfoldable pub accept_reconnect : Session → Result (Bool × Session)
accept_reconnect s = do
  s ← send_all ((cmd_reconnect_proof ∷ []) ∷ (Code.success ∷ []) ∷ to_bytes 2 0 ∷ []) s
  ok (true, record s { status = authed })

-- `HandleReconnectProof`
unfoldable pub handle_reconnect_proof : Env → Session → Result (Bool × Session)
unfolding refuse_reconnect accept_reconnect
handle_reconnect_proof env s0 =
    let s = record s0 { status = closed } in
    if length s.account.login == 0 then ok (false, s) else do
      r1 ← bytes_of s 1 16
      r2 ← bytes_of s 17 20
      r3 ← bytes_of s 37 20
      if not (bytes_eq (reconnect_digest env s r1) r2)
          then ok (false, s)
          else if verify_version env s r1 r3 true
          then accept_reconnect s
          else refuse_reconnect s
