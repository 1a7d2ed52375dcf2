-- ===== src/Auth/Session.antt =====
-- The state of an `AuthSession` with its `Socket` (Server/Shared/Networking/Socket.h, without IOCP),
-- and how it reads its buffer and queues packets.
use mmo_wow.Prelude.{
  ℕ, ◌+◌, Bool, true, false, not, ◌&&◌, List, [], ◌∷◌, ◌++◌, Option, Result, ok, read_at, length,
  ◌==◌, if◌then◌else◌, ◌>>=◌,
}
use mmo_wow.Prelude.Bytes.{of_bytes}
use mmo_wow.MessageBuffer
use mmo_wow.MessageBuffer.{MessageBuffer}
use mmo_wow.ByteBuffer
use mmo_wow.ByteBuffer.{ByteBuffer}
use mmo_wow.Crypto.{Crypto}
use mmo_wow.Crypto.Srp6.{Srp6}
use mmo_wow.Realm.{BuildInfo, Realm, AddressRules}
use mmo_wow.Auth.Protocol.{Status}

-- The configuration, the realm list, and the functions of other libraries. Nothing here changes
-- while the session lives.
pub record Env : Type 0 where
  pub crypto : Crypto
  pub builds : List BuildInfo
  pub realms : List Realm
  pub net : AddressRules
  -- `Utf8ToUpperOnlyLatin`
  pub upper : List ℕ → List ℕ
  -- `sIPLocation->GetLocationRecord(ip)->CountryCode`
  pub country_of : List ℕ → Option (List ℕ)
  -- `sSecretMgr->GetSecret(SECRET_TOTP_MASTER_KEY)`
  pub totp_master_key : Option (List ℕ)
  -- `atoi`, converted to `uint32`
  pub atoi : List ℕ → ℕ
  -- `operator<<` of a stream for `uint32`
  pub decimal : ℕ → List ℕ
  -- `GetLocaleByName`
  pub locale_of : List ℕ → ℕ
  pub strict_version_check : Bool
  pub allow_logging_ip : Bool
  pub wrong_pass_max_count : ℕ
  pub wrong_pass_logging : Bool
  pub wrong_pass_ban_time : ℕ
  -- `WrongPass.BanType`: true bans the account, false the address
  pub wrong_pass_ban_account : Bool

-- `AccountInfo`
pub record Account : Type 0 where
  pub id : ℕ
  pub login : List ℕ
  pub is_locked_to_ip : Bool
  pub lock_country : List ℕ
  pub last_ip : List ℕ
  pub failed_logins : ℕ
  pub is_banned : Bool
  pub is_permanently_banned : Bool
  pub security_level : ℕ

abbrev pub no_account : Account
no_account = record {
  id = 0;
  login = [];
  is_locked_to_ip = false;
  lock_country = [];
  last_ip = [];
  failed_logins = 0;
  is_banned = false;
  is_permanently_banned = false;
  security_level = 0;
}

-- the queries whose callback is in `_queryProcessor`, with their parameter
pub data Query : Type 0 where
  ip_info : List ℕ → Query
  logon_challenge : List ℕ → Query
  reconnect_challenge : List ℕ → Query
  character_counts : ℕ → Query

-- the statements that a session executes on the login database
pub data Statement : Type 0 where
  -- LOGIN_UPD_LOGONPROOF: session key, address, locale, system, login
  logon_proof : List ℕ → List ℕ → ℕ → List ℕ → List ℕ → Statement
  -- LOGIN_INS_FALP_IP_LOGGING: account, address
  failed_password : ℕ → List ℕ → Statement
  -- LOGIN_UPD_FAILEDLOGINS: login
  count_failure : List ℕ → Statement
  -- LOGIN_INS_ACCOUNT_AUTO_BANNED: account, seconds
  ban_account : ℕ → ℕ → Statement
  -- LOGIN_INS_IP_AUTO_BANNED: address, seconds
  ban_ip : List ℕ → ℕ → Statement

pub record Session : Type 0 where
  -- of `Socket`: the peer's address as text and as a number, and whether a read is under way
  pub remote_ip : List ℕ
  pub remote_address : ℕ
  pub read_buffer : MessageBuffer
  pub write_queue : List MessageBuffer
  pub is_closed : Bool
  pub is_closing : Bool
  pub is_reading : Bool
  -- of `AuthSession`
  pub status : Status
  pub srp6 : Option Srp6
  pub session_key : List ℕ
  pub reconnect_seed : List ℕ
  pub account : Account
  pub totp_secret : Option (List ℕ)
  pub localization_name : List ℕ
  pub os : List ℕ
  pub ip_country : List ℕ
  pub build : ℕ
  pub expversion : ℕ
  pub queries : List Query
  -- what it has executed, oldest first
  pub statements : List Statement

-- `Socket::IsOpen`
abbrev pub is_open : Session → Bool
is_open s = not s.is_closed && not s.is_closing

-- `Socket::CloseSocket`; `OnClose` does nothing here
unfoldable pub close_socket : Session → Session
close_socket s = record s { is_closed = true }

-- `Socket::AsyncRead`
unfoldable pub async_read : Session → Result Session
async_read s = if not (is_open s) then ok s else do
  b ← MessageBuffer.normalize s.read_buffer
  ok (record s { read_buffer = MessageBuffer.ensure_free_space b; is_reading = true })

-- `Socket::QueuePacket`
abbrev pub queue_packet : MessageBuffer → Session → Session
queue_packet b s = record s { write_queue = s.write_queue ++ (b ∷ []) }

-- `AuthSession::SendPacket`
unfoldable pub send_packet : ByteBuffer → Session → Result Session
send_packet packet s =
    if not (is_open s) then ok s else if length packet.storage == 0 then ok s else do
      bytes ← ByteBuffer.contents packet
      b ← MessageBuffer.write bytes (MessageBuffer.with_size (ByteBuffer.size packet))
      ok (queue_packet b s)

-- A chain of `pkt << x` and `pkt.append(x)`, each by the bytes of `x`.
unfoldable pub put_all : List (List ℕ) → ByteBuffer → Result ByteBuffer
put_all [] b = ok b
put_all (x ∷ xs) b = ByteBuffer.append b x >>= put_all xs

-- Builds a packet from such a chain and sends it.
unfoldable pub send_all : List (List ℕ) → Session → Result Session
unfolding put_all
send_all xs s = do packet ← put_all xs ByteBuffer.empty; send_packet packet s

-- `w` bytes at offset `off` of the structure at the read pointer
unfoldable pub bytes_of : Session → ℕ → ℕ → Result (List ℕ)
bytes_of s off w = read_at (s.read_buffer.rpos + off) w s.read_buffer.storage

-- a numeric field of that structure
unfoldable pub field_of : Session → ℕ → ℕ → Result ℕ
unfolding bytes_of
field_of s off w = do bytes ← bytes_of s off w; ok (of_bytes bytes)
