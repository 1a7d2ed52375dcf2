-- ===== src/Tests/Toy.antt =====
-- A configuration, an SRP6 object and the packet that answers it, with arithmetic in place of OpenSSL.
use mmo_wow.Prelude.{ℕ, ◌+◌, ◌%◌, true, false, List, [], ◌∷◌, ◌++◌, none, length, replicate, ◌==◌}
use mmo_wow.Prelude.Bytes.{to_bytes, of_bytes}
use mmo_wow.Crypto.{Crypto}
use mmo_wow.Crypto.Srp6
use mmo_wow.Crypto.Srp6.{Srp6}
use mmo_wow.Realm.{BuildInfo, Realm, AddressRules}
use mmo_wow.Auth.Protocol.{Status}
use mmo_wow.Auth.Session.{Env, Account, no_account, Session}

abbrev pub crypto : Crypto
crypto = record {
  sha1 = λ xs. to_bytes 20 (of_bytes xs);
  hmac_sha1 = λ key xs. to_bytes 20 (of_bytes (key ++ xs));
  mod_exp = λ b e m. (b + e) % m;
  decrypt = λ stored secret. (stored, true);
}

abbrev pub net : AddressRules
net = record {
  is_loopback = λ a. a == 1;
  is_v4 = λ a. true;
  is_in_network = λ a m c. a == c;
  endpoint_text = λ a p. to_bytes 4 a;
}

abbrev pub old_build : BuildInfo
old_build = record {
  build = 5875;
  major_version = 1;
  minor_version = 12;
  bugfix_version = 1;
  windows_hash = replicate 20 0;
  mac_hash = replicate 20 0;
}

abbrev pub old_realm : Realm
old_realm = record {
  id = 1;
  build = 5875;
  external_address = 2;
  local_address = 1;
  local_subnet_mask = 255;
  port = 8085;
  name = 65 ∷ [];
  type = 0;
  flags = 0;
  timezone = 1;
  allowed_security_level = 0;
  population = 0 ∷ 0 ∷ 0 ∷ 0 ∷ [];
}

abbrev pub env : Env
env = record {
  crypto = crypto;
  builds = old_build ∷ [];
  realms = old_realm ∷ [];
  net = net;
  upper = λ xs. xs;
  country_of = λ ip. none;
  totp_master_key = none;
  atoi = of_bytes;
  decimal = λ n. n ∷ [];
  locale_of = λ n. 0;
  strict_version_check = false;
  allow_logging_ip = true;
  wrong_pass_max_count = 3;
  wrong_pass_logging = false;
  wrong_pass_ban_time = 600;
  wrong_pass_ban_account = true;
}

abbrev pub account : Account
account = record no_account { id = 1; login = 65 ∷ [] }

-- a session with `bytes` in its read buffer
abbrev pub session : Status → List ℕ → Session
session status bytes = record {
  remote_ip = 49 ∷ [];
  remote_address = 1;
  read_buffer = record { wpos = length bytes; rpos = 0; storage = bytes };
  write_queue = [];
  is_closed = false;
  is_closing = false;
  is_reading = false;
  status = status;
  srp6 = none;
  session_key = replicate 40 0;
  reconnect_seed = replicate 16 0;
  account = account;
  totp_secret = none;
  localization_name = [];
  os = [];
  ip_country = [];
  build = 5875;
  expversion = 1;
  queries = [];
  statements = [];
}

abbrev pub srp : Srp6
srp = record {
  used = false;
  identity = 65 ∷ [];
  secret = 5;
  verifier = 9;
  salt = replicate 32 1;
  public_key = replicate 32 2;
}

-- a client key
abbrev pub client_key : List ℕ
client_key = 7 ∷ replicate 31 0

unfoldable pub key : List ℕ
unfolding Srp6.interleave Srp6.shared_secret
key = Srp6.interleave crypto (Srp6.shared_secret crypto srp client_key)

unfoldable pub client_proof : List ℕ
unfolding Srp6.expected_proof key
client_proof = Srp6.expected_proof crypto srp client_key key
