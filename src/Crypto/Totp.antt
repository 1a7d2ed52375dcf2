-- ===== src/Crypto/Totp.antt =====
-- Server/Common/Cryptography/TOTP.cpp. Times are seconds since 1970, from `TOTP_INTERVAL` on.
use mmo_wow.Prelude.{
  ℕ, ◌+◌, ◌-◌, ◌*◌, ◌/◌, ◌%◌, ◌^◌, Bool, ◌||◌, List, get_or, ◌==◌, bit_and, bit_or,
}
use mmo_wow.Prelude.Bytes.{to_bytes}
use mathlib.Core.List.{reverse}
use mmo_wow.Crypto.{Crypto}

abbrev pub interval : ℕ
interval = 30

module _ (c : Crypto) where
  -- `GenerateToken(secret, timestamp)`: `challenge` is the time step, most significant byte first
  unfoldable pub generate_token : List ℕ → ℕ → ℕ
  generate_token secret timestamp =
      let digest = c.hmac_sha1 secret (reverse (to_bytes 8 (timestamp / interval))) in
      let offset = bit_and (get_or digest 19 0) 0xF in
      let truncated =
        bit_or
          (bit_or (bit_or (get_or digest offset 0 * 2 ^ 24) (get_or digest (offset + 1) 0 * 2 ^ 16))
            (get_or digest (offset + 2) 0 * 2 ^ 8))
          (get_or digest (offset + 3) 0) in
      bit_and truncated 0x7FFFFFFF % 1000000

  -- `ValidateToken(secret, token)` at the time `now`
  unfoldable pub validate_token : List ℕ → ℕ → ℕ → Bool
  unfolding generate_token
  validate_token secret token now =
      token == generate_token secret (now - interval)
      || (token == generate_token secret now || token == generate_token secret (now + interval))
