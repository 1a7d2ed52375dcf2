-- ===== src/Crypto.antt =====
-- Server/Common/Cryptography: the login protocol SRP6 and the one-time passwords TOTP. What OpenSSL
-- computes is a parameter: digests, the power modulo a number, and authenticated decryption.
pub mod Powers
pub mod Interleave
pub mod Client
pub mod Srp6
pub mod Totp
pub mod Verify
use mmo_wow.Prelude.{ℕ, List, Bool}

pub record Crypto : Type 0 where
  -- `SHA1::GetDigestOf` of the concatenation of its arguments
  pub sha1 : List ℕ → List ℕ
  -- `HMAC(EVP_sha1(), key, data)`
  pub hmac_sha1 : List ℕ → List ℕ → List ℕ
  -- `BN_mod_exp`: base, exponent, modulus
  pub mod_exp : ℕ → ℕ → ℕ → ℕ
  -- `AEDecrypt<AES>(data, key)`: what it leaves in `data`, and its result
  pub decrypt : List ℕ → List ℕ → List ℕ × Bool
