-- ===== src/Crypto/Srp6.antt =====
-- Server/Common/Cryptography/Authentication/SRP6.h and .cpp. A `BigNumber` is a natural number; its
-- byte arrays are little-endian.
use Prim.Native.Nat.{bit_xor}
use mmo_wow.Prelude.{
  ℕ, zero, suc, ◌+◌, ◌*◌, ◌/◌, ◌%◌, Bool, true, false, List, [], ◌∷◌, ◌++◌, Option, none, some,
  Result, ok, require, assertion, not, drop, ◌==◌, if◌then◌else◌, ◌>>◌,
}
use mmo_wow.Prelude.Bytes.{bytes_eq, to_bytes, of_bytes}
use mmo_wow.Crypto.{Crypto}

-- `SRP6::g` and `SRP6::N`
abbrev pub generator : ℕ
generator = 7

abbrev pub modulus : ℕ
modulus = 0x894B645E89E1535BBDAD5B8B290650530801B18EBFBF5E8FAB3C82872A3E9BB7

pub record Srp6 : Type 0 where
  pub used : Bool
  pub identity : List ℕ
  pub secret : ℕ
  pub verifier : ℕ
  pub salt : List ℕ
  pub public_key : List ℕ

-- `buf0` (even) and `buf1` (odd)
abbrev pub evens : List ℕ → List ℕ
evens [] = []
evens (x ∷ []) = x ∷ []
evens (x ∷ y ∷ xs) = x ∷ evens xs

abbrev pub odds : List ℕ → List ℕ
odds [] = []
odds (x ∷ []) = []
odds (x ∷ y ∷ xs) = y ∷ odds xs

-- `while (p < EPHEMERAL_KEY_LENGTH && !S[p]) ++p`
abbrev pub leading_zeros : List ℕ → ℕ
leading_zeros [] = 0
leading_zeros (zero ∷ xs) = suc (leading_zeros xs)
leading_zeros (suc x ∷ xs) = 0

-- the offset into the two halves
unfoldable pub half_offset : List ℕ → ℕ
half_offset s = let p = leading_zeros s in (if p % 2 == 1 then p + 1 else p) / 2

-- `K[2 * i] = hash0[i]; K[2 * i + 1] = hash1[i]`
abbrev pub weave : List ℕ → List ℕ → List ℕ
weave [] ys = []
weave (x ∷ xs) [] = []
weave (x ∷ xs) (y ∷ ys) = x ∷ y ∷ weave xs ys

-- `std::transform` with `std::bit_xor`
abbrev pub xor_bytes : List ℕ → List ℕ → List ℕ
xor_bytes [] ys = []
xor_bytes (x ∷ xs) [] = []
xor_bytes (x ∷ xs) (y ∷ ys) = bit_xor x y ∷ xor_bytes xs ys

module _ (c : Crypto) where
  -- `SHA1Interleave`
  unfoldable pub interleave : List ℕ → List ℕ
  unfolding half_offset
  interleave s =
      let p = half_offset s in weave (c.sha1 (drop p (evens s))) (c.sha1 (drop p (odds s)))

  -- `_B(b, v)`
  unfoldable pub server_key : ℕ → ℕ → List ℕ
  server_key b v = to_bytes 32 ((c.mod_exp generator b modulus + v * 3) % modulus)

  -- `CalculateVerifier(username, password, salt)`; 58 is ':'
  unfoldable pub calculate_verifier : List ℕ → List ℕ → List ℕ → List ℕ
  calculate_verifier username password salt = to_bytes 32 (
      c.mod_exp generator (of_bytes (c.sha1 (salt ++ c.sha1 (username ++ (58 ∷ password)))))
        modulus)

  -- `MakeRegistrationData(username, password)`, with the 32 random bytes that it draws
  unfoldable pub make_registration_data : List ℕ → List ℕ → List ℕ → List ℕ × List ℕ
  unfolding calculate_verifier
  make_registration_data username password random =
      (random, calculate_verifier username password random)

  -- `CheckLogin`
  unfoldable pub check_login : List ℕ → List ℕ → List ℕ → List ℕ → Bool
  unfolding calculate_verifier
  check_login username password salt verifier =
      bytes_eq verifier (calculate_verifier username password salt)

  -- `SRP6(username, salt, verifier)`, with the 32 random bytes that it draws
  unfoldable pub new : List ℕ → List ℕ → List ℕ → List ℕ → Srp6
  unfolding server_key
  new username salt verifier random = record {
    used = false;
    identity = c.sha1 username;
    secret = of_bytes random;
    verifier = of_bytes verifier;
    salt = salt;
    public_key = server_key (of_bytes random) (of_bytes verifier);
  }

  -- `S = (A * v ^ u) ^ b`, as 32 bytes
  unfoldable pub shared_secret : Srp6 → List ℕ → List ℕ
  shared_secret srp a =
      let u = of_bytes (c.sha1 (a ++ srp.public_key)) in
      to_bytes 32 (c.mod_exp (of_bytes a * c.mod_exp srp.verifier u modulus) srp.secret modulus)

  -- `ourM`
  unfoldable pub expected_proof : Srp6 → List ℕ → List ℕ → List ℕ
  expected_proof srp a key =
      let ng = xor_bytes (c.sha1 (to_bytes 32 modulus)) (c.sha1 (generator ∷ [])) in
      c.sha1 (ng ++ (srp.identity ++ (srp.salt ++ (a ++ (srp.public_key ++ key)))))

  -- `VerifyChallengeResponse(A, clientM)`, with the object that it leaves
  unfoldable pub verify : Srp6 → List ℕ → List ℕ → Result (Option (List ℕ) × Srp6)
  unfolding interleave shared_secret expected_proof
  verify srp a client_proof = do
    require (not srp.used) assertion
    let after = record srp { used = true }
    if of_bytes a % modulus == 0
        then ok (none, after)
        else (let key = interleave (shared_secret srp a) in
            if bytes_eq (expected_proof srp a key) client_proof
            then ok (some key, after)
            else ok (none, after))

  -- `GetSessionVerifier(A, clientM, K)`
  unfoldable pub session_verifier : List ℕ → List ℕ → List ℕ → List ℕ
  session_verifier a client_proof key = c.sha1 (a ++ (client_proof ++ key))
