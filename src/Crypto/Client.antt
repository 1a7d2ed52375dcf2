-- ===== src/Crypto/Client.antt =====
-- The server's side of SRP6, Server/Common/Cryptography/Authentication/SRP6.cpp, against a client
-- that knows the password. The client is a description of its own: it computes with the power of
-- natural numbers, the interleaved hash of RFC 2945 and the password.
use native.Mathlib.Nat
use mmo_wow.Prelude.{
  ℕ, ◌+◌, ◌*◌, ◌-◌, ◌%◌, ◌^◌, ◌≡◌, ◌<◌, ◌↔◌, refl, sym, ap, ◌∙◌, true, List, [], ◌∷◌, ◌++◌, some,
  ok, arith,
}
use mmo_wow.Prelude.Bytes.{to_bytes, of_bytes, length-to_bytes, of_bytes-to_bytes}
use mmo_wow.Crypto.{Crypto}
use mmo_wow.Crypto.Powers.{pow-cong, pow-nonzero, server_power, client_base}
use mmo_wow.Crypto.Interleave.{rfc_interleave, interleave-rfc}
use mmo_wow.Crypto.Srp6.{
  Srp6, generator, modulus, xor_bytes, calculate_verifier, new, interleave, shared_secret,
  expected_proof, server_key, verify,
}
use mmo_wow.Crypto.Verify.{verify-some, Proves-verify}

-- `A = g ^ a`, as it is sent
abbrev pub client_key : ℕ → List ℕ
client_key a = to_bytes 32 (generator ^ a % modulus)

module _ (c : Crypto) (username password salt : List ℕ) where
  -- `x`, from the password
  abbrev pub password_number : ℕ
  password_number = of_bytes (c.sha1 (salt ++ c.sha1 (username ++ (58 ∷ password))))

  module _ (a : ℕ) (b_key : List ℕ) where
    -- `S = (B - 3 * g ^ x) ^ (a + u * x)`, with `u = H(A, B)`
    abbrev pub client_secret : ℕ
    client_secret =
        (of_bytes b_key + 3 * (modulus - generator ^ password_number % modulus))
          ^ (a + of_bytes (c.sha1 (client_key a ++ b_key)) * password_number)
        % modulus

    -- `K`
    abbrev pub client_session_key : List ℕ
    client_session_key = rfc_interleave c.sha1 (to_bytes 32 client_secret)

    -- `M = H(H(N) xor H(g), H(I), s, A, B, K)`
    abbrev pub client_proof : List ℕ
    client_proof = c.sha1 (
        xor_bytes (c.sha1 (to_bytes 32 modulus)) (c.sha1 (generator ∷ []))
        ++ (c.sha1 username ++ (salt ++ (client_key a ++ (b_key ++ client_session_key)))))

below : (k : ℕ) → k % modulus < modulus
below k = omega arith

in_32_bytes : (k : ℕ) → of_bytes (to_bytes 32 (k % modulus)) ≡ k % modulus
in_32_bytes k = of_bytes-to_bytes 32 (k % modulus) (omega (arith, below k))

-- `7 * inverse = 1` modulo `N`
inverse : ℕ
inverse = 0x621147b13dea16f862e98a87f8bb5df22a4a5a4164641ef8e806a6608be393cc

generator-inverse : generator * inverse % modulus ≡ 1
unfolding inverse
generator-inverse = refl

module _ (c : Crypto) (power : (x e n : ℕ) → 0 < n → c.mod_exp x e n ≡ x ^ e % n)
    (username password salt random : List ℕ) where
  -- the object of a login, for the verifier that was stored at the registration
  abbrev pub registered : Srp6
  registered = new c username salt (calculate_verifier c username password salt) random

  power_at : (x e : ℕ) → c.mod_exp x e modulus ≡ x ^ e % modulus
  power_at x e = power x e modulus (omega arith)

  verifier-power :
      registered.verifier ≡ generator ^ password_number c username password salt % modulus
  unfolding new calculate_verifier
  verifier-power =
      let x = password_number c username password salt in
      ap (λ k. of_bytes (to_bytes 32 k)) (power_at generator x) ∙ in_32_bytes (generator ^ x)

  public_key-power :
      of_bytes registered.public_key
      ≡ (generator ^ of_bytes random % modulus + registered.verifier * 3) % modulus
  unfolding new server_key
  public_key-power =
      ap (λ k. of_bytes (to_bytes 32 ((k + registered.verifier * 3) % modulus)))
        (power_at generator (of_bytes random))
      ∙ in_32_bytes (generator ^ of_bytes random % modulus + registered.verifier * 3)

  -- Both sides have the same secret.
  shared_secret-client :
      (a : ℕ)
      → shared_secret c registered (client_key a)
        ≡ to_bytes 32 (client_secret c username password salt a registered.public_key)
  unfolding shared_secret new
  shared_secret-client a =
      let b = of_bytes random in
      let x = password_number c username password salt in
      let pk = registered.public_key in
      let sent = client_key a in
      let u = of_bytes (c.sha1 (sent ++ pk)) in
      let v = generator ^ x % modulus in
      ap (to_bytes 32) (
        power_at (of_bytes sent * c.mod_exp registered.verifier u modulus) b
        ∙ ap (λ k. (of_bytes sent * k) ^ b % modulus)
            (power_at registered.verifier u ∙ ap (λ k. k ^ u % modulus) verifier-power)
        ∙ ap (λ k. (k * (v ^ u % modulus)) ^ b % modulus) (in_32_bytes (generator ^ a))
        ∙ server_power modulus generator a b x u
        ∙ sym (
            pow-cong modulus (of_bytes pk + 3 * (modulus - v)) (generator ^ b) (a + u * x) (
              ap (λ k. (k + 3 * (modulus - v)) % modulus)
                (public_key-power
                  ∙ ap (λ k. (generator ^ b % modulus + k * 3) % modulus) verifier-power)
              ∙ client_base modulus (generator ^ b) v (omega (arith, below (generator ^ x))))))

  session_key-client :
      (a : ℕ)
      → let sent = client_key a in
        interleave c (shared_secret c registered sent)
        ≡ client_session_key c username password salt a registered.public_key
  session_key-client a =
      let s = client_secret c username password salt a registered.public_key in
      ap (interleave c) (shared_secret-client a)
      ∙ interleave-rfc c (to_bytes 32 s) (omega (arith, length-to_bytes 32 s))

  -- If `BN_mod_exp` is the power modulo its third argument, then for the verifier of a password
  -- `VerifyChallengeResponse` yields a session key, and uses the object up, exactly for the proof of
  -- the client that knows the password, and the key is the one that this client has; whatever the
  -- salt, the random bytes of the server and the random number of the client are.
  pub verify_iff :
      (a : ℕ) (m key : List ℕ)
      → (verify c registered (client_key a) m ≡ ok (some key, record registered { used = true }))
        ↔ ((key ≡ client_session_key c username password salt a registered.public_key)
            × (m ≡ client_proof c username password salt a registered.public_key))
  unfolding expected_proof new
  verify_iff a m key =
      let pk = registered.public_key in
      let sent = client_key a in
      (
        λ h.
            let p = verify-some c registered sent m h in
            let k = p.agreed ∙ session_key-client a in
            (k, p.digest ∙ ap (expected_proof c registered sent) k),
        λ h. Proves-verify c registered sent m (record {
          not_used = refl;
          not_zero = λ z. pow-nonzero modulus generator inverse a refl generator-inverse (
              sym (Nat.mod-mod (generator ^ a) modulus)
              ∙ ap (λ k. k % modulus) (sym (in_32_bytes (generator ^ a)))
              ∙ z);
          agreed = h.0 ∙ sym (session_key-client a);
          digest = h.1 ∙ sym (ap (expected_proof c registered sent) h.0);
        }),
      )
