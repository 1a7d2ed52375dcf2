-- ===== src/Crypto/Verify.antt =====
-- What `SRP6::VerifyChallengeResponse` accepts.
use mmo_wow.Prelude.{
  ℕ, Option, err, ◌%◌, ◌≡◌, ◌≢◌, true, false, not, List, some, ok, arith, >>=-eq-ok, Bool-cases,
  require, assertion, ◌==◌, inl, inr,
}
use mmo_wow.Prelude.Bytes.{of_bytes, bytes_eq, bytes_eq→eq, bytes_eq_refl}
use mmo_wow.Crypto.{Crypto}
use mmo_wow.Crypto.Srp6.{Srp6, modulus, interleave, shared_secret, expected_proof, verify}

-- A response proves the secret: it is to an object that was not used, its key is not a multiple of
-- the modulus, and its digest is the expected one.
pub record Proves (c : Crypto) (srp : Srp6) (a client_proof key : List ℕ) : Type 0 where
  pub not_used : srp.used ≡ false
  pub not_zero : of_bytes a % modulus ≢ 0
  pub agreed : key ≡ interleave c (shared_secret c srp a)
  pub digest : client_proof ≡ expected_proof c srp a key

pub verify-some :
    (c : Crypto) (srp : Srp6) (a m : List ℕ) {key : List ℕ} {used : Srp6}
    → verify c srp a m ≡ ok (some key, used)
    → Proves c srp a m key
unfolding verify
verify-some c srp a m {key} {used} h =
    let (_, e, h1) = >>=-eq-ok (require (not srp.used) assertion) _ h in
    elim (Bool-cases (of_bytes a % modulus == 0)) [
      | inl z ↦ ground arith
      | inr z ↦
          elim (Bool-cases
            (bytes_eq (expected_proof c srp a (interleave c (shared_secret c srp a))) m)) [
              | inr d ↦ ground arith
              | inl d ↦
                  (let k : key ≡ interleave c (shared_secret c srp a) = ground arith in
                    record {
                      not_used = ground arith;
                      not_zero = ground arith;
                      agreed = k;
                      digest = ground (
                        arith,
                        bytes_eq→eq (expected_proof c srp a (interleave c (shared_secret c srp a)))
                            m d,
                      );
                    })
            ]
    ]

-- And it accepts every one that does.
pub Proves-verify :
    (c : Crypto) (srp : Srp6) (a m : List ℕ) {key : List ℕ}
    → Proves c srp a m key
    → verify c srp a m ≡ ok (some key, record srp { used = true })
unfolding verify
Proves-verify c srp a m {key} p =
    let d : bytes_eq (expected_proof c srp a key) m ≡ true = ground (arith, p, bytes_eq_refl m) in
    ground (arith, p)

-- A second response to the same object is not looked at: the ASSERT on the used object fails.
pub verify_once :
    (c : Crypto) (srp : Srp6) (a m a' m' : List ℕ) {key : Option (List ℕ)} {used : Srp6}
    → verify c srp a m ≡ ok (key, used)
    → verify c used a' m' ≡ err assertion
unfolding verify
verify_once c srp a m a' m' h = ground arith
