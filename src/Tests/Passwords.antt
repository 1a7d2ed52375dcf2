-- ===== src/Tests/Passwords.antt =====
-- A run of the theorem on the two sides of SRP6.
use mmo_wow.Prelude.{ℕ, ◌^◌, ◌%◌, ◌≡◌, ◌↔◌, refl, List, [], ◌∷◌, some, ok, true, replicate, length}
use mmo_wow.Prelude.Bytes.{to_bytes}
use mmo_wow.Crypto.{Crypto}
use mmo_wow.Crypto.Srp6.{Srp6, verify}
use mmo_wow.Crypto.Client.{client_key, client_session_key, client_proof, registered, verify_iff}
use mmo_wow.Tests.Toy.{crypto}

-- a library whose power is the power, and whose digest is the length
abbrev powers : Crypto
powers = record crypto { sha1 = λ xs. to_bytes 20 (length xs); mod_exp = λ x e n. x ^ e % n }

abbrev account : Srp6
account = registered powers (λ x e n h. refl) (65 ∷ []) (66 ∷ []) (replicate 32 1) (9 ∷ [])

abbrev account_key : List ℕ
account_key = client_session_key powers (65 ∷ []) (66 ∷ []) (replicate 32 1) 5 account.public_key

abbrev account_proof : List ℕ
account_proof = client_proof powers (65 ∷ []) (66 ∷ []) (replicate 32 1) 5 account.public_key

verify_iff_example :
    (verify powers account (client_key 5) account_proof
      ≡ ok (some account_key, record account { used = true }))
    ↔ ((account_key ≡ account_key) × (account_proof ≡ account_proof))
verify_iff_example =
    verify_iff powers (λ x e n h. refl) (65 ∷ []) (66 ∷ []) (replicate 32 1) (9 ∷ []) 5
      account_proof account_key
