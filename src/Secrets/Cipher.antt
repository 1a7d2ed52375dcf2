-- ===== src/Secrets/Cipher.antt =====
-- Server/Common/Cryptography/CryptoGenerics.h: authenticated encryption with a random vector, for
-- the sizes of AES.h.
use mmo_wow.Prelude.{
  ℕ, ◌-◌, ◌≡◌, refl, ap, ◌∙◌, Bool, true, List, [], ◌∷◌, ◌++◌, Option, none, some, Result, ok, err,
  assertion, leb, if◌then◌else◌, ◌>>=◌, length, take, drop, arith, length-append,
}

-- the functions of OpenSSL and argon2
pub record Library : Type 0 where
  -- `AES::Process` of key, vector and data: the data and the tag it leaves, if it succeeds
  pub process_encrypt : List ℕ → List ℕ → List ℕ → Option (List ℕ × List ℕ)
  -- of key, vector, data and tag: the data it leaves, and its result
  pub process_decrypt : List ℕ → List ℕ → List ℕ → List ℕ → List ℕ × Bool
  -- `BN_bn2hex` and `BN_hex2bn`
  pub hex_of : ℕ → List ℕ
  -- `Argon2::Verify(text, digest)` and `Argon2::Hash(text, salt)`
  pub verify : List ℕ → List ℕ → Bool
  pub hash : List ℕ → List ℕ → Option (List ℕ)

abbrev pub iv_size : ℕ
iv_size = 12

abbrev pub tag_size : ℕ
tag_size = 12

-- `SplitFromBack`: the data without its tail, and the tail
unfoldable pub split_from_back : ℕ → List ℕ → Result (List ℕ × List ℕ)
split_from_back n xs =
    if leb n (length xs)
    then ok (take (length xs - n) xs, drop (length xs - n) xs)
    else err assertion

-- `AEEncryptWithRandomIV(data, key)`
unfoldable pub ae_encrypt : Library → List ℕ → List ℕ → List ℕ → Result (List ℕ)
ae_encrypt lib key iv plain = elim (lib.process_encrypt key iv plain) [
  | none ↦ err assertion
  | some out ↦ ok ((out.0 ++ iv) ++ out.1)
]

-- `AEDecrypt(data, key)`: what it leaves in `data`, and its result
unfoldable pub ae_decrypt : Library → List ℕ → List ℕ → Result (List ℕ × Bool)
unfolding split_from_back
ae_decrypt lib key stored = do
  t ← split_from_back tag_size stored
  v ← split_from_back iv_size t.0
  ok (lib.process_decrypt key v.1 v.0 t.1)

-- What the library promises: data that was encrypted is decrypted under the same key and vector with
-- its tag, a tag has its size, and a digest verifies the text that was hashed.
pub record IsSound (lib : Library) : Type 0 where
  pub decrypts :
      (key iv plain out tag : List ℕ)
      → lib.process_encrypt key iv plain ≡ some (out, tag)
      → lib.process_decrypt key iv out tag ≡ (plain, true)
  pub tag_length :
      (key iv plain out tag : List ℕ)
      → lib.process_encrypt key iv plain ≡ some (out, tag)
      → length tag ≡ tag_size
  pub verifies : (text salt d : List ℕ) → lib.hash text salt ≡ some d → lib.verify text d ≡ true

take_append_length : (xs ys : List ℕ) → take (length xs) (xs ++ ys) ≡ xs
take_append_length [] ys = refl
take_append_length (x ∷ xs) ys = ap (λ zs. x ∷ zs) (take_append_length xs ys)

drop_append_length : (xs ys : List ℕ) → drop (length xs) (xs ++ ys) ≡ ys
drop_append_length [] ys = refl
drop_append_length (x ∷ xs) ys = drop_append_length xs ys

split-append : (n : ℕ) (xs ys : List ℕ) → length ys ≡ n → split_from_back n (xs ++ ys) ≡ ok (xs, ys)
unfolding split_from_back
split-append n xs ys h =
    let l : length (xs ++ ys) - n ≡ length xs = omega (arith, length-append xs ys, h) in
    let a : take (length (xs ++ ys) - n) (xs ++ ys) ≡ xs =
      ap (λ k. take k (xs ++ ys)) l ∙ take_append_length xs ys in
    let b : drop (length (xs ++ ys) - n) (xs ++ ys) ≡ ys =
      ap (λ k. drop k (xs ++ ys)) l ∙ drop_append_length xs ys in
    ground (arith, a, b, length-append xs ys, h)

-- With a sound library and a vector of 12 bytes, what AEEncryptWithRandomIV makes of data is turned
-- back into that data by AEDecrypt under the same key.
pub ae_decrypt-ae_encrypt :
    (lib : Library) (key iv plain : List ℕ) {stored : List ℕ}
    → IsSound lib
    → length iv ≡ iv_size
    → ae_encrypt lib key iv plain ≡ ok stored
    → ae_decrypt lib key stored ≡ ok (plain, true)
unfolding ae_encrypt ae_decrypt
ae_decrypt-ae_encrypt lib key iv plain {stored} s h e = go (lib.process_encrypt key iv plain) refl e
  where
    go :
        (p : Option (List ℕ × List ℕ))
        → lib.process_encrypt key iv plain ≡ p
        → elim p [ none ↦ err assertion | some out ↦ ok ((out.0 ++ iv) ++ out.1) ] ≡ ok stored
        → ae_decrypt lib key stored ≡ ok (plain, true)
    go none q e = ground arith
    go (some (out, tag)) q e =
        let x : stored ≡ (out ++ iv) ++ tag = ground arith in
        let a = split-append tag_size (out ++ iv) tag (s.tag_length key iv plain out tag q) in
        let b = split-append iv_size out iv h in
        let d = s.decrypts key iv plain out tag q in
        ap (ae_decrypt lib key) x ∙ ground (arith, a, b, d)
