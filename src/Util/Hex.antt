-- ===== src/Util/Hex.antt =====
-- Server/Common/Utilities/Util.cpp: ByteArrayToHexStr and HexStrToByteArray.
use mmo_wow.Prelude.{
  ℕ, ◌+◌, ◌-◌, ◌*◌, ◌/◌, ◌%◌, ◌≡◌, ◌<◌, refl, sym, ap, ◌∙◌, Bool, true, false, ◌&&◌, List, [], ◌∷◌,
  ◌++◌, append_assoc, append-nil, Option, none, some, Result, ok, assertion, require, ◌==◌, leb,
  ltb, if◌then◌else◌, ◌>>=◌, length, length-append, arith,
}
use mmo_wow.Prelude.Bytes.{IsBytes}

-- a digit to the base 16, as `std::from_chars` reads it
unfoldable pub hex_digit_value : ℕ → Option ℕ
hex_digit_value c =
    if leb 48 c && leb c 57
    then some (c - 48)
    else if leb 65 c && leb c 70
    then some (c - 55)
    else if leb 97 c && leb c 102
    then some (c - 87)
    else none

-- `StringTo<uint8>(str.substr(i, 2), 16).value_or(0)`
unfoldable pub byte_of_hex : ℕ → ℕ → ℕ
unfolding hex_digit_value
byte_of_hex c d = elim (hex_digit_value c) [
  | none ↦ 0
  | some high ↦ elim (hex_digit_value d) [ none ↦ 0 | some low ↦ high * 16 + low ]
]

unfoldable pub hex_bytes : List ℕ → List ℕ
unfolding byte_of_hex
hex_bytes [] = []
hex_bytes (c ∷ []) = []
hex_bytes (c ∷ d ∷ rest) = byte_of_hex c d ∷ hex_bytes rest

abbrev pub backwards : List ℕ → List ℕ
backwards [] = []
backwards (x ∷ xs) = backwards xs ++ (x ∷ [])

-- `HexStrToByteArray`, of a text for `outlen` bytes
unfoldable pub hex_str_to_byte_array : List ℕ → ℕ → Bool → Result (List ℕ)
unfolding hex_bytes
hex_str_to_byte_array str outlen reverse = require (length str == 2 * outlen) assertion >>= λ _.
    ok (if reverse then backwards (hex_bytes str) else hex_bytes str)

-- `ByteArrayToHexStr`; `two_hex` is what the format library makes of `{:02X}`
abbrev pub hex_text : (ℕ → List ℕ) → List ℕ → List ℕ
hex_text two_hex [] = []
hex_text two_hex (b ∷ bs) = two_hex b ++ hex_text two_hex bs

unfoldable pub byte_array_to_hex_str : (ℕ → List ℕ) → List ℕ → Bool → List ℕ
byte_array_to_hex_str two_hex bytes reverse =
    hex_text two_hex (if reverse then backwards bytes else bytes)

-- the upper-case digit of a number below 16
abbrev pub hex_digit : ℕ → ℕ
hex_digit n = if ltb n 10 then 48 + n else 55 + n

digit-value : (n : ℕ) → n < 16 → hex_digit_value (hex_digit n) ≡ some n
unfolding hex_digit_value
digit-value n h = ground (arith, h)

backwards-append : (xs ys : List ℕ) → backwards (xs ++ ys) ≡ backwards ys ++ backwards xs
backwards-append [] ys = sym (append-nil (backwards ys))
backwards-append (x ∷ xs) ys =
    ap (λ zs. zs ++ (x ∷ [])) (backwards-append xs ys)
    ∙ append_assoc (backwards ys) (backwards xs) (x ∷ [])

backwards_twice : (xs : List ℕ) → backwards (backwards xs) ≡ xs
backwards_twice [] = refl
backwards_twice (x ∷ xs) =
    backwards-append (backwards xs) (x ∷ []) ∙ ap (λ zs. x ∷ zs) (backwards_twice xs)

length-backwards : (xs : List ℕ) → length (backwards xs) ≡ length xs
length-backwards [] = refl
length-backwards (x ∷ xs) =
    omega (arith, length-append (backwards xs) (x ∷ []), length-backwards xs)

append-IsBytes : (xs ys : List ℕ) → IsBytes xs → IsBytes ys → IsBytes (xs ++ ys)
append-IsBytes [] ys a b = b
append-IsBytes (x ∷ xs) ys (h, a) b = (h, append-IsBytes xs ys a b)

backwards-IsBytes : (xs : List ℕ) → IsBytes xs → IsBytes (backwards xs)
backwards-IsBytes [] a = refl
backwards-IsBytes (x ∷ xs) (h, a) =
    append-IsBytes (backwards xs) (x ∷ []) (backwards-IsBytes xs a) (h, refl)

module _ (two_hex : ℕ → List ℕ)
    (digits : (b : ℕ) → b < 256 → two_hex b ≡ hex_digit (b / 16) ∷ hex_digit (b % 16) ∷ []) where
  hex_bytes-hex_text :
      (bs : List ℕ)
      → IsBytes bs
      → (hex_bytes (hex_text two_hex bs) ≡ bs) × (length (hex_text two_hex bs) ≡ 2 * length bs)
  unfolding hex_bytes byte_of_hex
  hex_bytes-hex_text [] a = (refl, refl)
  hex_bytes-hex_text (b ∷ bs) (h, a) =
      let (e, l) = hex_bytes-hex_text bs a in
      let d = digits b h in
      let x = digit-value (b / 16) (omega arith) in
      let y = digit-value (b % 16) (omega arith) in
      let z : b / 16 * 16 + b % 16 ≡ b = omega arith in
      (
        ap (λ t. hex_bytes (t ++ hex_text two_hex bs)) d ∙ ground (arith, e, x, y, z),
        omega (arith, ap length d, length-append (two_hex b) (hex_text two_hex bs), l),
      )

  -- With two upper-case digits for each byte, bytes that are written as text are read back, in both
  -- orders.
  pub hex_round :
      (bs : List ℕ) (reverse : Bool)
      → IsBytes bs
      → hex_str_to_byte_array (byte_array_to_hex_str two_hex bs reverse) (length bs) reverse ≡ ok bs
  unfolding hex_str_to_byte_array byte_array_to_hex_str
  hex_round bs false a = let (e, l) = hex_bytes-hex_text bs a in ground (arith, e, l)
  hex_round bs true a =
      let (e, l) = hex_bytes-hex_text (backwards bs) (backwards-IsBytes bs a) in
      ground (arith, ap backwards e, l, length-backwards bs, backwards_twice bs)
