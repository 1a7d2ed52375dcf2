-- ===== src/Util/Number.antt =====
-- Server/Common/Utilities/StringConvert.h, StringTo of an unsigned number to the base 10.
use mmo_wow.Prelude.{
  ℕ, ◌+◌, ◌-◌, ◌*◌, ◌^◌, true, false, ◌&&◌, List, [], ◌∷◌, Option, none, some, ltb, leb,
}

-- `StringTo<uint32>`: the decimal digits make up the text, and their number fits
unfoldable pub number_loop : List ℕ → ℕ → Option ℕ
number_loop [] n = some n
number_loop (c ∷ cs) n =
    let next = n * 10 + (c - 48) in
    elim (leb 48 c && leb c 57 && ltb next (2 ^ 32)) [ true ↦ number_loop cs next | false ↦ none ]

unfoldable pub string_to_uint32 : List ℕ → Option ℕ
unfolding number_loop
string_to_uint32 [] = none
string_to_uint32 (c ∷ cs) = number_loop (c ∷ cs) 0
