-- ===== src/Util.antt =====
-- Server/Common/Utilities/Util.cpp: Tokenize and RemoveCRLF. Text is a list of character codes.
pub mod Split
pub mod Time
pub mod Hex
pub mod Number
pub mod Money
use mmo_wow.Prelude.{
  ℕ, zero, suc, ◌+◌, ◌-◌, Bool, true, false, ◌||◌, List, [], ◌∷◌, ◌++◌, Option, none, some, ◌==◌,
  ltb, if◌then◌else◌, length, take, drop,
}

-- the first place from which on `is_sought` holds, counted from `i`
abbrev pub index_from : (ℕ → Bool) → List ℕ → ℕ → Option ℕ
index_from is_sought [] i = none
index_from is_sought (x ∷ xs) i = if is_sought x then some i else index_from is_sought xs (suc i)

-- `str.find(sep, start)`
unfoldable pub find : ℕ → List ℕ → ℕ → Option ℕ
find sep str start = index_from (λ x. x == sep) (drop start str) start

-- `str.substr(start, n)`, for a start within the text
abbrev pub substr : ℕ → ℕ → List ℕ → List ℕ
substr start n str = take n (drop start str)

-- the loop of Tokenize on fuel, and what follows it
unfoldable pub tokenize_loop : ℕ → List ℕ → ℕ → Bool → ℕ → List (List ℕ) → Option (List (List ℕ))
unfolding find
tokenize_loop zero str sep keep_empty start tokens = none
tokenize_loop (suc fuel) str sep keep_empty start tokens = elim (find sep str start) [
  | none ↦
      some
        (if keep_empty || ltb start (length str) then tokens ++ (drop start str ∷ []) else tokens)
  | some end ↦ tokenize_loop fuel str sep keep_empty (end + 1) (
      if keep_empty || ltb start end
      then tokens ++ (substr start (end - start) str ∷ [])
      else tokens)
]

-- `Tokenize`
unfoldable pub tokenize : List ℕ → ℕ → Bool → Option (List (List ℕ))
unfolding tokenize_loop
tokenize str sep keep_empty = tokenize_loop (suc (length str)) str sep keep_empty 0 []

-- `RemoveCRLF`: its result, and what it leaves of the text
unfoldable pub remove_crlf : List ℕ → Option ℕ × List ℕ
remove_crlf str = elim (index_from (λ x. x == 13 || x == 10) str 0) [
  | none ↦ (none, str)
  | some i ↦ (some i, take i str)
]
