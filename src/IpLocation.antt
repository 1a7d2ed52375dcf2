-- ===== src/IpLocation.antt =====
-- Server/Common/IPLocation/IPLocation.cpp: the table of countries by IPv4 address, how it is read and
-- searched. Text is a list of character codes. What `std::sort` makes of the table is a parameter.
pub mod Lookup
pub mod Loaded
use mmo_wow.Util.Number.{string_to_uint32}
use mmo_wow.Prelude.{
  ℕ, zero, suc, ◌+◌, ◌-◌, ◌*◌, ◌^◌, Bool, true, false, not, ◌&&◌, ◌||◌, List, [], ◌∷◌, ◌++◌, map,
  Option, none, some, Result, ok, err, assertion, ◌==◌, ltb, leb, if◌then◌else◌, ◌>>=◌, require,
  length,
}

-- `IpLocationRecord`
pub record IpLocationRecord : Type 0 where
  pub ip_from : ℕ
  pub ip_to : ℕ
  pub country_code : List ℕ
  pub country_name : List ℕ

-- a stream: the characters that are left, and `good()`
pub record Stream : Type 0 where
  pub rest : List ℕ
  pub is_good : Bool

-- the characters before the first `sep`, and those after it, if there is one
abbrev pub cut_at : ℕ → List ℕ → List ℕ × Option (List ℕ)
cut_at sep [] = ([], none)
cut_at sep (x ∷ xs) = if x == sep then ([], some xs) else (x ∷ (cut_at sep xs).0, (cut_at sep xs).1)

-- `std::getline(stream, text, sep)`: the text, unless it fails, and the stream
abbrev pub getline_from : ℕ → List ℕ → Bool → Option (List ℕ) × Stream
getline_from sep [] g = (none, record { rest = []; is_good = false })
getline_from sep (x ∷ xs) false = (none, record { rest = x ∷ xs; is_good = false })
getline_from sep (x ∷ xs) true = (
  some (cut_at sep (x ∷ xs)).0,
  elim (cut_at sep (x ∷ xs)).1 [
    | none ↦ record { rest = []; is_good = false }
    | some ys ↦ record { rest = ys; is_good = true }
  ],
)

unfoldable pub getline : ℕ → Stream → Option (List ℕ) × Stream
getline sep s = getline_from sep s.rest s.is_good

-- `erase(std::remove(begin, end, c), end)`
abbrev pub without : ℕ → List ℕ → List ℕ
without c [] = []
without c (x ∷ xs) = if x == c then without c xs else x ∷ without c xs

abbrev pub to_lower : ℕ → ℕ
to_lower c = if leb 65 c && leb c 90 then c + 32 else c

-- the table with the record of one line, if its addresses are numbers
unfoldable pub add_record :
    List ℕ → List ℕ → List ℕ → List ℕ → List IpLocationRecord → List IpLocationRecord
unfolding string_to_uint32
add_record from_text to_text code name store = elim (string_to_uint32 (without 34 from_text)) [
  | none ↦ store
  | some from ↦ elim (string_to_uint32 (without 34 to_text)) [
    | none ↦ store
    | some to ↦
        store
        ++ (record {
          ip_from = from;
          ip_to = to;
          country_code = map to_lower (without 34 code);
          country_name = without 34 (without 10 (without 13 name));
        }
            ∷ [])
  ]
]

-- the loop over the lines on fuel
unfoldable pub read_lines : ℕ → Stream → List IpLocationRecord → Option (List IpLocationRecord)
unfolding getline add_record
read_lines zero s store = none
read_lines (suc fuel) s store = elim s.is_good [
  | false ↦ some store
  | true ↦ elim (getline 44 s).0 [
    | none ↦ some store
    | some from ↦ elim (getline 44 (getline 44 s).1).0 [
      | none ↦ some store
      | some to ↦ elim (getline 44 (getline 44 (getline 44 s).1).1).0 [
        | none ↦ some store
        | some code ↦ elim (getline 10 (getline 44 (getline 44 (getline 44 s).1).1).1).0 [
          | none ↦ some store
          | some name ↦
              read_lines fuel (getline 10 (getline 44 (getline 44 (getline 44 s).1).1).1).1
                (add_record from to code name store)
        ]
      ]
    ]
  ]
]

-- `std::is_sorted` with `a.IpFrom < b.IpTo`: no record begins before the one before it ends
abbrev pub are_apart : List IpLocationRecord → Bool
are_apart [] = true
are_apart (a ∷ []) = true
are_apart (a ∷ b ∷ rest) = not (ltb b.ip_from a.ip_to) && are_apart (b ∷ rest)

-- `Load` of the text of the file, if there is one
unfoldable pub load :
    (List IpLocationRecord → List IpLocationRecord)
    → Option (List ℕ)
    → Result (Option (List IpLocationRecord))
unfolding read_lines
load sort none = ok (some [])
load sort (some text) =
    elim (read_lines (suc (length text)) (record { rest = text; is_good = true }) []) [
      | none ↦ ok none
      | some store ↦ (require (are_apart (sort store)) assertion >>= λ _. ok (some (sort store)))
    ]

-- `std::upper_bound` with `ip < loc.IpTo`: the first record that ends after the address
abbrev pub upper_bound : ℕ → List IpLocationRecord → Option IpLocationRecord
upper_bound ip [] = none
upper_bound ip (r ∷ rest) = if ltb ip r.ip_to then some r else upper_bound ip rest

-- `GetLocationRecord` of an address that has been parsed
unfoldable pub get_location_record : Option ℕ → List IpLocationRecord → Option IpLocationRecord
get_location_record none store = none
get_location_record (some ip) store = elim (upper_bound ip store) [
  | none ↦ none
  | some r ↦ (if ltb ip r.ip_from then none else some r)
]
