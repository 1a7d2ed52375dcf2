-- ===== src/Tests/Texts.antt =====
-- Runs of the theorems on text: tokens, times and the table of addresses.
use mmo_wow.Prelude.{ℕ, ◌≡◌, refl, false, List, [], ◌∷◌, some, ok, ◌↔◌, arith}
use mathlib.Core.List.{Memᴰ}
use mmo_wow.Util.{tokenize, remove_crlf}
use mmo_wow.Util.Money.{money_string_to_money}
use mmo_wow.Util.Split.{tokenize-split}
use mmo_wow.Util.Time.{short_text, secs_to_time_string}
use mmo_wow.IpLocation.{IpLocationRecord, load, get_location_record}
use mmo_wow.IpLocation.Lookup.{Covers}
use mmo_wow.IpLocation.Loaded.{load-location}

-- `a,,b` cut at the commas
tokenize-split_example :
    tokenize (97 ∷ 44 ∷ 44 ∷ 98 ∷ []) 44 false ≡ some ((97 ∷ []) ∷ (98 ∷ []) ∷ [])
tokenize-split_example = tokenize-split (97 ∷ 44 ∷ 44 ∷ 98 ∷ []) 44 false

crlf_removed : remove_crlf (97 ∷ 13 ∷ 10 ∷ []) ≡ (some 1, 97 ∷ [])
unfolding remove_crlf
crlf_removed = refl

-- `1d2s`
short_time : secs_to_time_string (λ n. []) 86402 short_text false ≡ 49 ∷ 100 ∷ 50 ∷ 115 ∷ []
unfolding secs_to_time_string
short_time = refl

-- `1g 2s`
some_money : money_string_to_money (49 ∷ 103 ∷ 32 ∷ 50 ∷ 115 ∷ []) ≡ ok (some 10200)
unfolding money_string_to_money tokenize mmo_wow.Util.Number.string_to_uint32
some_money = refl

-- `1,9,x,y`
abbrev table_text : List ℕ
table_text = 49 ∷ 44 ∷ 57 ∷ 44 ∷ 88 ∷ 44 ∷ 121 ∷ []

abbrev entry : IpLocationRecord
entry = record { ip_from = 1; ip_to = 9; country_code = 120 ∷ []; country_name = 121 ∷ [] }

table_loaded : load (λ store. store) (some table_text) ≡ ok (some (entry ∷ []))
unfolding load
table_loaded = refl

load-location_example :
    (get_location_record (some 4) (entry ∷ []) ≡ some entry)
    ↔ (Memᴰ entry (entry ∷ []) × Covers entry 4)
load-location_example =
    load-location (λ store. store) table_text (entry ∷ []) 4 entry table_loaded (omega arith, refl)
