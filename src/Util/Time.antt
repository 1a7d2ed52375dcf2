-- ===== src/Util/Time.antt =====
-- Server/Common/Utilities/Util.cpp: secsToTimeString and TimeStringToSecs.
pub mod Round
use mmo_wow.Prelude.{
  ℕ, zero, suc, ◌+◌, ◌-◌, ◌*◌, ◌/◌, ◌%◌, ◌^◌, Bool, true, false, not, ◌&&◌, ◌||◌, List, [], ◌∷◌,
  ◌++◌, Option, none, some, ◌==◌, ltb, leb, if◌then◌else◌,
}

pub data TimeFormat : Type 0 where
  full_text : TimeFormat
  short_text : TimeFormat
  numeric : TimeFormat

pub data TimeUnit : Type 0 where
  days_unit : TimeUnit
  hours_unit : TimeUnit
  minutes_unit : TimeUnit
  seconds_unit : TimeUnit

abbrev pub minute : ℕ
minute = 60

abbrev pub hour : ℕ
hour = 3600

abbrev pub day : ℕ
day = 86400

-- `ss << n` of a `uint64`, which has 20 digits at most
unfoldable pub decimal_loop : ℕ → ℕ → List ℕ
decimal_loop zero n = []
decimal_loop (suc fuel) n = elim (ltb n 10) [
  | true ↦ (48 + n) ∷ []
  | false ↦ decimal_loop fuel (n / 10) ++ ((48 + n % 10) ∷ [])
]

abbrev pub digits : ℕ
digits = 20

-- the names of the units after the number n, with the two spellings of each
unfoldable pub full_name : TimeUnit → ℕ → List ℕ
full_name days_unit n =
    if n == 1 then 32 ∷ 68 ∷ 97 ∷ 121 ∷ 32 ∷ [] else 32 ∷ 68 ∷ 97 ∷ 121 ∷ 115 ∷ 32 ∷ []
full_name hours_unit n =
    if leb n 1
    then 32 ∷ 72 ∷ 111 ∷ 117 ∷ 114 ∷ 32 ∷ []
    else 32 ∷ 72 ∷ 111 ∷ 117 ∷ 114 ∷ 115 ∷ 32 ∷ []
full_name minutes_unit n =
    if n == 1
    then 32 ∷ 77 ∷ 105 ∷ 110 ∷ 117 ∷ 116 ∷ 101 ∷ 32 ∷ []
    else 32 ∷ 77 ∷ 105 ∷ 110 ∷ 117 ∷ 116 ∷ 101 ∷ 115 ∷ 32 ∷ []
full_name seconds_unit n =
    if leb n 1
    then 32 ∷ 83 ∷ 101 ∷ 99 ∷ 111 ∷ 110 ∷ 100 ∷ 46 ∷ []
    else 32 ∷ 83 ∷ 101 ∷ 99 ∷ 111 ∷ 110 ∷ 100 ∷ 115 ∷ 46 ∷ []

abbrev pub short_name : TimeUnit → List ℕ
short_name days_unit = 100 ∷ []
short_name hours_unit = 104 ∷ []
short_name minutes_unit = 109 ∷ []
short_name seconds_unit = 115 ∷ []

-- one of the parts of the text, if it is shown; `full` tells the two formats apart that get here
unfoldable pub part : Bool → TimeUnit → Bool → ℕ → List ℕ
unfolding decimal_loop full_name
part full u shown n =
    if shown then decimal_loop digits n ++ (if full then full_name u n else short_name u) else []

-- the parts that follow each other
unfoldable pub unit_text : Bool → Bool → ℕ → List ℕ
unfolding part
unit_text full hours_only t =
    let seconds = t % minute in
    let minutes = t % hour / minute in
    let hours = t % day / hour in
    let days = t / day in
    part full days_unit (not (days == 0)) days
    ++ (part full hours_unit (not (hours == 0) || hours_only) hours
        ++ (part full minutes_unit (not hours_only && not (minutes == 0)) minutes
            ++ part full seconds_unit
                (not hours_only && (not (seconds == 0) || days == 0 && hours == 0 && minutes == 0))
                seconds))

-- `{}:{:02}:{:02}:{:02}`; two_digits is what the format library makes of `{:02}`
unfoldable pub numeric_text : (ℕ → List ℕ) → ℕ → List ℕ
unfolding decimal_loop
numeric_text two_digits t =
    let seconds = two_digits (t % minute) in
    let minutes = t % hour / minute in
    let hours = t % day / hour in
    let days = t / day in
    if not (days == 0)
    then decimal_loop digits days
      ++ (58 ∷ (two_digits hours ++ (58 ∷ (two_digits minutes ++ (58 ∷ seconds)))))
    else if not (hours == 0)
    then decimal_loop digits hours ++ (58 ∷ (two_digits minutes ++ (58 ∷ seconds)))
    else if not (minutes == 0)
    then decimal_loop digits minutes ++ (58 ∷ seconds)
    else 48 ∷ 58 ∷ seconds

-- `secsToTimeString`
unfoldable pub secs_to_time_string : (ℕ → List ℕ) → ℕ → TimeFormat → Bool → List ℕ
unfolding unit_text numeric_text
secs_to_time_string two_digits t full_text hours_only = unit_text true hours_only t
secs_to_time_string two_digits t short_text hours_only = unit_text false hours_only t
secs_to_time_string two_digits t numeric hours_only = numeric_text two_digits t

-- the cases of the switch of TimeStringToSecs
unfoldable pub multiplier : ℕ → Option ℕ
multiplier c =
    if c == 100
    then some day
    else if c == 104
    then some hour
    else if c == 109
    then some minute
    else if c == 115
    then some 1
    else none

abbrev pub is_digit : ℕ → Bool
is_digit c = leb 48 c && leb c 57

-- one character, on `secs` and `buffer`, which are of 32 bits
unfoldable pub time_step : ℕ → ℕ × ℕ → Option (ℕ × ℕ)
unfolding multiplier
time_step c (secs, buffer) =
    if is_digit c
    then some (secs, (buffer * 10 % 2 ^ 32 + (c - 48)) % 2 ^ 32)
    else elim (multiplier c) [
      | none ↦ none
      | some m ↦ some ((secs + buffer * m % 2 ^ 32) % 2 ^ 32, 0)
    ]

unfoldable pub time_loop : List ℕ → ℕ × ℕ → ℕ
unfolding time_step
time_loop [] st = st.0
time_loop (c ∷ cs) st = elim (time_step c st) [ none ↦ 0 | some st' ↦ time_loop cs st' ]

-- `TimeStringToSecs`
unfoldable pub time_string_to_secs : List ℕ → ℕ
unfolding time_loop
time_string_to_secs text = time_loop text (0, 0)
