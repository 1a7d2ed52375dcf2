-- ===== src/Util/Money.antt =====
-- Server/Common/Utilities/Util.cpp: MoneyStringToMoney.
use mmo_wow.Prelude.{
  ℕ, ◌+◌, ◌*◌, ◌%◌, ◌^◌, ◌≡◌, ◌<◌, refl, Bool, true, false, List, [], ◌∷◌, Option, none, some,
  Result, ok, err, out_of_bounds, ◌==◌, if◌then◌else◌, ◌>>=◌, length, arith, inl, inr, Option-cases,
}
use mmo_wow.Util.{tokenize}
use mmo_wow.Util.Number.{string_to_uint32}
use mmo_wow.Util.Split.{split, kept, tokenize-split}

-- the amount so far, as 32 bits, and which coins there were
pub record Purse : Type 0 where
  pub money : ℕ
  pub had_gold : Bool
  pub had_silver : Bool
  pub had_copper : Bool

-- a token without its last character, and that
abbrev pub split_last : List ℕ → Option (List ℕ × ℕ)
split_last [] = none
split_last (x ∷ xs) = elim (split_last xs) [ none ↦ some ([], x) | some r ↦ some (x ∷ r.0, r.1) ]

-- the switch: the unit, and the purse with the coin noted, unless there was one
unfoldable pub coin : ℕ → Purse → Option (ℕ × Purse)
coin c p =
    if c == 103
    then (if p.had_gold then none else some (10000, record p { had_gold = true }))
    else if c == 115
    then (if p.had_silver then none else some (100, record p { had_silver = true }))
    else if c == 99
    then (if p.had_copper then none else some (1, record p { had_copper = true }))
    else none

-- one round; `unit * *amount` and the sum are of 32 bits
unfoldable pub money_step : List ℕ → Purse → Result (Option Purse)
unfolding coin
money_step token p = elim (split_last token) [
  | none ↦ err out_of_bounds
  | some r ↦ elim (coin r.1 p) [
    | none ↦ ok none
    | some u ↦ elim (string_to_uint32 r.0) [
      | none ↦ ok none
      | some amount ↦
          ok (some (record u.1 { money = (u.1.money + u.0 * amount % 2 ^ 32) % 2 ^ 32 }))
    ]
  ]
]

unfoldable pub money_loop : List (List ℕ) → Purse → Result (Option ℕ)
unfolding money_step
money_loop [] p = ok (some p.money)
money_loop (token ∷ tokens) p =
    money_step token p >>= λ r. elim r [ none ↦ ok none | some q ↦ money_loop tokens q ]

-- `MoneyStringToMoney`: the amount as an `int32` in two's complement
unfoldable pub money_string_to_money : List ℕ → Result (Option ℕ)
unfolding money_loop
money_string_to_money text = elim (tokenize text 32 false) [
  | none ↦ ok none
  | some tokens ↦
      money_loop tokens
        (record { money = 0; had_gold = false; had_silver = false; had_copper = false })
]

abbrev AreFilled : List (List ℕ) → Type 0
AreFilled [] = true ≡ true
AreFilled (t ∷ ts) = (0 < length t) × AreFilled ts

kept-AreFilled : (ts : List (List ℕ)) → AreFilled (kept false ts)
kept-AreFilled [] = refl
kept-AreFilled ([] ∷ ts) = kept-AreFilled ts
kept-AreFilled ((x ∷ xs) ∷ ts) = ground (arith, kept-AreFilled ts)

split_last-some : (x : ℕ) (xs : List ℕ) → (r : List ℕ × ℕ) × (split_last (x ∷ xs) ≡ some r)
split_last-some x xs = elim (Option-cases (split_last xs)) [
  | inl e ↦ (([], x), ground (arith, e))
  | inr (r, e) ↦ ((x ∷ r.0, r.1), ground (arith, e))
]

money_step-safe :
    (token : List ℕ) (p : Purse)
    → 0 < length token
    → (r : Option Purse) × (money_step token p ≡ ok r)
unfolding money_step
money_step-safe [] p h = absurd (omega arith)
money_step-safe (x ∷ xs) p h =
    let (r, e) = split_last-some x xs in
    elim (Option-cases (coin r.1 p)) [
      | inl n ↦ (none, ground (arith, e, n))
      | inr (u, n) ↦ elim (Option-cases (string_to_uint32 r.0)) [
        | inl m ↦ (none, ground (arith, e, n, m))
        | inr (amount, m) ↦ (
          some (record u.1 { money = (u.1.money + u.0 * amount % 2 ^ 32) % 2 ^ 32 }),
          ground (arith, e, n, m),
        )
      ]
    ]

money_loop-safe :
    (tokens : List (List ℕ)) (p : Purse)
    → AreFilled tokens
    → (r : Option ℕ) × (money_loop tokens p ≡ ok r)
unfolding money_loop
money_loop-safe [] p h = (some p.money, refl)
money_loop-safe (t ∷ ts) p (h, hs) =
    let (r, e) = money_step-safe t p h in go r e (λ q. money_loop-safe ts q hs)
  where
    later :
        (q : Purse)
        → money_step t p ≡ ok (some q)
        → ((x : Option ℕ) × (money_loop ts q ≡ ok x))
        → (x : Option ℕ) × (money_loop (t ∷ ts) p ≡ ok x)
    later q e (x, f) = (x, ground (arith, e, f))

    go :
        (r : Option Purse)
        → money_step t p ≡ ok r
        → ((q : Purse) → (x : Option ℕ) × (money_loop ts q ≡ ok x))
        → (x : Option ℕ) × (money_loop (t ∷ ts) p ≡ ok x)
    go none e k = (none, ground (arith, e))
    go (some q) e k = later q e (k q)

-- MoneyStringToMoney never reads the last character of an empty token.
pub money-safe : (text : List ℕ) → (r : Option ℕ) × (money_string_to_money text ≡ ok r)
unfolding money_string_to_money
money-safe text =
    let (r, e) =
      money_loop-safe (kept false (split 32 text))
        (record { money = 0; had_gold = false; had_silver = false; had_copper = false })
        (kept-AreFilled (split 32 text)) in
    (r, ground (arith, tokenize-split text 32 false, e))
