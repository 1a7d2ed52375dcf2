-- ===== src/Util/Time/Round.antt =====
-- What TimeStringToSecs makes of the text of secsToTimeString.
use mmo_wow.Prelude.{
  ℕ, zero, suc, ◌+◌, ◌*◌, ◌/◌, ◌%◌, ◌^◌, ◌≡◌, ◌<◌, refl, sym, ap, ◌∙◌, Bool, true, false, not, ◌&&◌,
  ◌||◌, List, [], ◌∷◌, ◌++◌, some, inl, inr, ◌==◌, ltb, ltb→lt, arith, Bool-cases, append_assoc,
  append-nil,
}
use native.Mathlib.Nat.{pow-suc}
use mmo_wow.Util.Time.{
  short_text, TimeUnit, days_unit, hours_unit, minutes_unit, seconds_unit, decimal_loop, digits,
  short_name, part, unit_text, secs_to_time_string, multiplier, time_step, time_loop,
  time_string_to_secs,
}

digit_step :
    (d secs buffer : ℕ)
    → d < 10
    → buffer * 10 + d < 2 ^ 32
    → time_step (48 + d) (secs, buffer) ≡ some (secs, buffer * 10 + d)
unfolding time_step
digit_step d secs buffer h l = ground (arith, h, l)

-- The digits of a number are read into the empty buffer.
decimal-read :
    (fuel n : ℕ) (secs : ℕ) (rest : List ℕ)
    → n < 10 ^ fuel
    → n < 2 ^ 32
    → time_loop (decimal_loop fuel n ++ rest) (secs, 0) ≡ time_loop rest (secs, n)
unfolding decimal_loop time_loop
decimal-read zero n secs rest h l = ap (λ k. time_loop rest (secs, k)) (omega arith)
decimal-read (suc fuel) n secs rest h l = elim (Bool-cases (ltb n 10)) [
  | inl q ↦
      (let e = digit_step n secs 0 (ltb→lt n 10 q) (omega arith) in
        let z : 0 * 10 + n ≡ n = omega arith in ground (arith, q, e, z))
  | inr q ↦
      (let i =
          decimal-read fuel (n / 10) secs ((48 + n % 10) ∷ rest) (omega (arith, pow-suc 10 fuel, h))
            (omega arith) in
        let e = digit_step (n % 10) secs (n / 10) (omega arith) (omega arith) in
        let z : n / 10 * 10 + n % 10 ≡ n = omega arith in
        let a = append_assoc (decimal_loop fuel (n / 10)) ((48 + n % 10) ∷ []) rest in
        ground (arith, q, a, i, e, z))
]

abbrev weight : TimeUnit → ℕ
weight days_unit = 86400
weight hours_unit = 3600
weight minutes_unit = 60
weight seconds_unit = 1

name-read :
    (u : TimeUnit) (secs n : ℕ) (rest : List ℕ)
    → secs + n * weight u < 2 ^ 32
    → time_loop (short_name u ++ rest) (secs, n) ≡ time_loop rest (secs + n * weight u, 0)
unfolding time_loop time_step multiplier
name-read days_unit secs n rest h = ground (arith, h)
name-read hours_unit secs n rest h = ground (arith, h)
name-read minutes_unit secs n rest h = ground (arith, h)
name-read seconds_unit secs n rest h = ground (arith, h)

-- A part, if it is shown or its number is 0, adds its seconds.
part-read :
    (u : TimeUnit) (shown : Bool) (secs n : ℕ) (rest : List ℕ)
    → (shown ≡ false → n ≡ 0)
    → n < 2 ^ 32
    → secs + n * weight u < 2 ^ 32
    → time_loop (part false u shown n ++ rest) (secs, 0) ≡ time_loop rest (secs + n * weight u, 0)
unfolding part
part-read u false secs n rest z l h =
    ap (λ k. time_loop rest (k, 0)) (let e = z refl in ground (arith, e))
part-read u true secs n rest z l h =
    ap (λ xs. time_loop xs (secs, 0)) (append_assoc (decimal_loop digits n) (short_name u) rest)
    ∙ (decimal-read digits n secs (short_name u ++ rest) (omega arith) l
        ∙ name-read u secs n rest h)

-- A time below 2 ^ 32 seconds is read back from its short text.
pub time_string_round :
    (two_digits : ℕ → List ℕ) (t : ℕ)
    → t < 2 ^ 32
    → time_string_to_secs (secs_to_time_string two_digits t short_text false) ≡ t
unfolding time_string_to_secs secs_to_time_string unit_text
time_string_round two_digits t h =
    let s : ℕ = t % 60 in
    let m : ℕ = t % 3600 / 60 in
    let o : ℕ = t % 86400 / 3600 in
    let d : ℕ = t / 86400 in
    let ps =
      part false seconds_unit (not false && (not (s == 0) || d == 0 && o == 0 && m == 0)) s in
    let pm = part false minutes_unit (not false && not (m == 0)) m in
    let po = part false hours_unit (not (o == 0) || false) o in
    let a : d * 86400 + o * 3600 + m * 60 + s ≡ t = omega arith in
    part-read days_unit (not (d == 0)) 0 d (po ++ (pm ++ ps)) (λ e. ground (arith, e)) (omega arith)
      (omega arith)
    ∙ (part-read hours_unit (not (o == 0) || false) (0 + d * 86400) o (pm ++ ps)
          (λ e. ground (arith, e)) (omega arith) (omega arith)
        ∙ (part-read minutes_unit (not false && not (m == 0)) (0 + d * 86400 + o * 3600) m ps
              (λ e. ground (arith, e)) (omega arith) (omega arith)
            ∙ (ap (λ xs. time_loop xs (0 + d * 86400 + o * 3600 + m * 60, 0)) (sym (append-nil ps))
                ∙ (part-read seconds_unit
                      (not false && (not (s == 0) || d == 0 && o == 0 && m == 0))
                      (0 + d * 86400 + o * 3600 + m * 60) s [] (λ e. ground (arith, e))
                      (omega arith) (omega arith)
                    ∙ ground (arith, a)))))
