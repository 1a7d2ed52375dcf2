-- ===== src/Log/Leveled.antt =====
-- A level that is set keeps the lowest level below those of all loggers.
use mmo_wow.Prelude.{
  ℕ, zero, suc, ◌≡◌, ◌≤◌, refl, ap, ◌∙◌, ◌⊎◌, inl, inr, Bool, List, [], ◌∷◌, Option, none, some, ok,
  arith, Bool-cases, ◌%◌, ◌>>=◌, >>=-eq-ok,
}
use mathlib.Core.Path.{subst}
use mmo_wow.Log.{Name, same, Logger, Log, with_entry, set_level, lower, leveled, set_log_level}
use mmo_wow.Log.Lowest.{AreAbove, IsLow, AreAbove-lower}

lower-le : (level low : ℕ) → lower level low ≤ low
lower-le level low = ground arith

lower-IsAbove : (level low : ℕ) → (level ≡ 0) ⊎ (lower level low ≤ level)
lower-IsAbove zero low = inl refl
lower-IsAbove (suc n) low = inr (ground arith)

set_level-AreAbove :
    (name : Name) (level low : ℕ) (ls after : List (Name × Option Logger))
    → (level ≡ 0) ⊎ (low ≤ level)
    → AreAbove low ls
    → set_level name level ls ≡ ok (some after)
    → AreAbove low after
unfolding set_level AreAbove
set_level-AreAbove name level low [] after h a e = absurd (ground (arith, e))
set_level-AreAbove name level low ((key, none) ∷ rest) after h a e = absurd (ground (arith, e))
set_level-AreAbove name level low ((key, some l) ∷ rest) after h a e =
    elim (Bool-cases (same l.name name)) [
      | inl s ↦
          (let f : (key, some (record l { level = level })) ∷ rest ≡ after = ground (arith, e, s) in
            subst (AreAbove low) f (h, a.1))
      | inr s ↦
          (let g : (set_level name level rest >>= λ found. ok (with_entry (key, some l) found))
                ≡ ok (some after) =
              ground (arith, e, s) in
            let (found, f, k) =
              >>=-eq-ok (set_level name level rest) (λ found. ok (with_entry (key, some l) found))
                g in
            with_rest found f k (set_level-AreAbove name level low rest))
    ]
  where
    with_rest :
        (found : Option (List (Name × Option Logger)))
        → set_level name level rest ≡ ok found
        → ok (with_entry (key, some l) found) ≡ ok (some after)
        → ((ls : List (Name × Option Logger))
            → (level ≡ 0) ⊎ (low ≤ level)
            → AreAbove low rest
            → set_level name level rest ≡ ok (some ls)
            → AreAbove low ls)
        → AreAbove low after
    with_rest none f k rec = absurd (ground (arith, k))
    with_rest (some ls) f k rec =
        let g : (key, some l) ∷ ls ≡ after = ground (arith, k) in
        subst (AreAbove low) g (a.0, rec ls h a.1 f)

leveled-IsLow :
    (level : ℕ) (log : Log) (found : Option (List (Name × Option Logger)))
    → IsLow log
    → ((ls : List (Name × Option Logger)) → found ≡ some ls → AreAbove (lower level log.lowest) ls)
    → IsLow (leveled level log found).1
leveled-IsLow level log none a h = a
leveled-IsLow level log (some ls) a h = h ls refl

pub set_log_level-IsLow :
    (name : Name) (level : ℕ) (log after : Log) (b : Bool)
    → IsLow log
    → set_log_level name level log ≡ ok (b, after)
    → IsLow after
unfolding set_log_level
set_log_level-IsLow name level log after b a e =
    let new = level % 256 in
    let (found, f, k) =
      >>=-eq-ok (set_level name new log.loggers) (λ found. ok (leveled new log found)) e in
    let g : (leveled new log found).1 ≡ after = ground (arith, k) in
    subst IsLow g (
      leveled-IsLow new log found a (λ ls s.
        set_level-AreAbove name new (lower new log.lowest) log.loggers ls
          (lower-IsAbove new log.lowest)
          (AreAbove-lower log.lowest (lower new log.lowest) log.loggers (lower-le new log.lowest) a)
          (f ∙ ap (λ (o : Option (List (Name × Option Logger))). ok o) s)))
