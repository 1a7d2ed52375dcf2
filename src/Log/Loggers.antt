-- ===== src/Log/Loggers.antt =====
-- The search for a logger ends.
use mmo_wow.Prelude.{
  ℕ, zero, suc, ◌+◌, ◌≡◌, ◌≤◌, ◌<◌, refl, ap, inl, inr, Bool, true, false, List, [], ◌∷◌, Option,
  none, some, ◌==◌, if◌then◌else◌, arith, length, Option-cases, Bool-cases,
}
use mmo_wow.Log.{
  Name, same, root, behind, before_dot, Logger, find_logger, or_root, get_logger, Log,
  get_logger_by_type,
}

behind-shorter :
    (c n : ℕ) (o : Option Name) (parent : Name)
    → ((p : Name) → o ≡ some p → length p < n)
    → behind c o ≡ some parent
    → length parent < suc n
behind-shorter c n none parent h e = omega (arith, shorter (c == 46) e)
  where
    shorter : (b : Bool) → (if b then some [] else none) ≡ some parent → length parent < suc n
    shorter true e = let f : [] ≡ parent = ground (arith, e) in omega (arith, ap length f)
    shorter false e = absurd (ground (arith, e))
behind-shorter c n (some p) parent h e =
    let f : c ∷ p ≡ parent = ground (arith, e) in omega (arith, ap length f, h p refl)

before_dot-shorter :
    (type parent : Name) → before_dot type ≡ some parent → length parent < length type
unfolding before_dot
before_dot-shorter [] parent e = absurd (ground (arith, e))
before_dot-shorter (c ∷ cs) parent e =
    behind-shorter c (length cs) (before_dot cs) parent (before_dot-shorter cs) e

-- the root is the last name
get_logger-root :
    (fuel : ℕ) (loggers : List (Name × Option Logger))
    → (l : Option Logger) × (get_logger (suc fuel) root loggers ≡ some l)
unfolding get_logger
get_logger-root fuel loggers = elim (Option-cases (find_logger root loggers)) [
  | inl e ↦ (none, ground (arith, e))
  | inr (l, e) ↦ (l, ground (arith, e))
]

-- With a step more than the name is long, and one for the root, the search has a result.
pub get_logger-ends :
    (fuel : ℕ) (type : Name) (loggers : List (Name × Option Logger))
    → length type + 2 ≤ fuel
    → (l : Option Logger) × (get_logger fuel type loggers ≡ some l)
unfolding get_logger
get_logger-ends zero type loggers h = absurd (omega (arith, h))
get_logger-ends (suc fuel) type loggers h = elim (Option-cases (find_logger type loggers)) [
  | inr (l, e) ↦ (l, ground (arith, e))
  | inl e ↦ elim (Bool-cases (same type root)) [
    | inl r ↦ (none, ground (arith, e, r))
    | inr r ↦
        (let (l, f) =
            parent_ends fuel (before_dot type) (before_dot-shorter type) h (get_logger-ends fuel) in
          (l, ground (arith, e, r, f)))
  ]
]
  where
    parent_ends :
        (fuel : ℕ) (o : Option Name)
        → ((p : Name) → o ≡ some p → length p < length type)
        → length type + 2 ≤ suc fuel
        → ((p : Name) (ls : List (Name × Option Logger))
            → length p + 2 ≤ fuel
            → (l : Option Logger) × (get_logger fuel p ls ≡ some l))
        → (l : Option Logger) × (get_logger fuel (or_root o) loggers ≡ some l)
    parent_ends zero o s h rec = absurd (omega (arith, h))
    parent_ends (suc fuel) none s h rec = get_logger-root fuel loggers
    parent_ends (suc fuel) (some p) s h rec = rec p loggers (omega (arith, s p refl, h))

-- `GetLoggerByType` has a result for every name.
pub get_logger_by_type-ends :
    (type : Name) (log : Log) → (l : Option Logger) × (get_logger_by_type type log ≡ some l)
unfolding get_logger_by_type
get_logger_by_type-ends type log = get_logger-ends (length type + 2) type log.loggers (omega arith)
