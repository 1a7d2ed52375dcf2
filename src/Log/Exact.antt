-- ===== src/Log/Exact.antt =====
-- What is logged: `ShouldLog` against the logger that a name leads to.
use mmo_wow.Prelude.{
  ℕ, zero, suc, ◌+◌, ◌≡◌, ◌<◌, refl, sym, ap, ◌∙◌, inl, inr, Bool, true, false, List, [], ◌∷◌,
  Option, none, some, ok, arith, ltb, length, Bool-cases, Option-cases, ltb→lt, lt→ltb,
}
use mathlib.Core.Path.{subst}
use mmo_wow.Log.{
  Name, same, root, Logger, Log, find_logger, get_logger, or_root, before_dot, get_logger_by_type,
  wants, should_log, logger_write, write, log_message, set_log_level,
}
use mmo_wow.Log.Loggers.{get_logger_by_type-ends}
use mmo_wow.Log.Configure.{
  create_loggers, read_loggers, read_appenders, closed, or_default, load_from_config,
  default_loggers,
}
use mmo_wow.Log.Leveled.{set_log_level-IsLow}
use mmo_wow.Log.Lowest.{IsAbove, AreAbove, IsLow, load_from_config-IsLow, read_appenders-keeps}

find_logger-IsAbove :
    (low : ℕ) (type : Name) (ls : List (Name × Option Logger)) (l : Option Logger)
    → AreAbove low ls
    → find_logger type ls ≡ some l
    → IsAbove low l
unfolding AreAbove find_logger
find_logger-IsAbove low type [] l a e = absurd (ground (arith, e))
find_logger-IsAbove low type ((name, o) ∷ rest) l a e = elim (Bool-cases (same name type)) [
  | inl s ↦ (let f : o ≡ l = ground (arith, e, s) in subst (IsAbove low) f a.0)
  | inr s ↦ find_logger-IsAbove low type rest l a.1 (ground (arith, e, s))
]

get_logger-IsAbove :
    (low fuel : ℕ) (type : Name) (ls : List (Name × Option Logger)) (l : Option Logger)
    → AreAbove low ls
    → get_logger fuel type ls ≡ some l
    → IsAbove low l
unfolding get_logger
get_logger-IsAbove low zero type ls l a e = absurd (ground (arith, e))
get_logger-IsAbove low (suc fuel) type ls l a e = elim (Option-cases (find_logger type ls)) [
  | inr (o, f) ↦ find_logger-IsAbove low type ls l a (ground (arith, e, f))
  | inl f ↦ elim (Bool-cases (same type root)) [
    | inl s ↦ (let g : none ≡ l = ground (arith, e, f, s) in subst (IsAbove low) g tt)
    | inr s ↦
        get_logger-IsAbove low fuel (or_root (before_dot type)) ls l a (ground (arith, e, f, s))
  ]
]

below-wants :
    (low level : ℕ) (l : Option Logger) → IsAbove low l → level < low → wants l level ≡ false
below-wants low level none a h = refl
below-wants low level (some l) (inl e) h = ground (arith, e)
below-wants low level (some l) (inr k) h = ground (arith, k, h)

should_log-below :
    (type : Name) (level : ℕ) (log : Log)
    → level < log.lowest
    → should_log type level log ≡ some false
unfolding should_log
should_log-below type level log h = ground (arith, lt→ltb level log.lowest h)

should_log-above :
    (type : Name) (level : ℕ) (log : Log) (l : Option Logger)
    → ltb level log.lowest ≡ false
    → get_logger_by_type type log ≡ some l
    → should_log type level log ≡ some (wants l level)
unfolding should_log
should_log-above type level log l h e = ground (arith, h, e)

should_log-eq :
    (type : Name) (level : ℕ) (log : Log) (l : Option Logger)
    → IsLow log
    → get_logger_by_type type log ≡ some l
    → should_log type level log ≡ some (wants l level)
unfolding get_logger_by_type
should_log-eq type level log l a e = elim (Bool-cases (ltb level log.lowest)) [
  | inl h ↦
      (let k = ltb→lt level log.lowest h in
        let above = get_logger-IsAbove log.lowest (length type + 2) type log.loggers l a e in
        should_log-below type level log k
        ∙ ap (λ b. some b) (sym (below-wants log.lowest level l above k)))
  | inr h ↦ should_log-above type level log l h e
]

module _ (option : Name → List ℕ) (string_to : List ℕ → Option ℕ)
    (makes : ℕ → List (List ℕ) → Bool) where
  -- Logs of a configuration that names a root logger, with levels set afterwards.
  pub data Configured : Log → Type 0 where
    loaded :
        (appender_keys logger_keys : List Name) (r : Option Logger)
        → find_logger root
            (create_loggers option string_to makes logger_keys (
              read_appenders option string_to makes appender_keys
                (closed option string_to makes))).loggers
          ≡ some r
        → Configured (load_from_config option string_to makes appender_keys logger_keys)
    set :
        {log after : Log} (name : Name) (level : ℕ) (b : Bool)
        → Configured log
        → set_log_level name level log ≡ ok (b, after)
        → Configured after

  Configured-IsLow : {log : Log} → Configured log → IsLow log
  Configured-IsLow (loaded appender_keys logger_keys r e) =
      load_from_config-IsLow option string_to makes appender_keys logger_keys r e
  Configured-IsLow (set {log} {after} name level b c e) =
      set_log_level-IsLow name level log after b (Configured-IsLow c) e

  -- With a configuration that names a root logger, and whatever levels are set afterwards: for every
  -- name the search for its logger ends, and `ShouldLog` says whether that logger is there, is not
  -- disabled and has at most the level of the message; the test of the lowest level changes nothing.
  pub should_log-exact :
      {log : Log} (type : Name) (level : ℕ)
      → Configured log
      → (l : Option Logger) × (get_logger_by_type type log ≡ some l)
        × (should_log type level log ≡ some (wants l level))
  should_log-exact {log} type level c =
      let (l, e) = get_logger_by_type-ends type log in
      (l, e, should_log-eq type level log l (Configured-IsLow c) e)

  or_default-lowest :
      (o : Option (Option Logger)) (log : Log)
      → (or_default option string_to makes o log).lowest ≡ log.lowest
  unfolding default_loggers
  or_default-lowest none log = refl
  or_default-lowest (some l) log = refl

  -- With no logger in the configuration, every message below the level of a fatal error is dropped,
  -- the errors of the default root logger and the reports of the default server logger included.
  pub defaults-drop :
      (appender_keys : List Name) (type : Name) (level : ℕ)
      → level < 6
      → should_log type level (load_from_config option string_to makes appender_keys [])
        ≡ some false
  unfolding load_from_config read_loggers create_loggers closed
  defaults-drop appender_keys type level h =
      let Fresh : List (Name × Option Logger) → ℕ → Type 0 = λ ls low. (ls ≡ []) × (low ≡ 6) in
      let f =
        read_appenders-keeps option string_to makes Fresh appender_keys
          (closed option string_to makes) (refl, refl) in
      should_log-below type level (load_from_config option string_to makes appender_keys []) (
        omega (
          arith,
          h,
          f.1,
          or_default-lowest
              (find_logger root
                (read_appenders option string_to makes appender_keys
                  (closed option string_to makes)).loggers)
              (read_appenders option string_to makes appender_keys (closed option string_to makes)),
        ))

log_message-dropped :
    (type : Name) (level : ℕ) (text : List ℕ) (log : Log)
    → should_log type level log ≡ some false
    → log_message type level text log ≡ some (ok [])
unfolding log_message
log_message-dropped type level text log e = ground (arith, e)

log_message-written :
    (type : Name) (level : ℕ) (text : List ℕ) (log : Log) (l : Logger)
    → should_log type level log ≡ some true
    → get_logger_by_type type log ≡ some (some l)
    → log_message type level text log ≡ some (ok (logger_write l level text log))
unfolding log_message write
log_message-written type level text log l e f = ground (arith, e, f)

-- A message by the macros of Log.h never goes to a logger that is not there: the search ends, and
-- the message is dropped or written.
pub log_message-safe :
    (type : Name) (level : ℕ) (text : List ℕ) (log : Log)
    → (ids : List ℕ) × (log_message type level text log ≡ some (ok ids))
log_message-safe type level text log =
    let (l, e) = get_logger_by_type-ends type log in
    elim (Bool-cases (ltb level log.lowest)) [
      | inl h ↦ (
        [],
        log_message-dropped type level text log
            (should_log-below type level log (ltb→lt level log.lowest h)),
      )
      | inr h ↦ by_logger l e (should_log-above type level log l h e)
    ]
  where
    by_logger :
        (l : Option Logger)
        → get_logger_by_type type log ≡ some l
        → should_log type level log ≡ some (wants l level)
        → (ids : List ℕ) × (log_message type level text log ≡ some (ok ids))
    by_logger none e s = ([], log_message-dropped type level text log s)
    by_logger (some l) e s = elim (Bool-cases (wants (some l) level)) [
      | inl w ↦ (
        logger_write l level text log,
        log_message-written type level text log l (s ∙ ap (λ b. some b) w) e,
      )
      | inr w ↦ ([], log_message-dropped type level text log (s ∙ ap (λ b. some b) w))
    ]
