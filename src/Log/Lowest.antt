-- ===== src/Log/Lowest.antt =====
-- The lowest level of the loggers bounds them all.
use mmo_wow.Prelude.{
  ℕ, ◌+◌, ◌≡◌, ◌≤◌, sym, ◌⊎◌, inl, inr, Bool, true, false, not, List, [], ◌∷◌, Option, none, some,
  ◌==◌, if◌then◌else◌, arith, ltb, both_branches, drop, ◌||◌, u8,
}
use mathlib.Core.Path.{subst}
use mmo_wow.Log.{Name, same, root, is_empty, Logger, Log, find_logger}
use mmo_wow.Log.Configure.{
  put_logger, fill_logger, configure_logger, create_logger, create_loggers, read_loggers,
  read_appenders, create_appender, configure_appender, make_appender, flags_valid, value_or,
  put_appender, closed, or_default, tokens_of, load_from_config,
}

-- a logger that is disabled, or logs nothing below a level
abbrev pub IsAbove : ℕ → Option Logger → Type 0
IsAbove low none = Unit {0}
IsAbove low (some l) = (l.level ≡ 0) ⊎ (low ≤ l.level)

unfoldable pub AreAbove : ℕ → List (Name × Option Logger) → Type 0
AreAbove low [] = Unit {0}
AreAbove low ((name, l) ∷ rest) = IsAbove low l × AreAbove low rest

abbrev pub IsLow : Log → Type 0
IsLow log = AreAbove log.lowest log.loggers

IsAbove-lower : (low new : ℕ) (l : Option Logger) → new ≤ low → IsAbove low l → IsAbove new l
IsAbove-lower low new none h a = tt
IsAbove-lower low new (some l) h (inl e) = inl e
IsAbove-lower low new (some l) h (inr k) = inr (omega (arith, h, k))

pub AreAbove-lower :
    (low new : ℕ) (ls : List (Name × Option Logger)) → new ≤ low → AreAbove low ls → AreAbove new ls
unfolding AreAbove
AreAbove-lower low new [] h a = tt
AreAbove-lower low new ((name, l) ∷ rest) h a =
    (IsAbove-lower low new l h a.0, AreAbove-lower low new rest h a.1)

put_logger-AreAbove :
    (low : ℕ) (name : Name) (l : Option Logger) (ls : List (Name × Option Logger))
    → IsAbove low l
    → AreAbove low ls
    → AreAbove low (put_logger name l ls)
unfolding put_logger AreAbove
put_logger-AreAbove low name l [] h a = (h, tt)
put_logger-AreAbove low name l ((key, old) ∷ rest) h a =
    put (same key name) (put_logger-AreAbove low name l rest h a.1)
  where
    put :
        (b : Bool)
        → AreAbove low (put_logger name l rest)
        → AreAbove low (if b then (key, l) ∷ rest else (key, old) ∷ put_logger name l rest)
    put true r = (h, a.1)
    put false r = (a.0, r)

-- the lower of two levels is below both
lowered_le :
    (level low : ℕ)
    → ((if ltb level low then level else low) ≤ low)
      × ((if ltb level low then level else low) ≤ level)
lowered_le level low = ground arith

fill_logger-IsLow :
    (name : Name) (level : ℕ) (targets : List ℕ) (log : Log)
    → IsLow log
    → IsLow (fill_logger name level targets log)
unfolding fill_logger
fill_logger-IsLow name level targets log a =
    let new : ℕ = if ltb level log.lowest then level else log.lowest in
    let l : Option Logger = some (record { name = name; level = level; targets = targets }) in
    both_branches IsLow (ltb 6 level) (record log { loggers = put_logger name none log.loggers })
      (record log { loggers = put_logger name l log.loggers; lowest = new })
      (put_logger-AreAbove log.lowest name none log.loggers tt a)
      (put_logger-AreAbove new name l log.loggers (inr (lowered_le level log.lowest).1)
        (AreAbove-lower log.lowest new log.loggers (lowered_le level log.lowest).0 a))

module _ (option : Name → List ℕ) (string_to : List ℕ → Option ℕ)
    (makes : ℕ → List (List ℕ) → Bool) where
  configure_logger-IsLow :
      (name : Name) (tokens : List (List ℕ)) (found : Option (Option Logger)) (log : Log)
      → IsLow log
      → IsLow (configure_logger option string_to makes name tokens found log)
  unfolding configure_logger
  configure_logger-IsLow name tokens (some (some l)) log a = a
  configure_logger-IsLow name [] none log a = a
  configure_logger-IsLow name [] (some none) log a = a
  configure_logger-IsLow name (level ∷ []) none log a = a
  configure_logger-IsLow name (level ∷ []) (some none) log a = a
  configure_logger-IsLow name (level ∷ targets ∷ more ∷ rest) none log a = a
  configure_logger-IsLow name (level ∷ targets ∷ more ∷ rest) (some none) log a = a
  configure_logger-IsLow name (level ∷ targets ∷ []) none log a = fill_logger-IsLow name _ _ log a
  configure_logger-IsLow name (level ∷ targets ∷ []) (some none) log a =
      fill_logger-IsLow name _ _ log a

  create_loggers-IsLow :
      (keys : List Name) (log : Log)
      → IsLow log
      → IsLow (create_loggers option string_to makes keys log)
  unfolding create_loggers create_logger
  create_loggers-IsLow [] log a = a
  create_loggers-IsLow (key ∷ rest) log a =
      create_loggers-IsLow rest (create_logger option string_to makes key log) (
        both_branches IsLow (is_empty key || is_empty (option key)) log _ a (
          configure_logger-IsLow (drop 7 key) (tokens_of (option key) 44 true)
            (find_logger (drop 7 key) log.loggers) log a))

  -- appenders leave the loggers and the lowest level as they are
  module _ (Q : List (Name × Option Logger) → ℕ → Type 0) where
    abbrev Holds : Log → Type 0
    Holds log = Q log.loggers log.lowest

    make_appender-keeps :
        (name : Name) (type level : ℕ) (tokens : List (List ℕ)) (log : Log)
        → Q log.loggers log.lowest
        → Holds (make_appender option string_to makes name type level tokens log)
    unfolding make_appender
    make_appender-keeps name type level tokens log a =
        both_branches Holds (makes type tokens)
          (record log {
            next_id = u8 (log.next_id + 1);
            appenders =
                put_appender log.next_id (record { name = name; level = level }) log.appenders;
          })
          (record log { next_id = u8 (log.next_id + 1) }) a a

    configure_appender-keeps :
        (name : Name) (tokens : List (List ℕ)) (log : Log)
        → Q log.loggers log.lowest
        → Holds (configure_appender option string_to makes name tokens log)
    unfolding configure_appender
    configure_appender-keeps name [] log a = a
    configure_appender-keeps name (type ∷ []) log a = a
    configure_appender-keeps name (type ∷ level ∷ rest) log a =
        let t = value_or (string_to type) 255 in
        let l = value_or (string_to level) 255 in
        both_branches Holds
          (not ((t == 1) || (t == 2)) || ltb 6 l || not (flags_valid option string_to makes rest))
          log (make_appender option string_to makes name t l (type ∷ level ∷ rest) log) a
          (make_appender-keeps name t l (type ∷ level ∷ rest) log a)

    pub read_appenders-keeps :
        (keys : List Name) (log : Log)
        → Q log.loggers log.lowest
        → Holds (read_appenders option string_to makes keys log)
    unfolding read_appenders create_appender
    read_appenders-keeps [] log a = a
    read_appenders-keeps (key ∷ rest) log a =
        read_appenders-keeps rest (create_appender option string_to makes key log) (
          both_branches Holds (is_empty key) log _ a
            (configure_appender-keeps (drop 9 key) (tokens_of (option key) 44 true) log a))

  -- The loggers of a configuration that names a root logger.
  pub load_from_config-IsLow :
      (appender_keys logger_keys : List Name) (r : Option Logger)
      → find_logger root
          (create_loggers option string_to makes logger_keys (
            read_appenders option string_to makes appender_keys
              (closed option string_to makes))).loggers
        ≡ some r
      → IsLow (load_from_config option string_to makes appender_keys logger_keys)
  unfolding load_from_config read_loggers closed AreAbove
  load_from_config-IsLow appender_keys logger_keys r e =
      let before =
        read_appenders option string_to makes appender_keys (closed option string_to makes) in
      let after = create_loggers option string_to makes logger_keys before in
      subst (λ o. IsLow (or_default option string_to makes o after)) (sym e)
        (create_loggers-IsLow logger_keys before (
          read_appenders-keeps (λ ls low. AreAbove low ls) appender_keys
            (closed option string_to makes) tt))
