-- ===== src/Log/Configure.antt =====
-- Appenders and loggers from the configuration: Log.cpp, CreateAppenderFromConfig to LoadFromConfig.
use mmo_wow.Prelude.{
  ℕ, ◌+◌, Bool, true, false, ◌||◌, not, List, [], ◌∷◌, ◌++◌, Option, none, some, ltb, ◌==◌,
  if◌then◌else◌, drop, u8,
}
use mmo_wow.Util.{tokenize}
use mmo_wow.Log.{Name, is_empty, same, root, Logger, Appender, Log, find_logger}

-- `Tokenize`, as a list
unfoldable pub tokens_of : List ℕ → ℕ → Bool → List (List ℕ)
tokens_of text separator keep = elim (tokenize text separator keep) [
  | none ↦ []
  | some tokens ↦ tokens
]

abbrev pub value_or : Option ℕ → ℕ → ℕ
value_or none d = d
value_or (some n) d = n

-- `loggers[name] = l`
unfoldable pub put_logger :
    Name → Option Logger → List (Name × Option Logger) → List (Name × Option Logger)
put_logger name l [] = (name, l) ∷ []
put_logger name l ((key, old) ∷ rest) =
    if same key name then (key, l) ∷ rest else (key, old) ∷ put_logger name l rest

-- `appenders[id].reset(a)`
unfoldable pub put_appender : ℕ → Appender → List (ℕ × Appender) → List (ℕ × Appender)
put_appender id a [] = (id, a) ∷ []
put_appender id a ((key, old) ∷ rest) =
    if key == id then (key, a) ∷ rest else (key, old) ∷ put_appender id a rest

-- `GetAppenderByName`
unfoldable pub appender_by_name : Name → List (ℕ × Appender) → Option ℕ
appender_by_name name [] = none
appender_by_name name ((id, a) ∷ rest) =
    if same a.name name then some id else appender_by_name name rest

abbrev has : ℕ → List ℕ → Bool
has id [] = false
has id (x ∷ xs) = (x == id) || has id xs

-- `addAppender` for each name that is found
unfoldable pub add_targets : List Name → List (ℕ × Appender) → List ℕ → List ℕ
add_targets [] appenders targets = targets
add_targets (name ∷ rest) appenders targets =
    add_targets rest appenders (with_target (appender_by_name name appenders))
  where
    with_target : Option ℕ → List ℕ
    with_target none = targets
    with_target (some id) = if has id targets then targets else targets ++ (id ∷ [])

-- `CreateLoggerFromConfig` with the level read: a wrong level leaves the name without a logger
unfoldable pub fill_logger : Name → ℕ → List ℕ → Log → Log
fill_logger name level targets log =
    if ltb 6 level then record log { loggers = put_logger name none log.loggers } else record log {
      loggers =
          put_logger name (some (record { name = name; level = level; targets = targets }))
            log.loggers;
      lowest = if ltb level log.lowest then level else log.lowest;
    }

module _ (option : Name → List ℕ) (string_to : List ℕ → Option ℕ)
    (makes : ℕ → List (List ℕ) → Bool) where
  -- `CreateLoggerFromConfig` on the tokens, unless the name has a logger
  unfoldable pub configure_logger : Name → List (List ℕ) → Option (Option Logger) → Log → Log
  configure_logger name tokens (some (some l)) log = log
  configure_logger name [] found log = log
  configure_logger name (level ∷ []) found log = log
  configure_logger name (level ∷ targets ∷ more ∷ rest) found log = log
  configure_logger name (level ∷ targets ∷ []) found log =
      fill_logger name (value_or (string_to level) 255)
        (add_targets (tokens_of targets 32 false) log.appenders []) log

  unfoldable pub create_logger : Name → Log → Log
  create_logger key log =
      if is_empty key || is_empty (option key)
      then log
      else configure_logger (drop 7 key) (tokens_of (option key) 44 true)
          (find_logger (drop 7 key) log.loggers) log

  -- `CreateAppenderFromConfig` on a type and a level that are valid
  unfoldable pub make_appender : Name → ℕ → ℕ → List (List ℕ) → Log → Log
  make_appender name type level tokens log =
      if makes type tokens
      then record log {
        next_id = u8 (log.next_id + 1);
        appenders = put_appender log.next_id (record { name = name; level = level }) log.appenders;
      }
      else record log { next_id = u8 (log.next_id + 1) }

  -- the third token, if any, is a number
  abbrev pub flags_valid : List (List ℕ) → Bool
  flags_valid [] = true
  flags_valid (flags ∷ rest) = elim (string_to flags) [ none ↦ false | some n ↦ true ]

  unfoldable pub configure_appender : Name → List (List ℕ) → Log → Log
  configure_appender name [] log = log
  configure_appender name (type ∷ []) log = log
  configure_appender name (type ∷ level ∷ rest) log =
      let t = value_or (string_to type) 255 in
      let l = value_or (string_to level) 255 in
      if not ((t == 1) || (t == 2)) || ltb 6 l || not (flags_valid rest)
      then log
      else make_appender name t l (type ∷ level ∷ rest) log

  unfoldable pub create_appender : Name → Log → Log
  create_appender key log =
      if is_empty key
      then log
      else configure_appender (drop 9 key) (tokens_of (option key) 44 true) log

  -- the loops over the keys
  unfoldable pub read_appenders : List Name → Log → Log
  read_appenders [] log = log
  read_appenders (key ∷ rest) log = read_appenders rest (create_appender key log)

  unfoldable pub create_loggers : List Name → Log → Log
  create_loggers [] log = log
  create_loggers (key ∷ rest) log = create_loggers rest (create_logger key log)

  -- the default loggers, on a console
  unfoldable pub default_loggers : Log → Log
  default_loggers log = record log {
    next_id = u8 (log.next_id + 1);
    appenders = (log.next_id, record { name = console; level = 2 }) ∷ [];
    loggers =
        (root, some (record { name = root; level = 5; targets = log.next_id ∷ [] }))
        ∷ (server, some (record { name = server; level = 3; targets = log.next_id ∷ [] }))
        ∷ [];
  }
    where
      console : Name
      console = 67 ∷ 111 ∷ 110 ∷ 115 ∷ 111 ∷ 108 ∷ 101 ∷ []

      server : Name
      server = 115 ∷ 101 ∷ 114 ∷ 118 ∷ 101 ∷ 114 ∷ []

  abbrev pub or_default : Option (Option Logger) → Log → Log
  or_default none log = default_loggers log
  or_default (some l) log = log

  unfoldable pub read_loggers : List Name → Log → Log
  read_loggers keys log =
      or_default (find_logger root (create_loggers keys log).loggers) (create_loggers keys log)

  -- `LoadFromConfig`
  unfoldable pub closed : Log
  closed = record { loggers = []; appenders = []; next_id = 0; lowest = 6 }

  unfoldable pub load_from_config : List Name → List Name → Log
  load_from_config appender_keys logger_keys =
      read_loggers logger_keys (read_appenders appender_keys closed)
