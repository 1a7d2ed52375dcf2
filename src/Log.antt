-- ===== src/Log.antt =====
-- Server/Common/Logging/Log.cpp, Logger.cpp and Appender.cpp: the tree of loggers, its configuration,
-- and which appenders a message reaches. Text is its characters; the configuration, the conversion of
-- a number by `StringTo<uint8>` and the constructors of appenders are parameters.
pub mod Loggers
pub mod Configure
pub mod Lowest
pub mod Leveled
pub mod Exact
use mmo_wow.Prelude.{
  ℕ, zero, suc, ◌+◌, ◌-◌, ◌%◌, ◌≡◌, Bool, true, false, ◌&&◌, ◌||◌, not, List, [], ◌∷◌, ◌++◌, Option,
  none, some, Result, ok, err, null_access, ltb, leb, ◌==◌, if◌then◌else◌, ◌>>=◌, length, deref,
}

abbrev pub Name : Type 0
Name = List ℕ

abbrev pub is_empty {ℓ} : {A : Type ℓ} → List A → Bool
is_empty [] = true
is_empty (x ∷ xs) = false

abbrev pub same : Name → Name → Bool
same [] [] = true
same [] (d ∷ ds) = false
same (c ∷ cs) [] = false
same (c ∷ cs) (d ∷ ds) = (c == d) && same cs ds

-- `LOGGER_ROOT`
abbrev pub root : Name
root = 114 ∷ 111 ∷ 111 ∷ 116 ∷ []

-- one more character in front
abbrev pub behind : ℕ → Option Name → Option Name
behind c (some parent) = some (c ∷ parent)
behind c none = if c == 46 then some [] else none

-- the characters before the last dot
unfoldable pub before_dot : Name → Option Name
before_dot [] = none
before_dot (c ∷ cs) = behind c (before_dot cs)

pub record Logger : Type 0 where
  pub name : Name
  pub level : ℕ
  pub targets : List ℕ

pub record Appender : Type 0 where
  pub name : Name
  pub level : ℕ

-- `loggers`, where a name can be there without a logger, and `appenders` by their ids
pub record Log : Type 0 where
  pub loggers : List (Name × Option Logger)
  pub appenders : List (ℕ × Appender)
  pub next_id : ℕ
  pub lowest : ℕ

unfoldable pub find_logger : Name → List (Name × Option Logger) → Option (Option Logger)
find_logger type [] = none
find_logger type ((name, l) ∷ rest) = if same name type then some l else find_logger type rest

unfoldable pub find_appender : ℕ → List (ℕ × Appender) → Option Appender
find_appender id [] = none
find_appender id ((i, a) ∷ rest) = if i == id then some a else find_appender id rest

-- the next name to look for
abbrev pub or_root : Option Name → Name
or_root none = root
or_root (some parent) = parent

-- `GetLoggerByType` on fuel, `none` when it is used up
unfoldable pub get_logger : ℕ → Name → List (Name × Option Logger) → Option (Option Logger)
get_logger zero type loggers = none
get_logger (suc fuel) type loggers = elim (find_logger type loggers) [
  | some l ↦ some l
  | none ↦ elim (same type root) [
    | true ↦ some none
    | false ↦ get_logger fuel (or_root (before_dot type)) loggers
  ]
]

unfoldable pub get_logger_by_type : Name → Log → Option (Option Logger)
get_logger_by_type type log = get_logger (length type + 2) type log.loggers

abbrev pub wants : Option Logger → ℕ → Bool
wants none level = false
wants (some l) level = not (l.level == 0) && leb l.level level

unfoldable pub should_log : Name → ℕ → Log → Option Bool
should_log type level log =
    if ltb level log.lowest
    then some false
    else elim (get_logger_by_type type log) [ none ↦ none | some l ↦ some (wants l level) ]

-- `Appender::write` up to `_write`
abbrev pub accepts : Option Appender → ℕ → Bool
accepts none level = false
accepts (some a) level = not ((a.level == 0) || ltb level a.level)

-- the loop of `Logger::write`: the appenders that the message is written to
unfoldable pub write_each : List ℕ → ℕ → Log → List ℕ
write_each [] level log = []
write_each (id ∷ rest) level log =
    if accepts (find_appender id log.appenders) level
    then id ∷ write_each rest level log
    else write_each rest level log

unfoldable pub logger_write : Logger → ℕ → List ℕ → Log → List ℕ
logger_write l level text log =
    if ((l.level == 0) || ltb level l.level) || is_empty text
    then []
    else write_each l.targets level log

-- `Log::write`, without the posting to another thread
unfoldable pub write : Name → ℕ → List ℕ → Log → Option (Result (List ℕ))
write type level text log = elim (get_logger_by_type type log) [
  | none ↦ none
  | some l ↦ some (deref l >>= λ logger. ok (logger_write logger level text log))
]

-- a message by the macros of Log.h: `write` when `ShouldLog` says so
unfoldable pub log_message : Name → ℕ → List ℕ → Log → Option (Result (List ℕ))
log_message type level text log = elim (should_log type level log) [
  | none ↦ none
  | some false ↦ some (ok [])
  | some true ↦ write type level text log
]

abbrev pub with_entry :
    Name × Option Logger
    → Option (List (Name × Option Logger))
    → Option (List (Name × Option Logger))
with_entry e none = none
with_entry e (some es) = some (e ∷ es)

-- `SetLogLevel` of a logger: the loop over the map, in its order
unfoldable pub set_level :
    Name → ℕ → List (Name × Option Logger) → Result (Option (List (Name × Option Logger)))
set_level name level [] = ok none
set_level name level ((key, none) ∷ rest) = err null_access
set_level name level ((key, some l) ∷ rest) =
    if same l.name name
    then ok (some ((key, some (record l { level = level })) ∷ rest))
    else (set_level name level rest >>= λ found. ok (with_entry (key, some l) found))

-- the new lowest level
abbrev pub lower : ℕ → ℕ → ℕ
lower level lowest = if not (level == 0) && ltb level lowest then level else lowest

abbrev pub leveled : ℕ → Log → Option (List (Name × Option Logger)) → Bool × Log
leveled level log none = (false, log)
leveled level log (some loggers) =
    (true, record log { loggers = loggers; lowest = lower level log.lowest })

-- `SetLogLevel` for a logger, on a level that is not negative: `LogLevel` keeps eight bits
unfoldable pub set_log_level : Name → ℕ → Log → Result (Bool × Log)
set_log_level name level log =
    set_level name (level % 256) log.loggers >>= λ found. ok (leveled (level % 256) log found)
