-- ===== src/Tests/Logs.antt =====
-- Runs of the theorems on the loggers.
use mmo_wow.Prelude.{
  ℕ, ◌≡◌, refl, Bool, true, false, List, [], ◌∷◌, Option, none, some, ok, err, null_access, arith,
}
use mmo_wow.Util.{tokenize}
use mmo_wow.Log.{
  Name, Logger, Log, root, get_logger_by_type, wants, should_log, log_message, find_logger,
  set_log_level, set_level,
}
use mmo_wow.Log.Configure.{
  load_from_config, create_loggers, read_appenders, closed, create_logger, configure_logger,
  fill_logger, tokens_of, put_logger, add_targets,
}
use mmo_wow.Log.Exact.{Configured, loaded, should_log-exact, defaults-drop, log_message-safe}

-- the configuration of each key: level 5, no appender
abbrev options : Name → List ℕ
options key = 53 ∷ 44 ∷ []

abbrev digit : List ℕ → Option ℕ
digit [] = none
digit (c ∷ cs) = some 5

abbrev made : ℕ → List (List ℕ) → Bool
made type tokens = true

-- `Logger.root`
abbrev root_key : Name
root_key = 76 ∷ 111 ∷ 103 ∷ 103 ∷ 101 ∷ 114 ∷ 46 ∷ 114 ∷ 111 ∷ 111 ∷ 116 ∷ []

abbrev one_logger : Log
one_logger = load_from_config options digit made [] (root_key ∷ [])

one_logger-Configured : Configured options digit made one_logger
unfolding find_logger create_loggers create_logger configure_logger read_appenders closed tokens_of
    tokenize fill_logger put_logger add_targets
one_logger-Configured =
    loaded [] (root_key ∷ []) (some (record { name = root; level = 5; targets = [] })) refl

-- A wrong level leaves the name without a logger, and setting any level then meets it.
null_logger :
    set_log_level root 3
      (fill_logger root 7 [] (record { loggers = []; appenders = []; next_id = 0; lowest = 6 }))
    ≡ err null_access
unfolding set_log_level set_level fill_logger put_logger
null_logger = refl

-- `sql.sql`
abbrev sql : Name
sql = 115 ∷ 113 ∷ 108 ∷ 46 ∷ 115 ∷ 113 ∷ 108 ∷ []

should_log-exact_example :
    (l : Option Logger) × (get_logger_by_type sql one_logger ≡ some l)
    × (should_log sql 5 one_logger ≡ some (wants l 5))
should_log-exact_example = should_log-exact options digit made sql 5 one_logger-Configured

defaults-drop_example : should_log root 5 (load_from_config options digit made [] []) ≡ some false
defaults-drop_example = defaults-drop options digit made [] root 5 (omega arith)

log_message-safe_example : (ids : List ℕ) × (log_message sql 5 (72 ∷ []) one_logger ≡ some (ok ids))
log_message-safe_example = log_message-safe sql 5 (72 ∷ []) one_logger
