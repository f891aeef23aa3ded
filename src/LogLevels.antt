-- ===== src/LogLevels.antt =====
-- frontik/loggers/logleveloverride: the levels that a service outside sets for loggers. What is loaded
-- comes as an argument; the names of loggers are not empty, so that a logger has the name by which it
-- is asked for.
pub mod Applied
mod Tests
use frontik.Prelude.{
  ℕ, String, Bool, false, ◌||◌, Option, none, some, List, [], ◌∷◌, map, ◌==◌, eqb, if◌then◌else◌,
  Dict, lookup, insert,
}
use frontik.Loggers.{Handler, Loggers, get_logger}

pub record LogLevelOverride : Type 0 where
  pub logger_name : String
  pub log_level : ℕ

-- `LOG_LEVEL_MAPPING`, and `logging.INFO` for a name that it does not have
pub level_of : String → ℕ
level_of name =
    if name == "TRACE" || name == "DEBUG"
    then 10
    else if name == "WARN"
    then 30
    else if name == "ERROR"
    then 40
    else 20

-- `parse_result_to_log_level_overrides_dto`, on the pairs `loggerName` and `logLevel`
pub parse_overrides : Option (List (String × String)) → List LogLevelOverride
unfolding level_of
parse_overrides none = []
parse_overrides (some overrides) =
    map {B = LogLevelOverride} (λ o. record { logger_name = o.0; log_level = level_of (o.1) })
      overrides

-- `LoggingConfiguratorClient` with its `_loggers_store`, and the loggers of the process
pub record Client : Type 0 where
  pub loggers_store : Dict ℕ
  pub loggers : Loggers

-- `handler.setLevel(log_level)`
abbrev pub set_handler_level : ℕ → Handler → Handler
set_handler_level log_level handler = record handler { level = some log_level }

-- the handlers of a logger whose level is overridden: its own, or copies of those of the root logger
pub override_handlers : ℕ → List Handler → List Handler → List Handler
override_handlers log_level (h ∷ handlers) root = map (set_handler_level log_level) (h ∷ handlers)
override_handlers log_level [] root = map (set_handler_level log_level) root

unfoldable pub set_logger : String → ℕ → Loggers → Loggers
unfolding override_handlers
set_logger name log_level loggers =
    let logger = get_logger name loggers in
    insert name
      (record logger {
        level = some log_level;
        handlers = override_handlers log_level logger.handlers (get_logger "root" loggers).handlers;
      })
      loggers

-- `self._loggers_store.get(logger_name, None) == log_level`
abbrev pub has_level : Option ℕ → ℕ → Bool
has_level none log_level = false
has_level (some stored) log_level = eqb stored log_level

-- one round of the loop of `_update_log_level`
pub apply_override : LogLevelOverride → Client → Client
unfolding set_logger
apply_override o c =
    if has_level (lookup o.logger_name c.loggers_store) o.log_level then c else record {
      loggers_store = insert o.logger_name o.log_level c.loggers_store;
      loggers = set_logger o.logger_name o.log_level c.loggers;
    }

pub apply_overrides : List LogLevelOverride → Client → Client
unfolding apply_override
apply_overrides [] c = c
apply_overrides (o ∷ overrides) c = apply_overrides overrides (apply_override o c)

pub has_override : String → List LogLevelOverride → Bool
has_override name [] = false
has_override name (o ∷ overrides) = o.logger_name == name || has_override name overrides

-- the option `log_level`, as a level
module _ (log_level : ℕ) where
  -- `_reset_log_level`
  unfoldable pub reset_log_level : String → Loggers → Loggers
  reset_log_level name loggers =
      let logger = get_logger name loggers in
      insert name
        (record logger {
          level = some log_level;
          handlers = map (set_handler_level log_level) logger.handlers;
        })
        loggers

  -- `_rollback_overrides`: the entries that are kept, and the loggers; the order in which Python goes
  -- through the set of the others does not matter
  pub rollback : List LogLevelOverride → Dict ℕ → Loggers → Client
  unfolding has_override reset_log_level
  rollback overrides [] loggers = record { loggers_store = []; loggers = loggers }
  rollback overrides ((name, level) ∷ store) loggers =
      let kept = rollback overrides store loggers in
      if has_override name overrides
      then record kept { loggers_store = (name, level) ∷ kept.loggers_store }
      else record kept { loggers = reset_log_level name kept.loggers }

  -- `_update_log_level`, for the overrides that are loaded
  unfoldable pub update_log_level : List LogLevelOverride → Client → Client
  unfolding rollback apply_overrides
  update_log_level overrides c =
      apply_overrides overrides (rollback overrides c.loggers_store c.loggers)
