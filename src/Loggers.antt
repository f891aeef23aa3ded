-- ===== src/Loggers.antt =====
-- frontik/loggers/__init__.py: the loggers and their handlers, and the fields of a JSON log line.
-- The handlers of Python's logging, the time and the text of a traceback are parameters.
pub mod Json
pub mod Targets
pub mod Handlers
mod Tests
use frontik.Prelude.{
  ℕ, String, Bool, true, false, not, ◌&&◌, ◌||◌, Option, none, some, List, [], ◌∷◌, ◌++◌, ◌+++◌,
  map, if◌then◌else◌, Dict, lookup, insert, is_empty, upper,
}

-- what Python's `logging` writes with: one that the caller gives, by its name, or one of the three
pub data Formatter : Type 0 where
  given : String → Formatter
  json text stderr : Formatter

pub data Target : Type 0 where
  file : String → Target
  stream : Target
  syslog : String → Target
  debug_log : Target

-- a handler, whether it has the filter `_CONTEXT_FILTER`, and its level, if one is set
pub record Handler : Type 0 where
  pub target : Target
  pub formatter : Option Formatter
  pub has_context_filter : Bool
  pub level : Option ℕ

pub record Logger : Type 0 where
  pub appender : Option String
  pub handlers : List Handler
  pub propagate : Bool
  pub level : Option ℕ

abbrev pub new_logger : Logger
new_logger = record { appender = none; handlers = []; propagate = true; level = none }

pub record LogOptions : Type 0 where
  pub log_dir : Option String
  pub stderr_log : Bool
  pub syslog : Bool
  pub syslog_tag : String
  pub log_write_appender_name : Bool

-- What the handlers meet: whether the log file can be opened, whether `logging` knows the facility of
-- syslog, and whether its socket can be opened.
pub record Host : Type 0 where
  pub file_opens : Bool
  pub knows_facility : Bool
  pub syslog_opens : Bool

-- The loggers by their names; the root logger has the name `root`.
abbrev pub Loggers : Type 0
Loggers = Dict Logger

abbrev pub found_or_new : Option Logger → Logger
found_or_new none = new_logger
found_or_new (some logger) = logger

-- `logging.getLogger(name)`
unfoldable pub get_logger : String → Loggers → Logger
get_logger name loggers = found_or_new (lookup name loggers)

-- `getattr(logger, 'appender', ROOT_LOGGER.appender)`, which raises if the root logger has none
pub filename_of : Option String → Option String → Option String
filename_of appender none = none
filename_of none (some root) = some root
filename_of (some appender) (some root) = some appender

pub get_logger_filename : String → Loggers → Option String
unfolding get_logger filename_of
get_logger_filename name loggers =
    filename_of (get_logger name loggers).appender (get_logger "root" loggers).appender

-- the choice of the formatter in each `_configure_` function, with the default of a text line
pub configure : Target → Formatter → Bool → Option Formatter → Handler
configure target default use_json (some formatter) = record {
  target = target;
  formatter = some formatter;
  has_context_filter = false;
  level = none;
}
configure target default true none = record {
  target = target;
  formatter = some json;
  has_context_filter = false;
  level = none;
}
configure target default false none = record {
  target = target;
  formatter = some default;
  has_context_filter = true;
  level = none;
}

module _ (options : LogOptions) where
  -- `_configure_file`, where `if options.log_dir` has been tested
  pub configure_file : Option String → String → Bool → Option Formatter → List Handler
  unfolding configure
  configure_file none filename use_json formatter = []
  configure_file (some dir) filename use_json formatter =
      if is_empty dir
      then []
      else configure (file (dir +++ ("/" +++ filename))) text use_json formatter ∷ []

  pub configure_stderr : Bool → Bool → Option Formatter → List Handler
  unfolding configure
  configure_stderr false use_json formatter = []
  configure_stderr true use_json formatter = configure stream stderr use_json formatter ∷ []

  -- `_configure_syslog`, and whether its socket can be opened
  pub configure_syslog : Bool → Bool → String → Bool → Option Formatter → List Handler
  unfolding configure
  configure_syslog false opens filename use_json formatter = []
  configure_syslog true false filename use_json formatter = []
  configure_syslog true true filename use_json formatter =
      configure (syslog (options.syslog_tag +++ ("/" +++ (filename +++ "/: ")))) text use_json
        formatter
      ∷ []

  -- the name of the file is asked for if one of the two needs it
  abbrev pub has_log_dir : Bool
  has_log_dir = elim options.log_dir [ none ↦ false | some dir ↦ not (is_empty dir) ]

  pub needs_filename : Bool
  needs_filename = options.syslog || has_log_dir

  -- `WatchedFileHandler` or the name of the facility raises
  abbrev pub fails : Host → Bool
  fails host = (has_log_dir && not host.file_opens) || (options.syslog && not host.knows_facility)

  abbrev pub log_extension : Bool → String
  log_extension true = ".slog"
  log_extension false = ".log"

  unfoldable pub new_handlers : Host → String → Bool → Option Formatter → List Handler
  unfolding configure_file configure_stderr configure_syslog
  new_handlers host filename use_json formatter =
      configure_file options.log_dir filename use_json formatter
      ++ (configure_stderr options.stderr_log use_json formatter
          ++ configure_syslog options.syslog host.syslog_opens filename use_json formatter)

  abbrev pub debug_log_handler : Handler
  debug_log_handler = record {
    target = debug_log;
    formatter = none;
    has_context_filter = false;
    level = none;
  }

  abbrev pub at_level : ℕ → Handler → Handler
  at_level level h = record h { level = some level }

  unfoldable pub with_handlers : List Handler → ℕ → Logger → Logger
  with_handlers handlers level logger = record logger {
    handlers = logger.handlers ++ (map (at_level level) handlers ++ debug_log_handler ∷ []);
    propagate = false;
  }

  pub finish_logger :
      Option String → Host → String → ℕ → Bool → Option Formatter → Loggers → Option Loggers
  unfolding new_handlers with_handlers needs_filename get_logger
  finish_logger none host name level use_json formatter loggers =
      if needs_filename
      then none
      else some (
          insert name
            (with_handlers (new_handlers host "" use_json formatter) level
              (get_logger name loggers))
            loggers)
  finish_logger (some filename) host name level use_json formatter loggers =
      if fails host
      then none
      else some (
          insert name
            (with_handlers (new_handlers host filename use_json formatter) level
              (get_logger name loggers))
            loggers)

  -- `bootstrap_logger` of the logger `name`, for the name of its file; `none` is the `AttributeError` of
  -- a root logger without a file name, or the error of a handler that cannot be made
  unfoldable pub bootstrap_logger :
      Host → (name logger_name : String) → ℕ → Bool → Option Formatter → Loggers → Option Loggers
  unfolding finish_logger get_logger get_logger_filename
  bootstrap_logger host name logger_name level use_json formatter loggers =
      let logger = record (get_logger name loggers) {
        appender = some (logger_name +++ log_extension use_json);
      } in
      let loggers' = insert name logger loggers in
      finish_logger (get_logger_filename name loggers') host name level use_json formatter loggers'

  unfoldable pub set_level : String → ℕ → Loggers → Loggers
  unfolding get_logger
  set_level name level loggers =
      insert name (record (get_logger name loggers) { level = some level }) loggers

  pub suppress : List String → Loggers → Loggers
  unfolding set_level
  suppress [] loggers = loggers
  suppress (name ∷ names) loggers = suppress names (set_level name 30 loggers)

  abbrev pub and_then : Option Loggers → (Loggers → Option Loggers) → Option Loggers
  and_then none f = none
  and_then (some loggers) f = f loggers

  -- the calls of `bootstrap_core_logging`, with the level
  unfoldable pub core_loggers : Host → Bool → List String → Loggers → ℕ → Option Loggers
  unfolding bootstrap_logger set_level suppress
  core_loggers host use_json suppressed loggers level =
      and_then
        (bootstrap_logger host "root" "service" level use_json none (set_level "root" 0 loggers))
        (λ l. and_then (bootstrap_logger host "server" "server" level use_json none l) (λ l'.
          and_then
            (if use_json
              then bootstrap_logger host "requests" "requests" level true none l'
              else some l')
            (λ l''. some (suppress suppressed l''))))

  abbrev pub with_level : Option ℕ → (ℕ → Option Loggers) → Option Loggers
  with_level none f = none
  with_level (some level) f = f level

  -- `bootstrap_core_logging`, where `level_of` gives the levels of `logging` by their names
  unfoldable pub bootstrap_core_logging :
      Host → (String → Option ℕ) → String → Bool → List String → Loggers → Option Loggers
  unfolding core_loggers
  bootstrap_core_logging host level_of log_level use_json suppressed loggers =
      with_level (level_of (upper log_level)) (core_loggers host use_json suppressed loggers)
