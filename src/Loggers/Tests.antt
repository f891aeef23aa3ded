-- ===== src/Loggers/Tests.antt =====
-- A service with a log directory and syslog, and a record with an exception.
use frontik.Prelude.{
  ℕ, String, true, false, Option, none, some, [], ◌∷◌, ◌==◌, ◌≡◌, refl, if◌then◌else◌, upper,
}
use frontik.Loggers.{LogOptions, Host, Loggers, file, syslog, text, new_handlers}
use frontik.Loggers.Json.{LogRecord, Context, format_stack_trace}

abbrev options : LogOptions
options = record {
  log_dir = some "/var/log";
  stderr_log = false;
  syslog = true;
  syslog_tag = "app";
  log_write_appender_name = false;
}

abbrev host : Host
host = record { file_opens = true; knows_facility = true; syslog_opens = true }

abbrev known_level : String → Option ℕ
known_level name = if name == "INFO" then some 20 else none

known : known_level (upper "info") ≡ some 20
unfolding upper
known = refl

text_handlers :
    new_handlers options host "service.log" false none
    ≡ record {
      target = file "/var/log/service.log";
      formatter = some text;
      has_context_filter = true;
      level = none;
    }
      ∷ record {
        target = syslog "app/service.log/: ";
        formatter = some text;
        has_context_filter = true;
        level = none;
      }
      ∷ []
unfolding new_handlers
text_handlers = refl

abbrev log_record : LogRecord
log_record = record {
  name = "handler";
  levelname = "ERROR";
  msg = none;
  exc_info = some "Traceback";
  exc_text = none;
  stack_info = some "Stack";
  custom_json = none;
}

abbrev context : Context
context = record { pid = 7; role = some "worker"; handler_name = none; request_id = some "r1" }

trace : (format_stack_trace log_record).0 ≡ "\nTraceback\nStack"
unfolding format_stack_trace
trace = refl
