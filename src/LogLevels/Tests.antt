-- ===== src/LogLevels/Tests.antt =====
-- A logger without handlers that is overridden and rolled back.
use frontik.Prelude.{ℕ, String, true, none, some, List, [], ◌∷◌, ◌≡◌, refl, lookup, insert}
use frontik.Loggers.{Handler, Logger, stream, json, get_logger}
use frontik.LogLevels.{LogLevelOverride, Client, update_log_level}
use frontik.LogLevels.Applied.{last_override, IsApplied, update_log_level-IsApplied}

abbrev handler : Handler
handler = record {
  target = stream;
  formatter = some json;
  has_context_filter = true;
  level = some 20;
}

abbrev root : Logger
root = record { appender = none; handlers = handler ∷ []; propagate = true; level = some 0 }

abbrev client : Client
client = record { loggers_store = []; loggers = ("root", root) ∷ [] }

abbrev overrides : List LogLevelOverride
overrides =
    record { logger_name = "a"; log_level = 10 }
    ∷ record { logger_name = "b"; log_level = 40 }
    ∷ record { logger_name = "a"; log_level = 30 }
    ∷ []

start-IsApplied : IsApplied 20 client
unfolding IsApplied lookup
start-IsApplied name level found = cc found

update_log_level-IsApplied_example :
    ((name : String)
      → lookup name (update_log_level 20 overrides client).loggers_store
        ≡ last_override name overrides)
    × ((name : String) (level : ℕ)
        → last_override name overrides ≡ some level
        → (get_logger name (update_log_level 20 overrides client).loggers).level ≡ some level)
    × IsApplied 20 (update_log_level 20 overrides client)
update_log_level-IsApplied_example = update_log_level-IsApplied 20 overrides client start-IsApplied

-- The copies of the root logger's handlers stay with a logger when its override is taken back, and it
-- still hands its records on.
left_behind :
    lookup "a" (update_log_level 20 [] (update_log_level 20 overrides client)).loggers
    ≡ some (record { appender = none; handlers = handler ∷ []; propagate = true; level = some 20 })
unfolding update_log_level lookup insert get_logger
left_behind = refl
