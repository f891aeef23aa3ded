-- ===== src/GcTracking/Tests.antt =====
-- Two runs of the collector within one callback.
use frontik.Prelude.{ℕ, ◌+◌, ◌-◌, false, none, some, List, [], ◌∷◌, leb, if◌then◌else◌, ◌≡◌, refl}
use frontik.GcTracking.{CallbackStats, TrackerOptions, slow_task, log_slow_tasks, run, GcStats}
use frontik.GcTracking.Callbacks.{phases_of, time_of, run-time_of}

abbrev runs : List (ℕ × ℕ)
runs = (1000, 3000) ∷ (5000, 6500) ∷ []

abbrev options : TrackerOptions
options = record {
  asyncio_task_threshold = 4000;
  asyncio_task_critical_threshold = none;
  has_sentry_dsn = false;
}

abbrev stats : CallbackStats
stats = record { callback_start = some 900; gc_start = some 100; sum_duration = 0 }

run-time_of_example :
    ((run options 1000 9000 (phases_of runs) stats).0 ≡ (
      if leb (options.asyncio_task_threshold + time_of runs) 9000
      then log_slow_tasks options (9000 - time_of runs)
      else []))
    × ((run options 1000 9000 (phases_of runs) stats).1.sum_duration ≡ 0)
run-time_of_example = run-time_of options 1000 9000 runs stats refl

reported : (run options 1000 9000 (phases_of runs) stats).0 ≡ slow_task 5500 ∷ []
unfolding run
reported = refl

abbrev cleared : GcStats
cleared = record { started = 7; duration = 0; count = 0; max_stw = 0 }
