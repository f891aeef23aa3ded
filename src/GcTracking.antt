-- ===== src/GcTracking.antt =====
-- frontik/app_integrations: the time of callbacks without that of the garbage collector
-- (slow_callback_tracker.py), and the metrics of the collector (gc_metrics_collector.py). Times are
-- microseconds of clocks that do not go back, and come as arguments.
mod Callbacks
mod Metrics
mod Tests
use frontik.Prelude.{
  ℕ, ◌+◌, ◌-◌, ◌/◌, Bool, false, not, ◌&&◌, Option, none, some, List, [], ◌∷◌, eqb, ltb, leb,
  if◌then◌else◌,
}

-- what the collector calls its callbacks with, and the time of the call
pub data Phase : Type 0 where
  start stop : ℕ → Phase

-- `GCStats` of slow_callback_tracker.py
pub record CallbackStats : Type 0 where
  pub callback_start : Option ℕ
  pub gc_start : Option ℕ
  pub sum_duration : ℕ

abbrev pub is_same : Option ℕ → ℕ → Bool
is_same none time = false
is_same (some other) time = eqb other time

-- the two branches of a `stop`
pub add_duration : ℕ → ℕ → CallbackStats → CallbackStats
add_duration current gc_duration s =
    if is_same s.callback_start current
    then record s { sum_duration = s.sum_duration + gc_duration }
    else record s { callback_start = some current; sum_duration = gc_duration }

pub on_stop : Option ℕ → ℕ → ℕ → CallbackStats → CallbackStats
unfolding add_duration
on_stop none current time s = s
on_stop (some gc_start) current time s = add_duration current (time - gc_start) s

-- `long_gc_tracker`, where `current_callback_start` is the first argument
unfoldable pub long_gc_tracker : Option ℕ → Phase → CallbackStats → CallbackStats
unfolding on_stop
long_gc_tracker none phase s = s
long_gc_tracker (some current) (start time) s = record s { gc_start = some time }
long_gc_tracker (some current) (stop time) s = on_stop s.gc_start current time s

pub track_all : Option ℕ → List Phase → CallbackStats → CallbackStats
unfolding long_gc_tracker
track_all current [] s = s
track_all current (phase ∷ phases) s = track_all current phases (long_gc_tracker current phase s)

pub record TrackerOptions : Type 0 where
  pub asyncio_task_threshold : ℕ
  pub asyncio_task_critical_threshold : Option ℕ
  pub has_sentry_dsn : Bool

pub data Report : Type 0 where
  -- the statistics and the warning, with the time in microseconds
  slow_task : ℕ → Report
  -- the message for Sentry
  sentry_message : ℕ → Report

-- the test of the critical threshold, where a threshold of nought is none
pub is_critical : Option ℕ → Bool → ℕ → Bool
is_critical none has_sentry_dsn delta = false
is_critical (some threshold) has_sentry_dsn delta =
    (not (eqb threshold 0) && leb threshold delta) && has_sentry_dsn

-- `_log_slow_tasks`
pub log_slow_tasks : TrackerOptions → ℕ → List Report
unfolding is_critical
log_slow_tasks options delta =
    slow_task delta
    ∷ (if is_critical options.asyncio_task_critical_threshold options.has_sentry_dsn delta
        then sentry_message delta ∷ []
        else [])

-- `run` of a handle that starts at a time, takes so long, and is interrupted by the collector; the
-- difference `delta` may be negative, in which case it is below each threshold
unfoldable pub run :
    TrackerOptions → ℕ → ℕ → List Phase → CallbackStats → List Report × CallbackStats
unfolding track_all log_slow_tasks
run options callback_start duration phases s =
    let s' = track_all (some callback_start) phases s in
    (
      if leb (options.asyncio_task_threshold + s'.sum_duration) duration
          then log_slow_tasks options (duration - s'.sum_duration)
          else [],
      record s' { sum_duration = 0 },
    )

-- `GCStats` of gc_metrics_collector.py
pub record GcStats : Type 0 where
  pub started : ℕ
  pub duration : ℕ
  pub count : ℕ
  pub max_stw : ℕ

abbrev pub max_of : ℕ → ℕ → ℕ
max_of a b = if ltb a b then b else a

unfoldable pub on_gc_start : ℕ → GcStats → GcStats
on_gc_start time s = record s { started = time }

unfoldable pub on_gc_stop : ℕ → GcStats → GcStats
on_gc_stop time s =
    let duration = time - s.started in
    record s {
      duration = s.duration + duration;
      count = s.count + 1;
      max_stw = max_of s.max_stw duration;
    }

-- `gc_metrics_collector`, up to its log line; the field `start` is never `None`
unfoldable pub gc_metrics_collector : Phase → GcStats → GcStats
unfolding on_gc_start on_gc_stop
gc_metrics_collector (start time) s = on_gc_start time s
gc_metrics_collector (stop time) s = on_gc_stop time s

unfoldable pub collect_all : List Phase → GcStats → GcStats
unfolding gc_metrics_collector
collect_all [] s = s
collect_all (phase ∷ phases) s = collect_all phases (gc_metrics_collector phase s)

-- the calls of the statistics client, in milliseconds
pub data Metric : Type 0 where
  gc_duration gc_count gc_max_duration : ℕ → Metric

-- `GCStats.clear`
unfoldable pub clear : GcStats → GcStats
clear s = record s { duration = 0; count = 0; max_stw = 0 }

-- `send_metrics`
unfoldable pub send_metrics : GcStats → List Metric × GcStats
unfolding clear
send_metrics s =
    if eqb s.count 0 then (gc_duration 0 ∷ gc_count 0 ∷ gc_max_duration 0 ∷ [], s) else (
      gc_duration (s.duration / 1000) ∷ gc_count s.count ∷ gc_max_duration (s.max_stw / 1000) ∷ [],
      clear s,
    )
