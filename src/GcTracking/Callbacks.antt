-- ===== src/GcTracking/Callbacks.antt =====
-- The time of a callback without that of the collector, in frontik/app_integrations.
use frontik.Prelude.{
  ℕ, ◌+◌, ◌-◌, true, Option, none, some, List, [], ◌∷◌, eqb_iff, leb, if◌then◌else◌, ◌≡◌, refl, ◌∙◌,
  ap, arith, Bool-cases, inl, inr,
}
use frontik.GcTracking.{
  Phase, start, stop, CallbackStats, is_same, add_duration, on_stop, long_gc_tracker, track_all,
  TrackerOptions, log_slow_tasks, run,
}

-- runs of the collector, each with the time of its start and of its end
abbrev pub phases_of : List (ℕ × ℕ) → List Phase
phases_of [] = []
phases_of ((from, to) ∷ runs) = start from ∷ stop to ∷ phases_of runs

abbrev pub time_of : List (ℕ × ℕ) → ℕ
time_of [] = 0
time_of ((from, to) ∷ runs) = (to - from) + time_of runs

abbrev after_run : ℕ → ℕ → ℕ → CallbackStats → CallbackStats
after_run current from to s =
    long_gc_tracker (some current) (stop to) (long_gc_tracker (some current) (start from) s)

-- one run of the collector within the callback
one_run :
    (current from to : ℕ) (s : CallbackStats)
    → ((after_run current from to s).callback_start ≡ some current)
      × ((after_run current from to s).sum_duration
          ≡ (if is_same s.callback_start current then s.sum_duration else 0) + (to - from))
unfolding long_gc_tracker on_stop add_duration
one_run current from to s = elim (Bool-cases (is_same s.callback_start current)) [
  | inl same ↦ rw same (same_start s.callback_start same, refl)
  | inr other ↦ rw other (refl, omega arith)
]
  where
    same_start : (o : Option ℕ) → is_same o current ≡ true → o ≡ some current
    same_start none h = cc h
    same_start (some n) h = ap some ((eqb_iff n current).0 h)

track_more :
    (current : ℕ) (runs : List (ℕ × ℕ)) (s : CallbackStats)
    → s.callback_start ≡ some current
    → (track_all (some current) (phases_of runs) s).sum_duration ≡ s.sum_duration + time_of runs
unfolding track_all
track_more current [] s h = omega arith
track_more current ((from, to) ∷ runs) s h =
    let (now, sum) = one_run current from to s in
    let same : is_same s.callback_start current ≡ true =
      ap (λ o. is_same o current) h ∙ (eqb_iff current current).1 refl in
    track_more current runs (after_run current from to s) now
    ∙ omega (arith, sum ∙ ap (λ b. (if b then s.sum_duration else 0) + (to - from)) same)

track-time_of :
    (current : ℕ) (runs : List (ℕ × ℕ)) (s : CallbackStats)
    → s.sum_duration ≡ 0
    → (track_all (some current) (phases_of runs) s).sum_duration ≡ time_of runs
unfolding track_all
track-time_of current [] s h = h
track-time_of current ((from, to) ∷ runs) s h =
    let (now, sum) = one_run current from to s in
    track_more current runs (after_run current from to s) now ∙ ground (arith, sum, h)

-- A callback is reported, with the time that it takes less the time of all runs of the collector
-- within it, if and only if that is at least the threshold, whichever callback ran before and had
-- runs of the collector; and the sum is nought again for the next callback.
pub run-time_of :
    (options : TrackerOptions) (callback_start duration : ℕ) (runs : List (ℕ × ℕ))
    (s : CallbackStats)
    → s.sum_duration ≡ 0
    → ((run options callback_start duration (phases_of runs) s).0 ≡ (
        if leb (options.asyncio_task_threshold + time_of runs) duration
        then log_slow_tasks options (duration - time_of runs)
        else []))
      × ((run options callback_start duration (phases_of runs) s).1.sum_duration ≡ 0)
unfolding run
run-time_of options callback_start duration runs s h = (
  ap
      (λ sum.
        if leb (options.asyncio_task_threshold + sum) duration
        then log_slow_tasks options (duration - sum)
        else [])
      (track-time_of callback_start runs s h),
  refl,
)
