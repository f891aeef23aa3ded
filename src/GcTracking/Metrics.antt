-- ===== src/GcTracking/Metrics.antt =====
-- The metrics of the collector, in frontik/app_integrations/gc_metrics_collector.py.
use mathlib.Core.Path.{subst}
use frontik.Prelude.{
  ℕ, ◌+◌, ◌-◌, ◌/◌, true, false, List, [], ◌∷◌, eqb, length, ◌≡◌, refl, sym, ◌∙◌, ap, arith,
  if_true, if_false,
}
use frontik.GcTracking.{
  start, stop, GcStats, max_of, gc_metrics_collector, collect_all, on_gc_start, on_gc_stop,
  gc_duration, gc_count, gc_max_duration, clear, send_metrics,
}
use frontik.GcTracking.Callbacks.{phases_of, time_of}

-- the longest run
abbrev pub longest : List (ℕ × ℕ) → ℕ
longest [] = 0
longest ((from, to) ∷ runs) = max_of (to - from) (longest runs)

-- nothing has been counted
abbrev pub IsClear : GcStats → Type 0
IsClear s = (s.duration ≡ 0) × (s.count ≡ 0) × (s.max_stw ≡ 0)

collect_all-sums :
    (runs : List (ℕ × ℕ)) (s : GcStats)
    → ((collect_all (phases_of runs) s).duration ≡ s.duration + time_of runs)
      × ((collect_all (phases_of runs) s).count ≡ s.count + length runs)
      × ((collect_all (phases_of runs) s).max_stw ≡ max_of s.max_stw (longest runs))
unfolding collect_all gc_metrics_collector on_gc_start on_gc_stop
collect_all-sums [] s = (omega arith, omega arith, ground arith)
collect_all-sums ((from, to) ∷ runs) s =
    let after = gc_metrics_collector (stop to) (gc_metrics_collector (start from) s) in
    let (d, c, m) = collect_all-sums runs after in
    (d ∙ omega arith, c ∙ omega arith, m ∙ ground arith)

send_none :
    (t : GcStats)
    → eqb t.count 0 ≡ true
    → send_metrics t ≡ (gc_duration 0 ∷ gc_count 0 ∷ gc_max_duration 0 ∷ [], t)
unfolding send_metrics
send_none t h = if_true _ _ _ h

send_some :
    (t : GcStats)
    → eqb t.count 0 ≡ false
    → send_metrics t ≡ (
      gc_duration (t.duration / 1000) ∷ gc_count t.count ∷ gc_max_duration (t.max_stw / 1000) ∷ [],
      clear t,
    )
unfolding send_metrics
send_some t h = if_false _ _ _ h

metrics_of :
    (t : GcStats) (d c m : ℕ)
    → t.duration ≡ d
    → t.count ≡ c
    → t.max_stw ≡ m
    → gc_duration (t.duration / 1000) ∷ gc_count t.count ∷ gc_max_duration (t.max_stw / 1000) ∷ []
      ≡ gc_duration (d / 1000) ∷ gc_count c ∷ gc_max_duration (m / 1000) ∷ []
metrics_of t d c m hd hc hm = cc (hd, hc, hm)

-- When nothing has been counted yet, the metrics that are sent behind some runs of the collector are
-- the time of all of them, their number, and the time of the longest, with times in whole
-- milliseconds; and nothing is counted behind that.
send_metrics-sums :
    (runs : List (ℕ × ℕ)) (s : GcStats)
    → IsClear s
    → ((send_metrics (collect_all (phases_of runs) s)).0
        ≡ gc_duration (time_of runs / 1000)
          ∷ gc_count (length runs)
          ∷ gc_max_duration (longest runs / 1000)
          ∷ [])
      × IsClear (send_metrics (collect_all (phases_of runs) s)).1
unfolding collect_all clear
send_metrics-sums [] s (no_duration, no_count, no_max) =
    let e = send_none s (ap (λ n. eqb n 0) no_count) in
    (ap (λ p. p.0) e, subst (λ p. IsClear (p.1)) (sym e) (no_duration, no_count, no_max))
send_metrics-sums (r ∷ runs) s (no_duration, no_count, no_max) =
    let t = collect_all (phases_of (r ∷ runs)) s in
    let (d, c, m) = collect_all-sums (r ∷ runs) s in
    let counted : t.count ≡ length (r ∷ runs) = omega (arith, c, no_count) in
    let timed : t.duration ≡ time_of (r ∷ runs) = omega (arith, d, no_duration) in
    let most : t.max_stw ≡ longest (r ∷ runs) =
      m ∙ (ap (λ n. max_of n (longest (r ∷ runs))) no_max ∙ ground arith) in
    let e = send_some t (ap (λ n. eqb n 0) counted ∙ ground arith) in
    (
      ap (λ p. p.0) e ∙ metrics_of t _ _ _ timed counted most,
      subst (λ p. IsClear (p.1)) (sym e) (refl, refl, refl),
    )
