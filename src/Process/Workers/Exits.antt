-- ===== src/Process/Workers/Exits.antt =====
-- How the supervision of frontik/process.py ends after SIGTERM.
use mathlib.Core.Path.{subst}
use frontik.Prelude.{
  ℕ, ◌≡◌, ◌∙◌, refl, sym, ap, Bool, true, false, ◌||◌, List, [], ◌∷◌, Option, none, arith, inl, inr,
  Option-cases,
}
use frontik.Process.Workers.{
  PidDict, get_pid, pop_pid, WorkerState, Status, Loop, Wait, child, interrupted, failed,
  exited_normally, forget, exits, on_exit, supervise, supervise_workers,
}
use frontik.Process.Workers.Supervise.{left}

-- The waits report each of the children, in any order and with any status, and none fails before the
-- last; there may be interrupted waits and other processes among them.
abbrev pub AllReported : PidDict ℕ → List (Wait × ℕ) → Type 0
AllReported children [] = children ≡ []
AllReported children ((interrupted, new_pid) ∷ rest) = AllReported children rest
AllReported children ((failed, new_pid) ∷ rest) = children ≡ []
AllReported children ((child pid status, new_pid) ∷ rest) = AllReported (pop_pid pid children) rest

pop_pid_unknown : (pid : ℕ) (d : PidDict ℕ) → get_pid pid d ≡ none → pop_pid pid d ≡ d
unfolding get_pid pop_pid
pop_pid_unknown pid [] h = refl
pop_pid_unknown pid ((p, w) ∷ d) h = ground (arith, pop_pid_unknown pid d)

or_true : (b : Bool) → (b || true) ≡ true
or_true true = refl
or_true false = refl

module _ {Data : Type 0} (shared_data : Option Data) where
  -- `sys.exit(0)` with no child left
  abbrev pub Exits : Loop Data → Type 0
  Exits loop = (t : WorkerState Data) × (loop ≡ exits t) × (t.children ≡ [])

  -- a report to a master that has been told to stop
  on_exit-terminating :
      (pid : ℕ) (status : Status) (new_pid : ℕ) (s : WorkerState Data)
      → s.terminating ≡ true
      → ((on_exit pid status new_pid shared_data s).children ≡ pop_pid pid s.children)
        × ((on_exit pid status new_pid shared_data s).terminating ≡ true)
  on_exit-terminating pid status new_pid s stop = elim (Option-cases (get_pid pid s.children)) [
    | inl unknown ↦
        let same : on_exit pid status new_pid shared_data s ≡ s = unfold on_exit in rw unknown in
        (
          ap (λ t. t.children) same ∙ sym (pop_pid_unknown pid s.children unknown),
          ap (λ t. t.terminating) same ∙ stop,
        )
    | inr (worker_id, known) ↦
        let gone =
          left pid status new_pid shared_data s worker_id known
            (ap (λ b. exited_normally status || b) stop ∙ or_true (exited_normally status)) in
        (
          ap (λ t. t.children) gone ∙ unfold forget in refl,
          ap (λ t. t.terminating) gone ∙ unfold forget in stop,
        )
  ]

  supervise-Exits :
      (waits_left : List (Wait × ℕ)) (s : WorkerState Data) (children : PidDict ℕ)
      → s.children ≡ children
      → s.terminating ≡ true
      → AllReported children waits_left
      → Exits (supervise shared_data s children waits_left)
  unfolding supervise
  supervise-Exits waits_left s [] h stop all = (s, refl, h)
  supervise-Exits [] s (c ∷ cs) h stop all = cc all
  supervise-Exits ((failed, new_pid) ∷ rest) s (c ∷ cs) h stop all = cc all
  supervise-Exits ((interrupted, new_pid) ∷ rest) s (c ∷ cs) h stop all =
      supervise-Exits rest s s.children refl stop (subst (λ d. AllReported d rest) (sym h) all)
  supervise-Exits ((child pid status, new_pid) ∷ rest) s (c ∷ cs) h stop all =
      let (popped, still) = on_exit-terminating pid status new_pid s stop in
      supervise-Exits rest (on_exit pid status new_pid shared_data s) _ refl still
        (subst (λ d. AllReported d rest) (sym (popped ∙ ap (pop_pid pid) h)) all)

  -- Once the master has been told to stop, it exits with no child left when its waits have reported
  -- all its children, in whatever order and however these end, with interrupted waits and reports of
  -- other processes in between, and no wait that fails.
  pub supervise_workers-Exits :
      (waits_left : List (Wait × ℕ)) (s : WorkerState Data)
      → s.terminating ≡ true
      → AllReported s.children waits_left
      → Exits (supervise_workers shared_data s waits_left)
  unfolding supervise_workers
  supervise_workers-Exits waits_left s stop all =
      supervise-Exits waits_left s s.children refl stop all
