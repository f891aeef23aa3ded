-- ===== src/Startup/Reached.antt =====
-- When an application counts as started, and when the wait for it ends, in frontik/process.py and
-- frontik/app.py.
use mathlib.Core.Path.{subst}
use frontik.Prelude.{
  ℕ, ◌<◌, Bool, true, false, List, ◌≡◌, refl, sym, ◌∙◌, ap, arith, ◌⊎◌, inl, inr, Bool-cases,
  if_true, lt→ltb, ltb→lt,
}
use frontik.Process.Workers.{pids}
use frontik.Startup.{
  is_positive, Shared, up_since, uptime_of, get_current_status, Master, waiting, supervising,
  raised, System, Uptime, Action, poll, look, look_from, step, run, forked,
}
use frontik.Startup.Told.{missing, Told, run-IsTold, forked-IsTold, positive_pos, look_up, look_on}

Told-done :
    (master : Master) (shared : Shared) (n : ℕ)
    → Told master shared n
    → shared.master_done ≡ true
    → (master ≡ supervising) × (n ≡ 0)
Told-done waiting shared n (counted, undone) h = cc (undone, h)
Told-done supervising shared n (all, done) h = (refl, all)
Told-done raised shared n undone h = cc (undone, h)

status_done :
    (ms : ℕ) (shared : Shared) (uptime : Uptime)
    → get_current_status ms shared ≡ up_since uptime
    → shared.master_done ≡ true
unfolding get_current_status
status_done ms shared uptime h = ground arith

-- Whatever happens to the workers behind the fork, and whenever the master looks at the counter: if
-- the status is answered with an uptime, then the master supervises, its action behind the fork has
-- ended, and each of its first workers has come up, though some may have ended since.
pub get_current_status-up :
    (pids : List ℕ) (timeout : ℕ) (actions : List Action) (ms : ℕ) (uptime : Uptime)
    → get_current_status ms (run actions (forked pids timeout)).shared ≡ up_since uptime
    → ((run actions (forked pids timeout)).master ≡ supervising)
      × (missing (run actions (forked pids timeout)).workers ≡ 0)
get_current_status-up pids timeout actions ms uptime h =
    let s = run actions (forked pids timeout) in
    Told-done s.master s.shared (missing s.workers)
      (run-IsTold actions _ (forked-IsTold pids timeout)) (status_done ms s.shared uptime h)

-- what a look behind the timeout leads to
abbrev pub Ends : (ms : ℕ) (s after : System) → Type 0
Ends ms s after =
    ((missing s.workers ≡ 0)
      × (after.master ≡ supervising)
      × (get_current_status ms after.shared ≡ up_since (uptime_of ms)))
    ⊎ ((0 < missing s.workers) × (after.master ≡ raised) × (after.killed ≡ pids s.workers))

poll_waiting :
    (now : ℕ) (after_fork_ends : Bool) (s : System)
    → s.master ≡ waiting
    → step (poll now after_fork_ends) s ≡ look now after_fork_ends s
unfolding step look_from
poll_waiting now after_fork_ends s h = ap (λ m. look_from m now after_fork_ends s) h

status_up :
    (ms : ℕ) (shared : Shared)
    → is_positive shared.init_workers_count_down ≡ false
    → get_current_status ms (record shared { master_done = true }) ≡ up_since (uptime_of ms)
unfolding get_current_status
status_up ms shared h = ground (arith, h)

-- The wait ends: when the master looks at the counter behind the timeout, and its own action does
-- not raise, then either each of the first workers has come up at some time, the master supervises,
-- and the status is answered with an uptime; or one has not, and `fork_workers` raises, with
-- SIGKILL sent to all workers. Which of them it is depends on the workers alone.
pub poll-Ends :
    (pids : List ℕ) (timeout : ℕ) (actions : List Action) (ms now : ℕ)
    → (run actions (forked pids timeout)).master ≡ waiting
    → (run actions (forked pids timeout)).timeout < now
    → Ends ms
        (run actions (forked pids timeout))
        (step (poll now true) (run actions (forked pids timeout)))
poll-Ends pids timeout actions ms now wait late =
    let s = run actions (forked pids timeout) in
    let (counted, undone) =
      subst (λ m. Told m s.shared (missing s.workers)) wait
        (run-IsTold actions _ (forked-IsTold pids timeout)) in
    let positive = ap is_positive counted ∙ positive_pos (missing s.workers) in
    subst (Ends ms s) (sym (poll_waiting now true s wait))
      (elim (Bool-cases (is_positive s.shared.init_workers_count_down)) [
        | inl more ↦
            subst (Ends ms s)
              (sym (look_up now true s more ∙ if_true _ _ _ (lt→ltb s.timeout now late)))
              (inr (ltb→lt 0 _ (sym positive ∙ more), refl, refl))
        | inr enough ↦
            let all : missing s.workers ≡ 0 = ground (arith, sym positive ∙ enough) in
            subst (Ends ms s) (sym (look_on now true s enough))
              (inl (all, refl, status_up ms s.shared enough))
      ])
