-- ===== src/Startup/Told.antt =====
-- What the shared state tells of the first workers, in frontik/process.py.
use mathlib.Core.Path.{subst}
use frontik.Prelude.{
  ℕ, zero, suc, ◌+◌, Bool, true, false, Option, none, some, List, [], ◌∷◌, ltb, eqb_iff,
  if◌then◌else◌, length, ◌≡◌, refl, sym, ap, arith, inl, inr, Bool-cases, if_true, if_false,
}
use frontik.Process.Workers.{PidDict, get_pid, set_pid, pids}
use frontik.Startup.{
  pos, decrement, is_positive, Shared, init_app, Phase, starting, up, failed, died, Master, waiting,
  supervising, raised, System, Action, initialised, fails, dies, poll, restarted, come_up,
  end_early, end_late, look, look_from, come_up_again, step, run, all_starting, forked,
}

-- the workers that have not come up yet
abbrev pub is_missing : Phase → Bool
is_missing starting = true
is_missing failed = true
is_missing up = false
is_missing died = false

abbrev pub missing : PidDict Phase → ℕ
missing [] = 0
missing ((pid, phase) ∷ d) = if is_missing phase then suc (missing d) else missing d

missing-set_pid :
    (pid : ℕ) (old new : Phase) (d : PidDict Phase)
    → get_pid pid d ≡ some old
    → missing (set_pid pid new d) + (if is_missing old then 1 else 0)
      ≡ missing d + (if is_missing new then 1 else 0)
unfolding get_pid set_pid
missing-set_pid pid old new [] h = cc h
missing-set_pid pid old new ((p, phase) ∷ d) h =
    ground (arith, eqb_iff p pid, missing-set_pid pid old new d)

missing-all_starting : (ps : List ℕ) → missing (all_starting ps) ≡ length ps
missing-all_starting [] = refl
missing-all_starting (p ∷ ps) = ap suc (missing-all_starting ps)

-- what the shared state tells of the workers, in each state of the master
abbrev pub Told : Master → Shared → ℕ → Type 0
Told waiting shared n = (shared.init_workers_count_down ≡ pos n) × (shared.master_done ≡ false)
Told supervising shared n = (n ≡ 0) × (shared.master_done ≡ true)
Told raised shared n = shared.master_done ≡ false

abbrev pub IsTold : System → Type 0
IsTold s = Told s.master s.shared (missing s.workers)

Told-init_app :
    (master : Master) (shared : Shared) (n : ℕ)
    → Told master shared (suc n)
    → Told master (init_app false shared) n
unfolding init_app decrement
Told-init_app waiting shared n (counted, undone) = (ap decrement counted, undone)
Told-init_app supervising shared n (none_left, done) = ground arith
Told-init_app raised shared n undone = undone

come_up-IsTold :
    (phase : Option Phase) (pid : ℕ) (s : System)
    → get_pid pid s.workers ≡ phase
    → IsTold s
    → IsTold (come_up phase pid s)
unfolding come_up
come_up-IsTold none pid s e h = h
come_up-IsTold (some up) pid s e h = h
come_up-IsTold (some failed) pid s e h = h
come_up-IsTold (some died) pid s e h = h
come_up-IsTold (some starting) pid s e h =
    let one_less : missing s.workers ≡ suc (missing (set_pid pid up s.workers)) =
      omega (arith, missing-set_pid pid starting up s.workers e) in
    Told-init_app s.master s.shared _ (subst (Told s.master s.shared) one_less h)

end_early-IsTold :
    (phase : Option Phase) (pid : ℕ) (s : System)
    → get_pid pid s.workers ≡ phase
    → IsTold s
    → IsTold (end_early phase pid s)
unfolding end_early
end_early-IsTold none pid s e h = h
end_early-IsTold (some up) pid s e h = h
end_early-IsTold (some failed) pid s e h = h
end_early-IsTold (some died) pid s e h = h
end_early-IsTold (some starting) pid s e h =
    let as_many : missing s.workers ≡ missing (set_pid pid failed s.workers) =
      omega (arith, missing-set_pid pid starting failed s.workers e) in
    subst (Told s.master s.shared) as_many h

end_late-IsTold :
    (phase : Option Phase) (pid : ℕ) (s : System)
    → get_pid pid s.workers ≡ phase
    → IsTold s
    → IsTold (end_late phase pid s)
unfolding end_late
end_late-IsTold none pid s e h = h
end_late-IsTold (some starting) pid s e h = h
end_late-IsTold (some failed) pid s e h = h
end_late-IsTold (some died) pid s e h = h
end_late-IsTold (some up) pid s e h =
    let as_many : missing s.workers ≡ missing (set_pid pid died s.workers) =
      omega (arith, missing-set_pid pid up died s.workers e) in
    subst (Told s.master s.shared) as_many h

-- the two ways on from the wait
pub look_up :
    (now : ℕ) (after_fork_ends : Bool) (s : System)
    → is_positive s.shared.init_workers_count_down ≡ true
    → look now after_fork_ends s
      ≡ (if ltb s.timeout now then record s { master = raised; killed = pids s.workers } else s)
unfolding look
look_up now after_fork_ends s h = if_true _ _ _ h

pub look_on :
    (now : ℕ) (after_fork_ends : Bool) (s : System)
    → is_positive s.shared.init_workers_count_down ≡ false
    → look now after_fork_ends s ≡ (
        if after_fork_ends
        then record s { master = supervising; shared = record (s.shared) { master_done = true } }
        else record s { master = raised })
unfolding look
look_on now after_fork_ends s h = if_false _ _ _ h

pub positive_pos : (n : ℕ) → is_positive (pos n) ≡ ltb 0 n
unfolding is_positive
positive_pos zero = refl
positive_pos (suc n) = ground arith

pub look-IsTold :
    (now : ℕ) (after_fork_ends : Bool) (s : System)
    → s.master ≡ waiting
    → IsTold s
    → IsTold (look now after_fork_ends s)
look-IsTold now after_fork_ends s e h =
    let (counted, undone) = subst (λ m. Told m s.shared (missing s.workers)) e h in
    elim (Bool-cases (is_positive s.shared.init_workers_count_down)) [
      | inl more ↦
          subst IsTold (sym (look_up now after_fork_ends s more))
            (elim (Bool-cases (ltb s.timeout now)) [
              | inl late ↦ subst IsTold (sym (if_true _ _ _ late)) undone
              | inr early ↦ subst IsTold (sym (if_false _ _ _ early)) h
            ])
      | inr enough ↦
          let all : missing s.workers ≡ 0 =
            ground (arith, positive_pos (missing s.workers), ap is_positive counted) in
          subst IsTold (sym (look_on now after_fork_ends s enough))
            (elim (Bool-cases after_fork_ends) [
              | inl done ↦ subst IsTold (sym (if_true _ _ _ done)) (all, refl)
              | inr not_done ↦ subst IsTold (sym (if_false _ _ _ not_done)) undone
            ])
    ]

look_from-IsTold :
    (master : Master) (now : ℕ) (after_fork_ends : Bool) (s : System)
    → s.master ≡ master
    → IsTold s
    → IsTold (look_from master now after_fork_ends s)
unfolding look_from
look_from-IsTold waiting now after_fork_ends s e h = look-IsTold now after_fork_ends s e h
look_from-IsTold supervising now after_fork_ends s e h = h
look_from-IsTold raised now after_fork_ends s e h = h

come_up_again-IsTold :
    (master : Master) (s : System) → s.master ≡ master → IsTold s → IsTold (come_up_again master s)
unfolding come_up_again init_app
come_up_again-IsTold waiting s e h = h
come_up_again-IsTold raised s e h = h
come_up_again-IsTold supervising s e h =
    subst (λ m. Told m (init_app false s.shared) (missing s.workers)) (sym e)
      (subst (λ m. Told m s.shared (missing s.workers)) e h)

step-IsTold : (action : Action) (s : System) → IsTold s → IsTold (step action s)
unfolding step
step-IsTold (initialised pid) s h = come_up-IsTold _ pid s refl h
step-IsTold (fails pid) s h = end_early-IsTold _ pid s refl h
step-IsTold (dies pid) s h = end_late-IsTold _ pid s refl h
step-IsTold (poll now after_fork_ends) s h = look_from-IsTold _ now after_fork_ends s refl h
step-IsTold restarted s h = come_up_again-IsTold _ s refl h

pub forked-IsTold : (pids : List ℕ) (timeout : ℕ) → IsTold (forked pids timeout)
forked-IsTold pids timeout = (ap pos (sym (missing-all_starting pids)), refl)

pub run-IsTold : (actions : List Action) (s : System) → IsTold s → IsTold (run actions s)
unfolding run
run-IsTold [] s h = h
run-IsTold (action ∷ actions) s h = run-IsTold actions (step action s) (step-IsTold action s h)
