-- ===== src/Process/Workers/Supervise.antt =====
-- What the master of frontik/process.py keeps while its workers die and are started again.
use mathlib.Core.Path.{subst}
use mathlib.Core.List.{Perm, perm_append_singleton}
use mathlib.Core.List.Perm
use frontik.Prelude.{
  ℕ, ◌≡◌, ◌∙◌, refl, sym, inl, inr, true, false, ◌||◌, List, [], ◌∷◌, ◌++◌, Option, none, some, eqb,
  arith, Bool-cases, Option-cases,
}
use frontik.Process.Workers.{
  PidDict, get_pid, pop_pid, set_pid, pids, elem_pid, mark, WorkerState, Status, on_worker_restart,
  start_child, exited_normally, forget, worker_exit, on_exit,
}

module _ {V W : Type 0} where
  pids-pop_pid :
      (pid : ℕ) (d : PidDict V) (e : PidDict W)
      → pids d ≡ pids e
      → pids (pop_pid pid d) ≡ pids (pop_pid pid e)
  unfolding pids pop_pid
  pids-pop_pid pid [] [] h = refl
  pids-pop_pid pid [] ((q, w) ∷ e) h = cc
  pids-pop_pid pid ((p, v) ∷ d) [] h = cc
  pids-pop_pid pid ((p, v) ∷ d) ((q, w) ∷ e) h = ground (arith, pids-pop_pid pid d e)

  pids-set_pid :
      (pid : ℕ) (v : V) (w : W) (d : PidDict V) (e : PidDict W)
      → pids d ≡ pids e
      → pids (set_pid pid v d) ≡ pids (set_pid pid w e)
  unfolding pids set_pid
  pids-set_pid pid v w [] [] h = refl
  pids-set_pid pid v w [] ((q, x) ∷ e) h = cc
  pids-set_pid pid v w ((p, x) ∷ d) [] h = cc
  pids-set_pid pid v w ((p, x) ∷ d) ((q, y) ∷ e) h = ground (arith, pids-set_pid pid v w d e)

-- Every child has a pipe, every pipe a child, in one order.
abbrev pub IsMatched : {Data : Type 0} → WorkerState Data → Type 0
IsMatched s = pids s.children ≡ pids s.write_pipes

abbrev pub ids : PidDict ℕ → List ℕ
ids [] = []
ids ((p, worker_id) ∷ d) = worker_id ∷ ids d

ids-set_pid_new :
    (pid worker_id : ℕ) (d : PidDict ℕ)
    → elem_pid pid (pids d) ≡ false
    → ids (set_pid pid worker_id d) ≡ ids d ++ worker_id ∷ []
unfolding set_pid pids elem_pid
ids-set_pid_new pid worker_id [] h = refl
ids-set_pid_new pid worker_id ((p, w) ∷ d) h = ground (arith, ids-set_pid_new pid worker_id d)

ids-pop_pid :
    (pid worker_id : ℕ) (d : PidDict ℕ)
    → get_pid pid d ≡ some worker_id
    → Perm (ids d) (worker_id ∷ ids (pop_pid pid d))
unfolding get_pid pop_pid
ids-pop_pid pid worker_id [] h = cc
ids-pop_pid pid worker_id ((p, w) ∷ d) h = elim (Bool-cases (eqb p pid)) [
  | inl same ↦
      let own : w ≡ worker_id = ground arith in
      rw same (subst (λ x. Perm (w ∷ ids d) (x ∷ ids d)) own (Perm.refl (w ∷ ids d)))
  | inr other ↦
      let later : get_pid pid d ≡ some worker_id = ground arith in
      rw other (
        Perm.trans (Perm.cons w (ids-pop_pid pid worker_id d later))
          (Perm.swap worker_id w (ids (pop_pid pid d))))
]

pub elem-mark : (pid : ℕ) (ps : List ℕ) → elem_pid pid (mark pid ps) ≡ true
unfolding mark
elem-mark pid ps = elim (Bool-cases (elem_pid pid ps)) [
  | inl has ↦ rw has has
  | inr new ↦ rw new (elem_pid-append ps)
]
  where
    elem_pid-append : (qs : List ℕ) → elem_pid pid (qs ++ pid ∷ []) ≡ true
    elem_pid-append [] = unfold elem_pid in ground arith
    elem_pid-append (q ∷ qs) = let ih = elem_pid-append qs in unfold elem_pid in ground (arith, ih)

pub get_pid-set_pid :
    {V : Type 0} (pid : ℕ) (v : V) (d : PidDict V) → get_pid pid (set_pid pid v d) ≡ some v
unfolding get_pid set_pid
get_pid-set_pid pid v [] = ground arith
get_pid-set_pid pid v ((p, w) ∷ d) = ground (arith, get_pid-set_pid pid v d)

module _ {Data : Type 0} (pid : ℕ) (status : Status) (new_pid : ℕ) (shared_data : Option Data)
    (s : WorkerState Data) where
  abbrev pub after : WorkerState Data
  after = on_exit pid status new_pid shared_data s

  after_known :
      (worker_id : ℕ)
      → get_pid pid s.children ≡ some worker_id
      → after ≡ worker_exit worker_id pid status new_pid shared_data s
  unfolding on_exit
  after_known worker_id h = rw h

  pub restarted :
      (worker_id : ℕ)
      → get_pid pid s.children ≡ some worker_id
      → exited_normally status ≡ false
      → s.terminating ≡ false
      → after ≡ on_worker_restart (start_child worker_id new_pid shared_data (forget pid s)) new_pid
  restarted worker_id known abnormal running =
      after_known worker_id known ∙ unfold worker_exit in rw (abnormal, running)

  pub left :
      (worker_id : ℕ)
      → get_pid pid s.children ≡ some worker_id
      → (exited_normally status || s.terminating) ≡ true
      → after ≡ forget pid s
  left worker_id known stays = after_known worker_id known ∙ unfold worker_exit in ground arith

  ids-start_child :
      (worker_id : ℕ) (t : WorkerState Data)
      → elem_pid new_pid (pids t.children) ≡ false
      → ids (start_child worker_id new_pid shared_data t).children
        ≡ ids t.children ++ worker_id ∷ []
  unfolding start_child
  ids-start_child worker_id t fresh = elim (Option-cases shared_data) [
    | inl e ↦ rw e (ids-set_pid_new new_pid worker_id t.children fresh)
    | inr (d, e) ↦ rw e (ids-set_pid_new new_pid worker_id t.children fresh)
  ]

  get_pid-start_child :
      (worker_id : ℕ) (t : WorkerState Data)
      → get_pid new_pid (start_child worker_id new_pid shared_data t).children ≡ some worker_id
  unfolding start_child
  get_pid-start_child worker_id t = elim (Option-cases shared_data) [
    | inl e ↦ rw e (get_pid-set_pid new_pid worker_id t.children)
    | inr (d, e) ↦ rw e (get_pid-set_pid new_pid worker_id t.children)
  ]

  start_child-IsMatched :
      (worker_id : ℕ) (t : WorkerState Data)
      → IsMatched t
      → IsMatched (start_child worker_id new_pid shared_data t)
  unfolding start_child
  start_child-IsMatched worker_id t h = elim (Option-cases shared_data) [
    | inl e ↦ rw e (pids-set_pid new_pid worker_id [] t.children t.write_pipes h)
    | inr (d, e) ↦ rw e (pids-set_pid new_pid worker_id [] t.children t.write_pipes h)
  ]

  -- When a worker that is not being shut down dies, by a signal or with an error, its id is at work
  -- again under a new process id, the same worker ids are at work as before, and the new process is
  -- marked for the data that it may have missed, with the resending thread notified.
  pub on_exit-restart :
      (worker_id : ℕ)
      → get_pid pid s.children ≡ some worker_id
      → exited_normally status ≡ false
      → s.terminating ≡ false
      → elem_pid new_pid (pids (pop_pid pid s.children)) ≡ false
      → Perm (ids after.children) (ids s.children)
        × (get_pid new_pid after.children ≡ some worker_id)
        × (elem_pid new_pid after.resend_dict ≡ true)
        × (after.notified ≡ true)
  unfolding on_worker_restart forget
  on_exit-restart worker_id known abnormal running fresh =
      let t = forget pid s in
      rw (restarted worker_id known abnormal running) (
        (rw (ids-start_child worker_id t fresh) (
            Perm.trans (perm_append_singleton worker_id (ids t.children))
              (Perm.symm (ids-pop_pid pid worker_id s.children known)))),
        get_pid-start_child worker_id t,
        elem-mark new_pid (start_child worker_id new_pid shared_data t).resend_dict,
        refl,
      )

  -- A worker that exits normally, or dies while the server is being shut down, leaves the children
  -- for good, and no other worker does.
  on_exit-leaves :
      (worker_id : ℕ)
      → get_pid pid s.children ≡ some worker_id
      → (exited_normally status || s.terminating) ≡ true
      → Perm (ids s.children) (worker_id ∷ ids after.children)
  unfolding forget
  on_exit-leaves worker_id known stays =
      subst (λ t. Perm (ids s.children) (worker_id ∷ ids (WorkerState.children t)))
        (sym (left worker_id known stays)) (ids-pop_pid pid worker_id s.children known)

  pub unknown_exit : get_pid pid s.children ≡ none → after ≡ s
  unfolding on_exit
  unknown_exit unknown = rw unknown

  forget-IsMatched : IsMatched s → IsMatched (forget pid s)
  unfolding forget
  forget-IsMatched h = pids-pop_pid pid s.children s.write_pipes h

  -- Whatever exits, the pipes of the master are those of its children, in the same order.
  on_exit-IsMatched : IsMatched s → IsMatched after
  on_exit-IsMatched h = elim (Option-cases (get_pid pid s.children)) [
    | inl unknown ↦ subst IsMatched (sym (unknown_exit unknown)) h
    | inr (worker_id, known) ↦ elim (Bool-cases (exited_normally status || s.terminating)) [
      | inl stays ↦ subst IsMatched (sym (left worker_id known stays)) (forget-IsMatched h)
      | inr dies ↦ subst IsMatched (sym (restarted worker_id known (ground arith) (ground arith))) (
          unfold on_worker_restart in
          start_child-IsMatched worker_id (forget pid s) (forget-IsMatched h))
    ]
  ]
