-- ===== src/Process/Workers/Resend.antt =====
-- Which workers still wait for data, in frontik/process.py.
use mathlib.Core.Path.{subst}
use frontik.Prelude.{
  Bytes, ℕ, ◌≡◌, refl, sym, ap, ◌⊎◌, inl, inr, true, false, ◌||◌, List, [], ◌∷◌, ◌++◌, Option, some,
  if◌then◌else◌, arith, Bool-cases, Option-cases,
}
use frontik.Process.Frames.{frame}
use frontik.Process.Workers.{
  get_pid, pids, elem_pid, WorkerState, Write, done, blocked, broken, on_worker_restart,
  send_update, send_to, send_to_all, resend_clients, resend, on_exit, Status, forget,
  exited_normally,
}
use frontik.Process.Workers.Supervise.{get_pid-set_pid, elem-mark, restarted, left, unknown_exit}

-- No worker waits for the resending thread without the thread having been notified.
abbrev pub IsAwake : {Data : Type 0} → WorkerState Data → Type 0
IsAwake s = (s.resend_dict ≡ []) ⊎ (s.notified ≡ true)

module _ {Data : Type 0} where
  send_update-IsAwake :
      (pid : ℕ) (taken message : Bytes) (write : Write) (s : WorkerState Data)
      → IsAwake s
      → IsAwake (send_update pid taken message write s)
  unfolding send_update
  send_update-IsAwake pid taken message done s h = h
  send_update-IsAwake pid taken message (blocked false bytes) s h = h
  send_update-IsAwake pid taken message (blocked true bytes) s h = inr refl
  send_update-IsAwake pid taken message (broken bytes) s h = h

  send_to-IsAwake :
      (message : Bytes) (write : Write) (pid : ℕ) (s : WorkerState Data)
      → IsAwake s
      → IsAwake (send_to message write pid s)
  unfolding send_to
  send_to-IsAwake message write pid s h = elim (Option-cases (get_pid pid s.write_pipes)) [
    | inl e ↦ rw (e, send_to) h
    | inr (taken, e) ↦ rw (e, send_to) (send_update-IsAwake pid taken message write s h)
  ]

  send_to_all-IsAwake :
      (clients : List ℕ) (message : Bytes) (write : ℕ → Write) (s : WorkerState Data)
      → IsAwake s
      → IsAwake (send_to_all clients message write s)
  unfolding send_to_all
  send_to_all-IsAwake [] message write s h = h
  send_to_all-IsAwake (pid ∷ rest) message write s h =
      send_to_all-IsAwake rest message write _ (send_to-IsAwake message (write pid) pid s h)

  resend_clients-IsAwake :
      (clients : List ℕ) (message : Bytes) (first second : ℕ → Write) (s : WorkerState Data)
      → IsAwake s
      → IsAwake (resend_clients clients message first second s)
  unfolding resend_clients
  resend_clients-IsAwake [] message first second s h = h
  resend_clients-IsAwake (pid ∷ rest) message first second s h =
      resend_clients-IsAwake rest message first second _
        (send_to-IsAwake message (second pid) pid _ (send_to-IsAwake message (first pid) pid s h))

  resend_idle :
      (message : Bytes) (first second : ℕ → Write) (s : WorkerState Data)
      → s.notified ≡ false
      → resend message first second s ≡ s
  unfolding resend
  resend_idle message first second s e =
      ap
        (λ b.
          if b
          then resend_clients s.resend_dict message first second
              (record s { notified = false; resend_dict = [] })
          else s)
        e

  resend_busy :
      (message : Bytes) (first second : ℕ → Write) (s : WorkerState Data)
      → s.notified ≡ true
      → resend message first second s
        ≡ resend_clients s.resend_dict message first second
            (record s { notified = false; resend_dict = [] })
  unfolding resend
  resend_busy message first second s e =
      ap
        (λ b.
          if b
          then resend_clients s.resend_dict message first second
              (record s { notified = false; resend_dict = [] })
          else s)
        e

  resend-IsAwake :
      (message : Bytes) (first second : ℕ → Write) (s : WorkerState Data)
      → IsAwake s
      → IsAwake (resend message first second s)
  resend-IsAwake message first second s h = elim (Bool-cases s.notified) [
    | inl e ↦
        subst IsAwake (sym (resend_busy message first second s e))
          (resend_clients-IsAwake s.resend_dict message first second _ (inl refl))
    | inr e ↦ subst IsAwake (sym (resend_idle message first second s e)) h
  ]

  on_exit-IsAwake :
      (pid : ℕ) (status : Status) (new_pid : ℕ) (shared_data : Option Data) (s : WorkerState Data)
      → IsAwake s
      → IsAwake (on_exit pid status new_pid shared_data s)
  unfolding forget on_worker_restart
  on_exit-IsAwake pid status new_pid shared_data s h =
      elim (Option-cases (get_pid pid s.children)) [
        | inl unknown ↦
            subst IsAwake (sym (unknown_exit pid status new_pid shared_data s unknown)) h
        | inr (worker_id, known) ↦ elim (Bool-cases (exited_normally status || s.terminating)) [
          | inl stays ↦
              subst IsAwake (sym (left pid status new_pid shared_data s worker_id known stays)) h
          | inr dies ↦
              subst IsAwake
                (sym (
                  restarted pid status new_pid shared_data s worker_id known (ground arith)
                    (ground arith)))
                (inr refl)
        ]
      ]

  send_to_known :
      (message taken : Bytes) (write : Write) (pid : ℕ) (s : WorkerState Data)
      → get_pid pid s.write_pipes ≡ some taken
      → send_to message write pid s ≡ send_update pid taken message write s
  unfolding send_to
  send_to_known message taken write pid s h = rw (h, send_to)

-- What the threads of the master do to the state, one at a time: a worker exits, an update is sent
-- to all workers, the resending thread takes its turn.
pub data Step {Data : Type 0} (s : WorkerState Data) : WorkerState Data → Type 0 where
  exit :
      (pid : ℕ) (status : Status) (new_pid : ℕ) (shared_data : Option Data)
      → Step s (on_exit pid status new_pid shared_data s)
  update :
      (message : Bytes) (write : ℕ → Write)
      → Step s (send_to_all (pids s.write_pipes) message write s)
  take_turn : (message : Bytes) (first second : ℕ → Write) → Step s (resend message first second s)

pub data Reach {Data : Type 0} (s : WorkerState Data) : WorkerState Data → Type 0 where
  here : Reach s s
  next : {t u : WorkerState Data} → Reach s t → Step t u → Reach s u

Step-IsAwake : {Data : Type 0} {s t : WorkerState Data} → Step s t → IsAwake s → IsAwake t
Step-IsAwake {s} (exit pid status new_pid shared_data) h =
    on_exit-IsAwake pid status new_pid shared_data s h
Step-IsAwake {s} (update message write) h =
    send_to_all-IsAwake (pids s.write_pipes) message write s h
Step-IsAwake {s} (take_turn message first second) h = resend-IsAwake message first second s h

Reach-IsAwake_of : {Data : Type 0} {s t : WorkerState Data} → IsAwake s → Reach s t → IsAwake t
Reach-IsAwake_of h here = h
Reach-IsAwake_of h (next r step) = Step-IsAwake step (Reach-IsAwake_of h r)

-- Whatever exits, blocks or fails, as long as these steps do not overlap, no worker is left marked
-- for the data without the resending thread being notified.
pub Reach-IsAwake :
    {Data : Type 0} (s t : WorkerState Data) → s.resend_dict ≡ [] → Reach s t → IsAwake t
Reach-IsAwake s t h r = Reach-IsAwake_of (inl h) r

-- An update that is sent to a worker with a pipe is written whole, or the worker is marked for it and
-- the resending thread is notified, unless the pipe blocked before the header or broke.
send_to_lem :
    {Data : Type 0} (message taken : Bytes) (write : Write) (pid : ℕ) (s : WorkerState Data)
    → get_pid pid s.write_pipes ≡ some taken
    → ((get_pid pid (send_to message write pid s).write_pipes ≡ some (taken ++ frame message))
        ⊎ ((elem_pid pid (send_to message write pid s).resend_dict ≡ true)
            × ((send_to message write pid s).notified ≡ true)))
      ⊎ ((bytes : Bytes) × ((write ≡ blocked false bytes) ⊎ (write ≡ broken bytes)))
send_to_lem {Data} message taken write pid s h =
    subst
      (λ (t : WorkerState Data).
        ((get_pid pid t.write_pipes ≡ some (taken ++ frame message))
          ⊎ ((elem_pid pid t.resend_dict ≡ true) × (t.notified ≡ true)))
        ⊎ ((bytes : Bytes) × ((write ≡ blocked false bytes) ⊎ (write ≡ broken bytes))))
      (sym (send_to_known message taken write pid s h)) (outcome write)
  where
    outcome :
        (w : Write)
        → ((get_pid pid (send_update pid taken message w s).write_pipes
              ≡ some (taken ++ frame message))
            ⊎ ((elem_pid pid (send_update pid taken message w s).resend_dict ≡ true)
                × ((send_update pid taken message w s).notified ≡ true)))
          ⊎ ((bytes : Bytes) × ((w ≡ blocked false bytes) ⊎ (w ≡ broken bytes)))
    outcome done =
        inl (inl (unfold send_update in get_pid-set_pid pid (taken ++ frame message) s.write_pipes))
    outcome (blocked false bytes) = inr (bytes, inl refl)
    outcome (blocked true bytes) =
        inl (inr (unfold send_update in (elem-mark pid s.resend_dict, refl)))
    outcome (broken bytes) = inr (bytes, inr refl)
