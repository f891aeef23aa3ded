-- ===== src/Process/Workers.antt =====
-- The workers of frontik/process.py: starting them, restarting them when they die, and sending them
-- the shared data. Process ids, the exits and what the pipes accept are the operating system's.
pub mod Supervise
pub mod Exits
pub mod Resend
use frontik.Prelude.{
  Bytes, ℕ, ◌+◌, Bool, true, false, ◌||◌, List, [], ◌∷◌, ◌++◌, Option, none, some, eqb,
  if◌then◌else◌,
}
use frontik.Process.Frames.{frame}

-- a dictionary with process ids as keys, in the order of insertion
abbrev pub PidDict : Type 0 → Type 0
PidDict V = List (ℕ × V)

module _ {V : Type 0} where
  unfoldable pub get_pid : ℕ → PidDict V → Option V
  get_pid pid [] = none
  get_pid pid ((p, v) ∷ d) = if eqb p pid then some v else get_pid pid d

  unfoldable pub pop_pid : ℕ → PidDict V → PidDict V
  pop_pid pid [] = []
  pop_pid pid ((p, v) ∷ d) = let rest = pop_pid pid d in if eqb p pid then d else (p, v) ∷ rest

  unfoldable pub set_pid : ℕ → V → PidDict V → PidDict V
  set_pid pid v [] = (pid, v) ∷ []
  set_pid pid v ((p, w) ∷ d) = if eqb p pid then (p, v) ∷ d else (p, w) ∷ set_pid pid v d

  unfoldable pub pids : PidDict V → List ℕ
  pids [] = []
  pids ((p, v) ∷ d) = p ∷ pids d

unfoldable pub elem_pid : ℕ → List ℕ → Bool
elem_pid pid [] = false
elem_pid pid (p ∷ ps) = eqb p pid || elem_pid pid ps

-- `resend_dict[pid] = True`: its keys, in the order of insertion
unfoldable pub mark : ℕ → List ℕ → List ℕ
unfolding elem_pid
mark pid ps = if elem_pid pid ps then ps else ps ++ pid ∷ []

-- `WorkerState` in the master. A pipe is held as the bytes that it has taken, `resend_notification`
-- as whether its one place is full, and `resend_dict` as its keys.
pub record WorkerState (Data : Type 0) : Type 0 where
  pub children : PidDict ℕ
  pub write_pipes : PidDict Bytes
  pub notified : Bool
  pub resend_dict : List ℕ
  pub terminating : Bool
  pub initial_shared_data : Option Data

pub data Status : Type 0 where
  signaled exited : ℕ → Status

-- What `os.wait()` does: it reports a child, is interrupted (EINTR), or fails otherwise.
pub data Wait : Type 0 where
  child : ℕ → Status → Wait
  interrupted failed : Wait

-- What becomes of the writes for one message: all its bytes are taken, the pipe blocks, before or
-- behind the header, or there is another error; in the latter cases some bytes may be taken.
pub data Write : Type 0 where
  done : Write
  blocked : (header_written : Bool) → Bytes → Write
  broken : Bytes → Write

unfoldable pub exited_normally : Status → Bool
exited_normally (signaled signal) = false
exited_normally (exited code) = eqb code 0

-- the loop ends by `sys.exit(0)`, by the error of `os.wait`, or still waits
pub data Loop (Data : Type 0) : Type 0 where
  exits raises waits : WorkerState Data → Loop Data

module _ {Data : Type 0} where
  -- `put_nowait(True)` with `Full` suppressed, behind `resend_dict[pid] = True`
  unfoldable pub on_worker_restart : WorkerState Data → ℕ → WorkerState Data
  on_worker_restart s pid = record s { resend_dict = mark pid s.resend_dict; notified = true }

  -- `_start_child`, with the id of the new process, and the shared data if there is a lock
  unfoldable pub start_child : ℕ → ℕ → Option Data → WorkerState Data → WorkerState Data
  start_child worker_id pid none s = record s {
    children = set_pid pid worker_id s.children;
    write_pipes = set_pid pid [] s.write_pipes;
  }
  start_child worker_id pid (some shared_data) s = record s {
    children = set_pid pid worker_id s.children;
    write_pipes = set_pid pid [] s.write_pipes;
    initial_shared_data = some shared_data;
  }

  -- a child is taken out of the two dictionaries
  unfoldable pub forget : ℕ → WorkerState Data → WorkerState Data
  forget pid s = record s {
    children = pop_pid pid s.children;
    write_pipes = pop_pid pid s.write_pipes;
  }

  -- the exit of the worker `worker_id`, which stood in `children`
  pub worker_exit : ℕ → ℕ → Status → ℕ → Option Data → WorkerState Data → WorkerState Data
  unfolding forget
  worker_exit worker_id pid status new_pid shared_data s =
      let s' = forget pid s in
      if exited_normally status
      then s'
      else if s'.terminating
      then s'
      else on_worker_restart (start_child worker_id new_pid shared_data s') new_pid

  known_exit : Option ℕ → ℕ → Status → ℕ → Option Data → WorkerState Data → WorkerState Data
  known_exit none pid status new_pid shared_data s = s
  known_exit (some worker_id) pid status new_pid shared_data s =
      worker_exit worker_id pid status new_pid shared_data s

  -- one exit that `_supervise_workers` sees; `new_pid` is the id of the process it may start
  unfoldable pub on_exit : ℕ → Status → ℕ → Option Data → WorkerState Data → WorkerState Data
  unfolding known_exit
  on_exit pid status new_pid shared_data s =
      known_exit (get_pid pid s.children) pid status new_pid shared_data s

  -- `_supervise_workers` over the waits to come, each with the id of the next process
  pub supervise : Option Data → WorkerState Data → PidDict ℕ → List (Wait × ℕ) → Loop Data
  supervise shared_data s [] waits_left = exits s
  supervise shared_data s (c ∷ cs) [] = waits s
  supervise shared_data s (c ∷ cs) ((interrupted, new_pid) ∷ rest) =
      supervise shared_data s s.children rest
  supervise shared_data s (c ∷ cs) ((failed, new_pid) ∷ rest) = raises s
  supervise shared_data s (c ∷ cs) ((child pid status, new_pid) ∷ rest) =
      let s' = on_exit pid status new_pid shared_data s in supervise shared_data s' s'.children rest

  unfoldable pub supervise_workers : Option Data → WorkerState Data → List (Wait × ℕ) → Loop Data
  unfolding supervise
  supervise_workers shared_data s waits_left = supervise shared_data s s.children waits_left

  -- `master_sigterm_handler`: the processes that it sends SIGTERM
  unfoldable pub master_sigterm_handler : WorkerState Data → WorkerState Data × List ℕ
  unfolding pids
  master_sigterm_handler s = (record s { terminating = true }, pids s.children)

  -- `__send_update` to the process `pid`
  unfoldable pub send_update : ℕ → Bytes → Bytes → Write → WorkerState Data → WorkerState Data
  send_update pid taken message done s = record s {
    write_pipes = set_pid pid (taken ++ frame message) s.write_pipes;
  }
  send_update pid taken message (blocked false bytes) s = record s {
    write_pipes = set_pid pid (taken ++ bytes) s.write_pipes;
  }
  send_update pid taken message (blocked true bytes) s = record s {
    write_pipes = set_pid pid (taken ++ bytes) s.write_pipes;
    resend_dict = mark pid s.resend_dict;
    notified = true;
  }
  send_update pid taken message (broken bytes) s = record s {
    write_pipes = set_pid pid (taken ++ bytes) s.write_pipes;
  }

  -- `__send_update` where the pipe is looked up first
  unfoldable pub send_to : Bytes → Write → ℕ → WorkerState Data → WorkerState Data
  send_to message write pid s = elim (get_pid pid s.write_pipes) [
    | none ↦ s
    | some taken ↦ send_update pid taken message write s
  ]

  -- `__send_to_all`, over the pipes that stand in the dictionary
  unfoldable pub send_to_all : List ℕ → Bytes → (ℕ → Write) → WorkerState Data → WorkerState Data
  send_to_all [] message write s = s
  send_to_all (pid ∷ rest) message write s =
      send_to_all rest message write (send_to message (write pid) pid s)

  -- the loop of `__resend` over its clients, which writes twice
  unfoldable pub resend_clients :
      List ℕ → Bytes → (ℕ → Write) → (ℕ → Write) → WorkerState Data → WorkerState Data
  resend_clients [] message first second s = s
  resend_clients (pid ∷ rest) message first second s =
      resend_clients rest message first second
        (send_to message (second pid) pid (send_to message (first pid) pid s))

  -- one round of `__resend`, which waits until it is notified; the lock is held throughout
  unfoldable pub resend : Bytes → (ℕ → Write) → (ℕ → Write) → WorkerState Data → WorkerState Data
  resend message first second s =
      if s.notified
      then resend_clients s.resend_dict message first second
          (record s { notified = false; resend_dict = [] })
      else s
