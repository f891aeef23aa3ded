-- ===== src/Startup.antt =====
-- The start of an application: frontik/server.py, `fork_workers` of frontik/process.py, and the
-- state that frontik/app.py reports. The clock, the ends of the workers and what the
-- application's own code does are parameters.
mod Told
mod Reached
mod Tests
use frontik.Prelude.{
  ℕ, zero, suc, ◌-◌, ◌^◌, Bool, true, false, not, ◌||◌, Option, some, List, [], ◌∷◌, ltb, eqb,
  if◌then◌else◌, length,
}
use frontik.Process.Workers.{PidDict, get_pid, set_pid, pids}

pub data ℤ : Type 0 where
  pos negsuc : ℕ → ℤ

-- `value -= 1` on a `c_int`
pub decrement : ℤ → ℤ
decrement (pos zero) = negsuc 0
decrement (pos (suc n)) = pos n
decrement (negsuc n) = if eqb n (2 ^ 31 - 1) then pos (2 ^ 31 - 1) else negsuc (suc n)

-- `value > 0`
pub is_positive : ℤ → Bool
is_positive (pos zero) = false
is_positive (pos (suc n)) = true
is_positive (negsuc n) = false

-- the part of `WorkerState` that all processes share
pub record Shared : Type 0 where
  pub init_workers_count_down : ℤ
  pub master_done : Bool

-- `FrontikApplication.__init__`, for the option `workers`
abbrev pub new_shared : ℕ → Shared
new_shared workers = record { init_workers_count_down = pos workers; master_done = false }

-- `FrontikApplication.init` behind the integrations, and `_init_app` behind the server: the lock
-- makes the decrement one step
unfoldable pub init_app : Bool → Shared → Shared
unfolding decrement
init_app is_master s = record {
  init_workers_count_down = decrement s.init_workers_count_down;
  master_done = is_master || s.master_done;
}

-- the unit of the text `uptime`, with the time in milliseconds
pub data Uptime : Type 0 where
  seconds minutes hours_and_minutes : ℕ → Uptime

pub data Status : Type 0 where
  up_since : Uptime → Status
  -- the answer 500
  not_started : ℤ → Bool → Status

pub uptime_of : ℕ → Uptime
uptime_of ms =
    if ltb ms 60000 then seconds ms else if ltb ms 3600000 then minutes ms else hours_and_minutes ms

-- `get_current_status`, so many milliseconds after the start
unfoldable pub get_current_status : ℕ → Shared → Status
unfolding is_positive uptime_of
get_current_status ms s =
    if is_positive s.init_workers_count_down || not s.master_done
    then not_started s.init_workers_count_down s.master_done
    else up_since (uptime_of ms)

-- A worker that has been forked is at its start, has come up, or has ended before or behind that.
pub data Phase : Type 0 where
  starting up failed died : Phase

pub data Master : Type 0 where
  waiting supervising raised : Master

-- The master and its first workers, by their process ids; `killed` are those that the master has
-- sent SIGKILL, and `timeout` is the time at which it stops to wait.
pub record System : Type 0 where
  pub shared : Shared
  pub workers : PidDict Phase
  pub master : Master
  pub timeout : ℕ
  pub killed : List ℕ

-- What can happen: a worker comes up, ends before that, or ends behind it; the master looks at the
-- counter at a time, and its action behind the fork ends or raises; a worker that was started in
-- place of another comes up.
pub data Action : Type 0 where
  initialised fails dies : (pid : ℕ) → Action
  poll : (now : ℕ) (after_fork_ends : Bool) → Action
  restarted : Action

pub come_up : Option Phase → ℕ → System → System
unfolding init_app
come_up (some starting) pid s = record s {
  workers = set_pid pid up s.workers;
  shared = init_app false s.shared;
}
come_up _ pid s = s

pub end_early : Option Phase → ℕ → System → System
end_early (some starting) pid s = record s { workers = set_pid pid failed s.workers }
end_early _ pid s = s

pub end_late : Option Phase → ℕ → System → System
end_late (some up) pid s = record s { workers = set_pid pid died s.workers }
end_late _ pid s = s

-- one round of the loop of `fork_workers`, and what follows the loop
pub look : ℕ → Bool → System → System
unfolding is_positive
look now after_fork_ends s =
    if is_positive s.shared.init_workers_count_down
    then if ltb s.timeout now then record s { master = raised; killed = pids s.workers } else s
    else if after_fork_ends
    then record s { master = supervising; shared = record (s.shared) { master_done = true } }
    else record s { master = raised }

pub look_from : Master → ℕ → Bool → System → System
unfolding look
look_from waiting now after_fork_ends s = look now after_fork_ends s
look_from _ now after_fork_ends s = s

-- A worker is started in place of another by a master that supervises.
pub come_up_again : Master → System → System
unfolding init_app
come_up_again supervising s = record s { shared = init_app false s.shared }
come_up_again _ s = s

pub step : Action → System → System
unfolding come_up end_early end_late look_from come_up_again
step (initialised pid) s = come_up (get_pid pid s.workers) pid s
step (fails pid) s = end_early (get_pid pid s.workers) pid s
step (dies pid) s = end_late (get_pid pid s.workers) pid s
step (poll now after_fork_ends) s = look_from s.master now after_fork_ends s
step restarted s = come_up_again s.master s

unfoldable pub run : List Action → System → System
unfolding step
run [] s = s
run (action ∷ actions) s = run actions (step action s)

abbrev pub all_starting : List ℕ → PidDict Phase
all_starting [] = []
all_starting (pid ∷ rest) = (pid, starting) ∷ all_starting rest

-- `fork_workers` behind the loop that starts the workers, with their process ids
abbrev pub forked : List ℕ → ℕ → System
forked pids timeout = record {
  shared = new_shared (length pids);
  workers = all_starting pids;
  master = waiting;
  timeout = timeout;
  killed = [];
}
