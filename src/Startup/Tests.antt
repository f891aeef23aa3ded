-- ===== src/Startup/Tests.antt =====
-- Two workers that come up, and one that does not.
use frontik.Prelude.{true, List, [], ◌∷◌, ◌≡◌, refl, arith}
use frontik.Process.Workers.{get_pid, set_pid}
use frontik.Startup.{
  Action, initialised, fails, dies, poll, restarted, step, run, forked, supervising,
  get_current_status, up_since, seconds, init_app, new_shared,
}
use frontik.Startup.Told.{missing}
use frontik.Startup.Reached.{Ends, get_current_status-up, poll-Ends}

-- one worker ends when it has come up, and another comes up in its place
abbrev good : List Action
good = initialised 7 ∷ poll 1 true ∷ dies 7 ∷ initialised 8 ∷ poll 2 true ∷ restarted ∷ []

status : get_current_status 500 (run good (forked (7 ∷ 8 ∷ []) 60)).shared ≡ up_since (seconds 500)
unfolding get_current_status run get_pid set_pid init_app
status = refl

get_current_status-up_example :
    ((run good (forked (7 ∷ 8 ∷ []) 60)).master ≡ supervising)
    × (missing (run good (forked (7 ∷ 8 ∷ []) 60)).workers ≡ 0)
get_current_status-up_example = get_current_status-up (7 ∷ 8 ∷ []) 60 good 500 (seconds 500) status

abbrev bad : List Action
bad = initialised 7 ∷ fails 8 ∷ poll 1 true ∷ []

poll-Ends_example :
    Ends 500
      (run bad (forked (7 ∷ 8 ∷ []) 60))
      (step (poll 61 true) (run bad (forked (7 ∷ 8 ∷ []) 60)))
unfolding run get_pid set_pid init_app
poll-Ends_example = poll-Ends (7 ∷ 8 ∷ []) 60 bad 500 61 refl (omega arith)

-- a single process is its own master
single : get_current_status 500 (init_app true (new_shared 1)) ≡ up_since (seconds 500)
unfolding get_current_status init_app
single = refl
