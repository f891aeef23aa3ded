-- ===== src/Process/Tests.antt =====
-- Runs of frontik/process.py, and the theorems at them.
use mathlib.Core.List.{Perm}
use frontik.Prelude.{List, Bytes, ℕ, ◌≡◌, refl, true, false, [], ◌∷◌, ◌++◌, none, some, arith}
use frontik.Process.Frames.{
  message_header_magic, pack, unpack, frame, strip_prefix, find_magic, read_until, read_exactly,
  read_size, after_magic, round, listen, closed, out_of_fuel,
}
use frontik.Process.Frames.Roundtrip.{frames, listen-frames}
use frontik.Process.Frames.Resync.{listen-after_partial, listen-stalls}
use frontik.Process.Workers.{
  WorkerState, get_pid, pop_pid, set_pid, pids, elem_pid, mark, Write, blocked, signaled, exited,
  on_exit, Wait, child, interrupted, send_to, supervise_workers, send_to_all, resend, send_update,
  forget, on_worker_restart, start_child, exited_normally,
}
use frontik.Process.Workers.Supervise.{ids, after, on_exit-restart}
use frontik.Process.Workers.Exits.{Exits, supervise_workers-Exits}
use frontik.Process.Workers.Resend.{IsAwake, here, next, exit, update, Reach-IsAwake}

all_frames : Unit {0}
unfolding listen round after_magic read_size read_until find_magic strip_prefix read_exactly unpack
    pack frame
all_frames = tt

abbrev hello : Bytes
hello = b'h' ∷ b'i' ∷ []

-- Two messages behind two stray bytes.
listen_test : listen 4 16 (1 ∷ 2 ∷ (frame hello ++ frame [])) ≡ (hello ∷ [] ∷ [], closed)
unfolding all_frames
listen_test = refl

listen-frames_example : listen 3 16 (frames (hello ∷ hello ∷ [])) ≡ (hello ∷ hello ∷ [], closed)
listen-frames_example = listen-frames 16 (hello ∷ hello ∷ []) (omega arith)

-- Of a message of five bytes three were written: its rest is taken from the message behind it.
abbrev cut : Bytes
cut = b'u' ∷ b'f' ∷ b'3' ∷ b'1' ∷ b'f' ∷ (pack 8 2 ++ hello)

listen-after_partial_example :
    listen 2 64 (
      message_header_magic
      ++ (pack 8 5 ++ ((b'a' ∷ b'b' ∷ b'c' ∷ []) ++ (frame hello ++ (frame hello ++ [])))))
    ≡ (
      ((b'a' ∷ b'b' ∷ b'c' ∷ []) ++ b'T' ∷ b'1' ∷ []) ∷ hello ∷ (listen 0 64 []).0,
      (listen 0 64 []).1,
    )
unfolding strip_prefix pack frame
listen-after_partial_example =
    listen-after_partial 0 64 5 (b'a' ∷ b'b' ∷ b'c' ∷ []) (b'T' ∷ b'1' ∷ []) cut hello []
      (omega arith) refl refl
      (
        refl,
        (
          refl,
          (
            refl,
            (
              refl,
              (
                refl,
                (refl, (refl, (refl, (refl, (refl, (refl, (refl, (refl, (refl, (refl, tt)))))))))),
              ),
            ),
          ),
        ),
      )
      (omega arith) (omega arith)

listen-stalls_example : listen 9 1 ((1 ∷ 2 ∷ []) ++ (frame hello ++ [])) ≡ ([], out_of_fuel)
unfolding strip_prefix
listen-stalls_example = listen-stalls 9 1 (1 ∷ 2 ∷ []) hello [] (refl, (refl, tt)) (omega arith)

abbrev state : WorkerState ℕ
state = record {
  children = (101, 0) ∷ (102, 1) ∷ [];
  write_pipes = (101, []) ∷ (102, []) ∷ [];
  notified = false;
  resend_dict = [];
  terminating = false;
  initial_shared_data = none;
}

all_workers : Unit {0}
unfolding on_exit supervise_workers send_to_all resend send_to send_update forget on_worker_restart
    start_child get_pid pop_pid set_pid pids elem_pid mark frame pack exited_normally
all_workers = tt

on_exit-restart_example :
    Perm (ids (after 101 (signaled 9) 103 (some 7) state).children) (ids state.children)
    × (get_pid 103 (after 101 (signaled 9) 103 (some 7) state).children ≡ some 0)
    × (elem_pid 103 (after 101 (signaled 9) 103 (some 7) state).resend_dict ≡ true)
    × ((after 101 (signaled 9) 103 (some 7) state).notified ≡ true)
unfolding all_workers
on_exit-restart_example = on_exit-restart 101 (signaled 9) 103 (some 7) state 0 refl refl refl refl

abbrev stopping : WorkerState ℕ
stopping = record state { terminating = true }

abbrev stopping_waits : List (Wait × ℕ)
stopping_waits =
    (child 102 (exited 0), 103)
    ∷ (interrupted, 103)
    ∷ (child 55 (exited 1), 103)
    ∷ (child 101 (signaled 15), 103)
    ∷ []

supervise_workers-Exits_example :
    Exits (some 7) (supervise_workers (some 7) stopping stopping_waits)
unfolding all_workers
supervise_workers-Exits_example = supervise_workers-Exits (some 7) stopping_waits stopping refl refl

abbrev worse : ℕ → Write
worse pid = blocked true (b'T' ∷ [])

Reach-IsAwake_example : IsAwake (
    send_to_all
      (pids (on_exit 101 (exited 3) 103 none state).write_pipes)
      hello
      worse
      (on_exit 101 (exited 3) 103 none state))
Reach-IsAwake_example =
    Reach-IsAwake state _ refl
      (next (next here (exit 101 (exited 3) 103 none)) (update hello worse))
