-- ===== src/Tests/Hooked.antt =====
-- The hook at a `pthread_mutex_lock`, and two threads.
use mathlib.Core.List.{concat-ne-nil}
use os_ai_assisted_determini.Hooks.Attached.{child_environment, build_path-child_environment}
use os_ai_assisted_determini.Recorder.Loop.{new_writer}
use os_ai_assisted_determini.Util.Paths.{basename, join_path}
use os_ai_assisted_determini.Base.{
  ℕ, ◌+◌, ◌%◌, ◌^◌, ◌≤◌, ◌<◌, ◌≡◌, ◌≢◌, refl, sym, inl, true, false, none, some, [], ◌++◌, arith,
  codes, All, append-nil,
}
use os_ai_assisted_determini.Base.Int.{pos}
use os_ai_assisted_determini.Hooks.{
  Environment, Answers, Shared, build_path, run_id_of, add_and_fetch, sync_text, sync_line, fits,
}
use os_ai_assisted_determini.Libc.Print.{cut_to}
use os_ai_assisted_determini.Hooks.Ignored.{load_line-sync_call}
use os_ai_assisted_determini.Hooks.Lines.{fits-sync_line}
use os_ai_assisted_determini.Hooks.Logged.{Logs, added}
use os_ai_assisted_determini.Hooks.Threads.{
  numbered, System, take_number, write, first_number, initial, Reach, begin, later,
}
use os_ai_assisted_determini.Hooks.Threads.Numbers.{Distinct, numbers, file_text, numbers-Distinct}
use os_ai_assisted_determini.Hooks.Threads.Runs.{numbering, writing}
use os_ai_assisted_determini.Hooks.Wrappers.{
  mutex_lock, Pthread, enter_event, leave_event, sync_call, sync_call-IsSilent, sync_call_events,
  entered,
}
use os_ai_assisted_determini.Replayer.Events.{load_line}

abbrev recording : Environment
recording = record { trace_dir = some (codes "t"); run_id = some (codes "r1") }

abbrev no_trace : Environment
no_trace = record { trace_dir = none; run_id = none }

abbrev all_well : Answers
all_well = record { opens = λ path. true; time = 7; pid = pos 9; tid = pos 9; takes = 4096 }

abbrev fresh : Shared
fresh = record { sync_seq = first_number; events = [] }

-- Each call succeeds at once, and is counted.
abbrev counting : Pthread
counting = record {
  World = ℕ;
  has_symbol = λ name. true;
  pointer_text = λ p. codes "0x10";
  thread_at = λ w p. 5;
  real = λ c h w. (pos 0, h, w + 1);
  disturb = λ a w. w + 100;
}

sync_call-IsSilent_example :
    sync_call counting true recording all_well all_well (mutex_lock 16) fresh 0
    ≡ some (pos 0, fresh, 1)
sync_call-IsSilent_example =
    sync_call-IsSilent counting true recording all_well all_well (mutex_lock 16) fresh 0 refl
      (inl refl)

recording-Logs : Logs recording all_well
unfolding build_path cut_to
recording-Logs = record { somewhere = refl; opened = refl }

sync_call_events_example :
    (shared' : Shared) × (sync_call counting false recording all_well all_well
        (mutex_lock 16)
        fresh
        0
      ≡ some (pos 0, shared', 201))
    × (shared'.sync_seq
        ≡ ((entered counting recording all_well (mutex_lock 16) fresh).sync_seq + 1) % 2 ^ 64)
    × (shared'.events
        ≡ added recording all_well 1000000001 (enter_event counting (mutex_lock 16))
          ++ ([]
              ++ added recording all_well
                  (((entered counting recording all_well (mutex_lock 16) fresh).sync_seq + 1)
                    % 2 ^ 64)
                  (leave_event counting (mutex_lock 16) (pos 0) 101)))
sync_call_events_example =
    sync_call_events counting recording all_well all_well (mutex_lock 16) fresh 0 [] refl
      recording-Logs recording-Logs (sym (append-nil _))

fits-sync_line_example : fits (sync_line (codes "{\"seq\":1")) 2300 ≡ true
unfolding fits
fits-sync_line_example = fits-sync_line (codes "{\"seq\":1") refl

load_line-sync_call_example :
    (load_line (sync_line (sync_text recording all_well 3 (enter_event counting (mutex_lock 16))))
      ≡ none)
    × (load_line (
          sync_line
            (sync_text recording all_well 3 (leave_event counting (mutex_lock 16) (pos 0) 1)))
        ≡ none)
load_line-sync_call_example =
    load_line-sync_call counting recording all_well 3 (mutex_lock 16) (pos 0) 1 (omega arith)
      (λ p. omega arith)

abbrev start : System
start = initial []

abbrev one_numbered : System
one_numbered = numbering start 0

one_taken : Reach recording [] one_numbered
one_taken = later begin (take_number 0 refl)

abbrev one_written : System
one_written =
    writing recording one_numbered 0 1000000001 all_well (enter_event counting (mutex_lock 16))

one_reached : Reach recording [] one_written
unfolding add_and_fetch
one_reached =
    later one_taken (write 0 1000000001 all_well (enter_event counting (mutex_lock 16)) refl)

numbers-Distinct_example :
    (one_written.shared.events ≡ file_text recording one_written.written)
    × Distinct (numbers one_written.written)
    × All (λ q. (first_number < q) × (q ≤ first_number + 1)) (numbers one_written.written)
    × ((i q : ℕ) → one_written.pc i ≡ numbered q → All (λ w. w ≢ q) (numbers one_written.written))
    × ((i j q : ℕ) → one_written.pc i ≡ numbered q → one_written.pc j ≡ numbered q → i ≡ j)
numbers-Distinct_example = numbers-Distinct one_reached (omega arith)

build_path-child_environment_example :
    (build_path (child_environment (codes "out/r1")) ≡ codes "out/r1/events.jsonl")
    × (run_id_of (child_environment (codes "out/r1")) ≡ codes "r1")
unfolding build_path child_environment join_path new_writer basename cut_to
build_path-child_environment_example =
    build_path-child_environment (pos 7) (codes "ls") (codes "out/r1") []
      (concat-ne-nil b'1' (codes "out/r"))
