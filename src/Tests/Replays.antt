-- ===== src/Tests/Replays.antt =====
-- The replayer at a recorded `getrandom` of four bytes.
use native.Mathlib.Omega.{arith}
use os_ai_assisted_determini.Base.{
  ◌≡◌, refl, ◌⊎◌, ◌++◌, ◌+◌, ◌%◌, ◌^◌, take, ◌∷◌, [], ◌&&◌, not, ltb, leb, false, true, none, some,
  List, Bytes, codes, length, replicate, if◌then◌else◌, ltb→lt,
}
use os_ai_assisted_determini.Base.Int.{pos, negsuc}
use os_ai_assisted_determini.Libc.Print.{print_nat, print_int, cut_to, digits_fuel}
use os_ai_assisted_determini.Recorder.Loop.{Regs}
use os_ai_assisted_determini.Recorder.Payload.{read_payload, read_at}
use os_ai_assisted_determini.Replayer.Bare.{bare_event, load_line-bare_line}
use os_ai_assisted_determini.Replayer.Events.{
  ReplayEvent, load_line, split_lines, no_events, load_replay_events,
}
use os_ai_assisted_determini.Replayer.Lines.{Loaded, load_replay_events_lem}
use os_ai_assisted_determini.Replayer.Load.{recorded_event, recorded_line, load_line-recorded_line}
use os_ai_assisted_determini.Replayer.Loop.{Answers, Loop, exited, start, run, exit_status, at_exit}
use os_ai_assisted_determini.Replayer.Loop.References.{at_exit-dangles}
use os_ai_assisted_determini.Replayer.Loop.Drift.{run_never_drifts}
use os_ai_assisted_determini.Replayer.Loop.Matching.{Call}
use os_ai_assisted_determini.Trace.Syscalls.{
  SyscallEntry, is_no, sys_read, is_payload_syscall, syscall_name,
}
use os_ai_assisted_determini.Trace.Writer.{
  TraceWriter, emit_line, payload_ref, payload_ref_text, syscall_text, event_front, event_name,
  args_text, errno_of, payload_tail, syscall_body, event_line,
}

abbrev getrandom_entry : SyscallEntry
getrandom_entry = record { syscall_no = pos 318; a0 = 4096; a1 = 4; a2 = 0; a3 = 0; a4 = 0; a5 = 0 }

-- A text of the size of a hash.
abbrev digits : Bytes
digits = replicate 64 b'a'

load_line-recorded_line_example :
    load_line (
      recorded_line
        (codes "r1")
        2
        7
        (pos 9)
        getrandom_entry
        (pos 4)
        (pos 0)
        4
        digits
        (codes "00")
        digits)
    ≡ (if is_no getrandom_entry.syscall_no sys_read && not (ltb 0 4 && leb 4 256)
        then none
        else some (recorded_event getrandom_entry (pos 4) (pos 0) 4 digits))
unfolding payload_ref_text syscall_text event_front event_name syscall_name args_text errno_of
    payload_tail print_nat print_int digits_fuel cut_to is_payload_syscall
load_line-recorded_line_example =
    load_line-recorded_line (codes "r1") 2 7 (pos 9) getrandom_entry (pos 4) (pos 0) 4 digits
      (codes "00") digits (ltb→lt _ _ refl) (ltb→lt _ _ refl) (omega arith) (omega arith) refl
      (omega arith) (omega arith) (omega arith) (omega arith) refl

load_line-bare_line_example :
    load_line (
      event_line
        (cut_to 8192 (syscall_body (codes "payload_ref") 2 7 (pos 9) getrandom_entry (negsuc 3) []))
        (codes "00")
        digits)
    ≡ some (bare_event getrandom_entry (negsuc 3))
unfolding syscall_text event_front event_name syscall_name args_text errno_of payload_tail print_nat
    print_int digits_fuel is_payload_syscall
load_line-bare_line_example =
    load_line-bare_line (codes "payload_ref") 2 7 (pos 9) getrandom_entry (negsuc 3) (codes "00")
      digits (ltb→lt _ _ refl) (omega arith) (omega arith) (omega arith) (omega arith) (omega arith)

abbrev enter_call : Regs
enter_call = record {
  orig_rax = 318;
  rax = 0;
  rdi = 8192;
  rsi = 4;
  rdx = 0;
  r10 = 0;
  r8 = 0;
  r9 = 0;
}

abbrev payload_there : Answers
payload_there = record {
  source = some (1 ∷ 2 ∷ 3 ∷ 4 ∷ []);
  has_memory = true;
  disk = record { tells = true; takes = 100 };
  time = 7;
}

abbrev recorded : List ReplayEvent
recorded = recorded_event getrandom_entry (pos 4) (pos 0) 4 digits ∷ []

abbrev one_call : Call
one_call = record {
  enter = enter_call;
  leave = record enter_call { rax = 2 };
  at_start = payload_there;
  at_end = payload_there;
}

abbrev new_replay : TraceWriter
new_replay = record {
  run_id = codes "p1";
  events = [];
  payload = [];
  seq = 0;
  prev_hash = codes "00";
}

run_never_drifts_example :
    ((run
        (pos 9)
        (codes "ls")
        recorded
        (start (pos 9) (codes "ls") recorded new_replay 5)
        (exited 0 6 ∷ [])).drifted
      ≡ false)
    × (exit_status (
          run
            (pos 9)
            (codes "ls")
            recorded
            (start (pos 9) (codes "ls") recorded new_replay 5)
            (exited 0 6 ∷ []))
        ≡ 0)
run_never_drifts_example =
    run_never_drifts (pos 9) (codes "ls") recorded new_replay 5 (exited 0 6 ∷ [])

load_replay_events_lem_example :
    ((some (codes "{}\n") ≡ none) × (load_replay_events (λ n. true) (some (codes "{}\n")) ≡ none))
    ⊎ ((content : Bytes) × (some (codes "{}\n") ≡ some content)
        × Loaded
            (λ n. true)
            (split_lines content)
            no_events
            (load_replay_events (λ n. true) (some (codes "{}\n"))))
load_replay_events_lem_example = load_replay_events_lem (λ n. true) (some (codes "{}\n"))

-- In a call of `getrandom` of which the trace has four bytes.
abbrev in_getrandom : Loop
in_getrandom = record (start (pos 9) (codes "ls") recorded new_replay 5) {
  in_syscall = true;
  entry = getrandom_entry;
  active = some (recorded_event getrandom_entry (pos 4) (pos 0) 4 digits);
}

at_exit-dangles_example :
    ((at_exit (pos 9) (codes "ls") recorded in_getrandom enter_call payload_there).tw
      ≡ emit_line
          (record in_getrandom.tw {
            seq = (in_getrandom.tw.seq + 1) % 2 ^ 64;
            payload = in_getrandom.tw.payload ++ take payload_there.disk.takes (1 ∷ 2 ∷ 3 ∷ 4 ∷ []);
          })
          (cut_to 8192 (
            syscall_body in_getrandom.tw.run_id
              ((in_getrandom.tw.seq + 1) % 2 ^ 64)
              payload_there.time
              (pos 9)
              getrandom_entry
              (pos 4)
              (payload_ref
                (pos (
                  length (
                    in_getrandom.tw.payload ++ take payload_there.disk.takes (1 ∷ 2 ∷ 3 ∷ 4 ∷ []))))
                4
                digits))))
    × (read_at
          (in_getrandom.tw.payload ++ take payload_there.disk.takes (1 ∷ 2 ∷ 3 ∷ 4 ∷ []))
          (pos (
            length (in_getrandom.tw.payload ++ take payload_there.disk.takes (1 ∷ 2 ∷ 3 ∷ 4 ∷ []))))
          4
        ≡ none)
at_exit-dangles_example =
    at_exit-dangles (pos 9) (codes "ls") recorded in_getrandom enter_call payload_there
      (recorded_event getrandom_entry (pos 4) (pos 0) 4 digits) (1 ∷ 2 ∷ 3 ∷ 4 ∷ []) refl
      (omega arith) (unfold read_payload read_at in refl) refl
