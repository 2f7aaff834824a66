-- ===== src/Tests/Sessions.antt =====
-- A recording of a `getrandom` of four bytes.
use os_ai_assisted_determini.Base.{
  ◌≡◌, refl, true, some, List, [], ◌∷◌, All, arith, codes, Bytes, ltb→lt,
}
use os_ai_assisted_determini.Base.Int.{pos}
use os_ai_assisted_determini.Hash.Hex.{bytes_hex}
use os_ai_assisted_determini.Libc.Print.{print_nat, print_int, cut_to, digits_fuel}
use os_ai_assisted_determini.Recorder.Loop.{
  Regs, Loop, Stop, entry_of, syscall_stop, exited, save_payload, at_syscall, new_writer,
  record_run,
}
use os_ai_assisted_determini.Recorder.Loop.EndToEnd.{IsPrintable}
use os_ai_assisted_determini.Recorder.Payload.{append_payload}
use os_ai_assisted_determini.Replayer.Events.{ReplayEvents, load_replay_events}
use os_ai_assisted_determini.Replayer.Load.{recorded_event}
use os_ai_assisted_determini.Session.Records.{
  Recorded, events_of, inside, after_call, Records, IsTaken, captured, in_call, ends,
}
use os_ai_assisted_determini.Replayer.Loop.{Answers}
use os_ai_assisted_determini.Replayer.Loop.Matching.{Call, End, exits}
use os_ai_assisted_determini.Session.Replayable.{Reads, first_loop, record_run-load_replay_events}
use os_ai_assisted_determini.Session.Steps.{IsShort}
use os_ai_assisted_determini.Tests.Traces.{
  enter_getrandom, leave_getrandom, all_well, four_bytes, four_bytes_ref,
}
use os_ai_assisted_determini.Trace.Syscalls.{is_payload_syscall, payload_len, syscall_name}
use os_ai_assisted_determini.Trace.Writer.{
  TraceWriter, emit_process, emit_line, emit_syscall, next_seq, process_body, payload_ref_text,
  syscall_text, event_front, event_name, args_text, errno_of, payload_tail,
}
use os_ai_assisted_determini.Util.Paths.{basename}

abbrev replay_writer : TraceWriter
replay_writer = record {
  run_id = codes "p1";
  events = [];
  payload = [];
  seq = 0;
  prev_hash = codes "00";
}

-- `exit_group(0)`, which does not return.
abbrev enter_exit : Regs
enter_exit = record enter_getrandom { orig_rax = 231; rdi = 0; rsi = 0 }

abbrev stops : List Stop
stops =
    syscall_stop enter_getrandom all_well
    ∷ syscall_stop leave_getrandom all_well
    ∷ syscall_stop enter_exit all_well
    ∷ exited 0 9
    ∷ []

abbrev first : Loop
first = first_loop (pos 9) (codes "ls") (codes "r1") 5

abbrev recorded : List Recorded
recorded =
    (
      recorded_event (inside first enter_getrandom).entry (pos 4) (pos 0) 4 (bytes_hex four_bytes),
      some four_bytes,
    )
    ∷ []

start-IsShort :
    IsShort
      (new_writer (pos 9) (codes "ls") (codes "r1") [])
      5
      (pos 9)
      (codes "program_start")
      (codes "ls")
unfolding new_writer basename process_body event_front print_nat print_int digits_fuel
start-IsShort = record {
  fits = ltb→lt _ _ refl;
  name_quote = omega arith;
  name_line = omega arith;
  target_quote = omega arith;
  target_line = omega arith;
}

exit-IsShort :
    IsShort
      (after_call (pos 9) (codes "ls") first enter_getrandom leave_getrandom all_well).tw
      9
      (pos 9)
      (codes "program_exit")
      (codes "ls")
unfolding new_writer basename process_body event_front print_nat print_int digits_fuel at_syscall
    save_payload append_payload emit_syscall emit_process emit_line next_seq entry_of
    is_payload_syscall payload_len
exit-IsShort = record {
  fits = ltb→lt _ _ refl;
  name_quote = omega arith;
  name_line = omega arith;
  target_quote = omega arith;
  target_line = omega arith;
}

getrandom-IsTaken :
    IsTaken enter_getrandom leave_getrandom all_well first.tw four_bytes four_bytes_ref
unfolding is_payload_syscall append_payload emit_process emit_line next_seq new_writer
getrandom-IsTaken = record {
  call = refl;
  nonempty = omega arith;
  memory = refl;
  copied = refl;
  size = refl;
  appended = refl;
}

getrandom_printable :
    IsPrintable
      (pos 9)
      (codes "ls")
      (inside first enter_getrandom)
      leave_getrandom
      all_well
      four_bytes
      four_bytes_ref
unfolding payload_len bytes_hex payload_ref_text syscall_text event_front event_name syscall_name
    args_text errno_of payload_tail print_nat print_int digits_fuel cut_to emit_process emit_line
    next_seq entry_of new_writer basename
getrandom_printable = record {
  clean = omega arith;
  body_fits = ltb→lt _ _ refl;
  ref_fits = ltb→lt _ _ refl;
  number_long = omega arith;
  register = omega arith;
  file_long = omega arith;
}

records : Records (pos 9) (codes "ls") first stops recorded
unfolding payload_len emit_process emit_line next_seq entry_of new_writer
records =
    captured first enter_getrandom leave_getrandom all_well all_well four_bytes four_bytes_ref 0
      (syscall_stop enter_exit all_well ∷ exited 0 9 ∷ []) [] getrandom-IsTaken getrandom_printable
      (in_call (after_call (pos 9) (codes "ls") first enter_getrandom leave_getrandom all_well)
        enter_exit all_well 0 (exited 0 9 ∷ []) (ends 0 9 [] exit-IsShort))

record_run-load_replay_events_example :
    ((events : ReplayEvents) × (load_replay_events
          (λ n. true)
          (some (record_run (pos 9) (codes "ls") (codes "r1") [] 5 stops).tw.events)
        ≡ some events)
      × (events.items ≡ events_of recorded))
    × All (Reads (record_run (pos 9) (codes "ls") (codes "r1") [] 5 stops).tw.payload) recorded
unfolding basename
record_run-load_replay_events_example =
    record_run-load_replay_events (pos 9) (codes "ls") (λ n. true) (codes "r1") 5 stops recorded
      (λ n. refl) (omega arith) (omega arith) start-IsShort records

-- The file that the recorder leaves.
abbrev payload_file : Bytes
payload_file = (record_run (pos 9) (codes "ls") (codes "r1") [] 5 stops).tw.payload

abbrev replay_answers : Answers
replay_answers = record {
  source = some payload_file;
  has_memory = true;
  disk = record { tells = true; takes = 100 };
  time = 7;
}

-- The same call, with its buffer at another address, which returns less.
abbrev call_again : Call
call_again = record {
  enter = record enter_getrandom { rdi = 8192 };
  leave = record leave_getrandom { rax = 2 };
  at_start = replay_answers;
  at_end = replay_answers;
}

abbrev ending : End
ending = exits enter_exit replay_answers 0 9
