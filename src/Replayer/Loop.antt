-- ===== src/Replayer/Loop.antt =====
-- replayer/ptrace_replayer.c: its `emit_syscall` and `emit_drift`, and the loop of `main`.
pub mod Drift
pub mod Matching
pub mod References
use os_ai_assisted_determini.Base.{
  ℕ, ◌+◌, Bool, true, false, not, Option, none, some, List, [], ◌∷◌, ◌++◌, ltb, if◌then◌else◌,
  Bytes, codes, length, get_elem?, take,
}
use os_ai_assisted_determini.Base.Int.{same_no, ℤ, pos, negsuc, to_long, of_long}
use os_ai_assisted_determini.Libc.Print.{print_int, cut_to}
use os_ai_assisted_determini.Recorder.Loop.{Regs, RunResult, entry_of}
use os_ai_assisted_determini.Recorder.Payload.{Disk, read_payload}
use os_ai_assisted_determini.Replayer.Events.{ReplayEvent}
use os_ai_assisted_determini.Trace.Syscalls.{SyscallEntry, is_payload_syscall, payload_addr}
use os_ai_assisted_determini.Trace.Writer.{
  TraceWriter, next_seq, event_front, emit_line, emit_process, payload_ref, syscall_body,
}

-- `none` is the null `source`; `tells` is whether `ftell` succeeds.
unfoldable pub source_ref : TraceWriter → Bool → Option ReplayEvent → Bytes
source_ref tw tells none = []
source_ref tw tells (some source) =
    if ltb 0 source.length
    then payload_ref (if tells then pos (length tw.payload) else negsuc 0) source.length
        source.sha256
    else []

unfoldable pub emit_syscall :
    TraceWriter → ℕ → Bool → ℤ → SyscallEntry → ℤ → Option ReplayEvent → TraceWriter
emit_syscall tw time tells pid entry ret source =
    let tw' = next_seq tw in
    emit_line tw' (
      cut_to 8192 (syscall_body tw'.run_id tw'.seq time pid entry ret (source_ref tw tells source)))

-- Nothing in the sources calls it.
unfoldable pub emit_drift : TraceWriter → ℕ → ℤ → ℤ → ℤ → TraceWriter
emit_drift tw time pid expected actual =
    let tw' = next_seq tw in
    emit_line tw' (
      cut_to 1024 (
        event_front tw'.run_id tw'.seq time pid (
          codes
            "DRIFT\",\"name\":\"syscall_mismatch\",\"phase\":\"instant\",\"args\":{\"expected_syscall\":"
          ++ (print_int expected
              ++ (codes ",\"actual_syscall\":"
                  ++ (print_int actual ++ codes "},\"ret\":-1,\"errno\":0"))))))

-- What the system answers at the end of a call: the payload file of the trace, `malloc`, the disk,
-- and the clock.
pub record Answers : Type 0 where
  pub source : Option Bytes
  pub has_memory : Bool
  pub disk : Disk
  pub time : ℕ

pub data Stop : Type 0 where
  lost other_stop : Stop
  exited : ℕ → ℕ → Stop
  signaled : ℕ → ℕ → Stop
  syscall_stop : Regs → Answers → Stop

-- What the child is given in place of the effect of its call: the bytes that `write_child_mem` puts at
-- an address, and the register `rax` of `PTRACE_SETREGS`.
pub record Injection : Type 0 where
  pub memory : Option (ℕ × Bytes)
  pub rax : ℕ

-- The variables of the loop, what `write_result` was called with, and the injections so far.
pub record Loop : Type 0 where
  pub in_syscall : Bool
  pub drifted : Bool
  pub entry : SyscallEntry
  pub cursor : ℕ
  pub active : Option ReplayEvent
  pub tw : TraceWriter
  pub result : Option RunResult
  pub injections : List Injection

-- The event that a call is matched with: the next one, if it has the same number.
unfoldable pub match_event : List ReplayEvent → ℕ → ℤ → Option ReplayEvent
match_event items cursor number =
    if not (is_payload_syscall number) then none else elim (get_elem? items cursor) [
      | none ↦ none
      | some ev ↦ if same_no ev.syscall_no number then some ev else none
    ]

-- The injection of an event whose payload could be read.
unfoldable pub injection_of : SyscallEntry → ReplayEvent → Option Bytes → Injection
injection_of entry ev none = record { memory = none; rax = of_long ev.ret }
injection_of entry ev (some bytes) = record {
  memory = if ltb 0 ev.length then some (payload_addr entry, bytes) else none;
  rax = of_long ev.ret;
}

-- `fwrite(buf, 1, active->length, payload)`
unfoldable pub copy_payload : TraceWriter → Disk → ReplayEvent → Option Bytes → TraceWriter
copy_payload tw disk ev none = tw
copy_payload tw disk ev (some bytes) =
    if ltb 0 ev.length then record tw { payload = tw.payload ++ take disk.takes bytes } else tw

-- `return drifted ? 3 : 0;`
unfoldable pub exit_status : Loop → ℕ
exit_status s = if s.drifted then 3 else 0

module _ (pid : ℤ) (target : Bytes) (items : List ReplayEvent) where
  unfoldable pub at_enter : Loop → Regs → Loop
  at_enter s regs = record s {
    entry = entry_of regs;
    active = match_event items s.cursor (entry_of regs).syscall_no;
    in_syscall = true;
  }

  -- What is left of the exit once the result and the writer are known.
  unfoldable pub finish_exit : Loop → TraceWriter → ℤ → Answers → Loop
  finish_exit s tw ret answers = record s {
    tw = emit_syscall tw answers.time answers.disk.tells pid s.entry ret s.active;
    in_syscall = false;
    result = if s.drifted then some (record { exit_code = 255; signal_no = 0 }) else s.result;
  }

  unfoldable pub at_exit : Loop → Regs → Answers → Loop
  at_exit s regs answers = elim s.active [
    | none ↦ finish_exit s s.tw (to_long regs.rax) answers
    | some ev ↦
        let next = record s { cursor = s.cursor + 1 } in
        elim (read_payload answers.source answers.has_memory ev) [
          | none ↦ finish_exit next s.tw (to_long regs.rax) answers
          | some buf ↦
              finish_exit
                (record next { injections = s.injections ++ injection_of s.entry ev buf ∷ [] })
                (copy_payload s.tw answers.disk ev buf) ev.ret answers
        ]
  ]

  unfoldable pub run : Loop → List Stop → Loop
  run s [] = s
  run s (lost ∷ stops) = s
  run s (other_stop ∷ stops) = run s stops
  run s (exited code time ∷ stops) = record s {
    tw = emit_process s.tw time pid (codes "program_exit") (some target);
    result = some (record { exit_code = code; signal_no = 0 });
  }
  run s (signaled signal time ∷ stops) = record s {
    tw = emit_process s.tw time pid (codes "program_signal") (some target);
    result = some (record { exit_code = 128 + signal; signal_no = signal });
  }
  run s (syscall_stop regs answers ∷ stops) = elim s.in_syscall [
    | false ↦ run (at_enter s regs) stops
    | true ↦ elim s.drifted [
      | true ↦ at_exit s regs answers
      | false ↦ run (at_exit s regs answers) stops
    ]
  ]

  unfoldable pub start : TraceWriter → ℕ → Loop
  start tw time = record {
    in_syscall = false;
    drifted = false;
    entry = record { syscall_no = pos 0; a0 = 0; a1 = 0; a2 = 0; a3 = 0; a4 = 0; a5 = 0 };
    cursor = 0;
    active = none;
    tw = emit_process tw time pid (codes "program_start") (some target);
    result = none;
    injections = [];
  }
