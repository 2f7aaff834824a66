-- ===== src/Recorder/Loop.antt =====
-- recorder/ptrace_recorder.c: the loop of `main` over the stops of the traced program.
pub mod Pairs
pub mod History
pub mod Written
pub mod EndToEnd
use os_ai_assisted_determini.Util.Paths.{basename}
use os_ai_assisted_determini.Base.{
  ℕ, ◌+◌, Bool, true, false, not, ◌&&◌, Option, none, some, List, [], ◌∷◌, ltb, ◌==◌, if◌then◌else◌,
  Bytes, codes, length,
}
use os_ai_assisted_determini.Base.Int.{ℤ, pos, to_long}
use os_ai_assisted_determini.Trace.Syscalls.{
  payload_addr, SyscallEntry, is_payload_syscall, payload_len,
}
use os_ai_assisted_determini.Trace.Writer.{TraceWriter, emit_process, emit_syscall, payload_ref}
use os_ai_assisted_determini.Recorder.Payload.{Disk, append_payload}

-- The registers that `PTRACE_GETREGS` gives, as 64-bit values.
pub record Regs : Type 0 where
  pub orig_rax : ℕ
  pub rax : ℕ
  pub rdi : ℕ
  pub rsi : ℕ
  pub rdx : ℕ
  pub r10 : ℕ
  pub r8 : ℕ
  pub r9 : ℕ

-- What the system answers at the end of a call: whether `malloc` succeeds, what `read_child_mem`
-- copies at an address (`none` is its -1), the disk, and the clock.
pub record Answers : Type 0 where
  pub has_memory : Bool
  pub child_mem : ℕ → ℕ → Option Bytes
  pub disk : Disk
  pub time : ℕ

-- What `PTRACE_SYSCALL` and `waitpid` lead to. `lost` is a failure of either, or of
-- `PTRACE_GETREGS` at a stop; `other_stop` is a stop that is no system call.
pub data Stop : Type 0 where
  lost other_stop : Stop
  exited : ℕ → ℕ → Stop
  signaled : ℕ → ℕ → Stop
  syscall_stop : Regs → Answers → Stop

-- The arguments of `write_result`.
pub record RunResult : Type 0 where
  pub exit_code : ℕ
  pub signal_no : ℕ

-- The variables of the loop, and what `write_result` was called with.
pub record Loop : Type 0 where
  pub in_syscall : Bool
  pub entry : SyscallEntry
  pub tw : TraceWriter
  pub result : Option RunResult

unfoldable pub entry_of : Regs → SyscallEntry
entry_of regs = record {
  syscall_no = to_long regs.orig_rax;
  a0 = regs.rdi;
  a1 = regs.rsi;
  a2 = regs.rdx;
  a3 = regs.r10;
  a4 = regs.r8;
  a5 = regs.r9;
}

-- The payload of a call that returned `ret`: the writer and the text of `payload_json`.
unfoldable pub save_payload : TraceWriter → SyscallEntry → ℤ → Answers → TraceWriter × Bytes
save_payload tw entry ret answers =
    let len = payload_len entry ret in
    if not (is_payload_syscall entry.syscall_no && ltb 0 len)
    then (tw, [])
    else if not answers.has_memory
    then (tw, [])
    else elim (answers.child_mem (payload_addr entry) len) [
      | none ↦ (tw, [])
      | some bytes ↦
          if not (length bytes == len)
          then (tw, [])
          else let (tw', ref) = append_payload tw bytes answers.disk in
            elim ref [ none ↦ (tw', []) | some r ↦ (tw', payload_ref r.offset len r.hash) ]
    ]

module _ (pid : ℤ) (target : Bytes) where
  -- The body of the loop at a stop of a system call.
  unfoldable pub at_syscall : Loop → Regs → Answers → Loop
  at_syscall s regs answers =
      if not s.in_syscall
      then record s { entry = entry_of regs; in_syscall = true }
      else let ret = to_long regs.rax in
        let (tw, payload_json) = save_payload s.tw s.entry ret answers in
        record s {
          tw = emit_syscall tw answers.time pid s.entry ret payload_json;
          in_syscall = false;
        }

  -- The loop from a state; it ends at the exit of the program and when it is lost.
  unfoldable pub run : Loop → List Stop → Loop
  unfolding at_syscall
  run s [] = s
  run s (lost ∷ stops) = s
  run s (other_stop ∷ stops) = run s stops
  run s (exited code time ∷ stops) = record s {
    tw = emit_process s.tw time pid (codes "program_exit") (some target);
    result = some (record { exit_code = code; signal_no = 0 });
  }
  run s (signaled signal time ∷ stops) = record s {
    tw = emit_process s.tw time pid (codes "program_signal") (some target);
    result = some (record { exit_code = 128 + signal; signal_no = signal });
  }
  run s (syscall_stop regs answers ∷ stops) = run (at_syscall s regs answers) stops

  abbrev pub no_entry : SyscallEntry
  no_entry = record { syscall_no = pos 0; a0 = 0; a1 = 0; a2 = 0; a3 = 0; a4 = 0; a5 = 0 }

  -- The writer of a run into the directory `out`. The event file is opened for appending, the
  -- payload file is emptied.
  unfoldable pub new_writer : Bytes → Bytes → TraceWriter
  new_writer out old_events = record {
    run_id = basename out;
    events = old_events;
    payload = [];
    seq = 0;
    prev_hash = codes "00";
  }

  -- From the first stop of the child to the end of the loop.
  unfoldable pub record_run : Bytes → Bytes → ℕ → List Stop → Loop
  unfolding run new_writer
  record_run out old_events time stops =
      run
        (record {
          in_syscall = false;
          entry = no_entry;
          tw =
              emit_process (new_writer out old_events) time pid (codes "program_start")
                (some target);
          result = none;
        })
        stops
