-- ===== src/Trace/Writer.antt =====
-- recorder/ptrace_recorder.c: `trace_writer_t` and the lines of the event file. The replayer has
-- the same `emit_line` and `emit_process`.
use os_ai_assisted_determini.Base.{
  ℕ, ◌+◌, ◌%◌, ◌^◌, Option, none, some, [], ◌∷◌, ◌++◌, Bytes, codes,
}
use os_ai_assisted_determini.Base.Int.{ℤ, pos, negsuc, to_int}
use os_ai_assisted_determini.Hash.Hex.{bytes_hex}
use os_ai_assisted_determini.Libc.Print.{print_nat, print_int, cut_to}
use os_ai_assisted_determini.Trace.Syscalls.{SyscallEntry, syscall_name}

-- The files are their contents so far. `trace_dir` of the recorder is never read.
pub record TraceWriter : Type 0 where
  pub run_id : Bytes
  pub events : Bytes
  pub payload : Bytes
  pub seq : ℕ
  pub prev_hash : Bytes

-- What the hash of an event covers, in the buffer `material`.
unfoldable pub material : Bytes → Bytes → Bytes
material prev_hash body = cut_to 8192 (prev_hash ++ (b'|' ∷ body))

-- The line of an event, and what stands behind its body.
unfoldable pub line_end : Bytes → Bytes → Bytes
line_end prev_hash event_hash =
    codes ",\"prev_hash\":\""
    ++ (prev_hash ++ (codes "\",\"event_hash\":\"" ++ (event_hash ++ codes "\"}\n")))

abbrev pub event_line : Bytes → Bytes → Bytes → Bytes
event_line body prev_hash event_hash = body ++ line_end prev_hash event_hash

-- The event file takes every line whole: the code does not look at the results of `fprintf` and
-- `fflush`, and that they fail is not modelled.
unfoldable pub emit_line : TraceWriter → Bytes → TraceWriter
emit_line tw body =
    let event_hash = bytes_hex (material tw.prev_hash body) in
    record tw {
      events = tw.events ++ event_line body tw.prev_hash event_hash;
      prev_hash = cut_to 65 event_hash;
    }

-- `++tw->seq` on `uint64_t`.
unfoldable pub next_seq : TraceWriter → TraceWriter
next_seq tw = record tw { seq = (tw.seq + 1) % 2 ^ 64 }

-- The fields that every event begins with, up to the value of `etype`; `time` is what `adr_now_ns`
-- gives.
unfoldable pub event_front : Bytes → ℕ → ℕ → ℤ → Bytes → Bytes
event_front run_id seq time pid rest =
    codes "{\"schema_version\":\"adr.trace.v1\",\"run_id\":\""
    ++ (run_id
        ++ (codes "\",\"seq\":"
            ++ (print_nat seq
                ++ (codes ",\"time_ns\":"
                    ++ (print_nat time
                        ++ (codes ",\"pid\":"
                            ++ (print_int pid
                                ++ (codes ",\"tid\":"
                                    ++ (print_int pid ++ (codes ",\"etype\":\"" ++ rest))))))))))

-- The body of `emit_process`; a null target is written as an empty one.
unfoldable pub process_body : Bytes → ℕ → ℕ → ℤ → Bytes → Option Bytes → Bytes
process_body run_id seq time pid name target = event_front run_id seq time pid (
    codes "PROCESS\",\"name\":\""
    ++ (name
        ++ (codes "\",\"phase\":\"instant\",\"args\":{\"target\":\""
            ++ (elim target [ none ↦ [] | some t ↦ t ] ++ codes "\"}"))))

unfoldable pub emit_process : TraceWriter → ℕ → ℤ → Bytes → Option Bytes → TraceWriter
emit_process tw time pid name target =
    let tw' = next_seq tw in
    emit_line tw' (cut_to 4096 (process_body tw'.run_id tw'.seq time pid name target))

-- The name of a system call, or `sys_` and its number.
unfoldable pub event_name : ℤ → Bytes
event_name number = elim (syscall_name number) [
  | some name ↦ name
  | none ↦ cut_to 64 (codes "sys_" ++ print_int number)
]

-- `ret < 0 ? (int)-ret : 0`
unfoldable pub errno_of : ℤ → ℤ
errno_of (pos n) = pos 0
errno_of (negsuc n) = to_int (pos (n + 1))

unfoldable pub args_text : SyscallEntry → Bytes → Bytes
args_text entry rest =
    codes "\"syscall_no\":"
    ++ (print_int entry.syscall_no
        ++ (codes ",\"a0\":"
            ++ (print_nat entry.a0
                ++ (codes ",\"a1\":"
                    ++ (print_nat entry.a1
                        ++ (codes ",\"a2\":"
                            ++ (print_nat entry.a2
                                ++ (codes ",\"a3\":"
                                    ++ (print_nat entry.a3
                                        ++ (codes ",\"a4\":"
                                            ++ (print_nat entry.a4
                                                ++ (codes ",\"a5\":"
                                                    ++ (print_nat entry.a5
                                                        ++ (codes "}," ++ rest))))))))))))))

-- `payload_ref`, or nothing where `payload_json` is empty.
unfoldable pub payload_tail : Bytes → Bytes
payload_tail [] = []
payload_tail (c ∷ json) = b',' ∷ c ∷ json

-- The body of `emit_syscall` up to `errno`, and what follows it.
unfoldable pub syscall_text : Bytes → ℕ → ℕ → ℤ → SyscallEntry → ℤ → Bytes → Bytes
syscall_text run_id seq time pid entry ret rest = event_front run_id seq time pid (
    codes "SYSCALL\",\"name\":\""
    ++ (event_name entry.syscall_no
        ++ (codes "\",\"phase\":\"exit\",\"args\":{"
            ++ args_text entry (
                codes "\"ret\":"
                ++ (print_int ret
                    ++ (codes ",\"errno\":" ++ (print_int (errno_of ret) ++ rest)))))))

abbrev pub syscall_body : Bytes → ℕ → ℕ → ℤ → SyscallEntry → ℤ → Bytes → Bytes
syscall_body run_id seq time pid entry ret payload_json =
    syscall_text run_id seq time pid entry ret (payload_tail payload_json)

unfoldable pub emit_syscall : TraceWriter → ℕ → ℤ → SyscallEntry → ℤ → Bytes → TraceWriter
emit_syscall tw time pid entry ret payload_json =
    let tw' = next_seq tw in
    emit_line tw' (cut_to 8192 (syscall_body tw'.run_id tw'.seq time pid entry ret payload_json))

-- The text of a payload reference, and what the buffer `payload_json` holds of it.
unfoldable pub payload_ref_text : ℤ → ℕ → Bytes → Bytes
payload_ref_text offset len hash =
    codes "\"payload_ref\":{\"file\":\"payload.bin\",\"offset\":"
    ++ (print_int offset
        ++ (codes ",\"length\":"
            ++ (print_nat len
                ++ (codes ",\"sha256\":\"" ++ (hash ++ codes "\",\"encoding\":\"raw\"}")))))

unfoldable pub payload_ref : ℤ → ℕ → Bytes → Bytes
payload_ref offset len hash = cut_to 512 (payload_ref_text offset len hash)
