-- ===== src/Tests/Traces.antt =====
-- The recorder at a `getrandom` of four bytes.
use native.Mathlib.Omega.{arith}
use os_ai_assisted_determini.Base.{
  List, ◌%◌, ◌^◌, length, ◌≡◌, refl, ◌∷◌, [], ◌++◌, ◌⊎◌, false, true, none, some, Bytes, codes,
}
use os_ai_assisted_determini.Base.Int.{pos}
use os_ai_assisted_determini.Hash.Hex.{bytes_hex}
use os_ai_assisted_determini.Recorder.Loop.{Regs, Answers, Loop, exited, record_run}
use os_ai_assisted_determini.Recorder.Loop.Written.{chain_text, chain_end, record_run-chain_text}
use os_ai_assisted_determini.Recorder.Payload.{PayloadRef}
use os_ai_assisted_determini.Trace.Chain.{Collision, emitted_tamper_evident}
use os_ai_assisted_determini.Trace.Writer.{TraceWriter}

abbrev pub four_bytes : Bytes
four_bytes = 1 ∷ 2 ∷ 3 ∷ 4 ∷ []

abbrev pub enter_getrandom : Regs
enter_getrandom = record {
  orig_rax = 318;
  rax = 0;
  rdi = 4096;
  rsi = 4;
  rdx = 0;
  r10 = 0;
  r8 = 0;
  r9 = 0;
}

abbrev pub leave_getrandom : Regs
leave_getrandom = record enter_getrandom { rax = 4 }

abbrev pub all_well : Answers
all_well = record {
  has_memory = true;
  child_mem = λ addr n. some four_bytes;
  disk = record { tells = true; takes = 100 };
  time = 7;
}

abbrev new_trace : TraceWriter
new_trace = record {
  run_id = codes "r1";
  events = [];
  payload = [];
  seq = 1;
  prev_hash = codes "00";
}

abbrev inside_call : Loop
inside_call = record {
  in_syscall = true;
  entry = record { syscall_no = pos 318; a0 = 4096; a1 = 4; a2 = 0; a3 = 0; a4 = 0; a5 = 0 };
  tw = new_trace;
  result = none;
}

abbrev outside_call : Loop
outside_call = record inside_call { in_syscall = false }

abbrev pub four_bytes_ref : PayloadRef
four_bytes_ref = record { offset = pos 0; hash = bytes_hex four_bytes }

emitted_tamper_evident_example :
    ((codes "{\"seq\":1" ∷ []) ≡ (codes "{\"seq\":1" ∷ []))
    ⊎ Collision new_trace new_trace (codes "{\"seq\":1" ∷ []) (codes "{\"seq\":1" ∷ [])
emitted_tamper_evident_example =
    emitted_tamper_evident new_trace new_trace (codes "{\"seq\":1" ∷ []) (codes "{\"seq\":1" ∷ [])
      refl refl (omega arith) (omega arith) refl

record_run-chain_text_example :
    (bodies : List Bytes) × ((record_run
        (pos 9)
        (codes "ls")
        (codes "out/r1")
        (codes "{}\n")
        5
        (exited 0 9 ∷ [])).tw.events
      ≡ codes "{}\n" ++ chain_text (codes "00") bodies)
    × ((record_run
          (pos 9)
          (codes "ls")
          (codes "out/r1")
          (codes "{}\n")
          5
          (exited 0 9 ∷ [])).tw.prev_hash
        ≡ chain_end (codes "00") bodies)
    × ((record_run (pos 9) (codes "ls") (codes "out/r1") (codes "{}\n") 5 (exited 0 9 ∷ [])).tw.seq
          % 2 ^ 64
        ≡ length bodies % 2 ^ 64)
record_run-chain_text_example =
    record_run-chain_text (pos 9) (codes "ls") (codes "out/r1") (codes "{}\n") 5 (exited 0 9 ∷ [])
