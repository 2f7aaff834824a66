-- ===== src/Recorder/Loop/EndToEnd.antt =====
-- From the child's memory into the trace of the recorder, and back in the replayer.
use os_ai_assisted_determini.Libc.Print.{cut_to}
use os_ai_assisted_determini.Base.{
  ℕ, ◌+◌, ◌%◌, ◌^◌, ◌<◌, ◌≡◌, refl, ap, true, some, ◌++◌, arith, lt→ltb, ==_iff, Bytes, length,
  Lacks,
}
use os_ai_assisted_determini.Base.Int.{ℤ, pos, negsuc, IsLong, to_long}
use os_ai_assisted_determini.Hash.Hex.{bytes_hex}
use os_ai_assisted_determini.Trace.Syscalls.{
  SyscallEntry, is_payload_syscall, payload_addr, payload_len,
}
use os_ai_assisted_determini.Trace.Writer.{
  TraceWriter, next_seq, emit_line, emit_syscall, payload_ref_text, payload_ref, syscall_body,
  material,
}
use os_ai_assisted_determini.Recorder.Payload.{PayloadRef, append_payload, append_payload_lem}
use os_ai_assisted_determini.Recorder.Loop.{Regs, Answers, Loop, save_payload, at_syscall}
use os_ai_assisted_determini.Replayer.Load.{recorded_line}

-- The payload reaches the file, and its reference the event.
pub save_payload_lem :
    (tw : TraceWriter) (entry : SyscallEntry) (ret : ℤ) (answers : Answers) (bytes : Bytes)
    (ref : PayloadRef)
    → is_payload_syscall entry.syscall_no ≡ true
    → 0 < payload_len entry ret
    → answers.has_memory ≡ true
    → answers.child_mem (payload_addr entry) (payload_len entry ret) ≡ some bytes
    → length bytes ≡ payload_len entry ret
    → (append_payload tw bytes answers.disk).1 ≡ some ref
    → save_payload tw entry ret answers ≡ (
      record tw { payload = tw.payload ++ bytes },
      payload_ref (pos (length tw.payload)) (payload_len entry ret) (bytes_hex bytes),
    )
unfolding save_payload
save_payload_lem tw entry ret answers bytes ref call some_bytes memory copied size appended =
    let (tw', ref') = append_payload_lem tw bytes answers.disk ref appended in
    rw
      (
        call,
        lt→ltb 0 (payload_len entry ret) some_bytes,
        memory,
        copied,
        (==_iff _ _).1 size,
        appended,
      )
      (rw (tw', ap (λ (r : PayloadRef). r.offset) ref', ap (λ (r : PayloadRef). r.hash) ref') refl)

-- A payload is not longer than a `long` counts.
pub payload_len-long :
    (entry : SyscallEntry) (ret : ℤ) → IsLong ret → payload_len entry ret < 2 ^ 63
unfolding payload_len
payload_len-long entry (negsuc n) h = omega arith
payload_len-long entry (pos n) h = ground arith

-- The line that a call with a payload adds.
abbrev pub added_line : TraceWriter → ℕ → ℤ → SyscallEntry → ℤ → ℕ → Bytes → Bytes
added_line tw time pid entry ret len bytes =
    let seq = (tw.seq + 1) % 2 ^ 64 in
    let body = cut_to 8192 (
      syscall_body tw.run_id seq time pid entry ret
        (payload_ref (pos (length tw.payload)) len (bytes_hex bytes))) in
    recorded_line tw.run_id seq time pid entry ret (pos (length tw.payload)) len (bytes_hex bytes)
      tw.prev_hash (bytes_hex (material tw.prev_hash body))

module _ (pid : ℤ) (target : Bytes) (s : Loop) (regs : Regs) (answers : Answers) (bytes : Bytes)
    (ref : PayloadRef) where
  abbrev ret : ℤ
  ret = to_long regs.rax

  abbrev len : ℕ
  len = payload_len s.entry ret

  abbrev after : Loop
  after = at_syscall pid target s regs answers

  -- The program stands at the end of a call that fills a buffer, and nothing fails on the way.
  pub record IsCaptured : Type 0 where
    pub at_exit : s.in_syscall ≡ true
    pub call : is_payload_syscall s.entry.syscall_no ≡ true
    pub nonempty : 0 < len
    pub memory : answers.has_memory ≡ true
    pub copied : answers.child_mem (payload_addr s.entry) len ≡ some bytes
    pub size : length bytes ≡ len
    pub appended : (append_payload s.tw bytes answers.disk).1 ≡ some ref

  -- The event fits its buffers, its numbers their types, and the run id holds no quote.
  pub record IsPrintable : Type 0 where
    pub clean : Lacks 0x22 s.tw.run_id
    pub body_fits :
        length (
          syscall_body s.tw.run_id
            ((s.tw.seq + 1) % 2 ^ 64)
            answers.time
            pid
            s.entry
            ret
            (payload_ref_text (pos (length s.tw.payload)) len (bytes_hex bytes)))
        < 8192
    pub ref_fits : length (payload_ref_text (pos (length s.tw.payload)) len (bytes_hex bytes)) < 512
    pub number_long : IsLong s.entry.syscall_no
    pub register : regs.rax < 2 ^ 64
    pub file_long : length s.tw.payload < 2 ^ 63

  pub after_lem :
      IsCaptured
      → (after.tw.events ≡ s.tw.events ++ added_line s.tw answers.time pid s.entry ret len bytes)
        × (after.tw.payload ≡ s.tw.payload ++ bytes)
  unfolding at_syscall emit_syscall emit_line next_seq
  after_lem c =
      let saved =
        save_payload_lem s.tw s.entry ret answers bytes ref c.call c.nonempty c.memory c.copied
          c.size c.appended in
      rw (c.at_exit, saved) (refl, refl)
