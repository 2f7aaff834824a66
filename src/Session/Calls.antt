-- ===== src/Session/Calls.antt =====
-- What a call of the traced program adds to the file, with and without a payload.
use os_ai_assisted_determini.Base.{
  ◌+◌, ◌%◌, ◌^◌, ◌<◌, ◌≡◌, refl, inl, inr, Option, List, [], ◌++◌, none, some, Bytes, length,
  if◌then◌else◌, ◌&&◌, ◌==◌, not, ltb, leb, true, Bool-cases, Option-cases, take,
}
use os_ai_assisted_determini.Base.Int.{ℤ, IsLong, to_long, pos, to_long-IsLong}
use os_ai_assisted_determini.Hash.Hex.{bytes_hex}
use os_ai_assisted_determini.Hash.HexText.{bytes_hex-IsHexDigit, hex-Lacks_quote, length-bytes_hex}
use os_ai_assisted_determini.Libc.Print.{cut_to, cut_to_fits}
use os_ai_assisted_determini.Recorder.Loop.{Regs, Answers, Loop, save_payload, at_syscall}
use os_ai_assisted_determini.Recorder.Loop.EndToEnd.{
  save_payload_lem, payload_len-long, IsCaptured, IsPrintable,
}
use os_ai_assisted_determini.Recorder.Payload.{PayloadRef, Disk, append_payload}
use os_ai_assisted_determini.Replayer.Events.{ReplayEvent}
use os_ai_assisted_determini.Replayer.LinePieces.{reference_line-IsLine}
use os_ai_assisted_determini.Replayer.Load.{recorded_event, load_line-recorded_line}
use os_ai_assisted_determini.Replayer.OneLine.{IsLine}
use os_ai_assisted_determini.Session.Added.{IsClean, Adds, hex-Lacks-newline}
use os_ai_assisted_determini.Session.Steps.{
  of_option, link_of, emit_line-Adds, bare_loaded, emit_syscall-Adds,
}
use os_ai_assisted_determini.Trace.Syscalls.{
  SyscallEntry, is_payload_syscall, is_no, sys_read, payload_len, payload_addr,
}
use os_ai_assisted_determini.Trace.Writer.{
  TraceWriter, emit_syscall, next_seq, event_line, syscall_body, payload_ref, payload_ref_text,
}

append_payload_keeps :
    (tw : TraceWriter) (bytes : Bytes) (disk : Disk)
    → (p : Bytes) × ((append_payload tw bytes disk).0 ≡ record tw { payload = p })
unfolding append_payload
append_payload_keeps tw bytes disk = elim (Bool-cases disk.tells) [
  | inr mute ↦ (tw.payload, rw mute refl)
  | inl tells ↦
      elim (Bool-cases
        (ltb 0 (length bytes) && not (length (take disk.takes bytes) == length bytes))) [
          | inl short ↦ (tw.payload ++ take disk.takes bytes, rw (tells, short) refl)
          | inr whole ↦ (tw.payload ++ take disk.takes bytes, rw (tells, whole) refl)
        ]
]

-- Saving a payload changes nothing but the payload file.
save_payload_keeps :
    (tw : TraceWriter) (entry : SyscallEntry) (ret : ℤ) (answers : Answers)
    → (p : Bytes) × ((save_payload tw entry ret answers).0 ≡ record tw { payload = p })
unfolding save_payload
save_payload_keeps tw entry ret answers =
    elim (Bool-cases (is_payload_syscall entry.syscall_no && ltb 0 (payload_len entry ret))) [
      | inr without ↦ (tw.payload, rw without refl)
      | inl wanted ↦ elim (Bool-cases answers.has_memory) [
        | inr full ↦ (tw.payload, rw (wanted, full) refl)
        | inl memory ↦
            elim (Option-cases (answers.child_mem (payload_addr entry) (payload_len entry ret))) [
              | inl unread ↦ (tw.payload, rw (wanted, memory, unread) refl)
              | inr (bytes, copied) ↦ elim (Bool-cases (length bytes == payload_len entry ret)) [
                | inr short ↦ (tw.payload, rw (wanted, memory, copied, short) refl)
                | inl whole ↦
                    let (p, kept) = append_payload_keeps tw bytes answers.disk in
                    elim (Option-cases (append_payload tw bytes answers.disk).1) [
                      | inl failed ↦ (p, rw (wanted, memory, copied, whole, failed) kept)
                      | inr (ref, given) ↦ (p, rw (wanted, memory, copied, whole, given) kept)
                    ]
              ]
            ]
      ]
    ]

-- The event file is read, not the payload file.
from_payload :
    (tw tw' : TraceWriter) (p : Bytes) (events : List ReplayEvent)
    → Adds (record tw { payload = p }) tw' events
    → Adds tw tw' events
from_payload tw tw' p events a = record {
  lines = a.lines;
  added = a.added;
  whole = a.whole;
  loads = a.loads;
  clean = a.clean;
}

with_payload-IsClean :
    (tw : TraceWriter) (p : Bytes) → IsClean tw → IsClean (record tw { payload = p })
with_payload-IsClean tw p c = record {
  run_quote = c.run_quote;
  run_line = c.run_line;
  link_quote = c.link_quote;
  link_line = c.link_line;
}

module _ (pid : ℤ) (target : Bytes) (s : Loop) (regs : Regs) (answers : Answers) where
  abbrev ret : ℤ
  ret = to_long regs.rax

  -- The end of a call of which no payload reaches the event, whatever the reason is, and its event
  -- fits its buffer.
  pub record IsBare : Type 0 where
    pub at_exit : s.in_syscall ≡ true
    pub bare : (save_payload s.tw s.entry ret answers).1 ≡ []
    pub fits :
        length (syscall_body s.tw.run_id ((s.tw.seq + 1) % 2 ^ 64) answers.time pid s.entry ret [])
        < 8192
    pub number_long : IsLong s.entry.syscall_no
    pub register : regs.rax < 2 ^ 64

  pub at_syscall-bare :
      IsClean s.tw
      → IsBare
      → Adds s.tw (at_syscall pid target s regs answers).tw (of_option (bare_loaded s.entry ret))
  unfolding at_syscall
  at_syscall-bare c h =
      let (p, kept) = save_payload_keeps s.tw s.entry ret answers in
      rw (h.at_exit, h.bare, kept)
        (from_payload s.tw _ p _ (
          emit_syscall-Adds (record s.tw { payload = p }) answers.time pid s.entry ret
            (with_payload-IsClean s.tw p c) h.fits h.number_long
            (to_long-IsLong regs.rax h.register)))

  module _ (bytes : Bytes) (ref : PayloadRef) where
    -- What the replayer loads of a call with a payload.
    abbrev pub captured_loaded : Option ReplayEvent
    captured_loaded =
        let len = payload_len s.entry ret in
        if is_no s.entry.syscall_no sys_read && not (ltb 0 len && leb len 256)
        then none
        else some (recorded_event s.entry ret (pos (length s.tw.payload)) len (bytes_hex bytes))

    pub at_syscall-captured :
        IsClean s.tw
        → IsCaptured pid target s regs answers bytes ref
        → IsPrintable pid target s regs answers bytes ref
        → Adds s.tw (at_syscall pid target s regs answers).tw (of_option captured_loaded)
    unfolding at_syscall emit_syscall next_seq payload_ref
    at_syscall-captured c h p =
        let tw = record s.tw { payload = s.tw.payload ++ bytes } in
        let seq = (s.tw.seq + 1) % 2 ^ 64 in
        let len = payload_len s.entry ret in
        let hash = bytes_hex bytes in
        let reference = payload_ref_text (pos (length s.tw.payload)) len hash in
        let body = syscall_body tw.run_id seq answers.time pid s.entry ret (cut_to 512 reference) in
        let link = link_of tw (cut_to 8192 body) in
        let long = to_long-IsLong regs.rax p.register in
        let saved =
          save_payload_lem s.tw s.entry ret answers bytes ref h.call h.nonempty h.memory h.copied
            h.size h.appended in
        let whole_body : cut_to 8192 body
            ≡ syscall_body tw.run_id seq answers.time pid s.entry ret reference =
          rw (cut_to_fits 512 reference p.ref_fits) (cut_to_fits 8192 _ p.body_fits) in
        let line : IsLine (event_line (cut_to 8192 body) tw.prev_hash link) = rw whole_body (
          reference_line-IsLine tw.run_id seq answers.time pid s.entry ret
            (pos (length s.tw.payload)) len hash tw.prev_hash _ c.run_line
            (hex-Lacks-newline hash (bytes_hex-IsHexDigit bytes)) c.link_line
            (hex-Lacks-newline _ (bytes_hex-IsHexDigit _))) in
        rw (h.at_exit, saved)
          (from_payload s.tw _ (s.tw.payload ++ bytes) _ (
            emit_line-Adds tw (cut_to 8192 body) captured_loaded
              (with_payload-IsClean s.tw (s.tw.payload ++ bytes) c) line
              (load_line-recorded_line tw.run_id seq answers.time pid s.entry ret
                (pos (length s.tw.payload)) len hash tw.prev_hash link p.body_fits p.ref_fits
                p.clean (hex-Lacks_quote hash (bytes_hex-IsHexDigit bytes)) (length-bytes_hex bytes)
                p.number_long long p.file_long (payload_len-long s.entry ret long) h.call)))
