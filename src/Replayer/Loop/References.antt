-- ===== src/Replayer/Loop/References.antt =====
-- The payload references that the replayer writes.
use os_ai_assisted_determini.Base.{
  ℕ, ◌≡◌, ◌<◌, refl, true, false, none, some, [], ◌∷◌, arith, ◌==◌, lt→ltb, Bytes, length, take_all,
  drop, ◌∙◌, ◌+◌, ◌%◌, ◌^◌, ◌++◌, List, take,
}
use os_ai_assisted_determini.Libc.Print.{cut_to}
use os_ai_assisted_determini.Recorder.Loop.{Regs}
use os_ai_assisted_determini.Base.Int.{pos, ℤ}
use os_ai_assisted_determini.Recorder.Payload.{Disk, read_at, read_payload}
use os_ai_assisted_determini.Replayer.Events.{ReplayEvent}
use os_ai_assisted_determini.Replayer.Loop.{
  source_ref, copy_payload, Loop, Answers, at_exit, finish_exit, emit_syscall,
}
use os_ai_assisted_determini.Trace.Writer.{
  TraceWriter, payload_ref, next_seq, emit_line, syscall_body,
}

drop_length : (xs : Bytes) → drop (length xs) xs ≡ []
drop_length [] = refl
drop_length (x ∷ xs) = drop_length xs

-- Nothing stands at the end of a file.
read_at_end : (file : Bytes) (n : ℕ) → 0 < n → read_at file (pos (length file)) n ≡ none
unfolding read_at
read_at_end file n h =
    let short : (0 == n) ≡ false = ground arith in
    rw (drop_length file, take_all {A = ℕ} n [] (omega arith), short) refl

copied :
    (tw : TraceWriter) (disk : Disk) (ev : ReplayEvent) (bytes : Bytes)
    → 0 < ev.length
    → copy_payload tw disk ev (some bytes)
      ≡ record tw { payload = tw.payload ++ take disk.takes bytes }
unfolding copy_payload
copied tw disk ev bytes h = rw (lt→ltb 0 ev.length h) refl

referred :
    (tw : TraceWriter) (ev : ReplayEvent)
    → 0 < ev.length
    → source_ref tw true (some ev) ≡ payload_ref (pos (length tw.payload)) ev.length ev.sha256
unfolding source_ref
referred tw ev h = rw (lt→ltb 0 ev.length h) refl

exit_copies :
    (pid : ℤ) (target : Bytes) (items : List ReplayEvent) (s : Loop) (regs : Regs)
    (answers : Answers) (ev : ReplayEvent) (bytes : Bytes)
    → s.active ≡ some ev
    → read_payload answers.source answers.has_memory ev ≡ some (some bytes)
    → (at_exit pid target items s regs answers).tw
      ≡ emit_syscall
          (copy_payload s.tw answers.disk ev (some bytes))
          answers.time
          answers.disk.tells
          pid
          s.entry
          ev.ret
          (some ev)
unfolding at_exit finish_exit
exit_copies pid target items s regs answers ev bytes active readable =
    simp (at_exit, readable, active)

-- At the end of a call that was matched with an event of which the payload could be read, the
-- replayer first adds the payload to its own payload file and then asks `ftell` for the offset of the
-- reference. Where `ftell` succeeds, the line it writes therefore refers to the length that the file
-- has after that, which is behind the payload: a read of the event's length at that offset of the
-- file fails. The line has the event's result, length and hash.
pub at_exit-dangles :
    (pid : ℤ) (target : Bytes) (items : List ReplayEvent) (s : Loop) (regs : Regs)
    (answers : Answers) (ev : ReplayEvent) (bytes : Bytes)
    → s.active ≡ some ev
    → 0 < ev.length
    → read_payload answers.source answers.has_memory ev ≡ some (some bytes)
    → answers.disk.tells ≡ true
    → let file = s.tw.payload ++ take answers.disk.takes bytes in
      ((at_exit pid target items s regs answers).tw
        ≡ emit_line
            (record s.tw { seq = (s.tw.seq + 1) % 2 ^ 64; payload = file })
            (cut_to 8192 (
              syscall_body s.tw.run_id
                ((s.tw.seq + 1) % 2 ^ 64)
                answers.time
                pid
                s.entry
                ev.ret
                (payload_ref (pos (length file)) ev.length ev.sha256))))
      × (read_at file (pos (length file)) ev.length ≡ none)
unfolding emit_syscall next_seq
at_exit-dangles pid target items s regs answers ev bytes active h readable tells = (
  exit_copies pid target items s regs answers ev bytes active readable
      ∙ rw (copied s.tw answers.disk ev bytes h, tells, referred _ ev h) refl,
  read_at_end _ ev.length h,
)
