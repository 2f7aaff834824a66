-- ===== src/Session/Replayable.antt =====
-- From the files of a recorded run the replayer loads its events, and reads their payloads.
use os_ai_assisted_determini.Base.{
  ℕ, ◌≡◌, refl, ap, ◌∙◌, sym, inl, inr, Bool, List, [], ◌∷◌, ◌++◌, All, All-append, arith, none,
  some, Bytes, codes, Lacks, true, false, if◌then◌else◌, ◌&&◌, not, Bool-cases,
}
use os_ai_assisted_determini.Base.Int.{ℤ, to_long}
use os_ai_assisted_determini.Recorder.Loop.{
  Regs, Answers, Stop, other_stop, Loop, entry_of, run, no_entry, new_writer, record_run,
}
use os_ai_assisted_determini.Recorder.Loop.EndToEnd.{after_lem}
use os_ai_assisted_determini.Recorder.Loop.History.{run-Wrote}
use os_ai_assisted_determini.Recorder.Payload.{PayloadRef, read_payload, read_payload_appended}
use os_ai_assisted_determini.Replayer.Events.{
  ReplayEvent, ReplayEvents, Realloc, split_lines, load_replay_events,
}
use os_ai_assisted_determini.Replayer.Lines.{loaded, load_replay_events_lem}
use os_ai_assisted_determini.Replayer.OneLine.{newline, IsLine}
use os_ai_assisted_determini.Replayer.Passes.{quote}
use os_ai_assisted_determini.Session.Added.{IsClean, Adds-trans, joined, split_lines-joined}
use os_ai_assisted_determini.Session.Calls.{captured_loaded}
use os_ai_assisted_determini.Session.Records.{
  Recorded, with_bytes, events_of, inside, after_call, after_call-outside, IsTaken,
  IsTaken-IsCaptured, Records, finished, in_call, passes, bare, captured, run_call, run-Adds,
}
use os_ai_assisted_determini.Session.Steps.{bare_loaded, IsShort, emit_process-Adds}
use os_ai_assisted_determini.Trace.Syscalls.{SyscallEntry, is_payload_syscall, is_no, sys_read}
use os_ai_assisted_determini.Trace.Writer.{emit_process}
use os_ai_assisted_determini.Util.Paths.{basename}

-- The payload of the event is found in the file.
abbrev pub Reads : Bytes → Recorded → Type 0
Reads file r = read_payload (some file) true r.0 ≡ some r.1

bare-Reads :
    (file : Bytes) (entry : SyscallEntry) (ret : ℤ)
    → All (Reads file) (with_bytes (bare_loaded entry ret) none)
unfolding read_payload
bare-Reads file entry ret =
    elim (Bool-cases
      (is_payload_syscall entry.syscall_no && not (is_no entry.syscall_no sys_read))) [
        | inl kept ↦ rw kept (refl, tt)
        | inr skipped ↦ rw skipped tt
      ]

with_bytes-Reads :
    (file : Bytes) (skipped : Bool) (ev : ReplayEvent) (bytes : Bytes)
    → read_payload (some file) true ev ≡ some (some bytes)
    → All (Reads file) (with_bytes (if skipped then none else some ev) (some bytes))
with_bytes-Reads file true ev bytes h = tt
with_bytes-Reads file false ev bytes h = (h, tt)

-- A file that is made of lines.
file_loads :
    (realloc : Realloc) (file : Bytes) (lines : List Bytes) (found : List ReplayEvent)
    → ((n : ℕ) → realloc n ≡ true)
    → file ≡ joined lines
    → All IsLine lines
    → loaded lines ≡ found
    → (events : ReplayEvents) × (load_replay_events realloc (some file) ≡ some events)
      × (events.items ≡ found)
file_loads realloc file lines found enough made whole loads =
    elim (load_replay_events_lem realloc (some file)) [
      | inl (closed, failed) ↦ cc
      | inr (content, opened, inl (n, refused, failed)) ↦ let always = enough n in cc
      | inr (content, opened, inr (events, done, items, sound)) ↦
          let same : content ≡ file = cc in
          (
            events,
            done,
            items
                ∙ ap loaded (ap split_lines (same ∙ made) ∙ split_lines-joined lines whole)
                ∙ loads,
          )
    ]

module _ (pid : ℤ) (target : Bytes) where
  run_passes :
      (s : Loop) (stops : List Stop)
      → run pid target s (other_stop ∷ stops) ≡ run pid target s stops
  unfolding run
  run_passes s stops = refl

  captured-Reads :
      (s : Loop) (enter leave : Regs) (b : Answers) (bytes : Bytes) (ref : PayloadRef)
      (file : Bytes) (grown : Bytes)
      → IsTaken enter leave b s.tw bytes ref
      → file ≡ (after_call pid target s enter leave b).tw.payload ++ grown
      → All
          (Reads file)
          (with_bytes (captured_loaded pid target (inside s enter) leave b bytes ref) (some bytes))
  captured-Reads s enter leave b bytes ref file grown taken grows =
      let h = IsTaken-IsCaptured pid target s enter leave b bytes ref taken in
      with_bytes-Reads file _ _ bytes (
        rw (grows, (after_lem pid target (inside s enter) leave b bytes ref h).1)
          (read_payload_appended s.tw.payload bytes grown _ refl (sym h.size)
            (omega (arith, h.size, h.nonempty))))

  run-Reads :
      {s : Loop} {stops : List Stop} {rs : List Recorded}
      → Records pid target s stops rs
      → s.in_syscall ≡ false
      → All (Reads (run pid target s stops).tw.payload) rs
  run-Reads (finished s stops h) o = tt
  run-Reads (in_call s enter a n stops h) o = tt
  run-Reads (passes s stops rs r) o = rw (run_passes s stops) (run-Reads r o)
  run-Reads (bare s enter leave a b n stops rs h r) o =
      rw (run_call pid target s enter leave a b n stops o) (
        All-append _ (with_bytes (bare_loaded (entry_of enter) (to_long leave.rax)) none) rs
          (bare-Reads _ (entry_of enter) (to_long leave.rax))
          (run-Reads r (after_call-outside pid target s enter leave b)))
  run-Reads (captured s enter leave a b bytes ref n stops rs h p r) o =
      let after = after_call pid target s enter leave b in
      let later = run-Wrote pid target stops after in
      rw (run_call pid target s enter leave a b n stops o) (
        All-append _
          (with_bytes (captured_loaded pid target (inside s enter) leave b bytes ref) (some bytes))
          rs (captured-Reads s enter leave b bytes ref _ later.grown h later.payload_grown)
          (run-Reads r (after_call-outside pid target s enter leave b)))

  -- The loop of the recorder at its first round, with an empty event file.
  abbrev pub first_loop : Bytes → ℕ → Loop
  first_loop out time = record {
    in_syscall = false;
    entry = no_entry pid target;
    tw = emit_process (new_writer pid target out []) time pid (codes "program_start") (some target);
    result = none;
  }

  -- A whole recording comes back. The recorder starts with an empty event file, which takes every
  -- line; the stops of the child come in any order, up to the program's end, also in a call that does
  -- not return, or the end of the list; every event fits its buffers with numbers of their C types;
  -- the run id and the target hold no quote and no newline; and `realloc` never refuses. Then, whichever
  -- calls fail or have their payload lost, `load_replay_events` loads from the event file exactly the
  -- events of the returned calls of the four kinds with payloads, in order, but for a `read` without
  -- payload or with more than 256 bytes; and `read_payload` finds in the payload file at its end the
  -- bytes that the recorder took for each of them, which stood at the address of the call's buffer.
  pub record_run-load_replay_events :
      (realloc : Realloc) (out : Bytes) (time : ℕ) (stops : List Stop) (rs : List Recorded)
      → ((n : ℕ) → realloc n ≡ true)
      → Lacks quote (basename out)
      → Lacks newline (basename out)
      → IsShort (new_writer pid target out []) time pid (codes "program_start") target
      → Records pid target (first_loop out time) stops rs
      → ((events : ReplayEvents) × (load_replay_events realloc
              (some (record_run pid target out [] time stops).tw.events)
            ≡ some events)
          × (events.items ≡ events_of rs))
        × All (Reads (record_run pid target out [] time stops).tw.payload) rs
  unfolding record_run new_writer
  record_run-load_replay_events realloc out time stops rs enough run_quote run_line short r =
      let clean : IsClean (new_writer pid target out []) = record {
        run_quote = run_quote;
        run_line = run_line;
        link_quote = omega arith;
        link_line = omega arith;
      } in
      let begun =
        emit_process-Adds (new_writer pid target out []) time pid (codes "program_start") target
          clean short in
      let all =
        Adds-trans (new_writer pid target out []) (first_loop out time).tw _ [] (events_of rs) begun
          (run-Adds pid target r refl begun.clean) in
      (
        file_loads realloc _ all.lines (events_of rs) enough all.added all.whole all.loads,
        run-Reads r refl,
      )
