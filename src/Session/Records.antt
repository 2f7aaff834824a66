-- ===== src/Session/Records.antt =====
-- A recorded run, and what the replayer loads of its files.
use os_ai_assisted_determini.Base.{
  ◌<◌, ◌∙◌, ℕ, sym, length, ◌≡◌, refl, ap, Option, List, [], ◌∷◌, ◌++◌, none, some, Bytes, codes,
  true, false,
}
use os_ai_assisted_determini.Base.Int.{ℤ, to_long}
use os_ai_assisted_determini.Recorder.Buffers.{
  number_of, buffer_of, size_of, payload_addr-buffer_of, payload_len-size_of,
}
use os_ai_assisted_determini.Recorder.Loop.Pairs.{others, run-others}
use os_ai_assisted_determini.Trace.Syscalls.{is_payload_syscall}
use os_ai_assisted_determini.Trace.Writer.{TraceWriter}
use os_ai_assisted_determini.Recorder.Payload.{append_payload}
use os_ai_assisted_determini.Recorder.Loop.{
  Regs, Answers, Stop, lost, other_stop, exited, signaled, syscall_stop, Loop, entry_of, at_syscall,
  run,
}
use os_ai_assisted_determini.Recorder.Loop.EndToEnd.{IsCaptured, IsPrintable}
use os_ai_assisted_determini.Recorder.Payload.{PayloadRef}
use os_ai_assisted_determini.Replayer.Events.{ReplayEvent}
use os_ai_assisted_determini.Session.Added.{IsClean, Adds, Adds-trans, Adds-refl}
use os_ai_assisted_determini.Session.Calls.{
  IsBare, at_syscall-bare, captured_loaded, at_syscall-captured,
}
use os_ai_assisted_determini.Session.Steps.{of_option, bare_loaded, IsShort, emit_process-Adds}

-- An event of the trace, and the payload that the recorder took for it.
abbrev pub Recorded : Type 0
Recorded = ReplayEvent × Option Bytes

abbrev pub with_bytes : Option ReplayEvent → Option Bytes → List Recorded
with_bytes none bytes = []
with_bytes (some ev) bytes = (ev, bytes) ∷ []

abbrev pub events_of : List Recorded → List ReplayEvent
events_of [] = []
events_of (r ∷ rs) = r.0 ∷ events_of rs

events_of-with_bytes :
    (o : Option ReplayEvent) (bytes : Option Bytes) (rs : List Recorded)
    → events_of (with_bytes o bytes ++ rs) ≡ of_option o ++ events_of rs
events_of-with_bytes none bytes rs = refl
events_of-with_bytes (some ev) bytes rs = refl

-- Inside of a call that was entered with these registers.
abbrev pub inside : Loop → Regs → Loop
inside s enter = record s { entry = entry_of enter; in_syscall = true }

-- A call that entered with `enter` and returns with `leave` has a payload, and nothing fails on the way:
-- the bytes are those at the address of its buffer when it returns.
pub record IsTaken (enter leave : Regs) (b : Answers) (tw : TraceWriter) (bytes : Bytes)
    (ref : PayloadRef) : Type 0 where
  pub call : is_payload_syscall (number_of enter) ≡ true
  pub nonempty : 0 < size_of (number_of enter) (to_long leave.rax)
  pub memory : b.has_memory ≡ true
  pub copied :
      b.child_mem
        (buffer_of (number_of enter) enter)
        (size_of (number_of enter) (to_long leave.rax))
      ≡ some bytes
  pub size : length bytes ≡ size_of (number_of enter) (to_long leave.rax)
  pub appended : (append_payload tw bytes b.disk).1 ≡ some ref

module _ (pid : ℤ) (target : Bytes) where
  pub IsTaken-IsCaptured :
      (s : Loop) (enter leave : Regs) (b : Answers) (bytes : Bytes) (ref : PayloadRef)
      → IsTaken enter leave b s.tw bytes ref
      → IsCaptured pid target (inside s enter) leave b bytes ref
  unfolding entry_of
  IsTaken-IsCaptured s enter leave b bytes ref h =
      let size = payload_len-size_of enter (to_long leave.rax) h.call in
      record {
        at_exit = refl;
        call = h.call;
        nonempty = rw size h.nonempty;
        memory = h.memory;
        copied = rw (size, payload_addr-buffer_of enter h.call) h.copied;
        size = h.size ∙ sym size;
        appended = h.appended;
      }

  -- The stops after which the loop ends: none, a lost child, or the program's end.
  pub data Ending (tw : TraceWriter) : List Stop → Type 0 where
    cut_off : Ending tw []
    loses : (stops : List Stop) → Ending tw (lost ∷ stops)
    ends :
        (code time : ℕ) (stops : List Stop)
        → IsShort tw time pid (codes "program_exit") target
        → Ending tw (exited code time ∷ stops)
    killed :
        (signal time : ℕ) (stops : List Stop)
        → IsShort tw time pid (codes "program_signal") target
        → Ending tw (signaled signal time ∷ stops)

  abbrev pub after_call : Loop → Regs → Regs → Answers → Loop
  after_call s enter leave b = at_syscall pid target (inside s enter) leave b

  -- The stops from a state between two calls, in any order that `ptrace` gives them, and what the
  -- trace has of them for the replayer: the list ends between two calls or in a call that does not
  -- return, like `exit_group`; other stops come anywhere; each call that returns either has a payload
  -- or none that reaches its event. Every line fits its buffers.
  pub data Records : Loop → List Stop → List Recorded → Type 0 where
    finished : (s : Loop) (stops : List Stop) → Ending s.tw stops → Records s stops []
    in_call :
        (s : Loop) (enter : Regs) (a : Answers) (n : ℕ) (stops : List Stop)
        → Ending s.tw stops
        → Records s (syscall_stop enter a ∷ others n stops) []
    passes :
        (s : Loop) (stops : List Stop) (rs : List Recorded)
        → Records s stops rs
        → Records s (other_stop ∷ stops) rs
    bare :
        (s : Loop) (enter leave : Regs) (a b : Answers) (n : ℕ) (stops : List Stop)
        (rs : List Recorded)
        → IsBare pid target (inside s enter) leave b
        → Records (after_call s enter leave b) stops rs
        → Records s
            (syscall_stop enter a ∷ others n (syscall_stop leave b ∷ stops))
            (with_bytes (bare_loaded (entry_of enter) (to_long leave.rax)) none ++ rs)
    captured :
        (s : Loop) (enter leave : Regs) (a b : Answers) (bytes : Bytes) (ref : PayloadRef) (n : ℕ)
        (stops : List Stop) (rs : List Recorded)
        → IsTaken enter leave b s.tw bytes ref
        → IsPrintable pid target (inside s enter) leave b bytes ref
        → Records (after_call s enter leave b) stops rs
        → Records s (syscall_stop enter a ∷ others n (syscall_stop leave b ∷ stops)) (
            with_bytes (captured_loaded pid target (inside s enter) leave b bytes ref) (some bytes)
            ++ rs)

  entered :
      (s : Loop) (enter : Regs) (a : Answers)
      → s.in_syscall ≡ false
      → at_syscall pid target s enter a ≡ inside s enter
  unfolding at_syscall
  entered s enter a outside = rw outside refl

  pub run_entered :
      (s : Loop) (enter : Regs) (a : Answers) (n : ℕ) (stops : List Stop)
      → s.in_syscall ≡ false
      → run pid target s (syscall_stop enter a ∷ others n stops)
        ≡ run pid target (inside s enter) stops
  unfolding run
  run_entered s enter a n stops outside =
      ap (λ t. run pid target t (others n stops)) (entered s enter a outside)
      ∙ run-others pid target n (inside s enter) stops

  pub run_call :
      (s : Loop) (enter leave : Regs) (a b : Answers) (n : ℕ) (stops : List Stop)
      → s.in_syscall ≡ false
      → run pid target s (syscall_stop enter a ∷ others n (syscall_stop leave b ∷ stops))
        ≡ run pid target (after_call s enter leave b) stops
  unfolding run
  run_call s enter leave a b n stops outside =
      run_entered s enter a n (syscall_stop leave b ∷ stops) outside

  -- A call that returns leaves the loop outside of a call.
  pub after_call-outside :
      (s : Loop) (enter leave : Regs) (b : Answers)
      → (after_call s enter leave b).in_syscall ≡ false
  unfolding at_syscall
  after_call-outside s enter leave b = refl

  run-Ending :
      (s : Loop) {stops : List Stop}
      → Ending s.tw stops
      → IsClean s.tw
      → Adds s.tw (run pid target s stops).tw []
  unfolding run
  run-Ending s cut_off c = Adds-refl s.tw c
  run-Ending s (loses stops) c = Adds-refl s.tw c
  run-Ending s (ends code time stops h) c =
      emit_process-Adds s.tw time pid (codes "program_exit") target c h
  run-Ending s (killed signal time stops h) c =
      emit_process-Adds s.tw time pid (codes "program_signal") target c h

  pub run-Adds :
      {s : Loop} {stops : List Stop} {rs : List Recorded}
      → Records s stops rs
      → s.in_syscall ≡ false
      → IsClean s.tw
      → Adds s.tw (run pid target s stops).tw (events_of rs)
  unfolding run
  run-Adds (finished s stops h) o c = run-Ending s h c
  run-Adds (in_call s enter a n stops h) o c =
      rw (run_entered s enter a n stops o) (run-Ending (inside s enter) h c)
  run-Adds (passes s stops rs r) o c = run-Adds r o c
  run-Adds (bare s enter leave a b n stops rs h r) o c =
      let first = at_syscall-bare pid target (inside s enter) leave b c h in
      rw
        (
          run_call s enter leave a b n stops o,
          events_of-with_bytes (bare_loaded (entry_of enter) (to_long leave.rax)) none rs,
        )
        (Adds-trans s.tw (after_call s enter leave b).tw _ _ (events_of rs) first
          (run-Adds r (after_call-outside s enter leave b) first.clean))
  run-Adds (captured s enter leave a b bytes ref n stops rs h p r) o c =
      let first =
        at_syscall-captured pid target (inside s enter) leave b bytes ref c
          (IsTaken-IsCaptured s enter leave b bytes ref h) p in
      rw
        (
          run_call s enter leave a b n stops o,
          events_of-with_bytes (captured_loaded pid target (inside s enter) leave b bytes ref)
              (some bytes) rs,
        )
        (Adds-trans s.tw (after_call s enter leave b).tw _ _ (events_of rs) first
          (run-Adds r (after_call-outside s enter leave b) first.clean))
