-- ===== src/Replayer/Loop/Matching.antt =====
-- A program that makes the recorded calls in the recorded order is given every recorded result.
use os_ai_assisted_determini.Base.{
  ℕ, ◌≡◌, ◌≢◌, ◌⊎◌, true, false, Option, none, some, List, [], ◌∷◌, Bytes, length,
}
use os_ai_assisted_determini.Base.Int.{ℤ, of_long}
use os_ai_assisted_determini.Recorder.Loop.{Regs}
use os_ai_assisted_determini.Recorder.Buffers.{number_of, buffer_of}
use os_ai_assisted_determini.Recorder.Payload.{read_payload}
use os_ai_assisted_determini.Replayer.Events.{ReplayEvent}
use os_ai_assisted_determini.Replayer.Loop.{
  Answers, Stop, syscall_stop, exited, Loop, Injection, at_enter, at_exit,
}
use os_ai_assisted_determini.Trace.Syscalls.{is_payload_syscall}

-- A call: the registers at its two stops, and what the system answers.
pub record Call : Type 0 where
  pub enter : Regs
  pub leave : Regs
  pub at_start : Answers
  pub at_end : Answers

abbrev pub number : Call → ℤ
number c = number_of c.enter

abbrev pub stops_of : List Call → List Stop → List Stop
stops_of [] stops = stops
stops_of (c ∷ calls) stops =
    syscall_stop c.enter c.at_start ∷ syscall_stop c.leave c.at_end ∷ stops_of calls stops

-- How the list of stops ends: behind a call, or with the program's end in a call like `exit_group`.
pub data End : Type 0 where
  cut_off : End
  exits : Regs → Answers → ℕ → ℕ → End

abbrev pub end_stops : End → List Stop
end_stops cut_off = []
end_stops (exits enter a code time) = syscall_stop enter a ∷ exited code time ∷ []

-- The call is not taken for the next event: there is none, or it has another number.
abbrev pub IsSkipped : List ReplayEvent → ℤ → Type 0
IsSkipped [] number = Unit
IsSkipped (ev ∷ evs) number = (is_payload_syscall number ≡ false) ⊎ (ev.syscall_no ≢ number)

-- The calls that have the number of the next event are those of the events, in order, and each payload
-- can be read.
pub data Follows : List ReplayEvent → List Call → Type 0 where
  finished : Follows [] []
  other :
      {evs : List ReplayEvent} {calls : List Call} (c : Call)
      → IsSkipped evs (number c)
      → Follows evs calls
      → Follows evs (c ∷ calls)
  matched :
      {evs : List ReplayEvent} {calls : List Call} (c : Call) (ev : ReplayEvent)
      (buf : Option Bytes)
      → is_payload_syscall (number c) ≡ true
      → ev.syscall_no ≡ number c
      → read_payload c.at_end.source c.at_end.has_memory ev ≡ some buf
      → Follows evs calls
      → Follows (ev ∷ evs) (c ∷ calls)

-- What a call is given: the bytes at the address of its buffer, if there are any, and the result.
abbrev pub injection : Regs → ReplayEvent → Option Bytes → Injection
injection enter ev buf = record {
  memory = elim buf [ none ↦ none | some bytes ↦ some (buffer_of (number_of enter) enter, bytes) ];
  rax = of_long ev.ret;
}

-- For each event its payload at the address that the call gives, and its result.
unfoldable pub injected :
    {evs : List ReplayEvent} {calls : List Call} → Follows evs calls → List Injection
injected finished = []
injected (other c h f) = injected f
injected (matched c ev buf h e r f) = injection c.enter ev buf ∷ injected f

-- Between two calls, with the first events given out.
pub record IsBetween (s : Loop) (used : List ReplayEvent) : Type 0 where
  pub outside : s.in_syscall ≡ false
  pub steady : s.drifted ≡ false
  pub cursor_used : s.cursor ≡ length used

module _ (pid : ℤ) (target : Bytes) (items : List ReplayEvent) where
  abbrev after_call : Loop → Call → Loop
  after_call s c = at_exit pid target items (at_enter pid target items s c.enter) c.leave c.at_end
