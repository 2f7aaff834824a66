-- ===== src/Session/Replayed.antt =====
-- The replay of a recorded run.
use os_ai_assisted_determini.Base.{◌≡◌, true, List, [], ◌∷◌, All, some, Bytes}
use os_ai_assisted_determini.Replayer.Loop.{Injection}
use os_ai_assisted_determini.Replayer.Loop.Matching.{
  Call, number, IsSkipped, injection, Follows, finished, other, matched,
}
use os_ai_assisted_determini.Session.Records.{Recorded, events_of, Records}
use os_ai_assisted_determini.Session.Replayable.{Reads}
use os_ai_assisted_determini.Trace.Syscalls.{is_payload_syscall}

-- A program of which the calls with the number of the next event are those of the trace, in order;
-- the replayer can open the payload file and has memory.
pub data Repeats (file : Bytes) : List Recorded → List Call → Type 0 where
  done : Repeats file [] []
  between :
      {rs : List Recorded} {calls : List Call} (c : Call)
      → IsSkipped (events_of rs) (number c)
      → Repeats file rs calls
      → Repeats file rs (c ∷ calls)
  again :
      {rs : List Recorded} {calls : List Call} (c : Call) (r : Recorded)
      → is_payload_syscall (number c) ≡ true
      → r.0.syscall_no ≡ number c
      → c.at_end.source ≡ some file
      → c.at_end.has_memory ≡ true
      → Repeats file rs calls
      → Repeats file (r ∷ rs) (c ∷ calls)

-- For each event the recorded bytes at the address that the call now gives, and the recorded result.
unfoldable pub given :
    {file : Bytes} {rs : List Recorded} {calls : List Call} → Repeats file rs calls → List Injection
given done = []
given (between c h f) = given f
given (again c r h e source memory f) = injection c.enter r.0 r.1 ∷ given f

Repeats-Follows :
    {file : Bytes} {rs : List Recorded} {calls : List Call}
    → Repeats file rs calls
    → All (Reads file) rs
    → Follows (events_of rs) calls
Repeats-Follows done h = finished
Repeats-Follows (between c k f) h = other c k (Repeats-Follows f h)
Repeats-Follows (again c r k e source memory f) h =
    matched c r.0 r.1 k e (rw (source, memory) h.0) (Repeats-Follows f h.1)
