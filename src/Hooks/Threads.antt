-- ===== src/Hooks/Threads.antt =====
-- hooks/sync_hook.c: `log_sync_event` in several threads at once. Its accesses to what the threads
-- share are the atomic addition and the `write`; between the two, other threads may run.
pub mod Numbers
pub mod Runs
use os_ai_assisted_determini.Base.{ℕ, ◌+◌, ◌≡◌, List, [], ◌∷◌, ◌==◌, if◌then◌else◌, Bytes}
use os_ai_assisted_determini.Hooks.{
  Environment, SyncEvent, Answers, Shared, add_and_fetch, write_event,
}

-- Where a thread stands, with the number that it has taken.
pub data Pc : Type 0 where
  idle : Pc
  numbered : (seq : ℕ) → Pc

-- An event that has been through its `write`: its number, what the system answered, and its arguments.
pub record Written : Type 0 where
  pub seq : ℕ
  pub answers : Answers
  pub event : SyncEvent

-- The threads and what they share; how many numbers have been taken, and the events that have been
-- through their `write`, the latest first.
pub record System : Type 0 where
  pub shared : Shared
  pub pc : ℕ → Pc
  pub taken : ℕ
  pub written : List Written

abbrev pub update : (ℕ → Pc) → ℕ → Pc → ℕ → Pc
update pc i p j = if i == j then p else pc j

-- A step of one thread: it takes a number, or it writes the event of its number.
pub data Step (env : Environment) (s : System) : System → Type 0 where
  take_number :
      (i : ℕ)
      → s.pc i ≡ idle
      → Step env s (record s {
        shared = add_and_fetch s.shared;
        pc = update s.pc i (numbered (add_and_fetch s.shared).sync_seq);
        taken = s.taken + 1;
      })
  write :
      (i seq : ℕ) (a : Answers) (ev : SyncEvent)
      → s.pc i ≡ numbered seq
      → Step env s (record s {
        shared = write_event env a seq ev s.shared;
        pc = update s.pc i idle;
        written = record { seq = seq; answers = a; event = ev } ∷ s.written;
      })

abbrev pub first_number : ℕ
first_number = 1000000000

-- As the program starts: `sync_seq` has its first value.
abbrev pub initial : Bytes → System
initial events = record {
  shared = record { sync_seq = first_number; events = events };
  pc = λ i. idle;
  taken = 0;
  written = [];
}

pub data Reach (env : Environment) (events : Bytes) : System → Type 0 where
  begin : Reach env events (initial events)
  later : {s t : System} → Reach env events s → Step env s t → Reach env events t
