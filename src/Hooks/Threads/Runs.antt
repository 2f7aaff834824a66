-- ===== src/Hooks/Threads/Runs.antt =====
-- Runs of the hook's threads.
use os_ai_assisted_determini.Base.{ℕ, ◌+◌, ◌∷◌}
use os_ai_assisted_determini.Hooks.{Environment, SyncEvent, Answers, add_and_fetch, write_event}
use os_ai_assisted_determini.Hooks.Threads.{idle, numbered, System, update}

abbrev pub numbering : System → ℕ → System
numbering s i = record s {
  shared = add_and_fetch s.shared;
  pc = update s.pc i (numbered (add_and_fetch s.shared).sync_seq);
  taken = s.taken + 1;
}

abbrev pub writing : Environment → System → ℕ → ℕ → Answers → SyncEvent → System
writing env s i seq a ev = record s {
  shared = write_event env a seq ev s.shared;
  pc = update s.pc i idle;
  written = record { seq = seq; answers = a; event = ev } ∷ s.written;
}
