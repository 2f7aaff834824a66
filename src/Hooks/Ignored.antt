-- ===== src/Hooks/Ignored.antt =====
-- What the wrappers log is no event for the replayer.
use os_ai_assisted_determini.Base.{ℕ, ◌≡◌, refl, true, none, arith, Lacks}
use os_ai_assisted_determini.Base.Int.{ℤ}
use os_ai_assisted_determini.Hooks.{Environment, Answers, run_id_of, sync_text, sync_line}
use os_ai_assisted_determini.Hooks.Lines.{pieces, syscall_needle, load_line-sync}
use os_ai_assisted_determini.Hooks.Wrappers.{
  SyncCall, create, join, mutex_lock, mutex_unlock, cond_wait, cond_signal, cond_broadcast, Pthread,
  symbol_name, object_of, enter_key, leave_key, enter_event, leave_event,
}
use os_ai_assisted_determini.Libc.FindLaws.{misses}
use os_ai_assisted_determini.Replayer.Events.{load_line}
use os_ai_assisted_determini.Replayer.Passes.{quote}
use os_ai_assisted_determini.Replayer.Passes.Pieces.{all_miss}

module _ (pthread : Pthread) where
  open pthread use {World, pointer_text}

  enter_misses :
      (env : Environment) (a : Answers) (seq : ℕ) (c : SyncCall)
      → all_miss syscall_needle (pieces env a seq (enter_event pthread c)) ≡ true
  unfolding misses enter_event enter_key
  enter_misses env a seq (create thread attr start_routine arg) = refl
  enter_misses env a seq (join thread retval) = refl
  enter_misses env a seq (mutex_lock mutex) = refl
  enter_misses env a seq (mutex_unlock mutex) = refl
  enter_misses env a seq (cond_wait cond mutex) = refl
  enter_misses env a seq (cond_signal cond) = refl
  enter_misses env a seq (cond_broadcast cond) = refl

  leave_misses :
      (env : Environment) (a : Answers) (seq : ℕ) (c : SyncCall) (ret : ℤ) (w : World)
      → all_miss syscall_needle (pieces env a seq (leave_event pthread c ret w)) ≡ true
  unfolding misses leave_event leave_key
  leave_misses env a seq (create thread attr start_routine arg) ret w = refl
  leave_misses env a seq (join thread retval) ret w = refl
  leave_misses env a seq (mutex_lock mutex) ret w = refl
  leave_misses env a seq (mutex_unlock mutex) ret w = refl
  leave_misses env a seq (cond_wait cond mutex) ret w = refl
  leave_misses env a seq (cond_signal cond) ret w = refl
  leave_misses env a seq (cond_broadcast cond) ret w = refl

  symbol_name-Lacks : (c : SyncCall) → Lacks quote (symbol_name c)
  unfolding symbol_name
  symbol_name-Lacks (create thread attr start_routine arg) = omega arith
  symbol_name-Lacks (join thread retval) = omega arith
  symbol_name-Lacks (mutex_lock mutex) = omega arith
  symbol_name-Lacks (mutex_unlock mutex) = omega arith
  symbol_name-Lacks (cond_wait cond mutex) = omega arith
  symbol_name-Lacks (cond_signal cond) = omega arith
  symbol_name-Lacks (cond_broadcast cond) = omega arith

  -- The replayer loads no event from a line that a wrapper logs, at the entry or at the return: the
  -- hook may write into the event file of a recording. The run id and what `%p` prints hold no quote.
  pub load_line-sync_call :
      (env : Environment) (a : Answers) (seq : ℕ) (c : SyncCall) (ret : ℤ) (w : World)
      → Lacks quote (run_id_of env)
      → ((p : ℕ) → Lacks quote (pointer_text p))
      → (load_line (sync_line (sync_text env a seq (enter_event pthread c))) ≡ none)
        × (load_line (sync_line (sync_text env a seq (leave_event pthread c ret w))) ≡ none)
  unfolding enter_event leave_event
  load_line-sync_call env a seq c ret w clean plain = (
    load_line-sync env a seq (enter_event pthread c) (enter_misses env a seq c)
        (clean, (symbol_name-Lacks c, (omega arith, (plain (object_of c), tt)))),
    load_line-sync env a seq (leave_event pthread c ret w) (leave_misses env a seq c ret w)
        (clean, (symbol_name-Lacks c, (omega arith, (plain (object_of c), tt)))),
  )
