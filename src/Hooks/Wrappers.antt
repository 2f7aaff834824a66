-- ===== src/Hooks/Wrappers.antt =====
-- hooks/sync_hook.c: the functions that the library puts in the place of those of pthread.
use os_ai_assisted_determini.Base.{
  ℕ, ◌+◌, ◌≡◌, refl, ap, ◌∙◌, Bool, true, false, not, ◌%◌, ◌^◌, Option, none, some, ◌++◌,
  append_assoc, ◌==◌, ltb, inl, inr, length, if◌then◌else◌, Bytes, codes,
}
use os_ai_assisted_determini.Base.Int.{ℤ, pos}
use os_ai_assisted_determini.Hooks.{
  Environment, SyncEvent, Answers, Shared, build_path, log_sync_event,
}
use os_ai_assisted_determini.Hooks.Logged.{
  IsSilent, log_sync_event-IsSilent, Logs, added, log_sync_event_lem,
}

-- A call of the program, with its arguments; pointers and `pthread_t` are numbers.
pub data SyncCall : Type 0 where
  create : (thread attr start_routine arg : ℕ) → SyncCall
  join : (thread retval : ℕ) → SyncCall
  mutex_lock : (mutex : ℕ) → SyncCall
  mutex_unlock : (mutex : ℕ) → SyncCall
  cond_wait : (cond mutex : ℕ) → SyncCall
  cond_signal : (cond : ℕ) → SyncCall
  cond_broadcast : (cond : ℕ) → SyncCall

-- pthread itself, and the rest of the program with its memory and its `errno`. While a call waits,
-- other threads may log events too. `disturb` is what the calls of `open`, `write` and `close` in the
-- hook do to `errno`.
pub record Pthread : Type 1 where
  pub World : Type 0
  pub has_symbol : Bytes → Bool
  pub pointer_text : ℕ → Bytes
  pub thread_at : World → ℕ → ℕ
  pub real : SyncCall → Shared → World → ℤ × Shared × World
  pub disturb : Answers → World → World

unfoldable pub symbol_name : SyncCall → Bytes
symbol_name (create thread attr start_routine arg) = codes "pthread_create"
symbol_name (join thread retval) = codes "pthread_join"
symbol_name (mutex_lock mutex) = codes "pthread_mutex_lock"
symbol_name (mutex_unlock mutex) = codes "pthread_mutex_unlock"
symbol_name (cond_wait cond mutex) = codes "pthread_cond_wait"
symbol_name (cond_signal cond) = codes "pthread_cond_signal"
symbol_name (cond_broadcast cond) = codes "pthread_cond_broadcast"

-- The object of both events.
unfoldable pub object_of : SyncCall → ℕ
object_of (create thread attr start_routine arg) = start_routine
object_of (join thread retval) = thread
object_of (mutex_lock mutex) = mutex
object_of (mutex_unlock mutex) = mutex
object_of (cond_wait cond mutex) = cond
object_of (cond_signal cond) = cond
object_of (cond_broadcast cond) = cond

unfoldable pub enter_key : SyncCall → Bytes × ℕ
enter_key (create thread attr start_routine arg) = (codes "thread_ptr", thread)
enter_key (join thread retval) = (codes "thread", thread)
enter_key (mutex_lock mutex) = (codes "mutex", mutex)
enter_key (mutex_unlock mutex) = (codes "mutex", mutex)
enter_key (cond_wait cond mutex) = (codes "mutex", mutex)
enter_key (cond_signal cond) = (codes "cond", cond)
enter_key (cond_broadcast cond) = (codes "cond", cond)

module _ (pthread : Pthread) where
  open pthread use {disturb, World, has_symbol, pointer_text, thread_at, real}

  -- After the call; `thread ? (unsigned long)*thread : 0` for `pthread_create`.
  unfoldable pub leave_key : SyncCall → World → Bytes × ℕ
  leave_key (create thread attr start_routine arg) w =
      (codes "thread", if thread == 0 then 0 else thread_at w thread)
  leave_key (join thread retval) w = (codes "thread", thread)
  leave_key (mutex_lock mutex) w = (codes "mutex", mutex)
  leave_key (mutex_unlock mutex) w = (codes "mutex", mutex)
  leave_key (cond_wait cond mutex) w = (codes "mutex", mutex)
  leave_key (cond_signal cond) w = (codes "cond", cond)
  leave_key (cond_broadcast cond) w = (codes "cond", cond)

  unfoldable pub enter_event : SyncCall → SyncEvent
  enter_event c = record {
    name = symbol_name c;
    phase = codes "enter";
    object = pointer_text (object_of c);
    ret = pos 0;
    key = (enter_key c).0;
    value = (enter_key c).1;
  }

  unfoldable pub leave_event : SyncCall → ℤ → World → SyncEvent
  leave_event c ret w = record {
    name = symbol_name c;
    phase = codes "leave";
    object = pointer_text (object_of c);
    ret = ret;
    key = (leave_key c w).0;
    value = (leave_key c w).1;
  }

  -- What `log_sync_event` leaves of the program: where it reaches `open`, `errno` may change.
  unfoldable pub after_log : Bool → Environment → Answers → World → World
  after_log in_hook env a w =
      if in_hook then w else if not (ltb 0 (length (build_path env))) then w else disturb a w

  -- A wrapper, with the answers to its two calls of `log_sync_event`. `none` is the `_exit(127)` of
  -- `resolve_symbol`; what that has found is kept in `real_fn`, and is the same at the next call.
  unfoldable pub sync_call :
      Bool
      → Environment
      → Answers
      → Answers
      → SyncCall
      → Shared
      → World
      → Option (ℤ × Shared × World)
  sync_call in_hook env a b c shared w =
      if not (has_symbol (symbol_name c))
      then none
      else let entered = log_sync_event in_hook env a (enter_event c) shared in
        let (ret, shared', w') = real c entered (after_log in_hook env a w) in
        some (
          ret,
          log_sync_event in_hook env b (leave_event c ret w') shared',
          after_log in_hook env b w',
        )

  after_log-IsSilent :
      (in_hook : Bool) (env : Environment) (a : Answers) (w : World)
      → IsSilent in_hook env
      → after_log in_hook env a w ≡ w
  unfolding after_log
  after_log-IsSilent in_hook env a w (inl inside) = rw inside refl
  after_log-IsSilent true env a w (inr nowhere) = refl
  after_log-IsSilent false env a w (inr nowhere) = rw nowhere refl

  after_log-Logs :
      (env : Environment) (a : Answers) (w : World)
      → Logs env a
      → after_log false env a w ≡ disturb a w
  unfolding after_log
  after_log-Logs env a w l = rw l.somewhere refl

  -- A call that is made inside of the hook itself, or without a directory for a trace, does what the
  -- real function does and nothing else: no number is taken, nothing is written, and `errno` is kept.
  pub sync_call-IsSilent :
      (in_hook : Bool) (env : Environment) (a b : Answers) (c : SyncCall) (shared : Shared)
      (w : World)
      → has_symbol (symbol_name c) ≡ true
      → IsSilent in_hook env
      → sync_call in_hook env a b c shared w ≡ some (real c shared w)
  unfolding sync_call
  sync_call-IsSilent in_hook env a b c shared w found silent =
      rw
        (
          found,
          after_log-IsSilent in_hook env a w silent,
          log_sync_event-IsSilent in_hook env a (enter_event c) shared silent,
          after_log-IsSilent in_hook env b (real c shared w).2 silent,
          log_sync_event-IsSilent in_hook env b
              (leave_event c (real c shared w).0 (real c shared w).2) (real c shared w).1 silent,
        )
        refl

  -- The shared state after the event of the entry, and what the real function leaves.
  abbrev pub entered : Environment → Answers → SyncCall → Shared → Shared
  entered env a c shared = log_sync_event false env a (enter_event c) shared

  abbrev pub waited : Environment → Answers → SyncCall → Shared → World → ℤ × Shared × World
  waited env a c shared w = real c (entered env a c shared) (disturb a w)

  -- While a call waits, other threads add `more` to the file. Then the file holds the old events, that
  -- of the entry with the next number, `more`, and that of the return, with the number that is next
  -- by then. An event adds its line, or what `write` takes of it, or nothing if its text is too long.
  -- The program has the result of the real function, and what that leaves, but for `errno`, which is what
  -- the hook leaves in it.
  pub sync_call_events :
      (env : Environment) (a b : Answers) (c : SyncCall) (shared : Shared) (w : World)
      (more : Bytes)
      → has_symbol (symbol_name c) ≡ true
      → Logs env a
      → Logs env b
      → (waited env a c shared w).1.events ≡ (entered env a c shared).events ++ more
      → (shared' : Shared) × (sync_call false env a b c shared w
          ≡ some ((waited env a c shared w).0, shared', disturb b (waited env a c shared w).2))
        × (shared'.sync_seq ≡ ((waited env a c shared w).1.sync_seq + 1) % 2 ^ 64)
        × (shared'.events
            ≡ shared.events
              ++ (added env a ((shared.sync_seq + 1) % 2 ^ 64) (enter_event c)
                  ++ (more
                      ++ added env b
                          (((waited env a c shared w).1.sync_seq + 1) % 2 ^ 64)
                          (leave_event c (waited env a c shared w).0 (waited env a c shared w).2))))
  unfolding sync_call
  sync_call_events env a b c shared w more found la lb grown =
      let (ret, shared', w') = waited env a c shared w in
      let left = log_sync_event_lem env b (leave_event c ret w') shared' lb in
      let first = log_sync_event_lem env a (enter_event c) shared la in
      (
        log_sync_event false env b (leave_event c ret w') shared',
        rw (found, after_log-Logs env a w la, after_log-Logs env b w' lb) refl,
        ap (λ (h : Shared). h.sync_seq) left,
        ap (λ (h : Shared). h.events) left
            ∙ ap (λ r. r ++ added env b ((shared'.sync_seq + 1) % 2 ^ 64) (leave_event c ret w'))
                (grown ∙ ap (λ (h : Shared). h.events ++ more) first)
            ∙ simp append_assoc,
      )
