-- ===== src/Hooks/Logged.antt =====
-- What a call of `log_sync_event` does, where it logs and where it does not.
use os_ai_assisted_determini.Base.{
  ℕ, ◌+◌, ◌%◌, ◌^◌, ◌≡◌, refl, ◌⊎◌, inl, inr, Bool, true, false, ◌&&◌, [], ◌++◌, append-nil, ltb,
  if◌then◌else◌, Bytes, length, take, Bool-cases,
}
use os_ai_assisted_determini.Hooks.{
  Environment, SyncEvent, Answers, Shared, log_sync_event, build_path, write_event, add_and_fetch,
  sync_text, sync_line, fits,
}

-- Inside of the hook itself, or where there is no directory for a trace.
abbrev pub IsSilent : Bool → Environment → Type 0
IsSilent in_hook env = (in_hook ≡ true) ⊎ (build_path env ≡ [])

pub log_sync_event-IsSilent :
    (in_hook : Bool) (env : Environment) (a : Answers) (ev : SyncEvent) (shared : Shared)
    → IsSilent in_hook env
    → log_sync_event in_hook env a ev shared ≡ shared
unfolding log_sync_event
log_sync_event-IsSilent in_hook env a ev shared (inl inside) = rw inside refl
log_sync_event-IsSilent true env a ev shared (inr nowhere) = refl
log_sync_event-IsSilent false env a ev shared (inr nowhere) = rw (log_sync_event, nowhere) refl

-- Outside of the hook, with a path that can be opened.
pub record Logs (env : Environment) (a : Answers) : Type 0 where
  pub somewhere : ltb 0 (length (build_path env)) ≡ true
  pub opened : a.opens (build_path env) ≡ true

-- Both texts fit their buffers.
abbrev fits_both : Environment → Answers → ℕ → SyncEvent → Bool
fits_both env a seq ev =
    let body = sync_text env a seq ev in fits body 2048 && fits (sync_line body) 2300

-- What an event adds to the file.
abbrev pub added : Environment → Answers → ℕ → SyncEvent → Bytes
added env a seq ev =
    if fits_both env a seq ev then take a.takes (sync_line (sync_text env a seq ev)) else []

pub write_event-added :
    (env : Environment) (a : Answers) (seq : ℕ) (ev : SyncEvent) (shared : Shared)
    → (write_event env a seq ev shared).events ≡ shared.events ++ added env a seq ev
unfolding write_event
write_event-added env a seq ev shared = elim (Bool-cases (fits_both env a seq ev)) [
  | inl written ↦ rw (write_event, written) refl
  | inr dropped ↦ rw (write_event, dropped, append-nil) refl
]

pub log_sync_event_lem :
    (env : Environment) (a : Answers) (ev : SyncEvent) (shared : Shared)
    → Logs env a
    → log_sync_event false env a ev shared ≡ record {
      sync_seq = (shared.sync_seq + 1) % 2 ^ 64;
      events = shared.events ++ added env a ((shared.sync_seq + 1) % 2 ^ 64) ev;
    }
unfolding log_sync_event write_event add_and_fetch
log_sync_event_lem env a ev shared l =
    rw (log_sync_event, l.somewhere, l.opened)
      (elim (Bool-cases (fits_both env a ((shared.sync_seq + 1) % 2 ^ 64) ev)) [
        | inl written ↦ rw (write_event, written) refl
        | inr dropped ↦ rw (write_event, dropped, append-nil) refl
      ])
