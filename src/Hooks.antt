-- ===== src/Hooks.antt =====
-- hooks/sync_hook.c: `build_path`, `log_sync_event` and the lines that it writes; the functions that
-- stand in for those of pthread are in Wrappers, the threads that share the counter in Threads.
pub mod Logged
pub mod Wrappers
pub mod Lines
pub mod Attached
pub mod Ignored
pub mod Threads
use os_ai_assisted_determini.Base.{
  ℕ, ◌+◌, ◌%◌, ◌^◌, Bool, Option, none, some, [], ◌∷◌, ◌++◌, ltb, ◌&&◌, not, ◌||◌, if◌then◌else◌,
  Bytes, codes, length, take,
}
use os_ai_assisted_determini.Base.Int.{ℤ, pos, negsuc}
use os_ai_assisted_determini.Hash.Hex.{bytes_hex}
use os_ai_assisted_determini.Libc.Print.{print_nat, print_int, cut_to}

-- `ADR_TRACE_DIR` and `ADR_RUN_ID`, which the recorder sets; `none` where `getenv` gives null.
pub record Environment : Type 0 where
  pub trace_dir : Option Bytes
  pub run_id : Option Bytes

-- The arguments of `log_sync_event`. `object` is what `%p` prints of it; `key` is never null.
pub record SyncEvent : Type 0 where
  pub name : Bytes
  pub phase : Bytes
  pub object : Bytes
  pub ret : ℤ
  pub key : Bytes
  pub value : ℕ

-- What the system answers: whether the file at a path can be opened for appending, the clock, the
-- ids, and how many bytes `write` takes at most.
pub record Answers : Type 0 where
  pub opens : Bytes → Bool
  pub time : ℕ
  pub pid : ℤ
  pub tid : ℤ
  pub takes : ℕ

-- What the threads share: `sync_seq` and the event file.
pub record Shared : Type 0 where
  pub sync_seq : ℕ
  pub events : Bytes

-- The path in the buffer; it is empty where there is no directory.
unfoldable pub build_path : Environment → Bytes
build_path env = elim env.trace_dir [
  | none ↦ []
  | some [] ↦ []
  | some (c ∷ dir) ↦ cut_to 4096 (c ∷ (dir ++ codes "/events.jsonl"))
]

-- `ret < 0 ? -ret : 0`
unfoldable pub errno_of : ℤ → ℕ
errno_of (pos n) = 0
errno_of (negsuc n) = n + 1

-- What follows the value of `tid`.
unfoldable pub sync_tail : SyncEvent → Bytes
unfolding errno_of
sync_tail ev =
    codes ",\"etype\":\"SYNC\",\"name\":\""
    ++ (ev.name
        ++ (codes "\",\"phase\":\""
            ++ (ev.phase
                ++ (codes "\",\"object_id\":\""
                    ++ (ev.object
                        ++ (codes "\",\"args\":{\""
                            ++ (ev.key
                                ++ (codes "\":"
                                    ++ (print_nat ev.value
                                        ++ (codes "},\"ret\":"
                                            ++ (print_int ev.ret
                                                ++ (codes ",\"errno\":"
                                                    ++ print_nat (errno_of ev.ret)))))))))))))

abbrev pub run_id_of : Environment → Bytes
run_id_of env = elim env.run_id [ none ↦ codes "hook" | some id ↦ id ]

-- What `snprintf` would print into `body`, were it large enough.
unfoldable pub sync_text : Environment → Answers → ℕ → SyncEvent → Bytes
unfolding sync_tail
sync_text env answers seq ev =
    codes "{\"schema_version\":\"adr.trace.v1\",\"run_id\":\""
    ++ (run_id_of env
        ++ (codes "\",\"seq\":"
            ++ (print_nat seq
                ++ (codes ",\"time_ns\":"
                    ++ (print_nat answers.time
                        ++ (codes ",\"pid\":"
                            ++ (print_int answers.pid
                                ++ (codes ",\"tid\":"
                                    ++ (print_int answers.tid ++ sync_tail ev)))))))))

unfoldable pub sync_line : Bytes → Bytes
sync_line body =
    body ++ (codes ",\"prev_hash\":\"hook\",\"event_hash\":\"" ++ (bytes_hex body ++ codes "\"}\n"))

-- `n > 0 && n < (int)sizeof(body)`, and the same for the line.
unfoldable pub fits : Bytes → ℕ → Bool
fits text size = ltb 0 (length text) && ltb (length text) size

-- `__sync_add_and_fetch(&sync_seq, 1)`
unfoldable pub add_and_fetch : Shared → Shared
add_and_fetch shared = record shared { sync_seq = (shared.sync_seq + 1) % 2 ^ 64 }

-- From the number to the `write`.
unfoldable pub write_event : Environment → Answers → ℕ → SyncEvent → Shared → Shared
unfolding fits
write_event env answers seq ev shared =
    let body = sync_text env answers seq ev in
    if fits body 2048 && fits (sync_line body) 2300
    then record shared { events = shared.events ++ take answers.takes (sync_line body) }
    else shared

-- The first argument is the thread's `in_hook`, which is as before at the end.
unfoldable pub log_sync_event : Bool → Environment → Answers → SyncEvent → Shared → Shared
log_sync_event in_hook env answers ev shared =
    if in_hook
    then shared
    else if not (ltb 0 (length (build_path env))) || not (answers.opens (build_path env))
    then shared
    else let shared' = add_and_fetch shared in write_event env answers shared'.sync_seq ev shared'
