-- ===== src/Hooks/Lines.antt =====
-- The lines of the hook: their size, and that the replayer passes over them.
use os_ai_assisted_determini.Base.{
  ℕ, ◌≡◌, refl, ap, ◌∙◌, true, none, List, [], ◌∷◌, ◌++◌, append_assoc, arith, Bytes, codes,
  length-append,
}
use os_ai_assisted_determini.Hash.Hex.{bytes_hex}
use os_ai_assisted_determini.Hash.HexText.{length-bytes_hex, bytes_hex-IsHexDigit, hex-Lacks_quote}
use os_ai_assisted_determini.Hooks.{
  Environment, SyncEvent, Answers, errno_of, run_id_of, sync_text, sync_line, fits,
}
use os_ai_assisted_determini.Libc.Find.{find_after, strip_prefix}
use os_ai_assisted_determini.Replayer.Events.{has, load_line}
use os_ai_assisted_determini.Replayer.Passes.{quote}
use os_ai_assisted_determini.Replayer.Passes.Pieces.{
  Piece, fixed, quoted, natural, integer, render, all_miss, AreClean, find_after-render, pass_last,
}

-- The second test of `log_sync_event` never drops an event: a text that fits `body` makes a line that
-- fits `line`, whatever the text is.
pub fits-sync_line : (body : Bytes) → fits body 2048 ≡ true → fits (sync_line body) 2300 ≡ true
unfolding fits sync_line
fits-sync_line body h =
    let close = length-append (bytes_hex body) (codes "\"}\n") in
    let size =
      length-append body
        (codes ",\"prev_hash\":\"hook\",\"event_hash\":\"" ++ (bytes_hex body ++ codes "\"}\n")) in
    ground (arith, size, close, length-bytes_hex body)

-- A line up to the value of its hash.
abbrev pub pieces : Environment → Answers → ℕ → SyncEvent → List Piece
pieces env answers seq ev =
    fixed (codes "{\"schema_version\":\"adr.trace.v1\",\"run_id\":")
    ∷ quoted (run_id_of env)
    ∷ fixed (codes "\"seq\":")
    ∷ natural seq
    ∷ fixed (codes ",\"time_ns\":")
    ∷ natural answers.time
    ∷ fixed (codes ",\"pid\":")
    ∷ integer answers.pid
    ∷ fixed (codes ",\"tid\":")
    ∷ integer answers.tid
    ∷ fixed (codes ",\"etype\":\"SYNC\",\"name\":")
    ∷ quoted ev.name
    ∷ fixed (codes "\"phase\":")
    ∷ quoted ev.phase
    ∷ fixed (codes "\"object_id\":")
    ∷ quoted ev.object
    ∷ fixed (codes "\"args\":{\"" ++ (ev.key ++ codes "\":"))
    ∷ natural ev.value
    ∷ fixed (codes "},\"ret\":")
    ∷ integer ev.ret
    ∷ fixed (codes ",\"errno\":")
    ∷ natural (errno_of ev.ret)
    ∷ fixed (codes ",\"prev_hash\":\"hook\",\"event_hash\":")
    ∷ []

sync_line-render :
    (env : Environment) (answers : Answers) (seq : ℕ) (ev : SyncEvent)
    → sync_line (sync_text env answers seq ev)
      ≡ render
          (pieces env answers seq ev)
          (quote ∷ (bytes_hex (sync_text env answers seq ev) ++ codes "\"}\n"))
unfolding sync_line sync_text
sync_line-render env answers seq ev = simp append_assoc

-- What the replayer looks for first.
abbrev pub syscall_needle : Bytes
syscall_needle = codes "\"etype\":\"SYSCALL\""

pub load_line-sync :
    (env : Environment) (answers : Answers) (seq : ℕ) (ev : SyncEvent)
    → all_miss syscall_needle (pieces env answers seq ev) ≡ true
    → AreClean (pieces env answers seq ev)
    → load_line (sync_line (sync_text env answers seq ev)) ≡ none
unfolding load_line find_after strip_prefix
load_line-sync env answers seq ev h clean =
    let body = sync_text env answers seq ev in
    let missing : find_after (sync_line body) syscall_needle ≡ none =
      ap (λ l. find_after l syscall_needle) (sync_line-render env answers seq ev)
      ∙ find_after-render (codes "etype") (codes "\"SYSCALL\"") (omega arith) (omega arith)
          (omega arith) (pieces env answers seq ev) (quote ∷ (bytes_hex body ++ codes "\"}\n")) h
          clean
      ∙ pass_last (codes "etype") (codes "\"SYSCALL\"") (omega arith) (omega arith) (omega arith)
          (bytes_hex body) (codes "\n")
          (hex-Lacks_quote (bytes_hex body) (bytes_hex-IsHexDigit body))
      ∙ refl in
    rw (load_line, has, missing) refl
