-- ===== src/Session/Steps.antt =====
-- What each event of the recorder adds to the file.
use os_ai_assisted_determini.Base.{
  ℕ, ◌+◌, ◌%◌, ◌^◌, ◌<◌, ◌≡◌, refl, ap, sym, Option, List, [], ◌∷◌, ◌++◌, append-nil, none, some,
  Bytes, Lacks, length, if◌then◌else◌, ◌&&◌, not,
}
use os_ai_assisted_determini.Base.Int.{ℤ, IsLong}
use os_ai_assisted_determini.Hash.Hex.{bytes_hex}
use os_ai_assisted_determini.Hash.HexText.{bytes_hex-IsHexDigit, hex-Lacks_quote}
use os_ai_assisted_determini.Libc.Print.{cut_to, cut_to_fits}
use os_ai_assisted_determini.Replayer.Bare.{bare_event, load_line-process_body, load_line-bare_line}
use os_ai_assisted_determini.Replayer.Events.{ReplayEvent, load_line}
use os_ai_assisted_determini.Replayer.LinePieces.{process_line-IsLine, bare_line-IsLine}
use os_ai_assisted_determini.Replayer.Lines.{loaded}
use os_ai_assisted_determini.Replayer.OneLine.{newline, IsLine}
use os_ai_assisted_determini.Replayer.Passes.{quote}
use os_ai_assisted_determini.Session.Added.{IsClean, Adds, hex-Lacks-newline, emit_line-IsClean}
use os_ai_assisted_determini.Trace.Syscalls.{SyscallEntry, is_payload_syscall, is_no, sys_read}
use os_ai_assisted_determini.Trace.Writer.{
  TraceWriter, emit_line, emit_process, emit_syscall, next_seq, event_line, material, process_body,
  syscall_body,
}

abbrev pub of_option : Option ReplayEvent → List ReplayEvent
of_option none = []
of_option (some ev) = ev ∷ []

loaded_one :
    (line : Bytes) (o : Option ReplayEvent) → load_line line ≡ o → loaded (line ∷ []) ≡ of_option o
loaded_one line none h = rw (loaded, h) refl
loaded_one line (some ev) h = rw (loaded, h) refl

-- The link of an event.
abbrev pub link_of : TraceWriter → Bytes → Bytes
link_of tw body = bytes_hex (material tw.prev_hash body)

pub emit_line-Adds :
    (tw : TraceWriter) (body : Bytes) (o : Option ReplayEvent)
    → IsClean tw
    → IsLine (event_line body tw.prev_hash (link_of tw body))
    → load_line (event_line body tw.prev_hash (link_of tw body)) ≡ o
    → Adds tw (emit_line (next_seq tw) body) (of_option o)
unfolding emit_line next_seq
emit_line-Adds tw body o clean line h =
    let text = event_line body tw.prev_hash (link_of tw body) in
    let counted = record tw { seq = (tw.seq + 1) % 2 ^ 64 } in
    let kept : IsClean counted = record {
      run_quote = clean.run_quote;
      run_line = clean.run_line;
      link_quote = clean.link_quote;
      link_line = clean.link_line;
    } in
    record {
      lines = text ∷ [];
      added = ap (λ l. tw.events ++ l) (sym (append-nil text));
      whole = (line, tt);
      loads = loaded_one text o h;
      clean = emit_line-IsClean counted body kept;
    }

-- A process event fits its buffer, and its texts hold no quote and no newline.
pub record IsShort (tw : TraceWriter) (time : ℕ) (pid : ℤ) (name target : Bytes) : Type 0 where
  pub fits :
      length (process_body tw.run_id ((tw.seq + 1) % 2 ^ 64) time pid name (some target)) < 4096
  pub name_quote : Lacks quote name
  pub name_line : Lacks newline name
  pub target_quote : Lacks quote target
  pub target_line : Lacks newline target

pub emit_process-Adds :
    (tw : TraceWriter) (time : ℕ) (pid : ℤ) (name target : Bytes)
    → IsClean tw
    → IsShort tw time pid name target
    → Adds tw (emit_process tw time pid name (some target)) []
unfolding emit_process next_seq
emit_process-Adds tw time pid name target c h =
    let seq = (tw.seq + 1) % 2 ^ 64 in
    let body = process_body tw.run_id seq time pid name (some target) in
    let hash = link_of tw (cut_to 4096 body) in
    let digits = bytes_hex-IsHexDigit (material tw.prev_hash (cut_to 4096 body)) in
    let line : IsLine (event_line (cut_to 4096 body) tw.prev_hash hash) =
      rw (cut_to_fits 4096 body h.fits) (
        process_line-IsLine tw.run_id seq time pid name target tw.prev_hash _ c.run_line h.name_line
          h.target_line c.link_line (hex-Lacks-newline _ (bytes_hex-IsHexDigit _))) in
    emit_line-Adds tw (cut_to 4096 body) none c line (
      load_line-process_body tw.run_id seq time pid name target tw.prev_hash hash h.fits c.run_quote
        h.name_quote h.target_quote c.link_quote (hex-Lacks_quote hash digits))

-- What the replayer loads of a call without a payload.
abbrev pub bare_loaded : SyscallEntry → ℤ → Option ReplayEvent
bare_loaded entry ret =
    if is_payload_syscall entry.syscall_no && not (is_no entry.syscall_no sys_read)
    then some (bare_event entry ret)
    else none

pub emit_syscall-Adds :
    (tw : TraceWriter) (time : ℕ) (pid : ℤ) (entry : SyscallEntry) (ret : ℤ)
    → IsClean tw
    → length (syscall_body tw.run_id ((tw.seq + 1) % 2 ^ 64) time pid entry ret []) < 8192
    → IsLong entry.syscall_no
    → IsLong ret
    → Adds tw (emit_syscall tw time pid entry ret []) (of_option (bare_loaded entry ret))
unfolding emit_syscall next_seq
emit_syscall-Adds tw time pid entry ret c fits number_long ret_long =
    let seq = (tw.seq + 1) % 2 ^ 64 in
    let body = syscall_body tw.run_id seq time pid entry ret [] in
    let hash = link_of tw (cut_to 8192 body) in
    let digits = bytes_hex-IsHexDigit (material tw.prev_hash (cut_to 8192 body)) in
    let line : IsLine (event_line (cut_to 8192 body) tw.prev_hash hash) =
      rw (cut_to_fits 8192 body fits) (
        bare_line-IsLine tw.run_id seq time pid entry ret tw.prev_hash _ c.run_line c.link_line
          (hex-Lacks-newline _ (bytes_hex-IsHexDigit _))) in
    emit_line-Adds tw (cut_to 8192 body) (bare_loaded entry ret) c line (
      load_line-bare_line tw.run_id seq time pid entry ret tw.prev_hash hash fits c.run_quote
        c.link_quote (hex-Lacks_quote hash digits) number_long ret_long)
