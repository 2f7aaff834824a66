-- ===== src/Replayer/LinePieces.antt =====
-- The lines of the recorder as pieces, and that each is one line.
use os_ai_assisted_determini.Base.{
  ℕ, ◌≡◌, refl, ap, ◌∙◌, true, some, sym, All-append, List, [], ◌∷◌, ◌++◌, append_assoc, arith,
  Bytes, codes, Lacks,
}
use os_ai_assisted_determini.Base.Int.{ℤ, pos, negsuc}
use os_ai_assisted_determini.Libc.Print.{cut_to, print_int}
use os_ai_assisted_determini.Replayer.Passes.{quote}
use os_ai_assisted_determini.Replayer.Passes.Fields.{take-Lacks}
use os_ai_assisted_determini.Replayer.Passes.Pieces.{
  Piece, fixed, quoted, braced, natural, integer, render,
}
use os_ai_assisted_determini.Trace.Syscalls.{SyscallEntry}
use os_ai_assisted_determini.Trace.Writer.{
  line_end, event_front, event_name, errno_of, args_text, syscall_text, syscall_body, payload_tail,
  process_body, event_line, payload_ref_text,
}
use os_ai_assisted_determini.Replayer.OneLine.{
  newline, fixed_whole, print_int-Lacks-newline, AreWhole, IsLine, render-Lacks, render-append,
}
use os_ai_assisted_determini.Trace.Syscalls.{syscall_name}

-- The fields up to the number of the process and thread.
abbrev pub front_pieces : Bytes → ℕ → ℕ → ℤ → List Piece → List Piece
front_pieces run_id seq time pid ps =
    fixed (codes "{\"schema_version\":\"adr.trace.v1\",\"run_id\":")
    ∷ quoted run_id
    ∷ fixed (codes "\"seq\":")
    ∷ natural seq
    ∷ fixed (codes ",\"time_ns\":")
    ∷ natural time
    ∷ fixed (codes ",\"pid\":")
    ∷ integer pid
    ∷ fixed (codes ",\"tid\":")
    ∷ integer pid
    ∷ ps

abbrev pub end_pieces : Bytes → List Piece
end_pieces prev_hash =
    fixed (codes ",\"prev_hash\":") ∷ quoted prev_hash ∷ fixed (codes "\"event_hash\":") ∷ []

abbrev pub process_pieces : Bytes → ℕ → ℕ → ℤ → Bytes → Bytes → Bytes → List Piece
process_pieces run_id seq time pid name target prev_hash = front_pieces run_id seq time pid (
    fixed (codes ",\"etype\":\"PROCESS\",\"name\":")
    ∷ quoted name
    ∷ fixed (codes "\"phase\":\"instant\",\"args\":{\"target\":")
    ∷ braced target
    ∷ end_pieces prev_hash)

-- A system call up to its `errno`.
abbrev pub call_pieces : Bytes → ℕ → ℕ → ℤ → SyscallEntry → ℤ → List Piece → List Piece
call_pieces run_id seq time pid entry ret ps = front_pieces run_id seq time pid (
    fixed (codes ",\"etype\":\"SYSCALL\",\"name\":")
    ∷ quoted (event_name entry.syscall_no)
    ∷ fixed (codes "\"phase\":\"exit\",\"args\":{\"syscall_no\":")
    ∷ integer entry.syscall_no
    ∷ fixed (codes ",\"a0\":")
    ∷ natural entry.a0
    ∷ fixed (codes ",\"a1\":")
    ∷ natural entry.a1
    ∷ fixed (codes ",\"a2\":")
    ∷ natural entry.a2
    ∷ fixed (codes ",\"a3\":")
    ∷ natural entry.a3
    ∷ fixed (codes ",\"a4\":")
    ∷ natural entry.a4
    ∷ fixed (codes ",\"a5\":")
    ∷ natural entry.a5
    ∷ fixed (codes "},\"ret\":")
    ∷ integer ret
    ∷ fixed (codes ",\"errno\":")
    ∷ integer (errno_of ret)
    ∷ ps)

-- The line of a call without a payload.
abbrev pub bare_pieces : Bytes → ℕ → ℕ → ℤ → SyscallEntry → ℤ → Bytes → List Piece
bare_pieces run_id seq time pid entry ret prev_hash =
    call_pieces run_id seq time pid entry ret (end_pieces prev_hash)

abbrev pub last_piece : Bytes → Bytes
last_piece event_hash = quote ∷ (event_hash ++ codes "\"}\n")

pub process_line-render :
    (run_id : Bytes) (seq time : ℕ) (pid : ℤ) (name target prev_hash event_hash : Bytes)
    → event_line (process_body run_id seq time pid name (some target)) prev_hash event_hash
      ≡ render (process_pieces run_id seq time pid name target prev_hash) (last_piece event_hash)
unfolding process_body event_front line_end
process_line-render run_id seq time pid name target prev_hash event_hash = simp append_assoc

pub bare_line-render :
    (run_id : Bytes) (seq time : ℕ) (pid : ℤ) (entry : SyscallEntry) (ret : ℤ)
    (prev_hash event_hash : Bytes)
    → event_line (syscall_body run_id seq time pid entry ret []) prev_hash event_hash
      ≡ render (bare_pieces run_id seq time pid entry ret prev_hash) (last_piece event_hash)
unfolding syscall_text event_front args_text payload_tail line_end
bare_line-render run_id seq time pid entry ret prev_hash event_hash = simp append_assoc

-- The same with a payload reference.
abbrev pub reference_pieces :
    Bytes → ℕ → ℕ → ℤ → SyscallEntry → ℤ → ℤ → ℕ → Bytes → Bytes → List Piece
reference_pieces run_id seq time pid entry ret offset len hash prev_hash =
    call_pieces run_id seq time pid entry ret (
      fixed (codes ",\"payload_ref\":{\"file\":\"payload.bin\",\"offset\":")
      ∷ integer offset
      ∷ fixed (codes ",\"length\":")
      ∷ natural len
      ∷ fixed (codes ",\"sha256\":")
      ∷ quoted hash
      ∷ fixed (codes "\"encoding\":\"raw\"}")
      ∷ end_pieces prev_hash)

reference_line-render :
    (run_id : Bytes) (seq time : ℕ) (pid : ℤ) (entry : SyscallEntry) (ret offset : ℤ) (len : ℕ)
    (hash prev_hash event_hash : Bytes)
    → event_line
        (syscall_body run_id seq time pid entry ret (payload_ref_text offset len hash))
        prev_hash
        event_hash
      ≡ render
          (reference_pieces run_id seq time pid entry ret offset len hash prev_hash)
          (last_piece event_hash)
unfolding syscall_text event_front args_text payload_tail payload_ref_text line_end
reference_line-render run_id seq time pid entry ret offset len hash prev_hash event_hash =
    simp append_assoc

pieces-IsLine :
    (line event_hash : Bytes) (ps : List Piece)
    → line ≡ render ps (last_piece event_hash)
    → fixed_whole ps ≡ true
    → AreWhole ps
    → Lacks newline event_hash
    → IsLine line
pieces-IsLine line event_hash ps shape fixed_texts whole h = record {
  front = render ps (quote ∷ (event_hash ++ codes "\"}"));
  plain =
      render-Lacks ps _ fixed_texts whole
        (omega arith, All-append _ event_hash (codes "\"}") h (omega arith));
  closed =
      shape
      ∙ ap (λ r. render ps (quote ∷ r)) (sym (append_assoc event_hash (codes "\"}") (newline ∷ [])))
      ∙ sym (render-append ps (quote ∷ (event_hash ++ codes "\"}")) (newline ∷ []));
}

generated_name-Lacks : (number : ℤ) → Lacks newline (cut_to 64 (codes "sys_" ++ print_int number))
unfolding cut_to
generated_name-Lacks number =
    take-Lacks newline 63 (codes "sys_" ++ print_int number) (
      All-append _ (codes "sys_") (print_int number) (omega arith) (print_int-Lacks-newline number))

event_name-Lacks-newline : (number : ℤ) → Lacks newline (event_name number)
unfolding event_name syscall_name
event_name-Lacks-newline (pos n) = ground (arith, generated_name-Lacks (pos n))
event_name-Lacks-newline (negsuc n) = generated_name-Lacks (negsuc n)

pub process_line-IsLine :
    (run_id : Bytes) (seq time : ℕ) (pid : ℤ) (name target prev_hash event_hash : Bytes)
    → Lacks newline run_id
    → Lacks newline name
    → Lacks newline target
    → Lacks newline prev_hash
    → Lacks newline event_hash
    → IsLine (event_line (process_body run_id seq time pid name (some target)) prev_hash event_hash)
process_line-IsLine run_id seq time pid name target prev_hash event_hash r n t p h =
    pieces-IsLine _ event_hash (process_pieces run_id seq time pid name target prev_hash)
      (process_line-render run_id seq time pid name target prev_hash event_hash) refl
      (r, (n, (t, (p, tt)))) h

pub bare_line-IsLine :
    (run_id : Bytes) (seq time : ℕ) (pid : ℤ) (entry : SyscallEntry) (ret : ℤ)
    (prev_hash event_hash : Bytes)
    → Lacks newline run_id
    → Lacks newline prev_hash
    → Lacks newline event_hash
    → IsLine (event_line (syscall_body run_id seq time pid entry ret []) prev_hash event_hash)
bare_line-IsLine run_id seq time pid entry ret prev_hash event_hash r p h =
    pieces-IsLine _ event_hash (bare_pieces run_id seq time pid entry ret prev_hash)
      (bare_line-render run_id seq time pid entry ret prev_hash event_hash) refl
      (r, (event_name-Lacks-newline entry.syscall_no, (p, tt))) h

pub reference_line-IsLine :
    (run_id : Bytes) (seq time : ℕ) (pid : ℤ) (entry : SyscallEntry) (ret offset : ℤ) (len : ℕ)
    (hash prev_hash event_hash : Bytes)
    → Lacks newline run_id
    → Lacks newline hash
    → Lacks newline prev_hash
    → Lacks newline event_hash
    → IsLine (
        event_line
          (syscall_body run_id seq time pid entry ret (payload_ref_text offset len hash))
          prev_hash
          event_hash)
reference_line-IsLine run_id seq time pid entry ret offset len hash prev_hash event_hash r x p h =
    pieces-IsLine _ event_hash
      (reference_pieces run_id seq time pid entry ret offset len hash prev_hash)
      (reference_line-render run_id seq time pid entry ret offset len hash prev_hash event_hash)
      refl (r, (event_name-Lacks-newline entry.syscall_no, (x, (p, tt)))) h
