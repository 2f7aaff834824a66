-- ===== src/Replayer/Bare.antt =====
-- The lines of the recorder without a payload, as the replayer reads them.
use os_ai_assisted_determini.Base.{
  ℕ, ◌<◌, ◌≡◌, refl, ap, ◌∙◌, true, false, not, none, some, List, [], append_assoc, arith,
  if◌then◌else◌, Bytes, codes, length, Lacks, ◌&&◌, Bool-cases, inl, inr,
}
use os_ai_assisted_determini.Base.Int.{ℤ, IsLong}
use os_ai_assisted_determini.Libc.Find.{find_after, strip_prefix}
use os_ai_assisted_determini.Libc.FindLaws.{misses}
use os_ai_assisted_determini.Libc.Print.{cut_to_fits, cut_to}
use os_ai_assisted_determini.Replayer.Events.{
  ReplayEvent, zero_event, should_load_replay_event, parse_long_field, parse_string_field,
  parse_name, has, size_of_long, with_payload, line_event, keep, load_line,
}
use os_ai_assisted_determini.Replayer.LinePieces.{
  process_pieces, bare_pieces, last_piece, process_line-render, bare_line-render,
}
use os_ai_assisted_determini.Replayer.Load.{
  parse_long_found, parse_string_found, load_line_found, event_name-fits,
}
use os_ai_assisted_determini.Replayer.Load.Keys.{find-etype, find-name, find-syscall_no, find-ret}
use os_ai_assisted_determini.Replayer.Passes.{quote, key_needle}
use os_ai_assisted_determini.Replayer.Passes.Fields.{event_name-Lacks}
use os_ai_assisted_determini.Replayer.Passes.Pieces.{
  Piece, render, all_miss, AreClean, find_after-render, pass_last,
}
use os_ai_assisted_determini.Trace.Syscalls.{SyscallEntry, is_no, sys_read, is_payload_syscall}
use os_ai_assisted_determini.Trace.Writer.{
  line_end, event_front, event_name, args_text, syscall_text, syscall_body, payload_tail,
  process_body, event_line,
}

-- A key that begins in no piece is not in the line.
absent :
    (key more : Bytes) (ps : List Piece) (event_hash : Bytes)
    → Lacks quote key
    → Lacks b',' key
    → Lacks b'}' key
    → all_miss (key_needle key more) ps ≡ true
    → AreClean ps
    → Lacks quote event_hash
    → find_after (codes "\"}\n") (key_needle key more) ≡ none
    → find_after (render ps (last_piece event_hash)) (key_needle key more) ≡ none
absent key more ps event_hash lacks no_comma no_brace miss clean hash_clean behind =
    find_after-render key more lacks no_comma no_brace ps (last_piece event_hash) miss clean
    ∙ pass_last key more lacks no_comma no_brace event_hash (codes "\n") hash_clean
    ∙ behind

-- The replayer loads nothing from a line of the recorder for the start or the end of the process, if
-- no buffer cut it and its values hold no quote.
pub load_line-process_body :
    (run_id : Bytes) (seq time : ℕ) (pid : ℤ) (name target prev_hash event_hash : Bytes)
    → length (process_body run_id seq time pid name (some target)) < 4096
    → Lacks quote run_id
    → Lacks quote name
    → Lacks quote target
    → Lacks quote prev_hash
    → Lacks quote event_hash
    → load_line (
        event_line
          (cut_to 4096 (process_body run_id seq time pid name (some target)))
          prev_hash
          event_hash)
      ≡ none
unfolding load_line misses find_after strip_prefix
load_line-process_body run_id seq time pid name target prev_hash event_hash fits run_clean
      name_clean target_clean prev_clean hash_clean =
    let line =
      event_line (process_body run_id seq time pid name (some target)) prev_hash event_hash in
    let missing : find_after line (codes "\"etype\":\"SYSCALL\"") ≡ none =
      ap (λ l. find_after l (codes "\"etype\":\"SYSCALL\""))
        (process_line-render run_id seq time pid name target prev_hash event_hash)
      ∙ absent (codes "etype") (codes "\"SYSCALL\"")
          (process_pieces run_id seq time pid name target prev_hash) event_hash (omega arith)
          (omega arith) (omega arith) refl
          (run_clean, (name_clean, (target_clean, (prev_clean, tt)))) hash_clean refl in
    ap (λ b. load_line (event_line b prev_hash event_hash)) (cut_to_fits 4096 _ fits)
    ∙ rw (load_line, has, missing) refl

-- What the replayer makes of a call without a payload.
abbrev pub bare_event : SyscallEntry → ℤ → ReplayEvent
bare_event entry ret = record zero_event {
  syscall_no = entry.syscall_no;
  name = event_name entry.syscall_no;
  ret = ret;
}

load_line_other :
    (line r : Bytes) (number : ℤ)
    → find_after line (codes "\"etype\":\"SYSCALL\"") ≡ some r
    → parse_long_field line (codes "\"syscall_no\":") ≡ some number
    → is_payload_syscall number ≡ false
    → load_line line ≡ none
unfolding load_line keep
load_line_other line r number etype parsed call = ground arith

module _ (run_id : Bytes) (seq time : ℕ) (pid : ℤ) (entry : SyscallEntry) (ret : ℤ)
    (prev_hash event_hash : Bytes) (run_clean : Lacks quote run_id)
    (prev_clean : Lacks quote prev_hash) (hash_clean : Lacks quote event_hash)
    (number_long : IsLong entry.syscall_no) (ret_long : IsLong ret) where
  abbrev line : Bytes
  line = event_line (syscall_body run_id seq time pid entry ret []) prev_hash event_hash

  abbrev after : Bytes
  after = line_end prev_hash event_hash

  line_text : line ≡ syscall_text run_id seq time pid entry ret after
  unfolding syscall_text event_front args_text payload_tail
  line_text = simp append_assoc

  no_key :
      (key more : Bytes)
      → Lacks quote key
      → Lacks b',' key
      → Lacks b'}' key
      → all_miss (key_needle key more) (bare_pieces run_id seq time pid entry ret prev_hash) ≡ true
      → find_after (codes "\"}\n") (key_needle key more) ≡ none
      → find_after line (key_needle key more) ≡ none
  no_key key more lacks no_comma no_brace miss behind =
      ap (λ l. find_after l (key_needle key more))
        (bare_line-render run_id seq time pid entry ret prev_hash event_hash)
      ∙ absent key more (bare_pieces run_id seq time pid entry ret prev_hash) event_hash lacks
          no_comma no_brace miss (run_clean, (event_name-Lacks entry.syscall_no, (prev_clean, tt)))
          hash_clean behind

  no_offset : parse_long_field line (codes "\"offset\":") ≡ none
  unfolding parse_long_field misses find_after strip_prefix
  no_offset =
      rw (no_key (codes "offset") [] (omega arith) (omega arith) (omega arith) refl refl) refl

  no_length : parse_long_field line (codes "\"length\":") ≡ none
  unfolding parse_long_field misses find_after strip_prefix
  no_length =
      rw (no_key (codes "length") [] (omega arith) (omega arith) (omega arith) refl refl) refl

  no_sha256 : parse_string_field line (codes "\"sha256\":\"") 65 ≡ none
  unfolding parse_string_field misses find_after strip_prefix
  no_sha256 =
      rw (no_key (codes "sha256") (codes "\"") (omega arith) (omega arith) (omega arith) refl refl)
        refl

  number_found : parse_long_field line (codes "\"syscall_no\":") ≡ some entry.syscall_no
  number_found =
      let (r, found) = find-syscall_no run_id seq time pid entry ret run_clean after in
      rw line_text
        (parse_long_found _ (codes "\"syscall_no\":") r entry.syscall_no found number_long)

  ret_found : parse_long_field line (codes "\"ret\":") ≡ some ret
  ret_found =
      let (r, found) = find-ret run_id seq time pid entry ret run_clean after in
      rw line_text (parse_long_found _ (codes "\"ret\":") r ret found ret_long)

  name_found :
      is_payload_syscall entry.syscall_no ≡ true
      → parse_name line 64 ≡ some (event_name entry.syscall_no)
  unfolding parse_name parse_string_field
  name_found call =
      let (r, found) = find-name run_id seq time pid entry ret run_clean after in
      rw line_text (
        parse_string_found _ (codes "\"name\":\"") (event_name entry.syscall_no) r 64 found
          (event_name-Lacks entry.syscall_no) (event_name-fits entry.syscall_no call))

  -- Whether or not a value is spelled like the key of a reference, nothing is found behind it.
  line_event_bare :
      is_payload_syscall entry.syscall_no ≡ true
      → line_event line entry.syscall_no ≡ bare_event entry ret
  unfolding line_event with_payload size_of_long
  line_event_bare call = elim (Bool-cases (has line (codes "\"payload_ref\""))) [
    | inl there ↦ rw (there, name_found call, ret_found, no_offset, no_length, no_sha256) refl
    | inr missing ↦ rw (missing, name_found call, ret_found) refl
  ]

  etype_found : (r : Bytes) × (find_after line (codes "\"etype\":\"SYSCALL\"") ≡ some r)
  etype_found =
      let (r, found) = find-etype run_id seq time pid entry ret run_clean after in
      (r, rw line_text found)

  -- The line as it is read where nothing is cut.
  line_loaded : load_line line ≡ (
      if is_payload_syscall entry.syscall_no && not (is_no entry.syscall_no sys_read)
      then some (bare_event entry ret)
      else none)
  line_loaded = elim (Bool-cases (is_payload_syscall entry.syscall_no)) [
    | inr other_call ↦
        rw other_call (
          load_line_other line etype_found.0 entry.syscall_no etype_found.1 number_found other_call)
    | inl call ↦
        load_line_found line etype_found.0 entry.syscall_no _ etype_found.1 number_found call
          (line_event_bare call)
        ∙ (unfold should_load_replay_event in ground arith)
  ]

-- From a line of the recorder for a system call without a payload the replayer loads the number, the
-- name and the result, and a payload of length 0, if the call is one of the three others with
-- payloads than `read`; it loads nothing from the line of any other call. No buffer cuts the line, its
-- values hold no quote, and the numbers are those of a `long`; the run id may be the text
-- `payload_ref`, which the replayer takes for a reference.
pub load_line-bare_line :
    (run_id : Bytes) (seq time : ℕ) (pid : ℤ) (entry : SyscallEntry) (ret : ℤ)
    (prev_hash event_hash : Bytes)
    → length (syscall_body run_id seq time pid entry ret []) < 8192
    → Lacks quote run_id
    → Lacks quote prev_hash
    → Lacks quote event_hash
    → IsLong entry.syscall_no
    → IsLong ret
    → load_line (
        event_line
          (cut_to 8192 (syscall_body run_id seq time pid entry ret []))
          prev_hash
          event_hash)
      ≡ (if is_payload_syscall entry.syscall_no && not (is_no entry.syscall_no sys_read)
          then some (bare_event entry ret)
          else none)
load_line-bare_line run_id seq time pid entry ret prev_hash event_hash fits run_clean prev_clean
      hash_clean number_long ret_long =
    ap (λ b. load_line (event_line b prev_hash event_hash)) (cut_to_fits 8192 _ fits)
    ∙ line_loaded run_id seq time pid entry ret prev_hash event_hash run_clean prev_clean hash_clean
        number_long ret_long
