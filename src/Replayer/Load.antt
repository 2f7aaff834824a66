-- ===== src/Replayer/Load.antt =====
-- The replayer loads from a line of the recorder what the recorder wrote.
pub mod Keys
use os_ai_assisted_determini.Replayer.Passes.Fields.{event_name-Lacks}
use os_ai_assisted_determini.Base.{
  ℕ, ◌+◌, ◌^◌, ◌<◌, ◌≡◌, refl, sym, ap, ◌∙◌, true, not, ◌&&◌, none, some, [], ◌∷◌, ◌++◌,
  append_assoc, arith, ltb, leb, if◌then◌else◌, Bytes, codes, length, Lacks,
}
use os_ai_assisted_determini.Base.Int.{ℤ, pos, negsuc, IsLong}
use os_ai_assisted_determini.Libc.Find.{find_after}
use os_ai_assisted_determini.Libc.FindLaws.{find_after_here, until-append}
use os_ai_assisted_determini.Libc.Parse.{is_digit}
use os_ai_assisted_determini.Libc.Print.{cut_to_fits, print_int, cut_to}
use os_ai_assisted_determini.Libc.RoundTrip.{strtol-print_int}
use os_ai_assisted_determini.Trace.Syscalls.{
  SyscallEntry, is_no, sys_read, is_payload_syscall, syscall_name,
}
use os_ai_assisted_determini.Trace.Writer.{
  line_end, event_front, event_name, args_text, syscall_text, payload_ref_text, payload_ref,
  payload_tail, syscall_body, event_line,
}
use os_ai_assisted_determini.Replayer.Events.{
  ReplayEvent, should_load_replay_event, parse_long_field, parse_string_field, parse_name, has,
  size_of_long, with_payload, line_event, keep, load_line,
}
use os_ai_assisted_determini.Replayer.Passes.{quote}
use Keys.{find-etype, find-name, find-syscall_no, find-ret, find-offset, find-length, find-sha256}

-- What the recorder knew when it wrote the event.
abbrev pub recorded_event : SyscallEntry → ℤ → ℤ → ℕ → Bytes → ReplayEvent
recorded_event entry ret offset len hash = record {
  syscall_no = entry.syscall_no;
  name = event_name entry.syscall_no;
  sha256 = hash;
  ret = ret;
  offset = offset;
  length = len;
}

pub parse_long_found :
    (line needle r : Bytes) (z : ℤ)
    → find_after line needle ≡ some (print_int z ++ (b',' ∷ r))
    → IsLong z
    → parse_long_field line needle ≡ some z
unfolding parse_long_field
parse_long_found line needle r z found long =
    rw found (strtol-print_int z (b',' ∷ r) long (unfold is_digit in refl))

pub parse_string_found :
    (line needle v r : Bytes) (out_len : ℕ)
    → find_after line needle ≡ some (v ++ (quote ∷ r))
    → Lacks quote v
    → length v < out_len
    → parse_string_field line needle out_len ≡ some v
unfolding parse_string_field
parse_string_found line needle v r out_len found clean fits =
    rw (found, until-append quote v r clean) (ap some (cut_to_fits out_len v fits))

has_found : (line needle r : Bytes) → find_after line needle ≡ some r → has line needle ≡ true
has_found line needle r found = rw (has, found)

has-append : (p needle s : Bytes) → has (p ++ (needle ++ s)) needle ≡ true
unfolding find_after
has-append [] needle s = has_found (needle ++ s) needle s (find_after_here needle s)
has-append (c ∷ p) needle s = ground (arith, has-append p needle s)

pub event_name-fits :
    (number : ℤ) → is_payload_syscall number ≡ true → length (event_name number) < 64
unfolding event_name syscall_name is_payload_syscall
event_name-fits (pos n) h = ground arith
event_name-fits (negsuc n) h = cc

-- The line that the recorder writes for a system call with a payload, when it fits its buffers.
abbrev pub recorded_line :
    Bytes → ℕ → ℕ → ℤ → SyscallEntry → ℤ → ℤ → ℕ → Bytes → Bytes → Bytes → Bytes
recorded_line run_id seq time pid entry ret offset len hash prev_hash event_hash =
    event_line
      (cut_to 8192 (syscall_body run_id seq time pid entry ret (payload_ref offset len hash)))
      prev_hash event_hash

module _ (run_id : Bytes) (seq time : ℕ) (pid : ℤ) (entry : SyscallEntry) (ret offset : ℤ) (len : ℕ)
    (hash : Bytes) where
  abbrev whole : Bytes → Bytes
  whole after =
      syscall_text run_id seq time pid entry ret
        (b',' ∷ (payload_ref_text offset len hash ++ after))

  syscall_text-append :
      (rest after : Bytes)
      → syscall_text run_id seq time pid entry ret rest ++ after
        ≡ syscall_text run_id seq time pid entry ret (rest ++ after)
  unfolding syscall_text event_front args_text
  syscall_text-append rest after = simp append_assoc

  payload_tail_text :
      payload_tail (payload_ref_text offset len hash) ≡ b',' ∷ payload_ref_text offset len hash
  unfolding payload_tail payload_ref_text
  payload_tail_text = refl

  abbrev reference : Bytes
  reference = payload_ref_text offset len hash

  -- The whole line, with nothing cut.
  recorded_line_text :
      (prev_hash event_hash : Bytes)
      → length (syscall_body run_id seq time pid entry ret reference) < 8192
      → length reference < 512
      → recorded_line run_id seq time pid entry ret offset len hash prev_hash event_hash
        ≡ whole (line_end prev_hash event_hash)
  unfolding payload_ref
  recorded_line_text prev_hash event_hash body_fits ref_fits =
      let after = line_end prev_hash event_hash in
      let fits : length (syscall_text run_id seq time pid entry ret (b',' ∷ reference)) < 8192 =
        rw payload_tail_text at body_fits in
      ap (λ r. cut_to 8192 (syscall_body run_id seq time pid entry ret r) ++ after)
        (cut_to_fits 512 reference ref_fits)
      ∙ ap (λ r. cut_to 8192 (syscall_text run_id seq time pid entry ret r) ++ after)
          payload_tail_text
      ∙ ap (λ b. b ++ after) (cut_to_fits 8192 _ fits)
      ∙ syscall_text-append (b',' ∷ reference) after

  has_reference : (after : Bytes) → has (whole after) (codes "\"payload_ref\"") ≡ true
  unfolding payload_ref_text
  has_reference after =
      let front = syscall_text run_id seq time pid entry ret [] in
      let needle = codes "\"payload_ref\"" in
      let parts : (front ++ b',' ∷ []) ++ (reference ++ after) ≡ whole after =
        append_assoc front (b',' ∷ []) (reference ++ after)
        ∙ syscall_text-append [] (b',' ∷ (reference ++ after)) in
      sym (ap (λ l. has l needle) parts) ∙ has-append (front ++ b',' ∷ []) needle _

  module _ (after : Bytes) (clean : Lacks quote run_id) (hash_clean : Lacks quote hash)
      (hash_size : length hash ≡ 64) (number_long : IsLong entry.syscall_no) (ret_long : IsLong ret)
      (offset_long : IsLong offset) (len_long : len < 2 ^ 63)
      (payload_call : is_payload_syscall entry.syscall_no ≡ true) where
    number_found : parse_long_field (whole after) (codes "\"syscall_no\":") ≡ some entry.syscall_no
    number_found =
        let (r, found) =
          find-syscall_no run_id seq time pid entry ret clean (b',' ∷ (reference ++ after)) in
        parse_long_found (whole after) (codes "\"syscall_no\":") r entry.syscall_no found
          number_long

    ret_found : parse_long_field (whole after) (codes "\"ret\":") ≡ some ret
    ret_found =
        let (r, found) =
          find-ret run_id seq time pid entry ret clean (b',' ∷ (reference ++ after)) in
        parse_long_found (whole after) (codes "\"ret\":") r ret found ret_long

    name_found : parse_name (whole after) 64 ≡ some (event_name entry.syscall_no)
    unfolding parse_name parse_string_field
    name_found =
        let (r, found) =
          find-name run_id seq time pid entry ret clean (b',' ∷ (reference ++ after)) in
        parse_string_found (whole after) (codes "\"name\":\"") (event_name entry.syscall_no) r 64
          found (event_name-Lacks entry.syscall_no) (event_name-fits entry.syscall_no payload_call)

    offset_found : parse_long_field (whole after) (codes "\"offset\":") ≡ some offset
    offset_found =
        let (r, found) = find-offset run_id seq time pid entry ret clean offset len hash after in
        parse_long_found (whole after) (codes "\"offset\":") r offset found offset_long

    length_found : parse_long_field (whole after) (codes "\"length\":") ≡ some (pos len)
    length_found =
        let (r, found) = find-length run_id seq time pid entry ret clean offset len hash after in
        parse_long_found (whole after) (codes "\"length\":") r (pos len) (unfold print_int in found)
          len_long

    sha256_found : parse_string_field (whole after) (codes "\"sha256\":\"") 65 ≡ some hash
    sha256_found =
        let (r, found) = find-sha256 run_id seq time pid entry ret clean offset len hash after in
        parse_string_found (whole after) (codes "\"sha256\":\"") hash r 65 found hash_clean
          (omega arith)

    line_event_found :
        line_event (whole after) entry.syscall_no ≡ recorded_event entry ret offset len hash
    unfolding line_event with_payload size_of_long
    line_event_found =
        rw (has_reference after, name_found, ret_found, offset_found, length_found, sha256_found)
          refl

pub load_line_found :
    (line r : Bytes) (number : ℤ) (ev : ReplayEvent)
    → find_after line (codes "\"etype\":\"SYSCALL\"") ≡ some r
    → parse_long_field line (codes "\"syscall_no\":") ≡ some number
    → is_payload_syscall number ≡ true
    → line_event line number ≡ ev
    → load_line line ≡ (if should_load_replay_event ev then some ev else none)
unfolding load_line keep
load_line_found line r number ev etype parsed call e = ground arith

-- A line that the recorder wrote for a system call with a payload is read back by the replayer: if
-- the run id holds no quote, the hash is 64 bytes without a quote, no buffer cut the line, and the
-- numbers are those of a `long`, the replayer has the number, name, result, offset, length and hash that the recorder had. The line
-- is kept if the call is not `read`, and for `read` exactly if the payload has 1 to 256 bytes.
pub load_line-recorded_line :
    (run_id : Bytes) (seq time : ℕ) (pid : ℤ) (entry : SyscallEntry) (ret offset : ℤ) (len : ℕ)
    (hash prev_hash event_hash : Bytes)
    → length (syscall_body run_id seq time pid entry ret (payload_ref_text offset len hash)) < 8192
    → length (payload_ref_text offset len hash) < 512
    → Lacks 0x22 run_id
    → Lacks 0x22 hash
    → length hash ≡ 64
    → IsLong entry.syscall_no
    → IsLong ret
    → IsLong offset
    → len < 2 ^ 63
    → is_payload_syscall entry.syscall_no ≡ true
    → load_line (recorded_line run_id seq time pid entry ret offset len hash prev_hash event_hash)
      ≡ (if is_no entry.syscall_no sys_read && not (ltb 0 len && leb len 256)
          then none
          else some (recorded_event entry ret offset len hash))
load_line-recorded_line run_id seq time pid entry ret offset len hash prev_hash event_hash body_fits
      ref_fits clean hash_clean hash_size number_long ret_long offset_long len_long payload_call =
    let after = line_end prev_hash event_hash in
    let line =
      recorded_line_text run_id seq time pid entry ret offset len hash prev_hash event_hash
        body_fits ref_fits in
    let (r, found) =
      find-etype run_id seq time pid entry ret clean
        (b',' ∷ (payload_ref_text offset len hash ++ after)) in
    ap load_line line
    ∙ load_line_found (whole run_id seq time pid entry ret offset len hash after) r entry.syscall_no
        _ found
        (number_found run_id seq time pid entry ret offset len hash after clean hash_clean hash_size
          number_long ret_long offset_long len_long payload_call)
        payload_call
        (line_event_found run_id seq time pid entry ret offset len hash after clean hash_clean
          hash_size number_long ret_long offset_long len_long payload_call)
    ∙ (unfold should_load_replay_event in ground arith)
