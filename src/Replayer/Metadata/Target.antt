-- ===== src/Replayer/Metadata/Target.antt =====
-- The target of a replay is the one that the trace's metadata names.
use os_ai_assisted_determini.Base.{
  ℕ, ◌-◌, ◌≤◌, ◌<◌, ◌≡◌, refl, sym, ap, ◌∙◌, true, some, List, [], ◌∷◌, ◌++◌, append_assoc, arith,
  Bytes, codes, length, Lacks, All-append, take, take-append_add,
}
use os_ai_assisted_determini.Libc.Find.{find_after, until}
use os_ai_assisted_determini.Libc.FindLaws.{
  find_after_here, find_after-misses, until-append, misses,
}
use os_ai_assisted_determini.Libc.Print.{cut_to, cut_to_fits}
use os_ai_assisted_determini.Recorder.Outputs.{metadata_text, argv_text}
use os_ai_assisted_determini.Replayer.Metadata.{buf_size, copy_text, parse_target_from_metadata}
use os_ai_assisted_determini.Util.Json.{quote, backslash, escape_byte, escape_bytes, json_escape}
use os_ai_assisted_determini.Util.Json.Literal.{IsPlain, escape_bytes-IsPlain}
use os_ai_assisted_determini.Util.Json.Search.{find_after-json_escape, escape_bytes-Lacks}
use os_ai_assisted_determini.Util.Paths.{basename}

abbrev target_key : Bytes
target_key = codes "\"target\":\""

abbrev run_id_text : Bytes
run_id_text = codes "{\n  \"schema_version\":\"adr.metadata.v1\",\n  \"run_id\":"

-- Behind the run id, up to the target's key.
abbrev record_text : Bytes
record_text = codes ",\n  \"mode\":\"record\",\n  "

abbrev replay_text : Bytes
replay_text = codes ",\n  \"mode\":\"replay\",\n  \"source_trace\":"

-- The search reads on from a literal to the target's key, where `between` holds no such key.
find_target :
    (s between rest : Bytes)
    → misses target_key (b',' ∷ between) ≡ true
    → find_after (json_escape (some s) ++ (b',' ∷ (between ++ (target_key ++ rest)))) target_key
      ≡ some rest
find_target s between rest h =
    find_after-json_escape (codes "target") (quote ∷ []) (omega arith) (omega arith) (omega arith) s
      (between ++ (target_key ++ rest))
    ∙ find_after-misses (b',' ∷ between) (target_key ++ rest) target_key h
    ∙ find_after_here target_key rest

-- The file up to the end of the target, with what follows.
abbrev pub recorded_up_to : Bytes → Bytes → Bytes → Bytes
recorded_up_to run_id target rest =
    run_id_text
    ++ (json_escape (some run_id)
        ++ (record_text ++ (target_key ++ (escape_bytes target ++ (quote ∷ rest)))))

find_recorded :
    (run_id target rest : Bytes)
    → find_after (recorded_up_to run_id target rest) target_key
      ≡ some (escape_bytes target ++ (quote ∷ rest))
unfolding misses
find_recorded run_id target rest =
    find_after-misses run_id_text _ target_key refl
    ∙ find_target run_id (codes "\n  \"mode\":\"record\",\n  ")
        (escape_bytes target ++ (quote ∷ rest)) refl

-- The same for the replayer's own metadata, which name the source trace first.
abbrev pub replayed_up_to : Bytes → Bytes → Bytes → Bytes → Bytes
replayed_up_to run_id trace target rest =
    run_id_text
    ++ (json_escape (some run_id)
        ++ (replay_text
            ++ (json_escape (some trace)
                ++ (codes ",\n  " ++ (target_key ++ (escape_bytes target ++ (quote ∷ rest)))))))

find_replayed :
    (run_id trace target rest : Bytes)
    → find_after (replayed_up_to run_id trace target rest) target_key
      ≡ some (escape_bytes target ++ (quote ∷ rest))
unfolding misses
find_replayed run_id trace target rest =
    find_after-misses run_id_text _ target_key refl
    ∙ find_after-json_escape (codes "target") (quote ∷ []) (omega arith) (omega arith) (omega arith)
        run_id _
    ∙ find_after-misses replay_text _ target_key refl
    ∙ find_target trace (codes "\n  ") (escape_bytes target ++ (quote ∷ rest)) refl

-- The buffer holds the front of a file up to the end of the target, and the target is cut out of it.
parse_found :
    (front : Bytes → Bytes) (target value more : Bytes) (out_len : ℕ)
    → ((rest : Bytes) → front rest ≡ front [] ++ rest)
    → ((rest : Bytes)
        → find_after (front rest) target_key ≡ some (escape_bytes target ++ (quote ∷ rest)))
    → length (front []) ≤ buf_size
    → ((rest : Bytes) → until quote (escape_bytes target ++ (quote ∷ rest)) ≡ some value)
    → parse_target_from_metadata true (some (front more)) out_len ≡ some (cut_to out_len value)
unfolding parse_target_from_metadata
parse_found front target value more out_len grow find short ends =
    let rest = take (buf_size - length (front [])) more in
    let read : take buf_size (front more) ≡ front rest =
      ap (take buf_size) (grow more)
      ∙ take-append_add buf_size (front []) more short
      ∙ sym (grow rest) in
    rw (read, find rest, ends rest) refl

-- The literal of a target without a quote ends at its closing quote.
ends_clean :
    (target : Bytes)
    → Lacks quote target
    → (rest : Bytes)
    → until quote (escape_bytes target ++ (quote ∷ rest)) ≡ some (escape_bytes target)
ends_clean target clean rest =
    until-append quote (escape_bytes target) rest (escape_bytes-Lacks target clean)

plain-Lacks : (s : Bytes) → IsPlain s → Lacks quote s
plain-Lacks [] h = tt
plain-Lacks (c ∷ s) h = (h.0.1, plain-Lacks s h.1)

-- A plain target is written as it is, and fits.
cut_plain :
    (target : Bytes) (out_len : ℕ)
    → IsPlain target
    → length target < out_len
    → some (cut_to out_len (escape_bytes target)) ≡ some target
cut_plain target out_len plain fits =
    ap some (rw (escape_bytes-IsPlain target plain) (cut_to_fits out_len target fits))

abbrev last_text : Bytes
last_text = codes "],\n  \"arch\":\"x86_64\",\n  \"adr_version\":\"0.1.0\"\n}\n"

abbrev behind_target : List Bytes → Bytes
behind_target argv = codes ",\n  \"argv\":[" ++ (argv_text argv ++ last_text)

-- From the metadata that the recorder writes, the replayer reads the target that was recorded. The
-- target has no quote, backslash or control character and fits the buffer, and the file's first
-- 8191 bytes reach its end. The run id and the arguments may hold any bytes.
pub parse_target-metadata_text :
    (out target : Bytes) (argv : List Bytes) (out_len : ℕ)
    → IsPlain target
    → length target < out_len
    → length (recorded_up_to (basename out) target []) ≤ buf_size
    → parse_target_from_metadata true (some (metadata_text out target argv)) out_len ≡ some target
unfolding metadata_text json_escape
parse_target-metadata_text out target argv out_len plain fits short =
    ap (λ c. parse_target_from_metadata true (some c) out_len) (simp append_assoc)
    ∙ parse_found (recorded_up_to (basename out) target) target (escape_bytes target)
        (behind_target argv) out_len (λ rest. simp append_assoc)
        (find_recorded (basename out) target) short (ends_clean target (plain-Lacks target plain))
    ∙ cut_plain target out_len plain fits

-- The same holds for the metadata that the replayer writes for its own run, so that a replay can be
-- replayed. The path of the source trace may hold any bytes too.
pub parse_target-copy_text :
    (trace out target : Bytes) (out_len : ℕ)
    → IsPlain target
    → length target < out_len
    → length (replayed_up_to (basename out) trace target []) ≤ buf_size
    → parse_target_from_metadata true (some (copy_text trace out target)) out_len ≡ some target
unfolding copy_text json_escape
parse_target-copy_text trace out target out_len plain fits short =
    ap (λ c. parse_target_from_metadata true (some c) out_len) (simp append_assoc)
    ∙ parse_found (replayed_up_to (basename out) trace target) target (escape_bytes target)
        (codes ",\n  \"argv\":[" ++ (json_escape (some target) ++ last_text)) out_len
        (λ rest. simp append_assoc) (find_replayed (basename out) trace target) short
        (ends_clean target (plain-Lacks target plain))
    ∙ cut_plain target out_len plain fits

escape_bytes-quote :
    (front behind : Bytes)
    → IsPlain front
    → escape_bytes (front ++ (quote ∷ behind))
      ≡ (front ++ backslash ∷ []) ++ (quote ∷ escape_bytes behind)
unfolding escape_bytes escape_byte
escape_bytes-quote [] behind h = refl
escape_bytes-quote (c ∷ front) behind h = ground (arith, escape_bytes-quote front behind h.1)

-- A target with a quote in it is not read back: the replayer does not undo the escapes, and takes
-- what stands before the first quote, with the backslash that escapes it. It then runs another
-- program than the one that was recorded. The text before the target's first quote has nothing to
-- escape, and the file's first 8191 bytes reach the end of the target.
pub parse_target-quote :
    (out front behind : Bytes) (argv : List Bytes) (out_len : ℕ)
    → IsPlain front
    → length (recorded_up_to (basename out) (front ++ (quote ∷ behind)) []) ≤ buf_size
    → parse_target_from_metadata true
        (some (metadata_text out (front ++ (quote ∷ behind)) argv))
        out_len
      ≡ some (cut_to out_len (front ++ backslash ∷ []))
unfolding metadata_text json_escape
parse_target-quote out front behind argv out_len plain short =
    let target = front ++ (quote ∷ behind) in
    ap (λ c. parse_target_from_metadata true (some c) out_len) (simp append_assoc)
    ∙ parse_found (recorded_up_to (basename out) target) target (front ++ backslash ∷ [])
        (behind_target argv) out_len (λ rest. simp append_assoc)
        (find_recorded (basename out) target) short
        (λ rest.
          rw (escape_bytes-quote front behind plain, append_assoc (front ++ backslash ∷ []))
            (until-append quote (front ++ backslash ∷ []) _
              (All-append _ front (backslash ∷ []) (plain-Lacks front plain) (omega arith))))
