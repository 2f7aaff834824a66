-- ===== src/Recorder/Outputs/Result.antt =====
-- What the file `result.json` says.
use os_ai_assisted_determini.Base.{
  ℕ, ◌^◌, ◌<◌, ◌≡◌, refl, ◌∙◌, Bool, true, false, Option, none, some, List, [], ◌∷◌, ◌++◌, arith,
  Bytes, codes, length, Lacks, if◌then◌else◌, Bool-cases, inl, inr,
}
use os_ai_assisted_determini.Base.Int.{pos}
use os_ai_assisted_determini.Hash.Context.{Ctx}
use os_ai_assisted_determini.Hash.Files.{Stream, contents, file_hex_lem}
use os_ai_assisted_determini.Hash.Hex.{bytes_hex}
use os_ai_assisted_determini.Hash.HexText.{hex-Lacks_quote, bytes_hex-IsHexDigit, length-bytes_hex}
use os_ai_assisted_determini.Libc.Find.{find_after}
use os_ai_assisted_determini.Libc.FindLaws.{find_after_here, find_after-misses, misses}
use os_ai_assisted_determini.Libc.Print.{print_nat, print_int}
use os_ai_assisted_determini.Recorder.Outputs.{Output, hash_or_missing, result_text, write_result}
use os_ai_assisted_determini.Replayer.Events.{parse_long_field, parse_string_field}
use os_ai_assisted_determini.Replayer.Load.{parse_long_found, parse_string_found}
use os_ai_assisted_determini.Replayer.Passes.{quote, pass_value, pass_nat}
use os_ai_assisted_determini.Util.Directories.{path_max}
use os_ai_assisted_determini.Util.Paths.{join_path}

module _ (exit_code signal_no : ℕ) (mode stdout_hash stderr_hash : Bytes)
    (mode_clean : Lacks quote mode) (stdout_clean : Lacks quote stdout_hash) where
  abbrev text : Bytes
  text = result_text mode exit_code signal_no stdout_hash stderr_hash

  -- What stands behind each key.
  abbrev behind_signal : Bytes
  behind_signal =
      print_nat signal_no
      ++ (codes ",\n  \"stdout_hash\":\""
          ++ (stdout_hash
              ++ (codes "\",\n  \"stderr_hash\":\"" ++ (stderr_hash ++ codes "\"\n}\n"))))

  abbrev behind_exit_code : Bytes
  behind_exit_code = print_nat exit_code ++ (codes ",\n  \"signal\":" ++ behind_signal)

  -- A search gets behind the mode to the comma.
  pass_mode :
      (key more : Bytes)
      → (lacks : Lacks quote key)
      → misses
          (quote ∷ (key ++ (quote ∷ b':' ∷ more)))
          (codes "{\n  \"schema_version\":\"adr.result.v1\",\n  \"mode\":")
        ≡ true
      → find_after text (quote ∷ (key ++ (quote ∷ b':' ∷ more)))
        ≡ find_after
            (quote ∷ (codes ",\n  \"exit_code\":" ++ behind_exit_code))
            (quote ∷ (key ++ (quote ∷ b':' ∷ more)))
  unfolding result_text
  pass_mode key more lacks h =
      find_after-misses (codes "{\n  \"schema_version\":\"adr.result.v1\",\n  \"mode\":")
        (quote ∷ (mode ++ (codes "\",\n  \"exit_code\":" ++ behind_exit_code)))
        (quote ∷ (key ++ (quote ∷ b':' ∷ more))) h
      ∙ pass_value key more lacks mode (codes "\n  \"exit_code\":" ++ behind_exit_code) mode_clean

  find_exit_code : find_after text (codes "\"exit_code\":") ≡ some behind_exit_code
  unfolding misses
  find_exit_code =
      pass_mode (codes "exit_code") [] (omega arith) refl
      ∙ find_after-misses (codes "\",\n  ") (codes "\"exit_code\":" ++ behind_exit_code)
          (codes "\"exit_code\":") refl
      ∙ find_after_here (codes "\"exit_code\":") behind_exit_code

  -- For a later key, the exit code is passed too.
  pass_exit_code :
      (key more : Bytes)
      → (lacks : Lacks quote key)
      → misses
          (quote ∷ (key ++ (quote ∷ b':' ∷ more)))
          (codes "{\n  \"schema_version\":\"adr.result.v1\",\n  \"mode\":")
        ≡ true
      → misses (quote ∷ (key ++ (quote ∷ b':' ∷ more))) (codes "\",\n  \"exit_code\":") ≡ true
      → find_after text (quote ∷ (key ++ (quote ∷ b':' ∷ more)))
        ≡ find_after
            (codes ",\n  \"signal\":" ++ behind_signal)
            (quote ∷ (key ++ (quote ∷ b':' ∷ more)))
  pass_exit_code key more lacks h h' =
      pass_mode key more lacks h
      ∙ find_after-misses (codes "\",\n  \"exit_code\":") behind_exit_code
          (quote ∷ (key ++ (quote ∷ b':' ∷ more))) h'
      ∙ pass_nat key more lacks exit_code (codes ",\n  \"signal\":" ++ behind_signal)

  find_signal : find_after text (codes "\"signal\":") ≡ some behind_signal
  unfolding misses
  find_signal =
      pass_exit_code (codes "signal") [] (omega arith) refl refl
      ∙ find_after-misses (codes ",\n  ") (codes "\"signal\":" ++ behind_signal)
          (codes "\"signal\":") refl
      ∙ find_after_here (codes "\"signal\":") behind_signal

  abbrev behind_stdout : Bytes
  behind_stdout =
      stdout_hash ++ (codes "\",\n  \"stderr_hash\":\"" ++ (stderr_hash ++ codes "\"\n}\n"))

  find_stdout : find_after text (codes "\"stdout_hash\":\"") ≡ some behind_stdout
  unfolding misses
  find_stdout =
      pass_exit_code (codes "stdout_hash") (quote ∷ []) (omega arith) refl refl
      ∙ find_after-misses (codes ",\n  \"signal\":") behind_signal (codes "\"stdout_hash\":\"") refl
      ∙ pass_nat (codes "stdout_hash") (quote ∷ []) (omega arith) signal_no _
      ∙ find_after-misses (codes ",\n  ") (codes "\"stdout_hash\":\"" ++ behind_stdout)
          (codes "\"stdout_hash\":\"") refl
      ∙ find_after_here (codes "\"stdout_hash\":\"") behind_stdout

  find_stderr : find_after text (codes "\"stderr_hash\":\"") ≡ some (stderr_hash ++ codes "\"\n}\n")
  unfolding misses
  find_stderr =
      pass_exit_code (codes "stderr_hash") (quote ∷ []) (omega arith) refl refl
      ∙ find_after-misses (codes ",\n  \"signal\":") behind_signal (codes "\"stderr_hash\":\"") refl
      ∙ pass_nat (codes "stderr_hash") (quote ∷ []) (omega arith) signal_no _
      ∙ find_after-misses (codes ",\n  \"stdout_hash\":") (quote ∷ behind_stdout)
          (codes "\"stderr_hash\":\"") refl
      ∙ pass_value (codes "stderr_hash") (quote ∷ []) (omega arith) stdout_hash
          (codes "\n  \"stderr_hash\":\"" ++ (stderr_hash ++ codes "\"\n}\n")) stdout_clean
      ∙ find_after-misses (codes "\",\n  ")
          (codes "\"stderr_hash\":\"" ++ (stderr_hash ++ codes "\"\n}\n"))
          (codes "\"stderr_hash\":\"") refl
      ∙ find_after_here (codes "\"stderr_hash\":\"") (stderr_hash ++ codes "\"\n}\n")

  -- The four fields of the text, as the replayer's parsers read them.
  result_fields :
      exit_code < 2 ^ 63
      → signal_no < 2 ^ 63
      → Lacks quote stderr_hash
      → length stdout_hash < 65
      → length stderr_hash < 65
      → (parse_long_field text (codes "\"exit_code\":") ≡ some (pos exit_code))
        × (parse_long_field text (codes "\"signal\":") ≡ some (pos signal_no))
        × (parse_string_field text (codes "\"stdout_hash\":\"") 65 ≡ some stdout_hash)
        × (parse_string_field text (codes "\"stderr_hash\":\"") 65 ≡ some stderr_hash)
  unfolding print_int
  result_fields small small' clean' size size' = (
    parse_long_found text (codes "\"exit_code\":") _ (pos exit_code) find_exit_code small,
    parse_long_found text (codes "\"signal\":") _ (pos signal_no) find_signal small',
    parse_string_found text (codes "\"stdout_hash\":\"") stdout_hash _ 65 find_stdout stdout_clean
        size,
    parse_string_found text (codes "\"stderr_hash\":\"") stderr_hash _ 65 find_stderr clean' size',
  )

-- What `result.json` ought to say of a file.
abbrev pub file_word : Option Stream → Bytes
file_word none = codes "missing"
file_word (some f) = if f.failed then codes "missing" else bytes_hex (contents f.reads)

hash_or_missing_open :
    (stack : Ctx) (reads : List Bytes) (failed : Bool)
    → length stack.block ≡ 64
    → hash_or_missing stack (some (record { reads = reads; failed = failed }))
      ≡ file_word (some (record { reads = reads; failed = failed }))
unfolding hash_or_missing
hash_or_missing_open stack reads true size =
    rw (hash_or_missing, (file_hex_lem stack reads size).1) refl
hash_or_missing_open stack reads false size =
    rw (hash_or_missing, (file_hex_lem stack reads size).0) refl

hash_or_missing_lem :
    (stack : Ctx) (file : Option Stream)
    → length stack.block ≡ 64
    → hash_or_missing stack file ≡ file_word file
unfolding hash_or_missing
hash_or_missing_lem stack none size = rw (hash_or_missing, (file_hex_lem stack [] size).2) refl
hash_or_missing_lem stack (some f) size = hash_or_missing_open stack f.reads f.failed size

-- It has no quote and fits a buffer for a hash.
IsWord : Bytes → Type 0
IsWord w = Lacks quote w × (length w < 65)

file_word-IsWord : (file : Option Stream) → IsWord (file_word file)
unfolding IsWord
file_word-IsWord none = (omega arith, omega arith)
file_word-IsWord (some f) = elim (Bool-cases f.failed) [
  | inl failed ↦ rw failed (omega arith, omega arith)
  | inr whole ↦
      let w = contents f.reads in
      rw whole
        (hex-Lacks_quote (bytes_hex w) (bytes_hex-IsHexDigit w), omega (arith, length-bytes_hex w))
]

-- Where `result.json` can be opened, `write_result` writes a text from whose fields one reads back
-- the exit code, the signal, and for `stdout.log` and `stderr.log` the SHA-256 text of their bytes,
-- or the word `missing` where a file cannot be opened or read. The mode has no quote, the numbers
-- are below 2 ^ 63, and the stack slots of the two contexts hold anything, with 64 bytes of `data`.
pub write_result_lem :
    (file : Output) (files : Bytes → Option Stream) (stack stack' : Ctx) (mode out : Bytes)
    (exit_code signal_no : ℕ)
    → file.opens ≡ true
    → length stack.block ≡ 64
    → length stack'.block ≡ 64
    → Lacks quote mode
    → exit_code < 2 ^ 63
    → signal_no < 2 ^ 63
    → (content : Bytes) × ((write_result file files stack stack' mode out exit_code signal_no).0
        ≡ some content)
      × (parse_long_field content (codes "\"exit_code\":") ≡ some (pos exit_code))
      × (parse_long_field content (codes "\"signal\":") ≡ some (pos signal_no))
      × (parse_string_field content (codes "\"stdout_hash\":\"") 65
          ≡ some (file_word (files (join_path path_max out (codes "stdout.log")).out)))
      × (parse_string_field content (codes "\"stderr_hash\":\"") 65
          ≡ some (file_word (files (join_path path_max out (codes "stderr.log")).out)))
unfolding write_result IsWord
write_result_lem file files stack stack' mode out exit_code signal_no opens size size' clean small
      small' =
    let stdout = files (join_path path_max out (codes "stdout.log")).out in
    let stderr = files (join_path path_max out (codes "stderr.log")).out in
    let (no_quote, short) = file_word-IsWord stdout in
    let (no_quote', short') = file_word-IsWord stderr in
    let fields =
      result_fields exit_code signal_no mode (file_word stdout) (file_word stderr) clean no_quote
        small small' no_quote' short short' in
    (
      result_text mode exit_code signal_no (file_word stdout) (file_word stderr),
      rw (opens, hash_or_missing_lem stack stdout size, hash_or_missing_lem stack' stderr size')
          refl,
      fields.0,
      fields.1,
      fields.2,
      fields.3,
    )
