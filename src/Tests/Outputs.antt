-- ===== src/Tests/Outputs.antt =====
-- The metadata and the results of a run into `out/r1`.
use os_ai_assisted_determini.Base.{
  ◌≡◌, refl, true, false, Option, some, [], ◌∷◌, ◌++◌, arith, Bytes, codes, ltb→le,
}
use os_ai_assisted_determini.Base.Int.{pos}
use os_ai_assisted_determini.Hash.Files.{Stream}
use os_ai_assisted_determini.Hash.Hex.{blank}
use os_ai_assisted_determini.Libc.Print.{cut_to}
use os_ai_assisted_determini.Recorder.Outputs.{metadata_text, write_result}
use os_ai_assisted_determini.Recorder.Outputs.Result.{file_word, write_result_lem}
use os_ai_assisted_determini.Replayer.Events.{parse_long_field, parse_string_field}
use os_ai_assisted_determini.Replayer.Metadata.{parse_target_from_metadata}
use os_ai_assisted_determini.Replayer.Metadata.Target.{
  parse_target-metadata_text, parse_target-quote,
}
use os_ai_assisted_determini.Util.Directories.{path_max}
use os_ai_assisted_determini.Util.Json.{quote, backslash, escape_byte, escape_bytes, json_escape}
use os_ai_assisted_determini.Util.Paths.{basename, join_path}

parse_target-metadata_text_example :
    parse_target_from_metadata true
      (some (metadata_text (codes "out/r1") (codes "/bin/ls") (codes "/bin/ls" ∷ [])))
      4096
    ≡ some (codes "/bin/ls")
unfolding basename json_escape escape_bytes escape_byte
parse_target-metadata_text_example =
    parse_target-metadata_text (codes "out/r1") (codes "/bin/ls") (codes "/bin/ls" ∷ []) 4096
      (omega arith) (omega arith) (ltb→le _ _ refl)

parse_target-quote_example :
    parse_target_from_metadata true
      (some (metadata_text (codes "out/r1") (codes "/bin/a" ++ (quote ∷ codes "b")) []))
      4096
    ≡ some (cut_to 4096 (codes "/bin/a" ++ backslash ∷ []))
unfolding basename json_escape escape_bytes escape_byte
parse_target-quote_example =
    parse_target-quote (codes "out/r1") (codes "/bin/a") (codes "b") [] 4096 (omega arith)
      (ltb→le _ _ refl)

-- Both logs can be read; the first one comes in one piece.
abbrev logs : Bytes → Option Stream
logs path = some (record { reads = codes "ok" ∷ [] ∷ []; failed = false })

write_result_lem_example :
    (content : Bytes) × ((write_result
        (record { opens = true; closes = true })
        logs
        blank
        blank
        (codes "record")
        (codes "out/r1")
        3
        0).0
      ≡ some content)
    × (parse_long_field content (codes "\"exit_code\":") ≡ some (pos 3))
    × (parse_long_field content (codes "\"signal\":") ≡ some (pos 0))
    × (parse_string_field content (codes "\"stdout_hash\":\"") 65
        ≡ some (file_word (logs (join_path path_max (codes "out/r1") (codes "stdout.log")).out)))
    × (parse_string_field content (codes "\"stderr_hash\":\"") 65
        ≡ some (file_word (logs (join_path path_max (codes "out/r1") (codes "stderr.log")).out)))
write_result_lem_example =
    write_result_lem (record { opens = true; closes = true }) logs blank blank (codes "record")
      (codes "out/r1") 3 0 refl refl refl (omega arith) (omega arith) (omega arith)
