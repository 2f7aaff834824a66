-- ===== src/Recorder/Outputs.antt =====
-- recorder/ptrace_recorder.c: `write_metadata` and `write_result`. The replayer has the same
-- `write_result`, but for the mode.
pub mod Result
use os_ai_assisted_determini.Base.{
  ℕ, Bool, false, not, ◌||◌, Option, none, some, List, [], ◌∷◌, ◌++◌, if◌then◌else◌, Bytes, codes,
}
use os_ai_assisted_determini.Hash.Context.{Ctx}
use os_ai_assisted_determini.Hash.Files.{Stream, file_hex}
use os_ai_assisted_determini.Libc.Print.{print_nat}
use os_ai_assisted_determini.Util.Directories.{path_max}
use os_ai_assisted_determini.Util.Json.{json_escape}
use os_ai_assisted_determini.Util.Paths.{basename, join_path}

-- What `fopen` for writing and `fclose` answer.
pub record Output : Type 0 where
  pub opens : Bool
  pub closes : Bool

-- The arguments behind the first one, each with its comma.
unfoldable pub more_args : List Bytes → Bytes
more_args [] = []
more_args (a ∷ argv) = b',' ∷ (json_escape (some a) ++ more_args argv)

unfoldable pub argv_text : List Bytes → Bytes
argv_text [] = []
argv_text (a ∷ argv) = json_escape (some a) ++ more_args argv

unfoldable pub metadata_text : Bytes → Bytes → List Bytes → Bytes
metadata_text out target argv =
    codes "{\n  \"schema_version\":\"adr.metadata.v1\",\n  \"run_id\":"
    ++ (json_escape (some (basename out))
        ++ (codes ",\n  \"mode\":\"record\",\n  \"target\":"
            ++ (json_escape (some target)
                ++ (codes ",\n  \"argv\":["
                    ++ (argv_text argv
                        ++ codes "],\n  \"arch\":\"x86_64\",\n  \"adr_version\":\"0.1.0\"\n}\n")))))

-- The new content of `metadata.json`, if it was opened, and whether the result is 0.
unfoldable pub write_metadata : Output → Bytes → Bytes → List Bytes → Option Bytes × Bool
write_metadata file out target argv =
    if not (join_path path_max out (codes "metadata.json")).fits || not file.opens
    then (none, false)
    else (some (metadata_text out target argv), file.closes)

-- The hash that is written for a file, given by its reads where it can be opened.
unfoldable pub hash_or_missing : Ctx → Option Stream → Bytes
hash_or_missing stack file = elim (file_hex stack file) [ some h ↦ h | none ↦ codes "missing" ]

-- The text of `write_result`, with the mode.
unfoldable pub result_text : Bytes → ℕ → ℕ → Bytes → Bytes → Bytes
result_text mode exit_code signal_no stdout_hash stderr_hash =
    codes "{\n  \"schema_version\":\"adr.result.v1\",\n  \"mode\":\""
    ++ (mode
        ++ (codes "\",\n  \"exit_code\":"
            ++ (print_nat exit_code
                ++ (codes ",\n  \"signal\":"
                    ++ (print_nat signal_no
                        ++ (codes ",\n  \"stdout_hash\":\""
                            ++ (stdout_hash
                                ++ (codes "\",\n  \"stderr_hash\":\""
                                    ++ (stderr_hash ++ codes "\"\n}\n")))))))))

-- The files by their paths: none can be opened that is not there. The stack slots are those of the
-- two calls of `adr_sha256_file_hex`.
unfoldable pub write_result :
    Output → (Bytes → Option Stream) → Ctx → Ctx → Bytes → Bytes → ℕ → ℕ → Option Bytes × Bool
write_result file files stack stack' mode out exit_code signal_no =
    let stdout_path = (join_path path_max out (codes "stdout.log")).out in
    let stderr_path = (join_path path_max out (codes "stderr.log")).out in
    if not file.opens then (none, false) else (
      some (
          result_text mode exit_code signal_no (hash_or_missing stack (files stdout_path))
            (hash_or_missing stack' (files stderr_path))),
      file.closes,
    )
