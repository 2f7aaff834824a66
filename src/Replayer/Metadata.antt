-- ===== src/Replayer/Metadata.antt =====
-- replayer/ptrace_replayer.c: `copy_metadata` and `parse_target_from_metadata`.
pub mod Target
use os_ai_assisted_determini.Base.{
  ℕ, Bool, false, not, ◌||◌, Option, none, some, ◌++◌, if◌then◌else◌, Bytes, codes, take,
}
use os_ai_assisted_determini.Libc.Find.{find_after, until}
use os_ai_assisted_determini.Libc.Print.{cut_to}
use os_ai_assisted_determini.Recorder.Outputs.{Output}
use os_ai_assisted_determini.Replayer.Events.{◌>>=◌}
use os_ai_assisted_determini.Util.Directories.{path_max}
use os_ai_assisted_determini.Util.Json.{json_escape}
use os_ai_assisted_determini.Util.Paths.{basename, join_path}

unfoldable pub copy_text : Bytes → Bytes → Bytes → Bytes
copy_text trace out target =
    codes "{\n  \"schema_version\":\"adr.metadata.v1\",\n  \"run_id\":"
    ++ (json_escape (some (basename out))
        ++ (codes ",\n  \"mode\":\"replay\",\n  \"source_trace\":"
            ++ (json_escape (some trace)
                ++ (codes ",\n  \"target\":"
                    ++ (json_escape (some target)
                        ++ (codes ",\n  \"argv\":["
                            ++ (json_escape (some target)
                                ++ codes
                                    "],\n  \"arch\":\"x86_64\",\n  \"adr_version\":\"0.1.0\"\n}\n")))))))

-- The new content of `metadata.json`, if it was opened, and whether the result is 0.
unfoldable pub copy_metadata : Output → Bytes → Bytes → Bytes → Option Bytes × Bool
copy_metadata file trace out target =
    if not (join_path path_max out (codes "metadata.json")).fits || not file.opens
    then (none, false)
    else (some (copy_text trace out target), file.closes)

-- The size of `buf`, less its terminator.
abbrev pub buf_size : ℕ
buf_size = 8191

-- What is copied to `out`; `none` is the -1. The argument is the content of `metadata.json` if it
-- can be opened, and whether its path fits `path`.
unfoldable pub parse_target_from_metadata : Bool → Option Bytes → ℕ → Option Bytes
parse_target_from_metadata fits file out_len = do
  content ← if fits then file else none
  p ← find_after (take buf_size content) (codes "\"target\":\"")
  target ← until 0x22 p
  some (cut_to out_len target)
