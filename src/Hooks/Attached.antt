-- ===== src/Hooks/Attached.antt =====
-- The hooks in a program that the recorder has started.
use os_ai_assisted_determini.Base.{◌≡◌, refl, ◌≢◌, some, [], ◌∷◌, Bytes, codes}
use os_ai_assisted_determini.Base.Int.{ℤ}
use os_ai_assisted_determini.Hooks.{Environment, build_path, run_id_of}
use os_ai_assisted_determini.Recorder.Loop.{new_writer}
use os_ai_assisted_determini.Util.Directories.{path_max}
use os_ai_assisted_determini.Util.Paths.{basename, join_path}

-- The child's two `setenv` of what the hooks read.
unfoldable pub child_environment : Bytes → Environment
child_environment out = record { trace_dir = some out; run_id = some (basename out) }

-- In a child of the recorder with an output directory that is not the empty text, the hooks append to
-- the very path that the recorder writes its events to, cut to its buffer or not, and name the run as
-- the recorder does.
pub build_path-child_environment :
    (pid : ℤ) (target out events : Bytes)
    → out ≢ []
    → (build_path (child_environment out) ≡ (join_path path_max out (codes "events.jsonl")).out)
      × (run_id_of (child_environment out) ≡ (new_writer pid target out events).run_id)
unfolding build_path child_environment join_path new_writer
build_path-child_environment pid target [] events there = absurd (there refl)
build_path-child_environment pid target (c ∷ dir) events there = (refl, refl)
