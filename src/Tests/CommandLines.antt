-- ===== src/Tests/CommandLines.antt =====
-- Command lines of the two programs.
use os_ai_assisted_determini.Base.{◌≡◌, refl, true, some, [], ◌∷◌, codes}
use os_ai_assisted_determini.Base.Int.{pos}
use os_ai_assisted_determini.Recorder.CommandLine.{MainAnswers, main}
use os_ai_assisted_determini.Recorder.CommandLine.Options.{
  Ends, main_records, main_status, out_option,
}
use os_ai_assisted_determini.Recorder.Loop.{exited, record_run}
use os_ai_assisted_determini.Libc.Print.{cut_to}
use os_ai_assisted_determini.Recorder.Outputs.{write_metadata, metadata_text}
use os_ai_assisted_determini.Util.Directories.{
  mkdir_p, make_path, walk, attempt, is_made, trim_slash,
}
use os_ai_assisted_determini.Util.Paths.{join_path}
use os_ai_assisted_determini.Tests.Texts.{remembering}

-- A run of a program that ends at once.
abbrev answers : MainAnswers
answers = record {
  old_events = some [];
  payload_opens = true;
  metadata = record { opens = true; closes = true };
  child = some (pos 7);
  time = 1;
  stops = exited 3 2 ∷ [];
}

main_records_example :
    main remembering (codes "--out" ∷ codes "t" ∷ codes "--" ∷ codes "ls" ∷ []) [] answers
    ≡ record {
      status = 0;
      metadata = some (metadata_text (codes "t") (codes "ls") (codes "ls" ∷ []));
      loop = some (record_run (pos 7) (codes "ls") (codes "t") [] 1 (exited 3 2 ∷ []));
    }
unfolding mkdir_p make_path walk attempt is_made trim_slash cut_to write_metadata join_path
main_records_example =
    main_records remembering (out_option (codes "t") ∷ []) (codes "t") (codes "ls") [] [] [] answers
      (pos 7) tt refl refl refl refl refl refl

main_status_example :
    Ends
      (codes "--out" ∷ codes "t" ∷ codes "--" ∷ codes "ls" ∷ [])
      answers
      (main remembering (codes "--out" ∷ codes "t" ∷ codes "--" ∷ codes "ls" ∷ []) [] answers)
main_status_example =
    main_status remembering (codes "--out" ∷ codes "t" ∷ codes "--" ∷ codes "ls" ∷ []) [] answers
