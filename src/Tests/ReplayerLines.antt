-- ===== src/Tests/ReplayerLines.antt =====
-- Command lines of the replayer.
use os_ai_assisted_determini.Base.{
  ◌≡◌, refl, true, some, List, [], ◌∷◌, arith, codes, ltb→le, ltb→lt,
}
use os_ai_assisted_determini.Base.Int.{pos}
use os_ai_assisted_determini.Libc.Print.{cut_to}
use os_ai_assisted_determini.Recorder.Outputs.{write_metadata, metadata_text}
use os_ai_assisted_determini.Replayer.CommandLine.{MainAnswers, load_from, main}
use os_ai_assisted_determini.Replayer.CommandLine.Options.{Word, trace_option, out_option}
use os_ai_assisted_determini.Replayer.CommandLine.Started.{
  Ends, main-Ends, main_replays, replay_run,
}
use os_ai_assisted_determini.Replayer.Events.{
  load_replay_events, load_lines, split_lines, no_events,
}
use os_ai_assisted_determini.Replayer.Loop.{exited}
use os_ai_assisted_determini.Replayer.Metadata.{copy_text, copy_metadata}
use os_ai_assisted_determini.Tests.Texts.{remembering}
use os_ai_assisted_determini.Util.Directories.{
  mkdir_p, make_path, walk, attempt, is_made, trim_slash,
}
use os_ai_assisted_determini.Util.Json.{json_escape, escape_bytes, escape_byte}
use os_ai_assisted_determini.Util.Paths.{basename, join_path}

-- A trace of `ls` without events, and a program that ends at once.
abbrev answers : MainAnswers
answers = record {
  source_metadata = some (metadata_text (codes "t") (codes "ls") (codes "ls" ∷ []));
  source_events = some [];
  realloc = λ n. true;
  old_events = some [];
  payload_opens = true;
  metadata = record { opens = true; closes = true };
  child = some (pos 7);
  time = 1;
  stops = exited 3 2 ∷ [];
}

abbrev words : List Word
words = out_option (codes "p") ∷ trace_option (codes "t") ∷ []

main_replays_example :
    main remembering (codes "--out" ∷ codes "p" ∷ codes "--trace" ∷ codes "t" ∷ []) [] answers
    ≡ record {
      status = 0;
      metadata = some (copy_text (codes "t") (codes "p") (codes "ls"));
      loop = some (replay_run (codes "p") (codes "ls") [] [] answers (pos 7));
    }
unfolding mkdir_p make_path walk attempt is_made trim_slash cut_to write_metadata join_path
    load_from load_replay_events load_lines split_lines basename json_escape escape_bytes
    escape_byte copy_metadata
main_replays_example =
    main_replays remembering words (codes "t") (codes "p") (codes "t") (codes "ls") []
      (codes "ls" ∷ []) (record { opens = true; closes = true }) no_events [] answers (pos 7) tt
      refl refl refl refl refl (omega arith) (ltb→lt _ _ refl) (ltb→le _ _ refl) refl refl refl refl

main-Ends_example :
    Ends
      (codes "--out" ∷ codes "p" ∷ codes "--trace" ∷ codes "t" ∷ [])
      answers
      (main remembering (codes "--out" ∷ codes "p" ∷ codes "--trace" ∷ codes "t" ∷ []) [] answers)
main-Ends_example =
    main-Ends remembering (codes "--out" ∷ codes "p" ∷ codes "--trace" ∷ codes "t" ∷ []) [] answers
