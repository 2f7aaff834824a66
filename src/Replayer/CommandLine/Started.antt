-- ===== src/Replayer/CommandLine/Started.antt =====
-- What the replayer does before its loop, and its exit status.
use os_ai_assisted_determini.Base.{
  ap, ◌∙◌, ◌<◌, ◌≤◌, ◌≡◌, refl, ◌⊎◌, inl, inr, true, Option, none, some, List, [], Bytes, codes,
  arith, Bool-cases, Option-cases, length,
}
use os_ai_assisted_determini.Base.Int.{ℤ}
use os_ai_assisted_determini.Recorder.Loop.{new_writer}
use os_ai_assisted_determini.Recorder.Outputs.{Output, write_metadata, metadata_text}
use os_ai_assisted_determini.Replayer.CommandLine.{
  no_options, parse_options, MainAnswers, Exit, fails, target_of, load_from, replay_child,
  replay_into, replay_trace, replay_found, main,
}
use os_ai_assisted_determini.Replayer.CommandLine.Options.{
  Word, render, ArePlain, values, parse_options-render,
}
use os_ai_assisted_determini.Replayer.Events.{ReplayEvent, ReplayEvents}
use os_ai_assisted_determini.Replayer.Loop.{Loop, run, start}
use os_ai_assisted_determini.Replayer.Loop.Drift.{run_never_drifts}
use os_ai_assisted_determini.Replayer.Metadata.{copy_metadata, buf_size}
use os_ai_assisted_determini.Replayer.Metadata.Target.{recorded_up_to, parse_target-metadata_text}
use os_ai_assisted_determini.Util.Directories.{FileSystem, mkdir_p, path_max}
use os_ai_assisted_determini.Util.Json.Literal.{IsPlain}
use os_ai_assisted_determini.Util.Paths.{basename, join_path}

-- The loop of a child that was started.
abbrev pub replay_run : Bytes → Bytes → List ReplayEvent → Bytes → MainAnswers → ℤ → Loop
replay_run out target items events answers pid =
    run pid target items (start pid target items (new_writer pid target out events) answers.time)
      answers.stops

-- The replayer came to its loop: what the command line says, nothing that failed, and the loop's end.
pub record Replayed (argv : List Bytes) (answers : MainAnswers) (e : Exit) : Type 0 where
  pub trace : Bytes
  pub out : Bytes
  pub target : Bytes
  pub old_events : Bytes
  pub loaded : ReplayEvents
  pub pid : ℤ
  pub from_trace : (parse_options no_options argv).trace ≡ some trace
  pub into : (parse_options no_options argv).out ≡ some out
  pub named : target_of (parse_options no_options argv).target trace answers ≡ some target
  pub loads : load_from trace answers ≡ some loaded
  pub events_open : answers.old_events ≡ some old_events
  pub payload_open : answers.payload_opens ≡ true
  pub forked : answers.child ≡ some pid
  pub status : e.status ≡ 0
  pub loop : e.loop ≡ some (replay_run out target loaded.items old_events answers pid)

-- Either the exit status is 1 or 2 and there is no loop, or the program was replayed.
abbrev pub Ends : List Bytes → MainAnswers → Exit → Type 0
Ends argv answers e =
    (((e.status ≡ 1) ⊎ (e.status ≡ 2)) × (e.loop ≡ none)) ⊎ Replayed argv answers e

fails_1-Ends :
    (argv : List Bytes) (answers : MainAnswers) (metadata : Option Bytes)
    → Ends argv answers (fails 1 metadata)
fails_1-Ends argv answers metadata = inl (inl refl, refl)

fails_2-Ends : (argv : List Bytes) (answers : MainAnswers) → Ends argv answers (fails 2 none)
fails_2-Ends argv answers = inl (inr refl, refl)

-- The status is that of a loop without drift.
replay_child-started :
    (out target : Bytes) (items : List ReplayEvent) (events : Bytes) (metadata : Option Bytes)
    (answers : MainAnswers) (pid : ℤ)
    → answers.child ≡ some pid
    → replay_child out target items events metadata answers ≡ record {
      status = 0;
      metadata = metadata;
      loop = some (replay_run out target items events answers pid);
    }
unfolding replay_child
replay_child-started out target items events metadata answers pid forked =
    rw
      (
        forked,
        (run_never_drifts pid target items (new_writer pid target out events) answers.time
            answers.stops).1,
      )
      refl

Ends-eq :
    (argv : List Bytes) (answers : MainAnswers) (e e' : Exit)
    → e ≡ e'
    → Ends argv answers e'
    → Ends argv answers e
Ends-eq argv answers e e' same h = rw same h

replay_into-replay_child :
    (trace out target events : Bytes) (items : List ReplayEvent) (answers : MainAnswers)
    → answers.old_events ≡ some events
    → answers.payload_opens ≡ true
    → replay_into trace out target items answers
      ≡ replay_child out target items events
          (copy_metadata answers.metadata trace out target).0
          answers
unfolding replay_into
replay_into-replay_child trace out target events items answers opened payload =
    rw (opened, payload) refl

replay_into-Ends :
    (argv : List Bytes) (trace out target : Bytes) (loaded : ReplayEvents) (answers : MainAnswers)
    → (parse_options no_options argv).trace ≡ some trace
    → (parse_options no_options argv).out ≡ some out
    → target_of (parse_options no_options argv).target trace answers ≡ some target
    → load_from trace answers ≡ some loaded
    → Ends argv answers (replay_into trace out target loaded.items answers)
unfolding replay_into replay_child
replay_into-Ends argv trace out target loaded answers from_trace into named loads =
    elim (Option-cases answers.old_events) [
      | inl failed ↦ Ends-eq argv answers _ _ (rw (failed) refl) (fails_1-Ends argv answers none)
      | inr (events, opened) ↦ elim (Bool-cases answers.payload_opens) [
        | inr failed ↦
            Ends-eq argv answers _ _ (rw (opened, failed) refl) (fails_1-Ends argv answers none)
        | inl payload ↦ elim (Option-cases answers.child) [
          | inl failed ↦
              Ends-eq argv answers _ _ (rw (opened, payload, failed) refl)
                (fails_1-Ends argv answers (copy_metadata answers.metadata trace out target).0)
          | inr (pid, forked) ↦
              let ran =
                replay_child-started out target loaded.items events
                  (copy_metadata answers.metadata trace out target).0 answers pid forked in
              let reached =
                replay_into-replay_child trace out target events loaded.items answers opened
                  payload in
              inr (record {
                trace = trace;
                out = out;
                target = target;
                old_events = events;
                loaded = loaded;
                pid = pid;
                from_trace = from_trace;
                into = into;
                named = named;
                loads = loads;
                events_open = opened;
                payload_open = payload;
                forked = forked;
                status = ap (λ (e : Exit). e.status) (reached ∙ ran);
                loop = ap (λ (e : Exit). e.loop) (reached ∙ ran);
              })
        ]
      ]
    ]

replay_trace-Ends :
    (argv : List Bytes) (trace out : Bytes) (answers : MainAnswers)
    → (parse_options no_options argv).trace ≡ some trace
    → (parse_options no_options argv).out ≡ some out
    → Ends argv answers (replay_trace trace out (parse_options no_options argv).target answers)
unfolding replay_trace
replay_trace-Ends argv trace out answers from_trace into =
    let target_arg = (parse_options no_options argv).target in
    elim (Option-cases (target_of target_arg trace answers)) [
      | inl failed ↦ rw (replay_trace, failed) (fails_1-Ends argv answers none)
      | inr (target, named) ↦ elim (Option-cases (load_from trace answers)) [
        | inl failed ↦ rw (replay_trace, named, failed) (fails_1-Ends argv answers none)
        | inr (loaded, loads) ↦
            rw (replay_trace, named, loads)
              (replay_into-Ends argv trace out target loaded answers from_trace into named loads)
      ]
    ]

-- What a successful call has written.
write_metadata-written :
    (file : Output) (out target : Bytes) (argv : List Bytes)
    → (write_metadata file out target argv).1 ≡ true
    → (write_metadata file out target argv).0 ≡ some (metadata_text out target argv)
unfolding write_metadata
write_metadata-written file out target argv written = ground arith

target_found :
    (out target : Bytes) (argv : List Bytes) (file : Output) (trace : Bytes) (answers : MainAnswers)
    → (join_path path_max trace (codes "metadata.json")).fits ≡ true
    → (write_metadata file out target argv).1 ≡ true
    → answers.source_metadata ≡ (write_metadata file out target argv).0
    → IsPlain target
    → length target < path_max
    → length (recorded_up_to (basename out) target []) ≤ buf_size
    → target_of none trace answers ≡ some target
unfolding target_of
target_found out target argv file trace answers fits written source plain short reached =
    rw (fits, source, write_metadata-written file out target argv written)
      (parse_target-metadata_text out target argv path_max plain short reached)

module _ (fs : FileSystem) where
  open fs use {State}

  replay_found-Ends :
      (argv : List Bytes) (trace out : Option Bytes) (s : State) (answers : MainAnswers)
      → (parse_options no_options argv).trace ≡ trace
      → (parse_options no_options argv).out ≡ out
      → Ends argv answers
          (replay_found fs trace out (parse_options no_options argv).target s answers)
  unfolding replay_found
  replay_found-Ends argv none out s answers from_trace into = fails_2-Ends argv answers
  replay_found-Ends argv (some trace) none s answers from_trace into = fails_2-Ends argv answers
  replay_found-Ends argv (some trace) (some out) s answers from_trace into =
      elim (Bool-cases (mkdir_p fs (some out) s).0) [
        | inr failed ↦ rw failed (fails_1-Ends argv answers none)
        | inl made ↦ rw made (replay_trace-Ends argv trace out answers from_trace into)
      ]

  -- Whatever the arguments are, whatever fails and whatever the replayed program does, either the exit
  -- status is 1 or 2 and the loop was not reached, or it is 0; the 3 of a drift is no exit status. It is 0
  -- only where the arguments give a trace and a directory, a target was found, the events were loaded,
  -- both files could be opened and the child was forked; and then the loop has run over all its stops
  -- for that child and target, against the loaded events.
  pub main-Ends :
      (argv : List Bytes) (s : State) (answers : MainAnswers)
      → Ends argv answers (main fs argv s answers)
  unfolding main
  main-Ends argv s answers =
      let o = parse_options no_options argv in
      replay_found-Ends argv o.trace o.out s answers refl refl

  -- The replayer, called in any order of words with a trace and an output directory and without
  -- `--target`, on a trace whose `metadata.json` the recorder has written: with nothing failing, it runs
  -- the recorded program against the loaded events and exits with 0. The target has nothing that JSON
  -- escapes and fits its buffer, and the file's first 8191 bytes reach the end of it.
  pub main_replays :
      (words : List Word) (trace out recorded_out target events : Bytes) (argv : List Bytes)
      (file : Output) (loaded : ReplayEvents) (s : State) (answers : MainAnswers) (pid : ℤ)
      → ArePlain words
      → values no_options words ≡ record { trace = some trace; out = some out; target = none }
      → (mkdir_p fs (some out) s).0 ≡ true
      → (join_path path_max trace (codes "metadata.json")).fits ≡ true
      → (write_metadata file recorded_out target argv).1 ≡ true
      → answers.source_metadata ≡ (write_metadata file recorded_out target argv).0
      → IsPlain target
      → length target < path_max
      → length (recorded_up_to (basename recorded_out) target []) ≤ buf_size
      → load_from trace answers ≡ some loaded
      → answers.old_events ≡ some events
      → answers.payload_opens ≡ true
      → answers.child ≡ some pid
      → main fs (render words) s answers ≡ record {
        status = 0;
        metadata = (copy_metadata answers.metadata trace out target).0;
        loop = some (replay_run out target loaded.items events answers pid);
      }
  unfolding main replay_found replay_into replay_trace replay_child copy_metadata run
  main_replays words trace out recorded_out target events argv file loaded s answers pid plain given
        made fits written source plain_target short reached from opened payload forked =
      rw
        (
          parse_options-render words no_options plain,
          given,
          made,
          replay_trace,
          target_found recorded_out target argv file trace answers fits written source plain_target
              short reached,
          from,
          opened,
          payload,
          replay_child-started out target loaded.items events
              (copy_metadata answers.metadata trace out target).0 answers pid forked,
        )
        refl
