-- ===== src/Replayer/CommandLine.antt =====
-- replayer/ptrace_replayer.c: the arguments of `main`, what it does before the loop, and its exit
-- status.
pub mod Options
pub mod Started
use os_ai_assisted_determini.Base.{
  ℕ, Bool, true, false, not, Option, none, some, List, [], ◌∷◌, if◌then◌else◌, Bytes, codes,
}
use os_ai_assisted_determini.Base.Int.{ℤ}
use os_ai_assisted_determini.Libc.Compare.{same_text}
use os_ai_assisted_determini.Libc.Print.{cut_to}
use os_ai_assisted_determini.Recorder.Loop.{new_writer}
use os_ai_assisted_determini.Recorder.Outputs.{Output}
use os_ai_assisted_determini.Replayer.Events.{
  ReplayEvent, ReplayEvents, Realloc, load_replay_events,
}
use os_ai_assisted_determini.Replayer.Loop.{Loop, Stop, run, start, exit_status}
use os_ai_assisted_determini.Replayer.Metadata.{copy_metadata, parse_target_from_metadata}
use os_ai_assisted_determini.Util.Directories.{FileSystem, path_max, mkdir_p}
use os_ai_assisted_determini.Util.Paths.{join_path}

-- `trace`, `out` and `target_arg`.
pub record Arguments : Type 0 where
  pub trace : Option Bytes
  pub out : Option Bytes
  pub target : Option Bytes

abbrev pub no_options : Arguments
no_options = record { trace = none; out = none; target = none }

unfoldable pub parse_options : Arguments → List Bytes → Arguments
parse_options o [] = o
parse_options o (a ∷ []) = o
parse_options o (a ∷ b ∷ rest) = elim (same_text a (codes "--trace")) [
  | true ↦ parse_options (record o { trace = some b }) rest
  | false ↦ elim (same_text a (codes "--out")) [
    | true ↦ parse_options (record o { out = some b }) rest
    | false ↦ elim (same_text a (codes "--target")) [
      | true ↦ parse_options (record o { target = some b }) rest
      | false ↦ parse_options o (b ∷ rest)
    ]
  ]
]

-- What the system answers to `main`: the trace's metadata and event file, where they can be opened,
-- the allocations of the loaded events, the old content of the new event file, where it can be opened
-- for appending, whether the new payload file can be opened, the new metadata file, the child's id
-- where `fork` succeeds, the clock at the first stop, and the later stops.
pub record MainAnswers : Type 0 where
  pub source_metadata : Option Bytes
  pub source_events : Option Bytes
  pub realloc : Realloc
  pub old_events : Option Bytes
  pub payload_opens : Bool
  pub metadata : Output
  pub child : Option ℤ
  pub time : ℕ
  pub stops : List Stop

-- The exit status, what was written to the new `metadata.json`, and the loop, where it was reached.
pub record Exit : Type 0 where
  pub status : ℕ
  pub metadata : Option Bytes
  pub loop : Option Loop

abbrev pub fails : ℕ → Option Bytes → Exit
fails status metadata = record { status = status; metadata = metadata; loop = none }

-- The target of the command line, or that of the trace's metadata.
unfoldable pub target_of : Option Bytes → Bytes → MainAnswers → Option Bytes
target_of (some target) trace answers = some (cut_to path_max target)
target_of none trace answers =
    parse_target_from_metadata (join_path path_max trace (codes "metadata.json")).fits
      answers.source_metadata path_max

-- `load_replay_events`, with its test of the path.
unfoldable pub load_from : Bytes → MainAnswers → Option ReplayEvents
load_from trace answers =
    load_replay_events answers.realloc (
      if (join_path path_max trace (codes "events.jsonl")).fits
      then answers.source_events
      else none)

-- Behind `copy_metadata`, of which the result is not looked at.
unfoldable pub replay_child :
    Bytes → Bytes → List ReplayEvent → Bytes → Option Bytes → MainAnswers → Exit
replay_child out target items events metadata answers = elim answers.child [
  | none ↦ fails 1 metadata
  | some pid ↦
      let first = start pid target items (new_writer pid target out events) answers.time in
      let last = run pid target items first answers.stops in
      record { status = exit_status last; metadata = metadata; loop = some last }
]

-- Behind `load_replay_events`.
unfoldable pub replay_into : Bytes → Bytes → Bytes → List ReplayEvent → MainAnswers → Exit
replay_into trace out target items answers = elim answers.old_events [
  | none ↦ fails 1 none
  | some events ↦
      if not answers.payload_opens
      then fails 1 none
      else replay_child out target items events (copy_metadata answers.metadata trace out target).0
          answers
]

-- Behind `adr_mkdir_p`.
unfoldable pub replay_trace : Bytes → Bytes → Option Bytes → MainAnswers → Exit
replay_trace trace out target_arg answers = elim (target_of target_arg trace answers) [
  | none ↦ fails 1 none
  | some target ↦ elim (load_from trace answers) [
    | none ↦ fails 1 none
    | some events ↦ replay_into trace out target events.items answers
  ]
]

module _ (fs : FileSystem) where
  open fs use {State}

  -- Behind the loop over `argv`.
  unfoldable pub replay_found :
      Option Bytes → Option Bytes → Option Bytes → State → MainAnswers → Exit
  replay_found none out target_arg s answers = fails 2 none
  replay_found (some trace) none target_arg s answers = fails 2 none
  replay_found (some trace) (some out) target_arg s answers =
      if not (mkdir_p fs (some out) s).0
      then fails 1 none
      else replay_trace trace out target_arg answers

  -- The arguments without the program's name.
  unfoldable pub main : List Bytes → State → MainAnswers → Exit
  main argv s answers =
      let o = parse_options no_options argv in replay_found o.trace o.out o.target s answers
