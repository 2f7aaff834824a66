-- ===== src/Recorder/CommandLine.antt =====
-- recorder/ptrace_recorder.c: the arguments of `main`, and its exit status.
pub mod Options
use os_ai_assisted_determini.Base.{
  ℕ, Bool, true, false, not, Option, none, some, List, [], ◌∷◌, if◌then◌else◌, Bytes, codes,
}
use os_ai_assisted_determini.Base.Int.{ℤ}
use os_ai_assisted_determini.Libc.Compare.{same_text}
use os_ai_assisted_determini.Recorder.Loop.{Loop, Stop, record_run}
use os_ai_assisted_determini.Recorder.Outputs.{Output, write_metadata}
use os_ai_assisted_determini.Util.Directories.{FileSystem, mkdir_p}

-- What the loop over `argv` finds: the last directory behind `--out`, and the program with its
-- arguments behind the first `--`. The first argument is what has been found of the directory.
unfoldable pub parse_args : Option Bytes → List Bytes → Option Bytes × Option (List Bytes)
parse_args out [] = (out, none)
parse_args out (a ∷ []) = (out, none)
parse_args out (a ∷ b ∷ rest) = elim (same_text a (codes "--out")) [
  | true ↦ parse_args (some b) rest
  | false ↦ elim (same_text a (codes "--")) [
    | true ↦ (out, some (b ∷ rest))
    | false ↦ parse_args out (b ∷ rest)
  ]
]

-- What the system answers to `main`: the old content of the event file, where it can be opened for
-- appending, whether the payload file can be opened, the metadata file, the child's id where `fork`
-- succeeds, the clock at the first stop, and the later stops.
pub record MainAnswers : Type 0 where
  pub old_events : Option Bytes
  pub payload_opens : Bool
  pub metadata : Output
  pub child : Option ℤ
  pub time : ℕ
  pub stops : List Stop

-- The exit status, what was written to `metadata.json`, and the loop, where it was reached.
pub record Exit : Type 0 where
  pub status : ℕ
  pub metadata : Option Bytes
  pub loop : Option Loop

abbrev pub fails : ℕ → Option Bytes → Exit
fails status metadata = record { status = status; metadata = metadata; loop = none }

-- Behind `write_metadata`.
unfoldable pub record_child : Bytes → Bytes → Bytes → Option Bytes → MainAnswers → Exit
record_child out target events metadata answers = elim answers.child [
  | none ↦ fails 1 metadata
  | some pid ↦ record {
    status = 0;
    metadata = metadata;
    loop = some (record_run pid target out events answers.time answers.stops);
  }
]

-- Behind `adr_mkdir_p`.
unfoldable pub record_into : Bytes → Bytes → List Bytes → MainAnswers → Exit
record_into out target argv answers = elim answers.old_events [
  | none ↦ fails 1 none
  | some events ↦
      if not answers.payload_opens
      then fails 1 none
      else let (metadata, written) = write_metadata answers.metadata out target argv in
        if not written then fails 1 metadata else record_child out target events metadata answers
]

module _ (fs : FileSystem) where
  open fs use {State}

  -- With a directory and a program.
  unfoldable pub record_program : Bytes → List Bytes → State → MainAnswers → Exit
  record_program out [] s answers = fails 2 none
  record_program out (target ∷ args) s answers =
      if not (mkdir_p fs (some out) s).0
      then fails 1 none
      else record_into out target (target ∷ args) answers

  -- Behind the loop over `argv`.
  unfoldable pub record_found : Option Bytes × Option (List Bytes) → State → MainAnswers → Exit
  record_found (none, program) s answers = fails 2 none
  record_found (some out, none) s answers = fails 2 none
  record_found (some out, some program) s answers = record_program out program s answers

  -- The arguments without the program's name.
  unfoldable pub main : List Bytes → State → MainAnswers → Exit
  main argv s answers = record_found (parse_args none argv) s answers
