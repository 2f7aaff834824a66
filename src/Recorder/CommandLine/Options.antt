-- ===== src/Recorder/CommandLine/Options.antt =====
-- What the recorder makes of its command line.
use os_ai_assisted_determini.Base.{
  ◌≡◌, refl, ◌≢◌, ◌⊎◌, inl, inr, ◌∙◌, true, Option, none, some, List, [], ◌∷◌, Bytes, codes,
  Bool-cases, Option-cases,
}
use os_ai_assisted_determini.Base.Int.{ℤ}
use os_ai_assisted_determini.Libc.Compare.{same_text, same_text_of_ne}
use os_ai_assisted_determini.Recorder.CommandLine.{
  parse_args, MainAnswers, Exit, fails, record_child, record_into, record_program, record_found,
  main,
}
use os_ai_assisted_determini.Recorder.Loop.{record_run}
use os_ai_assisted_determini.Recorder.Outputs.{write_metadata}
use os_ai_assisted_determini.Util.Directories.{FileSystem, mkdir_p}

-- A part of the command line before the program: an option with its directory, or any other word.
pub data Word : Type 0 where
  out_option : Bytes → Word
  other : Bytes → Word

abbrev pub render : List Word → List Bytes → List Bytes
render [] rest = rest
render (out_option x ∷ words) rest = codes "--out" ∷ x ∷ render words rest
render (other w ∷ words) rest = w ∷ render words rest

abbrev pub AreOther : List Word → Type 0
AreOther [] = Unit
AreOther (out_option x ∷ words) = AreOther words
AreOther (other w ∷ words) = ((w ≢ codes "--out") × (w ≢ codes "--")) × AreOther words

-- The directory of the last option.
abbrev pub last_out : Option Bytes → List Word → Option Bytes
last_out found [] = found
last_out found (out_option x ∷ words) = last_out (some x) words
last_out found (other w ∷ words) = last_out found words

pass_other :
    (out : Option Bytes) (w b : Bytes) (rest : List Bytes)
    → w ≢ codes "--out"
    → w ≢ codes "--"
    → parse_args out (w ∷ b ∷ rest) ≡ parse_args out (b ∷ rest)
unfolding parse_args
pass_other out w b rest ne ne' =
    rw (parse_args, same_text_of_ne w (codes "--out") ne, same_text_of_ne w (codes "--") ne') refl

-- Before `--` every word that is no option is passed over, and the last `--out` gives the
-- directory; the program and its arguments are what stands behind the first `--`, whatever they are.
pub parse_args-render :
    (words : List Word) (found : Option Bytes) (target : Bytes) (args : List Bytes)
    → AreOther words
    → parse_args found (render words (codes "--" ∷ target ∷ args))
      ≡ (last_out found words, some (target ∷ args))
unfolding parse_args same_text
parse_args-render [] found target args h = refl
parse_args-render (out_option x ∷ words) found target args h =
    parse_args-render words (some x) target args h
parse_args-render (other w ∷ []) found target args h =
    pass_other found w (codes "--") (target ∷ args) h.0.0 h.0.1
parse_args-render (other w ∷ out_option x ∷ words) found target args h =
    pass_other found w (codes "--out") (x ∷ render words (codes "--" ∷ target ∷ args)) h.0.0 h.0.1
    ∙ parse_args-render (out_option x ∷ words) found target args h.1
parse_args-render (other w ∷ other v ∷ words) found target args h =
    pass_other found w v (render words (codes "--" ∷ target ∷ args)) h.0.0 h.0.1
    ∙ parse_args-render (other v ∷ words) found target args h.1

-- The recorder came to its loop: what the command line says, nothing that failed, and the loop's end.
pub record Recorded (argv : List Bytes) (answers : MainAnswers) (e : Exit) : Type 0 where
  pub out : Bytes
  pub target : Bytes
  pub args : List Bytes
  pub old_events : Bytes
  pub pid : ℤ
  pub told : parse_args none argv ≡ (some out, some (target ∷ args))
  pub events_open : answers.old_events ≡ some old_events
  pub payload_open : answers.payload_opens ≡ true
  pub described : (write_metadata answers.metadata out target (target ∷ args)).1 ≡ true
  pub forked : answers.child ≡ some pid
  pub status : e.status ≡ 0
  pub loop : e.loop ≡ some (record_run pid target out old_events answers.time answers.stops)

-- Either the exit status is 1 or 2 and there is no loop, or the program was recorded.
abbrev pub Ends : List Bytes → MainAnswers → Exit → Type 0
Ends argv answers e =
    (((e.status ≡ 1) ⊎ (e.status ≡ 2)) × (e.loop ≡ none)) ⊎ Recorded argv answers e

fails_1-Ends :
    (argv : List Bytes) (answers : MainAnswers) (metadata : Option Bytes)
    → Ends argv answers (fails 1 metadata)
fails_1-Ends argv answers metadata = inl (inl refl, refl)

fails_2-Ends : (argv : List Bytes) (answers : MainAnswers) → Ends argv answers (fails 2 none)
fails_2-Ends argv answers = inl (inr refl, refl)

Ends-eq :
    (argv : List Bytes) (answers : MainAnswers) (e e' : Exit)
    → e ≡ e'
    → Ends argv answers e'
    → Ends argv answers e
Ends-eq argv answers e e' same h = rw same h

record_into-Ends :
    (argv : List Bytes) (out target : Bytes) (args : List Bytes) (answers : MainAnswers)
    → parse_args none argv ≡ (some out, some (target ∷ args))
    → Ends argv answers (record_into out target (target ∷ args) answers)
unfolding record_into record_child
record_into-Ends argv out target args answers told = elim (Option-cases answers.old_events) [
  | inl failed ↦ Ends-eq argv answers _ _ (rw (failed) refl) (fails_1-Ends argv answers none)
  | inr (events, opened) ↦ elim (Bool-cases answers.payload_opens) [
    | inr failed ↦
        Ends-eq argv answers _ _ (rw (opened, failed) refl) (fails_1-Ends argv answers none)
    | inl payload ↦
        elim (Bool-cases (write_metadata answers.metadata out target (target ∷ args)).1) [
          | inr failed ↦ Ends-eq argv answers _ _ (rw (opened, payload, failed) refl) (
              fails_1-Ends argv answers
                (write_metadata answers.metadata out target (target ∷ args)).0)
          | inl written ↦ elim (Option-cases answers.child) [
            | inl failed ↦ Ends-eq argv answers _ _ (rw (opened, payload, written, failed) refl) (
                fails_1-Ends argv answers
                  (write_metadata answers.metadata out target (target ∷ args)).0)
            | inr (pid, forked) ↦ inr (record {
              out = out;
              target = target;
              args = args;
              old_events = events;
              pid = pid;
              told = told;
              events_open = opened;
              payload_open = payload;
              described = written;
              forked = forked;
              status = rw (opened, payload, written, forked) refl;
              loop = rw (opened, payload, written, forked) refl;
            })
          ]
        ]
  ]
]

module _ (fs : FileSystem) where
  open fs use {State}

  -- The recorder, called with words of which the last option names `out`, `--`, and a program, and with
  -- nothing failing: it records that program into `out` and exits with 0.
  pub main_records :
      (words : List Word) (out target events : Bytes) (args : List Bytes) (s : State)
      (answers : MainAnswers) (pid : ℤ)
      → AreOther words
      → last_out none words ≡ some out
      → (mkdir_p fs (some out) s).0 ≡ true
      → answers.old_events ≡ some events
      → answers.payload_opens ≡ true
      → (write_metadata answers.metadata out target (target ∷ args)).1 ≡ true
      → answers.child ≡ some pid
      → main fs (render words (codes "--" ∷ target ∷ args)) s answers ≡ record {
        status = 0;
        metadata = (write_metadata answers.metadata out target (target ∷ args)).0;
        loop = some (record_run pid target out events answers.time answers.stops);
      }
  unfolding main record_found record_program record_into record_child
  main_records words out target events args s answers pid plain dir made opened payload metadata
        forked =
      rw
        (
          parse_args-render words none target args plain,
          dir,
          made,
          opened,
          payload,
          metadata,
          forked,
        )
        refl

  record_program-Ends :
      (argv : List Bytes) (out : Bytes) (program : List Bytes) (s : State) (answers : MainAnswers)
      → parse_args none argv ≡ (some out, some program)
      → Ends argv answers (record_program fs out program s answers)
  unfolding record_program
  record_program-Ends argv out [] s answers told = fails_2-Ends argv answers
  record_program-Ends argv out (target ∷ args) s answers told =
      elim (Bool-cases (mkdir_p fs (some out) s).0) [
        | inr failed ↦ rw failed (fails_1-Ends argv answers none)
        | inl made ↦ rw made (record_into-Ends argv out target args answers told)
      ]

  record_found-Ends :
      (argv : List Bytes) (found : Option Bytes × Option (List Bytes)) (s : State)
      (answers : MainAnswers)
      → parse_args none argv ≡ found
      → Ends argv answers (record_found fs found s answers)
  unfolding record_found
  record_found-Ends argv (none, program) s answers told = fails_2-Ends argv answers
  record_found-Ends argv (some out, none) s answers told = fails_2-Ends argv answers
  record_found-Ends argv (some out, some program) s answers told =
      record_program-Ends argv out program s answers told

  -- Whatever the arguments are and whatever fails, either the exit status is 1 or 2 and the loop was
  -- not reached, or it is 0. It is 0 only where the arguments give a directory and a program, both files
  -- could be opened, the metadata was written and the child was forked; and then the loop has run over
  -- all its stops for that child, program and directory, behind the old content of the event file.
  pub main_status :
      (argv : List Bytes) (s : State) (answers : MainAnswers)
      → Ends argv answers (main fs argv s answers)
  unfolding main
  main_status argv s answers = record_found-Ends argv (parse_args none argv) s answers refl
