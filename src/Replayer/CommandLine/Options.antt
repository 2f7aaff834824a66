-- ===== src/Replayer/CommandLine/Options.antt =====
-- What the replayer makes of its command line.
use os_ai_assisted_determini.Base.{◌≡◌, refl, ◌≢◌, ◌∙◌, some, List, [], ◌∷◌, Bytes, codes}
use os_ai_assisted_determini.Libc.Compare.{same_text, same_text_of_ne}
use os_ai_assisted_determini.Replayer.CommandLine.{Arguments, parse_options}

-- A part of the command line: an option with its value, or any other word.
pub data Word : Type 0 where
  trace_option out_option target_option : Bytes → Word
  plain_word : Bytes → Word

abbrev pub render : List Word → List Bytes
render [] = []
render (trace_option x ∷ words) = codes "--trace" ∷ x ∷ render words
render (out_option x ∷ words) = codes "--out" ∷ x ∷ render words
render (target_option x ∷ words) = codes "--target" ∷ x ∷ render words
render (plain_word w ∷ words) = w ∷ render words

abbrev pub IsNoOption : Bytes → Type 0
IsNoOption w = (w ≢ codes "--trace") × ((w ≢ codes "--out") × (w ≢ codes "--target"))

-- No plain word before the last word of all is an option.
abbrev pub ArePlain : List Word → Type 0
ArePlain [] = Unit
ArePlain (trace_option x ∷ words) = ArePlain words
ArePlain (out_option x ∷ words) = ArePlain words
ArePlain (target_option x ∷ words) = ArePlain words
ArePlain (plain_word w ∷ []) = Unit
ArePlain (plain_word w ∷ next ∷ words) = IsNoOption w × ArePlain (next ∷ words)

-- The last value of each option.
abbrev pub values : Arguments → List Word → Arguments
values o [] = o
values o (trace_option x ∷ words) = values (record o { trace = some x }) words
values o (out_option x ∷ words) = values (record o { out = some x }) words
values o (target_option x ∷ words) = values (record o { target = some x }) words
values o (plain_word w ∷ words) = values o words

pass_plain :
    (o : Arguments) (w b : Bytes) (rest : List Bytes)
    → IsNoOption w
    → parse_options o (w ∷ b ∷ rest) ≡ parse_options o (b ∷ rest)
unfolding parse_options
pass_plain o w b rest (ne, (ne', ne'')) =
    rw
      (
        parse_options,
        same_text_of_ne w (codes "--trace") ne,
        same_text_of_ne w (codes "--out") ne',
        same_text_of_ne w (codes "--target") ne'',
      )
      refl

-- In whatever order the options and other words stand, each option has its last value; other words
-- are passed over, and so is an option at the very end, which has no value.
pub parse_options-render :
    (words : List Word) (o : Arguments)
    → ArePlain words
    → parse_options o (render words) ≡ values o words
unfolding parse_options same_text
parse_options-render [] o h = refl
parse_options-render (trace_option x ∷ words) o h =
    parse_options-render words (record o { trace = some x }) h
parse_options-render (out_option x ∷ words) o h =
    parse_options-render words (record o { out = some x }) h
parse_options-render (target_option x ∷ words) o h =
    parse_options-render words (record o { target = some x }) h
parse_options-render (plain_word w ∷ []) o h = refl
parse_options-render (plain_word w ∷ trace_option x ∷ words) o h =
    pass_plain o w (codes "--trace") (x ∷ render words) h.0
    ∙ parse_options-render (trace_option x ∷ words) o h.1
parse_options-render (plain_word w ∷ out_option x ∷ words) o h =
    pass_plain o w (codes "--out") (x ∷ render words) h.0
    ∙ parse_options-render (out_option x ∷ words) o h.1
parse_options-render (plain_word w ∷ target_option x ∷ words) o h =
    pass_plain o w (codes "--target") (x ∷ render words) h.0
    ∙ parse_options-render (target_option x ∷ words) o h.1
parse_options-render (plain_word w ∷ plain_word v ∷ words) o h =
    pass_plain o w v (render words) h.0 ∙ parse_options-render (plain_word v ∷ words) o h.1
