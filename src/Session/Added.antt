-- ===== src/Session/Added.antt =====
-- The lines that are added to the event file, as the replayer reads them.
use os_ai_assisted_determini.Base.{
  ◌≡◌, refl, ap, ◌∙◌, sym, inl, inr, List, [], ◌∷◌, ◌++◌, append_assoc, append-nil, All, All-append,
  arith, Bytes, Lacks, Option-cases,
}
use os_ai_assisted_determini.Hash.Hex.{bytes_hex}
use os_ai_assisted_determini.Hash.HexText.{
  bytes_hex-IsHexDigit, hex-Lacks_quote, length-bytes_hex, IsHexDigit,
}
use os_ai_assisted_determini.Libc.Print.{cut_to, cut_to_fits}
use os_ai_assisted_determini.Replayer.Events.{ReplayEvent, load_line, split_lines}
use os_ai_assisted_determini.Replayer.Lines.{loaded}
use os_ai_assisted_determini.Replayer.OneLine.{newline, IsLine, split_lines-IsLine}
use os_ai_assisted_determini.Replayer.Passes.{quote}
use os_ai_assisted_determini.Trace.Writer.{TraceWriter, emit_line, material}

-- The lines one behind the other.
abbrev pub joined : List Bytes → Bytes
joined [] = []
joined (l ∷ lines) = l ++ joined lines

-- No quote and no newline in the values that every line holds.
pub record IsClean (tw : TraceWriter) : Type 0 where
  pub run_quote : Lacks quote tw.run_id
  pub run_line : Lacks newline tw.run_id
  pub link_quote : Lacks quote tw.prev_hash
  pub link_line : Lacks newline tw.prev_hash

-- `tw'` comes from `tw` by whole lines, of which the replayer loads `events`.
pub record Adds (tw tw' : TraceWriter) (events : List ReplayEvent) : Type 0 where
  pub lines : List Bytes
  pub added : tw'.events ≡ tw.events ++ joined lines
  pub whole : All IsLine lines
  pub loads : loaded lines ≡ events
  pub clean : IsClean tw'

pub hex-Lacks-newline : (s : Bytes) → All IsHexDigit s → Lacks newline s
hex-Lacks-newline [] h = tt
hex-Lacks-newline (c ∷ s) h = (ground (arith, h.0), hex-Lacks-newline s h.1)

pub emit_line-IsClean : (tw : TraceWriter) (body : Bytes) → IsClean tw → IsClean (emit_line tw body)
unfolding emit_line
emit_line-IsClean tw body c =
    let hash = bytes_hex (material tw.prev_hash body) in
    let digits = bytes_hex-IsHexDigit (material tw.prev_hash body) in
    let kept : cut_to 65 hash ≡ hash =
      cut_to_fits 65 hash (omega (arith, length-bytes_hex (material tw.prev_hash body))) in
    record {
      run_quote = c.run_quote;
      run_line = c.run_line;
      link_quote = rw kept (hex-Lacks_quote hash digits);
      link_line = rw kept (hex-Lacks-newline hash digits);
    }

loaded-append : (a b : List Bytes) → loaded (a ++ b) ≡ loaded a ++ loaded b
loaded-append [] b = refl
loaded-append (l ∷ a) b = elim (Option-cases (load_line l)) [
  | inl skipped ↦ rw (loaded, skipped) (loaded-append a b)
  | inr (ev, kept) ↦ rw (loaded, kept) (ap (λ r. ev ∷ r) (loaded-append a b))
]

joined-append : (a b : List Bytes) → joined (a ++ b) ≡ joined a ++ joined b
joined-append [] b = refl
joined-append (l ∷ a) b =
    ap (λ r. l ++ r) (joined-append a b) ∙ sym (append_assoc l (joined a) (joined b))

pub Adds-trans :
    (a b c : TraceWriter) (e f : List ReplayEvent) → Adds a b e → Adds b c f → Adds a c (e ++ f)
Adds-trans a b c e f p q = record {
  lines = p.lines ++ q.lines;
  added =
      q.added
      ∙ ap (λ t. t ++ joined q.lines) p.added
      ∙ append_assoc a.events (joined p.lines) (joined q.lines)
      ∙ ap (λ t. a.events ++ t) (sym (joined-append p.lines q.lines));
  whole = All-append _ p.lines q.lines p.whole q.whole;
  loads =
      loaded-append p.lines q.lines
      ∙ ap (λ l. l ++ loaded q.lines) p.loads
      ∙ ap (λ l. e ++ l) q.loads;
  clean = q.clean;
}

-- The lines of a file that is made of lines.
pub split_lines-joined :
    (lines : List Bytes) → All IsLine lines → split_lines (joined lines) ≡ lines
unfolding split_lines
split_lines-joined [] h = refl
split_lines-joined (l ∷ lines) h =
    split_lines-IsLine l (joined lines) h.0 ∙ ap (λ r. l ∷ r) (split_lines-joined lines h.1)

pub Adds-refl : (tw : TraceWriter) → IsClean tw → Adds tw tw []
Adds-refl tw c = record {
  lines = [];
  added = sym (append-nil tw.events);
  whole = tt;
  loads = refl;
  clean = c;
}
