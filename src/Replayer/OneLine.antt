-- ===== src/Replayer/OneLine.antt =====
-- A line of the recorder has one newline, at its end, so that it is one line of the file.
use os_ai_assisted_determini.Base.{
  ℕ, ◌+◌, ◌≡◌, refl, ap, ◌∙◌, sym, List, [], ◌∷◌, ◌++◌, append_assoc, All, All-append, arith, Bytes,
  Lacks, Bool, true, not, ◌&&◌, ◌==◌,
}
use os_ai_assisted_determini.Base.Int.{ℤ, pos, negsuc}
use os_ai_assisted_determini.Libc.Print.{print_nat, print_int}
use os_ai_assisted_determini.Libc.RoundTrip.{IsDigit, print_nat-IsDigit}
use os_ai_assisted_determini.Replayer.Events.{split_lines}
use os_ai_assisted_determini.Replayer.Passes.Pieces.{
  Piece, fixed, quoted, braced, natural, integer, render,
}

abbrev pub newline : ℕ
newline = b'\n'

digits-Lacks : (s : Bytes) → All IsDigit s → Lacks newline s
digits-Lacks [] h = tt
digits-Lacks (c ∷ s) h = (omega (arith, h.0), digits-Lacks s h.1)

pub print_int-Lacks-newline : (z : ℤ) → Lacks newline (print_int z)
unfolding print_int
print_int-Lacks-newline (pos n) = digits-Lacks (print_nat n) (print_nat-IsDigit n)
print_int-Lacks-newline (negsuc n) =
    (omega arith, digits-Lacks (print_nat (n + 1)) (print_nat-IsDigit (n + 1)))

-- No newline is in a text.
abbrev pub lacks_newline : Bytes → Bool
lacks_newline [] = true
lacks_newline (c ∷ s) = not (c == newline) && lacks_newline s

lacks_newline-Lacks : (s : Bytes) → lacks_newline s ≡ true → Lacks newline s
lacks_newline-Lacks [] h = tt
lacks_newline-Lacks (c ∷ s) h = (ground arith, lacks_newline-Lacks s (ground arith))

-- The fixed texts of the pieces have no newline.
abbrev pub fixed_whole : List Piece → Bool
fixed_whole [] = true
fixed_whole (fixed t ∷ ps) = lacks_newline t && fixed_whole ps
fixed_whole (quoted v ∷ ps) = fixed_whole ps
fixed_whole (braced v ∷ ps) = fixed_whole ps
fixed_whole (natural n ∷ ps) = fixed_whole ps
fixed_whole (integer z ∷ ps) = fixed_whole ps

-- The values have no newline.
abbrev pub AreWhole : List Piece → Type 0
AreWhole [] = Unit
AreWhole (fixed t ∷ ps) = AreWhole ps
AreWhole (quoted v ∷ ps) = Lacks newline v × AreWhole ps
AreWhole (braced v ∷ ps) = Lacks newline v × AreWhole ps
AreWhole (natural n ∷ ps) = AreWhole ps
AreWhole (integer z ∷ ps) = AreWhole ps

pub render-Lacks :
    (ps : List Piece) (rest : Bytes)
    → fixed_whole ps ≡ true
    → AreWhole ps
    → Lacks newline rest
    → Lacks newline (render ps rest)
render-Lacks [] rest f h r = r
render-Lacks (fixed t ∷ ps) rest f h r =
    All-append _ t (render ps rest) (lacks_newline-Lacks t (ground arith))
      (render-Lacks ps rest (ground arith) h r)
render-Lacks (quoted v ∷ ps) rest f h r =
    (omega arith, All-append _ v _ h.0 (omega arith, (omega arith, render-Lacks ps rest f h.1 r)))
render-Lacks (braced v ∷ ps) rest f h r =
    (omega arith, All-append _ v _ h.0 (omega arith, (omega arith, render-Lacks ps rest f h.1 r)))
render-Lacks (natural n ∷ ps) rest f h r =
    All-append _ (print_nat n) _ (digits-Lacks (print_nat n) (print_nat-IsDigit n))
      (render-Lacks ps rest f h r)
render-Lacks (integer z ∷ ps) rest f h r =
    All-append _ (print_int z) _ (print_int-Lacks-newline z) (render-Lacks ps rest f h r)

pub render-append : (ps : List Piece) (a b : Bytes) → render ps a ++ b ≡ render ps (a ++ b)
render-append [] a b = refl
render-append (fixed t ∷ ps) a b =
    append_assoc t (render ps a) b ∙ ap (λ r. t ++ r) (render-append ps a b)
render-append (quoted v ∷ ps) a b =
    ap (λ r. 0x22 ∷ r)
      (append_assoc v _ b ∙ ap (λ r. v ++ (0x22 ∷ b',' ∷ r)) (render-append ps a b))
render-append (braced v ∷ ps) a b =
    ap (λ r. 0x22 ∷ r)
      (append_assoc v _ b ∙ ap (λ r. v ++ (0x22 ∷ b'}' ∷ r)) (render-append ps a b))
render-append (natural n ∷ ps) a b =
    append_assoc (print_nat n) (render ps a) b ∙ ap (λ r. print_nat n ++ r) (render-append ps a b)
render-append (integer z ∷ ps) a b =
    append_assoc (print_int z) (render ps a) b ∙ ap (λ r. print_int z ++ r) (render-append ps a b)

-- A text with one newline, at its end.
pub record IsLine (line : Bytes) : Type 0 where
  pub front : Bytes
  pub plain : Lacks newline front
  pub closed : line ≡ front ++ newline ∷ []

split_front :
    (front rest : Bytes)
    → Lacks newline front
    → split_lines (front ++ (newline ∷ rest)) ≡ (front ++ newline ∷ []) ∷ split_lines rest
unfolding split_lines
split_front [] rest h = refl
split_front (c ∷ front) rest h = rw (split_lines, split_front front rest h.1) (ground arith)

pub split_lines-IsLine :
    (line rest : Bytes) → IsLine line → split_lines (line ++ rest) ≡ line ∷ split_lines rest
split_lines-IsLine line rest h =
    ap (λ l. split_lines (l ++ rest)) h.closed
    ∙ ap split_lines (append_assoc h.front (newline ∷ []) rest)
    ∙ split_front h.front rest h.plain
    ∙ ap (λ l. l ∷ split_lines rest) (sym h.closed)
