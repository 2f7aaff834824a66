-- ===== src/Replayer/Passes/Pieces.antt =====
-- A text of fixed parts, quoted values and numbers, and a search for a key that passes over all of it.
use os_ai_assisted_determini.Base.{
  ℕ, ◌≡◌, refl, ◌∙◌, Bool, true, ◌&&◌, none, List, [], ◌∷◌, ◌++◌, arith, Bytes, Lacks,
}
use os_ai_assisted_determini.Base.Int.{ℤ}
use os_ai_assisted_determini.Libc.Find.{strip_prefix, find_after}
use os_ai_assisted_determini.Libc.FindLaws.{find_after-misses, find_after_skip, misses}
use os_ai_assisted_determini.Libc.Print.{print_nat, print_int}
use os_ai_assisted_determini.Replayer.Passes.{quote, key_needle, pass_value, pass_nat, pass_int}

-- A value comes with the comma behind it, a braced one with the brace.
pub data Piece : Type 0 where
  fixed : Bytes → Piece
  quoted braced : Bytes → Piece
  natural : ℕ → Piece
  integer : ℤ → Piece

abbrev pub render : List Piece → Bytes → Bytes
render [] rest = rest
render (fixed t ∷ ps) rest = t ++ render ps rest
render (quoted v ∷ ps) rest = quote ∷ (v ++ (quote ∷ b',' ∷ render ps rest))
render (braced v ∷ ps) rest = quote ∷ (v ++ (quote ∷ b'}' ∷ render ps rest))
render (natural n ∷ ps) rest = print_nat n ++ render ps rest
render (integer z ∷ ps) rest = print_int z ++ render ps rest

-- The needle begins in no fixed part, whatever follows.
abbrev pub all_miss : Bytes → List Piece → Bool
all_miss needle [] = true
all_miss needle (fixed t ∷ ps) = misses needle t && all_miss needle ps
all_miss needle (quoted v ∷ ps) = all_miss needle ps
all_miss needle (braced v ∷ ps) = all_miss needle ps
all_miss needle (natural n ∷ ps) = all_miss needle ps
all_miss needle (integer z ∷ ps) = all_miss needle ps

-- The values hold no quote.
abbrev pub AreClean : List Piece → Type 0
AreClean [] = Unit
AreClean (fixed t ∷ ps) = AreClean ps
AreClean (quoted v ∷ ps) = Lacks quote v × AreClean ps
AreClean (braced v ∷ ps) = Lacks quote v × AreClean ps
AreClean (natural n ∷ ps) = AreClean ps
AreClean (integer z ∷ ps) = AreClean ps

module _ (key more : Bytes) (lacks : Lacks quote key) (no_comma : Lacks b',' key)
    (no_brace : Lacks b'}' key) where
  pass_comma :
      (key : Bytes) (s : Bytes)
      → Lacks b',' key
      → strip_prefix (key ++ (quote ∷ b':' ∷ more)) (b',' ∷ s) ≡ none
  unfolding strip_prefix
  pass_comma [] s h = refl
  pass_comma (k ∷ key) s h = ground arith

  pass_brace :
      (key : Bytes) (s : Bytes)
      → Lacks b'}' key
      → strip_prefix (key ++ (quote ∷ b':' ∷ more)) (b'}' ∷ s) ≡ none
  unfolding strip_prefix
  pass_brace [] s h = refl
  pass_brace (k ∷ key) s h = ground arith

  -- A last value, which a brace follows.
  brace_is_no_key :
      (key v s : Bytes)
      → Lacks quote key
      → Lacks quote v
      → strip_prefix (key ++ (quote ∷ b':' ∷ more)) (v ++ (quote ∷ b'}' ∷ s)) ≡ none
  unfolding strip_prefix
  brace_is_no_key [] [] s hk hv = refl
  brace_is_no_key [] (c ∷ v) s hk hv = ground arith
  brace_is_no_key (k ∷ key) [] s hk hv = ground arith
  brace_is_no_key (k ∷ key) (c ∷ v) s hk hv = ground (arith, brace_is_no_key key v s hk.1 hv.1)

  pub pass_last :
      (v s : Bytes)
      → Lacks quote v
      → find_after (quote ∷ (v ++ (quote ∷ b'}' ∷ s))) (key_needle key more)
        ≡ find_after (quote ∷ b'}' ∷ s) (key_needle key more)
  unfolding find_after strip_prefix
  pass_last v s hv =
      rw (find_after, brace_is_no_key key v s lacks hv)
        (find_after_skip v (quote ∷ b'}' ∷ s) (key ++ (quote ∷ b':' ∷ more)) quote hv)

  pub find_after-render :
      (ps : List Piece) (rest : Bytes)
      → all_miss (key_needle key more) ps ≡ true
      → AreClean ps
      → find_after (render ps rest) (key_needle key more) ≡ find_after rest (key_needle key more)
  unfolding find_after strip_prefix
  find_after-render [] rest h c = refl
  find_after-render (fixed t ∷ ps) rest h c =
      find_after-misses t (render ps rest) (key_needle key more) (ground arith)
      ∙ find_after-render ps rest (ground arith) c
  find_after-render (quoted v ∷ ps) rest h c =
      pass_value key more lacks v (render ps rest) c.0
      ∙ rw (find_after, strip_prefix, pass_comma key (render ps rest) no_comma)
          (find_after-render ps rest h c.1)
  find_after-render (braced v ∷ ps) rest h c =
      pass_last v (render ps rest) c.0
      ∙ rw (find_after, strip_prefix, pass_brace key (render ps rest) no_brace)
          (find_after-render ps rest h c.1)
  find_after-render (natural n ∷ ps) rest h c =
      pass_nat key more lacks n (render ps rest) ∙ find_after-render ps rest h c
  find_after-render (integer z ∷ ps) rest h c =
      pass_int key more lacks z (render ps rest) ∙ find_after-render ps rest h c
