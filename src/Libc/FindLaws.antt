-- ===== src/Libc/FindLaws.antt =====
-- Where the searches stop, and what they pass over.
use os_ai_assisted_determini.Base.{
  ℕ, ◌≡◌, refl, Bool, true, false, ◌&&◌, none, some, [], ◌∷◌, ◌++◌, arith, ◌==◌, if◌then◌else◌,
  Bytes, Lacks,
}
use os_ai_assisted_determini.Libc.Find.{strip_prefix, find_after, until}

pub strip_prefix-append : (p s : Bytes) → strip_prefix p (p ++ s) ≡ some s
unfolding strip_prefix
strip_prefix-append [] s = refl
strip_prefix-append (c ∷ p) s = ground (arith, strip_prefix-append p s)

pub find_after_here : (p s : Bytes) → find_after (p ++ s) p ≡ some s
unfolding find_after
find_after_here [] [] = refl
find_after_here [] (c ∷ s) = refl
find_after_here (c ∷ p) s = rw (find_after, strip_prefix-append (c ∷ p) s)

-- A text without the needle's first byte is passed over.
pub find_after_skip :
    (v s needle : Bytes) (q : ℕ)
    → Lacks q v
    → find_after (v ++ s) (q ∷ needle) ≡ find_after s (q ∷ needle)
unfolding find_after
find_after_skip [] s needle q h = refl
find_after_skip (c ∷ v) s needle q h = ground (arith, find_after_skip v s needle q h.1)

pub until-append : (q : ℕ) (v s : Bytes) → Lacks q v → until q (v ++ (q ∷ s)) ≡ some v
unfolding until
until-append q [] s h = ground arith
until-append q (c ∷ v) s h = ground (arith, until-append q v s h.1)

-- The needle differs from every text that begins with `l`.
mismatch : Bytes → Bytes → Bool
mismatch [] l = false
mismatch (p ∷ ps) [] = false
mismatch (p ∷ ps) (c ∷ l) = if p == c then mismatch ps l else true

-- The needle begins nowhere in `l`, whatever follows.
unfoldable pub misses : Bytes → Bytes → Bool
unfolding mismatch
misses needle [] = true
misses needle (c ∷ l) = mismatch needle (c ∷ l) && misses needle l

mismatch_lem : (needle l s : Bytes) → mismatch needle l ≡ true → strip_prefix needle (l ++ s) ≡ none
unfolding mismatch strip_prefix
mismatch_lem [] l s h = cc
mismatch_lem (p ∷ ps) [] s h = cc
mismatch_lem (p ∷ ps) (c ∷ l) s h = ground (arith, mismatch_lem ps l s)

pub find_after-misses :
    (l s needle : Bytes) → misses needle l ≡ true → find_after (l ++ s) needle ≡ find_after s needle
unfolding misses find_after
find_after-misses [] s needle h = refl
find_after-misses (c ∷ l) s needle h =
    ground (arith, mismatch_lem needle (c ∷ l) s, find_after-misses l s needle)
