-- ===== src/Libc/Compare.antt =====
-- `strcmp(a, b) == 0`
use os_ai_assisted_determini.Base.{
  ◌≡◌, refl, ◌≢◌, Bool, true, false, ◌&&◌, [], ◌∷◌, ◌==◌, arith, Bytes, Bool-cases, inl, inr,
}

unfoldable pub same_text : Bytes → Bytes → Bool
same_text [] [] = true
same_text (c ∷ a) (d ∷ b) = c == d && same_text a b
same_text [] (d ∷ b) = false
same_text (c ∷ a) [] = false

same_text→eq : (a b : Bytes) → same_text a b ≡ true → a ≡ b
unfolding same_text
same_text→eq [] [] h = refl
same_text→eq (c ∷ a) (d ∷ b) h = ground (arith, same_text→eq a b)
same_text→eq [] (d ∷ b) h = cc
same_text→eq (c ∷ a) [] h = cc

same_text_self : (a : Bytes) → same_text a a ≡ true
unfolding same_text
same_text_self [] = refl
same_text_self (c ∷ a) = ground (arith, same_text_self a)

pub same_text_of_ne : (a b : Bytes) → a ≢ b → same_text a b ≡ false
same_text_of_ne a b ne = elim (Bool-cases (same_text a b)) [
  | inl same ↦ absurd (ne (same_text→eq a b same))
  | inr differ ↦ differ
]
