-- ===== src/Base/Pieces.antt =====
-- Lists cut at a known place: what `take`, `drop` and `set` do to `xs ++ ys` there.
use Prim.Native.Nat.{ℕ, zero, suc, ◌+◌, ◌-◌, ◌≤◌}
use mathlib.Core.Path.{◌≡◌, refl, ap, ◌∙◌}
use mathlib.Core.List.{List, [], ◌∷◌, ◌++◌}
use native.Mathlib.Omega.{arith}
use os_ai_assisted_determini.Base.Lists.{length, set, take, drop}

module _ {ℓ} {A : Type ℓ} where
  pub take-append : (xs ys : List A) → take (length xs) (xs ++ ys) ≡ xs
  take-append [] ys = refl
  take-append (x ∷ xs) ys = ap (λ r. x ∷ r) (take-append xs ys)

  pub drop-append : (xs ys : List A) → drop (length xs) (xs ++ ys) ≡ ys
  drop-append [] ys = refl
  drop-append (x ∷ xs) ys = drop-append xs ys

  pub take_all : (n : ℕ) (xs : List A) → length xs ≤ n → take n xs ≡ xs
  take_all zero [] h = refl
  take_all zero (x ∷ xs) h = absurd (omega arith)
  take_all (suc n) [] h = refl
  take_all (suc n) (x ∷ xs) h = ap (λ r. x ∷ r) (take_all n xs (omega arith))

  -- A write at the place where `xs` ends.
  pub set-append : (xs ys : List A) (v y : A) → set (xs ++ (y ∷ ys)) (length xs) v ≡ xs ++ (v ∷ ys)
  set-append [] ys v y = refl
  set-append (x ∷ xs) ys v y = ap (λ r. x ∷ r) (set-append xs ys v y)

  -- A write behind `xs`.
  pub set-append_add :
      (xs ys : List A) (i j : ℕ) (v : A) → i ≡ length xs + j → set (xs ++ ys) i v ≡ xs ++ set ys j v
  set-append_add [] ys i j v e = ap (λ k. set ys k v) (omega arith)
  set-append_add (x ∷ xs) ys zero j v e = absurd (omega arith)
  set-append_add (x ∷ xs) ys (suc i) j v e =
      ap (λ r. x ∷ r) (set-append_add xs ys i j v (omega arith))

  -- A front is kept whole, and the rest is cut.
  pub take-append_add :
      (n : ℕ) (xs ys : List A) → length xs ≤ n → take n (xs ++ ys) ≡ xs ++ take (n - length xs) ys
  take-append_add n [] ys h = ap (λ k. take k ys) (omega arith)
  take-append_add zero (x ∷ xs) ys h = absurd (omega arith)
  take-append_add (suc n) (x ∷ xs) ys h =
      ap (λ r. x ∷ r)
        (take-append_add n xs ys (omega arith) ∙ ap (λ k. xs ++ take k ys) (omega arith))
