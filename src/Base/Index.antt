-- ===== src/Base/Index.antt =====
-- Where a text holds what: `get_or` on the parts of a text.
use os_ai_assisted_determini.Base.{
  ℕ, zero, suc, ◌-◌, ◌≤◌, ◌<◌, ◌≡◌, refl, ap, ◌∙◌, [], ◌∷◌, ◌++◌, arith, Bytes, length, get_or,
  take, drop,
}

pub get_or-take : (n i : ℕ) (xs : Bytes) → i < n → get_or (take n xs) i 0 ≡ get_or xs i 0
get_or-take zero i xs h = omega arith
get_or-take (suc n) i [] h = refl
get_or-take (suc n) zero (x ∷ xs) h = refl
get_or-take (suc n) (suc i) (x ∷ xs) h = get_or-take n i xs (omega arith)

pub get_or-drop : (k i : ℕ) (xs : Bytes) → k ≤ i → get_or (drop k xs) (i - k) 0 ≡ get_or xs i 0
get_or-drop zero i xs h = ap (λ j. get_or xs j 0) (omega arith)
get_or-drop (suc k) i [] h = refl
get_or-drop (suc k) zero (x ∷ xs) h = omega arith
get_or-drop (suc k) (suc i) (x ∷ xs) h =
    ap (λ j. get_or (drop k xs) j 0) (omega arith) ∙ get_or-drop k i xs (omega arith)

pub get_or-append_left :
    (xs ys : Bytes) (i : ℕ) → i < length xs → get_or (xs ++ ys) i 0 ≡ get_or xs i 0
get_or-append_left [] ys i h = omega arith
get_or-append_left (x ∷ xs) ys zero h = refl
get_or-append_left (x ∷ xs) ys (suc i) h = get_or-append_left xs ys i (omega arith)

-- Behind the first text, the second one where it begins at the same place.
pub get_or-append_drop :
    (xs old : Bytes) (i : ℕ)
    → length xs ≤ i
    → get_or (xs ++ drop (length xs) old) i 0 ≡ get_or old i 0
get_or-append_drop [] old i h = refl
get_or-append_drop (x ∷ xs) [] zero h = omega arith
get_or-append_drop (x ∷ xs) [] (suc i) h = nothing xs i (omega arith)
  where
    nothing : (xs : Bytes) (i : ℕ) → length xs ≤ i → get_or (xs ++ []) i 0 ≡ 0
    nothing [] i h = refl
    nothing (y ∷ ys) zero h = omega arith
    nothing (y ∷ ys) (suc i) h = nothing ys i (omega arith)
get_or-append_drop (x ∷ xs) (y ∷ old) zero h = omega arith
get_or-append_drop (x ∷ xs) (y ∷ old) (suc i) h = get_or-append_drop xs old i (omega arith)

pub get_or-append_right :
    (xs ys : Bytes) (i : ℕ) → length xs ≤ i → get_or (xs ++ ys) i 0 ≡ get_or ys (i - length xs) 0
get_or-append_right [] ys i h = ap (λ j. get_or ys j 0) (omega arith)
get_or-append_right (x ∷ xs) ys zero h = omega arith
get_or-append_right (x ∷ xs) ys (suc i) h =
    get_or-append_right xs ys i (omega arith) ∙ ap (λ j. get_or ys j 0) (omega arith)
