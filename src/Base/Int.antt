-- ===== src/Base/Int.antt =====
-- Signed integers over the native numbers, for C's `long` and `int`, under the library's names.
use os_ai_assisted_determini.Base.{
  ◌==◌, ◌↔◌, ℕ, suc, ◌-◌, ◌%◌, ◌^◌, ◌<◌, ◌≡◌, arith, Bool, true, false, ltb, if◌then◌else◌,
}

-- `negsuc n` is -(n + 1).
pub data ℤ : Type 0 where
  pos : ℕ → ℤ
  negsuc : ℕ → ℤ

abbrev pub is_negative : ℤ → Bool
is_negative (pos n) = false
is_negative (negsuc n) = true

-- The conversion of a 64-bit register to `long`.
abbrev pub to_long : ℕ → ℤ
to_long w = if ltb w (2 ^ 63) then pos w else negsuc (2 ^ 64 - w - 1)

-- The conversion of a `long` to a 64-bit register.
abbrev pub of_long : ℤ → ℕ
of_long (pos n) = n % 2 ^ 64
of_long (negsuc n) = 2 ^ 64 - suc (n % 2 ^ 64)

-- The conversion of a `long` to `int`: the low 32 bits, read as signed.
abbrev pub to_int : ℤ → ℤ
to_int z = let w = of_long z % 2 ^ 32 in if ltb w (2 ^ 31) then pos w else negsuc (2 ^ 32 - w - 1)

-- The values of a 64-bit `long`.
abbrev pub IsLong : ℤ → Type 0
IsLong (pos n) = n < 2 ^ 63
IsLong (negsuc n) = n < 2 ^ 63

-- A `long` comes back from the register that it was written to.
pub to_long-of_long : (z : ℤ) → IsLong z → to_long (of_long z) ≡ z
to_long-of_long (pos n) h = ground arith
to_long-of_long (negsuc n) h = ground arith

pub to_long-IsLong : (w : ℕ) → w < 2 ^ 64 → IsLong (to_long w)
to_long-IsLong w h = ground arith

-- `a == b`
abbrev pub same_no : ℤ → ℤ → Bool
same_no (pos a) (pos b) = a == b
same_no (negsuc a) (negsuc b) = a == b
same_no (pos a) (negsuc b) = false
same_no (negsuc a) (pos b) = false

pub same_no_iff : (a b : ℤ) → (same_no a b ≡ true) ↔ (a ≡ b)
same_no_iff (pos a) (pos b) = ground arith
same_no_iff (negsuc a) (negsuc b) = ground arith
same_no_iff (pos a) (negsuc b) = ground arith
same_no_iff (negsuc a) (pos b) = ground arith
