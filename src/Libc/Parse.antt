-- ===== src/Libc/Parse.antt =====
-- `strtol` in base 10.
use os_ai_assisted_determini.Base.{
  ℕ, zero, suc, ◌+◌, ◌-◌, ◌*◌, ◌^◌, Bool, true, false, ◌&&◌, ◌||◌, Option, none, some, [], ◌∷◌, ltb,
  leb, ◌==◌, if◌then◌else◌, Bytes,
}
use os_ai_assisted_determini.Base.Int.{ℤ, pos, negsuc}

-- `isspace` in the C locale.
unfoldable pub is_space : ℕ → Bool
is_space c = c == 0x20 || (leb 0x09 c && leb c 0x0d)

unfoldable pub is_digit : ℕ → Bool
is_digit c = leb b'0' c && leb c b'9'

unfoldable pub skip_spaces : Bytes → Bytes
skip_spaces [] = []
skip_spaces (c ∷ s) = if is_space c then skip_spaces s else c ∷ s

-- The value of the leading digits behind `acc`.
unfoldable pub read_digits : ℕ → Bytes → ℕ
read_digits acc [] = acc
read_digits acc (c ∷ s) = if is_digit c then read_digits (acc * 10 + (c - b'0')) s else acc

-- The number at the front of a text with no spaces and no sign left; `none` if there is none.
unfoldable pub read_number : Bytes → Option ℕ
read_number [] = none
read_number (c ∷ s) = if is_digit c then some (read_digits 0 (c ∷ s)) else none

-- `none` where `strtol` sets `errno` to ERANGE.
unfoldable pub in_range : Bool → ℕ → Option ℤ
in_range false n = if ltb n (2 ^ 63) then some (pos n) else none
in_range true zero = some (pos 0)
in_range true (suc n) = if ltb n (2 ^ 63) then some (negsuc n) else none

unfoldable pub signed : Bool → Bytes → Option ℤ
signed minus s = elim (read_number s) [ none ↦ none | some n ↦ in_range minus n ]

unfoldable pub read_signed : Bytes → Option ℤ
read_signed [] = none
read_signed (c ∷ s) =
    if c == b'-' then signed true s else if c == b'+' then signed false s else signed false (c ∷ s)

-- The result of `strtol(p, &end, 10)`, `none` where the sources give up: nothing was read, or
-- `errno` was set.
unfoldable pub strtol : Bytes → Option ℤ
strtol s = read_signed (skip_spaces s)
