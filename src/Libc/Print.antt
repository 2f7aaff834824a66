-- ===== src/Libc/Print.antt =====
-- `snprintf`: decimal conversions, and the cut at the size of the buffer.
use os_ai_assisted_determini.Base.{
  ℕ, zero, suc, ◌+◌, ◌-◌, ◌/◌, ◌%◌, ◌<◌, ◌≡◌, [], ◌∷◌, ◌++◌, arith, ltb, if◌then◌else◌, Bytes,
  length, take, take_all,
}
use os_ai_assisted_determini.Base.Int.{ℤ, pos, negsuc}

-- The digits of a number, the most significant first, on fuel.
unfoldable pub digits_fuel : ℕ → ℕ → Bytes
digits_fuel zero n = []
digits_fuel (suc f) n =
    let rest = digits_fuel f (n / 10) in
    if ltb n 10 then (b'0' + n) ∷ [] else rest ++ (b'0' + n % 10) ∷ []

-- `%lu`, `%llu` and `%zu`; a number has at most as many digits as its value and one.
unfoldable pub print_nat : ℕ → Bytes
unfolding digits_fuel
print_nat n = digits_fuel (n + 1) n

-- `%ld` and `%d`.
unfoldable pub print_int : ℤ → Bytes
unfolding print_nat
print_int (pos n) = print_nat n
print_int (negsuc n) = b'-' ∷ print_nat (n + 1)

-- What `snprintf(out, size, …)` leaves in `out` of the full text; `size` is not 0.
unfoldable pub cut_to : ℕ → Bytes → Bytes
cut_to size text = take (size - 1) text

-- A text with room for its terminator is whole.
pub cut_to_fits : (size : ℕ) (text : Bytes) → length text < size → cut_to size text ≡ text
unfolding cut_to
cut_to_fits size text h = take_all (size - 1) text (omega arith)
