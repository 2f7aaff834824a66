-- ===== src/Libc/RoundTrip.antt =====
-- A printed number is read back by `strtol`, whatever follows that is not a digit.
use native.Mathlib.Numerals.{add-one}
use os_ai_assisted_determini.Base.{
  ℕ, zero, suc, ◌+◌, ◌/◌, ◌%◌, ◌^◌, ◌≤◌, ◌<◌, ◌≡◌, refl, ap, ◌∙◌, inl, inr, Bool, true, false, some,
  [], ◌∷◌, ◌++◌, append_assoc, arith, ltb, Bool-cases, Bytes, All, All-append,
}
use os_ai_assisted_determini.Base.Int.{ℤ, pos, negsuc, IsLong}
use os_ai_assisted_determini.Libc.Print.{digits_fuel, print_nat, print_int}
use os_ai_assisted_determini.Libc.Parse.{
  is_digit, is_space, skip_spaces, read_digits, read_number, in_range, signed, read_signed, strtol,
}

abbrev pub IsDigit : ℕ → Type 0
IsDigit c = (b'0' ≤ c) × (c ≤ b'9')

-- The text does not go on with a digit.
abbrev pub EndsNumber : Bytes → Type 0
EndsNumber [] = Unit {0}
EndsNumber (c ∷ s) = is_digit c ≡ false

digits_fuel-IsDigit : (f n : ℕ) → All IsDigit (digits_fuel f n)
unfolding digits_fuel
digits_fuel-IsDigit zero n = tt
digits_fuel-IsDigit (suc f) n = elim (Bool-cases (ltb n 10)) [
  | inl lt ↦ rw lt (ground arith)
  | inr ge ↦ rw ge (
      All-append _ (digits_fuel f (n / 10)) ((b'0' + n % 10) ∷ []) (digits_fuel-IsDigit f (n / 10))
        (omega arith))
]

pub print_nat-IsDigit : (n : ℕ) → All IsDigit (print_nat n)
unfolding print_nat
print_nat-IsDigit n = digits_fuel-IsDigit (n + 1) n

-- The first digit is there when the fuel is enough.
digits_fuel_head : (f n : ℕ) → n < f → (c : ℕ) × (s : Bytes) × (digits_fuel f n ≡ c ∷ s)
unfolding digits_fuel
digits_fuel_head zero n h = absurd (omega arith)
digits_fuel_head (suc f) n h = elim (Bool-cases (ltb n 10)) [
  | inl lt ↦ (b'0' + n, [], rw lt)
  | inr ge ↦
      let (c, s, e) = digits_fuel_head f (n / 10) (ground arith) in
      (c, s ++ (b'0' + n % 10) ∷ [], rw (ge, e))
]

read_digits-digits_fuel :
    (f n : ℕ) (rest : Bytes) → n < f → read_digits 0 (digits_fuel f n ++ rest) ≡ read_digits n rest
unfolding digits_fuel
read_digits-digits_fuel zero n rest h = absurd (omega arith)
read_digits-digits_fuel (suc f) n rest h = elim (Bool-cases (ltb n 10)) [
  | inl lt ↦ rw lt (unfold read_digits is_digit in ground arith)
  | inr ge ↦
      rw (ge, append_assoc)
        (read_digits-digits_fuel f (n / 10) ((b'0' + n % 10) ∷ rest) (ground arith)
          ∙ (unfold read_digits is_digit in ground arith))
]

read_digits_end : (n : ℕ) (rest : Bytes) → EndsNumber rest → read_digits n rest ≡ n
unfolding read_digits
read_digits_end n [] h = refl
read_digits_end n (c ∷ s) h = rw h

-- A number starts with a digit, which is neither a space nor a sign.
print_nat_head : (n : ℕ) → (c : ℕ) × (s : Bytes) × (print_nat n ≡ c ∷ s) × IsDigit c
unfolding print_nat
print_nat_head n =
    let (c, s, e) = digits_fuel_head (n + 1) n (omega arith) in
    (c, s, e, (rw e at (digits_fuel-IsDigit (n + 1) n)).0)

read_number_head :
    (c : ℕ) (s : Bytes) → IsDigit c → read_number (c ∷ s) ≡ some (read_digits 0 (c ∷ s))
unfolding read_number is_digit
read_number_head c s h = ground arith

read_digits-print_nat :
    (n : ℕ) (rest : Bytes) → read_digits 0 (print_nat n ++ rest) ≡ read_digits n rest
unfolding print_nat
read_digits-print_nat n rest = read_digits-digits_fuel (n + 1) n rest (omega arith)

pub read_number-print_nat :
    (n : ℕ) (rest : Bytes) → EndsNumber rest → read_number (print_nat n ++ rest) ≡ some n
read_number-print_nat n rest h =
    let (c, s, e, d) = print_nat_head n in
    rw e (
      read_number_head c (s ++ rest) d
      ∙ ap some ((rw e at (read_digits-print_nat n rest)) ∙ read_digits_end n rest h))

strtol_head : (c : ℕ) (s : Bytes) → IsDigit c → strtol (c ∷ s) ≡ signed false (c ∷ s)
unfolding strtol skip_spaces is_space read_signed
strtol_head c s d = ground arith

strtol_minus : (s : Bytes) → strtol (b'-' ∷ s) ≡ signed true s
unfolding strtol skip_spaces is_space read_signed
strtol_minus s = refl

in_range_long :
    (n : ℕ)
    → n < 2 ^ 63
    → (in_range false n ≡ some (pos n)) × (in_range true (n + 1) ≡ some (negsuc n))
unfolding in_range
in_range_long n h = (ground arith, rw add-one (ground arith))

signed-print_nat :
    (minus : Bool) (n : ℕ) (rest : Bytes)
    → EndsNumber rest
    → signed minus (print_nat n ++ rest) ≡ in_range minus n
unfolding signed
signed-print_nat minus n rest ends = rw (signed, read_number-print_nat n rest ends)

-- `strtol` reads back what `%ld` prints of any `long`.
pub strtol-print_int :
    (z : ℤ) (rest : Bytes) → IsLong z → EndsNumber rest → strtol (print_int z ++ rest) ≡ some z
unfolding print_int
strtol-print_int (pos n) rest h ends =
    let (c, s, e, d) = print_nat_head n in
    rw e (
      strtol_head c (s ++ rest) d
      ∙ (rw e at (signed-print_nat false n rest ends))
      ∙ (in_range_long n h).0)
strtol-print_int (negsuc n) rest h ends =
    strtol_minus (print_nat (n + 1) ++ rest)
    ∙ signed-print_nat true (n + 1) rest ends
    ∙ (in_range_long n h).1
