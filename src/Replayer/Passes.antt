-- ===== src/Replayer/Passes.antt =====
-- What a search for a key passes over in a line that the recorder wrote: other keys, numbers, and
-- quoted values that hold no quote.
pub mod Fields
pub mod Pieces
use os_ai_assisted_determini.Base.{ℕ, ◌+◌, ◌≡◌, refl, none, [], ◌∷◌, ◌++◌, arith, Bytes, All, Lacks}
use os_ai_assisted_determini.Base.Int.{ℤ, pos, negsuc}
use os_ai_assisted_determini.Libc.Find.{strip_prefix, find_after}
use os_ai_assisted_determini.Libc.FindLaws.{find_after_skip}
use os_ai_assisted_determini.Libc.Print.{print_nat, print_int}
use os_ai_assisted_determini.Libc.RoundTrip.{IsDigit, print_nat-IsDigit}

abbrev pub quote : ℕ
quote = 0x22

-- A key between quotes, its colon, and what else the needle has.
abbrev pub key_needle : Bytes → Bytes → Bytes
key_needle key more = quote ∷ (key ++ (quote ∷ b':' ∷ more))

digits_lack_quote : (s : Bytes) → All IsDigit s → Lacks quote s
digits_lack_quote [] d = tt
digits_lack_quote (c ∷ s) d = (omega arith, digits_lack_quote s d.1)

print_nat-Lacks : (n : ℕ) → Lacks quote (print_nat n)
print_nat-Lacks n = digits_lack_quote (print_nat n) (print_nat-IsDigit n)

print_int-Lacks : (z : ℤ) → Lacks quote (print_int z)
unfolding print_int
print_int-Lacks (pos n) = print_nat-Lacks n
print_int-Lacks (negsuc n) = (omega arith, print_nat-Lacks (n + 1))

-- A quoted value, which a comma follows, is no key.
value_is_no_key :
    (key more v s : Bytes)
    → Lacks quote key
    → Lacks quote v
    → strip_prefix (key ++ (quote ∷ b':' ∷ more)) (v ++ (quote ∷ b',' ∷ s)) ≡ none
unfolding strip_prefix
value_is_no_key [] more [] s hk hv = refl
value_is_no_key [] more (c ∷ v) s hk hv = ground arith
value_is_no_key (k ∷ key) more [] s hk hv = ground arith
value_is_no_key (k ∷ key) more (c ∷ v) s hk hv =
    ground (arith, value_is_no_key key more v s hk.1 hv.1)

module _ (key more : Bytes) (lacks : Lacks quote key) where
  abbrev needle : Bytes
  needle = key_needle key more

  -- Behind the opening quote of a value.
  pub pass_value :
      (v s : Bytes)
      → Lacks quote v
      → find_after (quote ∷ (v ++ (quote ∷ b',' ∷ s))) needle ≡ find_after (quote ∷ b',' ∷ s) needle
  unfolding find_after strip_prefix
  pass_value v s hv =
      rw (find_after, value_is_no_key key more v s lacks hv)
        (find_after_skip v (quote ∷ b',' ∷ s) (key ++ (quote ∷ b':' ∷ more)) quote hv)

  pub pass_nat : (n : ℕ) (s : Bytes) → find_after (print_nat n ++ s) needle ≡ find_after s needle
  pass_nat n s =
      find_after_skip (print_nat n) s (key ++ (quote ∷ b':' ∷ more)) quote (print_nat-Lacks n)

  pub pass_int : (z : ℤ) (s : Bytes) → find_after (print_int z ++ s) needle ≡ find_after s needle
  pass_int z s =
      find_after_skip (print_int z) s (key ++ (quote ∷ b':' ∷ more)) quote (print_int-Lacks z)
