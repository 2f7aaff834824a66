-- ===== src/Util/Json/Literal.antt =====
-- A reader of JSON string literals, and that `adr_json_escape` writes what it reads.
use os_ai_assisted_determini.Base.{
  ℕ, zero, suc, ◌+◌, ◌*◌, ◌/◌, ◌%◌, ◌≤◌, ◌<◌, ◌≡◌, refl, ap, ◌∙◌, ◌≢◌, Option, none, some, [], ◌∷◌,
  ◌++◌, append-nil, append_assoc, arith, ltb, ◌==◌, if◌then◌else◌, Bytes, get_or, All, All-append,
}
use os_ai_assisted_determini.Hash.Hex.{hex_digits}
use os_ai_assisted_determini.Hash.HexText.{hex_digits_lem, hex_value, hex_value-digit_char}
use os_ai_assisted_determini.Util.Json.{
  backslash, quote, unicode_escape, escape_byte, escape_bytes, json_escape,
}

-- Inside a literal: between characters, behind a backslash, or with hexadecimal digits to come.
pub data Mode : Type 0 where
  plain escaped : Mode
  unicode : ℕ → ℕ → Mode

pub data Action : Type 0 where
  refuse close : Action
  emit : ℕ → Action
  wait : Mode → Action

short_escape : ℕ → Action
short_escape c =
    if c == backslash
    then emit backslash
    else if c == quote
    then emit quote
    else if c == b'n'
    then emit 0x0a
    else if c == b'r'
    then emit 0x0d
    else if c == b't'
    then emit 0x09
    else if c == b'u'
    then wait (unicode 4 0)
    else refuse

act : Mode → ℕ → Action
unfolding short_escape
act plain c =
    if c == quote
    then close
    else if c == backslash
    then wait escaped
    else if ltb c 0x20
    then refuse
    else emit c
act escaped c = short_escape c
act (unicode zero acc) c = refuse
act (unicode (suc left) acc) c = elim (hex_value c) [
  | none ↦ refuse
  | some v ↦ if left == 0 then emit (acc * 16 + v) else wait (unicode left (acc * 16 + v))
]

-- The value of a literal from inside it, behind `out`, and what follows the closing quote.
read : Mode → Bytes → Bytes → Option (Bytes × Bytes)
read m out [] = none
read m out (c ∷ s) = elim (act m c) [
  | refuse ↦ none
  | close ↦ some (out, s)
  | emit b ↦ read plain (out ++ b ∷ []) s
  | wait m' ↦ read m' out s
]

unfoldable pub read_literal : Bytes → Option (Bytes × Bytes)
unfolding read act short_escape
read_literal [] = none
read_literal (c ∷ s) = if c == quote then read plain [] s else none

read_wait :
    (m m' : Mode) (c : ℕ) (out s : Bytes) → act m c ≡ wait m' → read m out (c ∷ s) ≡ read m' out s
unfolding read
read_wait m m' c out s h = rw (read, h)

read_emit :
    (m : Mode) (b c : ℕ) (out s : Bytes)
    → act m c ≡ emit b
    → read m out (c ∷ s) ≡ read plain (out ++ b ∷ []) s
unfolding read
read_emit m b c out s h = rw (read, h)

act_first : (v : ℕ) → v < 16 → act (unicode 2 0) (get_or hex_digits v 0) ≡ wait (unicode 1 v)
unfolding act
act_first v h = ground (arith, hex_value-digit_char v h)

act_second : (a v : ℕ) → v < 16 → act (unicode 1 a) (get_or hex_digits v 0) ≡ emit (a * 16 + v)
unfolding act
act_second a v h = ground (arith, hex_value-digit_char v h)

read-unicode_escape :
    (c : ℕ) (out rest : Bytes)
    → c < 0x20
    → read plain out (unicode_escape c ++ rest) ≡ read plain (out ++ c ∷ []) rest
unfolding read act unicode_escape short_escape hex_value
read-unicode_escape c out rest h =
    let hi = c / 16 % 16 in
    let lo = c % 16 in
    read_wait (unicode 2 0) (unicode 1 hi) (get_or hex_digits hi 0) out
      (get_or hex_digits lo 0 ∷ rest) (act_first hi (omega arith))
    ∙ read_emit (unicode 1 hi) (hi * 16 + lo) (get_or hex_digits lo 0) out rest
        (act_second hi lo (omega arith))
    ∙ ap (λ b. read plain (out ++ b ∷ []) rest) (omega arith)

read-escape_byte :
    (c : ℕ) (out rest : Bytes)
    → read plain out (escape_byte c ++ rest) ≡ read plain (out ++ c ∷ []) rest
unfolding read act escape_byte
read-escape_byte c out rest = ground (arith, read-unicode_escape c out rest)

read-escape_bytes :
    (s out rest : Bytes) → read plain out (escape_bytes s ++ (quote ∷ rest)) ≡ some (out ++ s, rest)
unfolding escape_bytes
read-escape_bytes [] out rest = rw append-nil (unfold read act in refl)
read-escape_bytes (c ∷ s) out rest =
    rw (
      append_assoc,
      read-escape_byte c out _,
      read-escape_bytes s (out ++ c ∷ []) rest,
      append_assoc,
    )

-- Every text, whatever bytes it holds, is read back from the literal that `adr_json_escape`
-- writes, and what is written behind it is left over.
pub read_literal-json_escape :
    (s rest : Bytes) → read_literal (json_escape (some s) ++ rest) ≡ some (s, rest)
unfolding read_literal json_escape
read_literal-json_escape s rest = rw append_assoc (read-escape_bytes s [] rest)

-- No control character stands in the text.
abbrev pub IsVisible : Bytes → Type 0
IsVisible = All (λ c. 0x20 ≤ c)

digit_char-visible : (i : ℕ) → i < 16 → 0x20 ≤ get_or hex_digits i 0
digit_char-visible i h = ground (arith, hex_digits_lem i h)

escape_byte-IsVisible : (c : ℕ) → IsVisible (escape_byte c)
unfolding escape_byte unicode_escape
escape_byte-IsVisible c = ground (
  arith,
  digit_char-visible (c / 16 % 16) (omega arith),
  digit_char-visible (c % 16) (omega arith),
)

escape_bytes-IsVisible : (s : Bytes) → IsVisible (escape_bytes s)
unfolding escape_bytes
escape_bytes-IsVisible [] = tt
escape_bytes-IsVisible (c ∷ s) =
    All-append _ (escape_byte c) (escape_bytes s) (escape_byte-IsVisible c)
      (escape_bytes-IsVisible s)

-- What `adr_json_escape` writes, of any text and of the null pointer, holds no control character, so
-- that a literal stays on its line.
pub json_escape-IsVisible : (s : Option Bytes) → IsVisible (json_escape s)
unfolding json_escape
json_escape-IsVisible none = omega arith
json_escape-IsVisible (some s) = (
  omega arith,
  All-append _ (escape_bytes s) (quote ∷ []) (escape_bytes-IsVisible s) (omega arith),
)

-- A text with nothing to escape is written as it is.
abbrev pub IsPlain : Bytes → Type 0
IsPlain = All (λ c. (c ≢ backslash) × (c ≢ quote) × (0x20 ≤ c))

pub escape_bytes-IsPlain : (s : Bytes) → IsPlain s → escape_bytes s ≡ s
unfolding escape_bytes escape_byte
escape_bytes-IsPlain [] h = refl
escape_bytes-IsPlain (c ∷ s) h = ground (arith, escape_bytes-IsPlain s h.1)
