-- ===== src/Util/Json.antt =====
-- src/common/util.c: `adr_json_escape`. The reader that it is held against is in Literal.
pub mod Literal
pub mod Search
use os_ai_assisted_determini.Base.{
  ℕ, ◌+◌, ◌/◌, ◌%◌, Option, none, some, [], ◌∷◌, ◌++◌, ltb, ◌==◌, if◌then◌else◌, Bytes, get_or,
}
use os_ai_assisted_determini.Hash.Hex.{hex_digits}

abbrev pub backslash : ℕ
backslash = b'\\'

abbrev pub quote : ℕ
quote = 0x22

-- `fprintf(out, "\\u%04x", c)`, for a byte.
unfoldable pub unicode_escape : ℕ → Bytes
unicode_escape c =
    backslash
    ∷ b'u'
    ∷ b'0'
    ∷ b'0'
    ∷ get_or hex_digits (c / 16 % 16) 0
    ∷ get_or hex_digits (c % 16) 0
    ∷ []

-- The switch on one byte.
unfoldable pub escape_byte : ℕ → Bytes
escape_byte c =
    if c == backslash
    then backslash ∷ backslash ∷ []
    else if c == quote
    then backslash ∷ quote ∷ []
    else if c == 0x0a
    then backslash ∷ b'n' ∷ []
    else if c == 0x0d
    then backslash ∷ b'r' ∷ []
    else if c == 0x09
    then backslash ∷ b't' ∷ []
    else if ltb c 0x20
    then unicode_escape c
    else c ∷ []

unfoldable pub escape_bytes : Bytes → Bytes
escape_bytes [] = []
escape_bytes (c ∷ s) = escape_byte c ++ escape_bytes s

-- What is written to `out`; a null `s` is written like an empty one.
unfoldable pub json_escape : Option Bytes → Bytes
json_escape none = quote ∷ quote ∷ []
json_escape (some s) = quote ∷ (escape_bytes s ++ quote ∷ [])
