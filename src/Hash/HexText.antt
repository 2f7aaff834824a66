-- ===== src/Hash/HexText.antt =====
-- The text that `adr_sha256_hex` writes: its size, its digits, and that nothing is lost.
use os_ai_assisted_determini.Hash.Digest.{digest-eq-sha256}
use os_ai_assisted_determini.Hash.Context.{initial_state, Ctx}
use os_ai_assisted_determini.Base.{
  sym, ◌∙◌, zero, All-append, suc, ℕ, ◌+◌, ◌-◌, ◌*◌, ◌/◌, ◌%◌, ◌^◌, ◌≤◌, ◌<◌, ◌≡◌, refl, ap, ◌⊎◌,
  ◌&&◌, Option, none, some, [], ◌∷◌, arith, ltb, leb, if◌then◌else◌, Bytes, length, get_or, All,
  IsBytes, Lacks,
}
use os_ai_assisted_determini.Base.Table.{agree_below, agree_below→eq}
use os_ai_assisted_determini.Hash.Spec.{pad, blocks_of, absorb, sha256, be_bytes, words_digest}
use os_ai_assisted_determini.Hash.Words.{Words}
use os_ai_assisted_determini.Hash.Hex.{blank, bytes_hex, bytes_hex_from, hex_digits, hex}

abbrev pub IsHexDigit : ℕ → Type 0
IsHexDigit c = ((b'0' ≤ c) × (c ≤ b'9')) ⊎ ((b'a' ≤ c) × (c ≤ b'f'))

abbrev pub digit_char : ℕ → ℕ
digit_char i = if ltb i 10 then b'0' + i else b'a' + i - 10

pub hex_digits_lem : (i : ℕ) → i < 16 → get_or hex_digits i 0 ≡ digit_char i
unfolding agree_below
hex_digits_lem = agree_below→eq (λ i. get_or hex_digits i 0) digit_char 16 refl

hex-IsHexDigit : (xs : Bytes) → All IsHexDigit (hex xs)
unfolding hex
hex-IsHexDigit [] = tt
hex-IsHexDigit (x ∷ xs) = (
  ground (arith, hex_digits_lem (x / 2 ^ 4 % 16) (omega arith)),
  (ground (arith, hex_digits_lem (x % 16) (omega arith)), hex-IsHexDigit xs),
)

length-hex : (xs : Bytes) → length (hex xs) ≡ 2 * length xs
unfolding hex
length-hex [] = refl
length-hex (x ∷ xs) = omega (arith, length-hex xs)

length-words_digest : (s : Words) → length (words_digest s) ≡ 32
unfolding words_digest be_bytes
length-words_digest s = refl

length-sha256 : (message : Bytes) → length (sha256 message) ≡ 32
unfolding sha256
length-sha256 message =
    length-words_digest (absorb initial_state (blocks_of (length (pad message) / 64) (pad message)))

be_bytes-IsBytes : (k n : ℕ) → IsBytes (be_bytes k n)
unfolding be_bytes
be_bytes-IsBytes zero n = tt
be_bytes-IsBytes (suc k) n =
    All-append _ (be_bytes k (n / 256)) (n % 256 ∷ []) (be_bytes-IsBytes k (n / 256))
      (omega arith, tt)

words_digest-IsBytes : (s : Words) → IsBytes (words_digest s)
unfolding words_digest be_bytes
words_digest-IsBytes s = omega arith

sha256-IsBytes : (message : Bytes) → IsBytes (sha256 message)
unfolding sha256
sha256-IsBytes message = words_digest-IsBytes _

unfoldable pub hex_value : ℕ → Option ℕ
hex_value c =
    if leb b'0' c && leb c b'9'
    then some (c - b'0')
    else if leb b'a' c && leb c b'f'
    then some (c - b'a' + 10)
    else none

infixl 5 ◌>>=◌
abbrev ◌>>=◌ {ℓ κ} : {A : Type ℓ} {B : Type κ} → Option A → (A → Option B) → Option B
none >>= f = none
some a >>= f = f a

-- The bytes that a text of hexadecimal digits spells.
pub unhex : Bytes → Option Bytes
unhex [] = some []
unhex (c ∷ []) = none
unhex (c ∷ d ∷ s) = do hi ← hex_value c; lo ← hex_value d; r ← unhex s; some ((hi * 16 + lo) ∷ r)

pub hex_value-digit_char : (i : ℕ) → i < 16 → hex_value (get_or hex_digits i 0) ≡ some i
unfolding hex_value
hex_value-digit_char i h = rw (hex_digits_lem i h) (ground arith)

-- The bytes of a hash are read back from its hexadecimal text.
pub unhex-hex : (xs : Bytes) → IsBytes xs → unhex (hex xs) ≡ some xs
unfolding unhex hex
unhex-hex [] h = refl
unhex-hex (x ∷ xs) h =
    rw
      (
        hex_value-digit_char (x / 2 ^ 4 % 16) (omega arith),
        hex_value-digit_char (x % 16) (omega arith),
        unhex-hex xs h.1,
      )
      (ap (λ y. some (y ∷ xs)) (omega (arith, h.0)))

-- The text of a hash is 64 lower-case hexadecimal digits, so that with its terminator it fills
-- `char[ADR_SHA256_HEX_LEN]` exactly; the bytes that it spells are the SHA-256 digest of the
-- message. The context's stack slot may hold
-- anything, with 64 bytes of `data`.
pub bytes_hex_from_lem :
    (stack : Ctx) (message : Bytes)
    → length stack.block ≡ 64
    → (length (bytes_hex_from stack message) + 1 ≡ 65)
      × All IsHexDigit (bytes_hex_from stack message)
      × (unhex (bytes_hex_from stack message) ≡ some (sha256 message))
unfolding bytes_hex_from
bytes_hex_from_lem stack message size = rw (digest-eq-sha256 stack message size) (
  omega (arith, length-hex (sha256 message), length-sha256 message),
  hex-IsHexDigit (sha256 message),
  unhex-hex (sha256 message) (sha256-IsBytes message),
)

pub bytes_hex-bytes_hex_from :
    (stack : Ctx) (message : Bytes)
    → length stack.block ≡ 64
    → bytes_hex_from stack message ≡ bytes_hex message
unfolding bytes_hex_from bytes_hex
bytes_hex-bytes_hex_from stack message size =
    ap hex (digest-eq-sha256 stack message size ∙ sym (digest-eq-sha256 blank message refl))

pub length-bytes_hex : (message : Bytes) → length (bytes_hex message) ≡ 64
length-bytes_hex message =
    rw (← bytes_hex-bytes_hex_from blank message refl)
      (omega (arith, (bytes_hex_from_lem blank message refl).0))

pub bytes_hex-IsHexDigit : (message : Bytes) → All IsHexDigit (bytes_hex message)
bytes_hex-IsHexDigit message =
    rw (← bytes_hex-bytes_hex_from blank message refl) (bytes_hex_from_lem blank message refl).1

pub hex-Lacks_quote : (h : Bytes) → All IsHexDigit h → Lacks 0x22 h
hex-Lacks_quote [] d = tt
hex-Lacks_quote (c ∷ h) d = (ground arith, hex-Lacks_quote h d.1)
