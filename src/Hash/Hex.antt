-- ===== src/Hash/Hex.antt =====
-- src/common/hash.c: `adr_sha256_hex` and `adr_sha256_bytes_hex`.
use os_ai_assisted_determini.Base.{◌/◌, ◌%◌, ◌^◌, [], ◌∷◌, Bytes, codes, get_or, replicate}
use os_ai_assisted_determini.Hash.Context.{
  Ctx, initial_state, digest, init, update, update_byte, final, close_block, fill_zero,
  store_bitlen, state_bytes, word_bytes,
}
use os_ai_assisted_determini.Hash.Words.{transform}

abbrev pub hex_digits : Bytes
hex_digits = codes "0123456789abcdef"

unfoldable pub hex : Bytes → Bytes
hex [] = []
hex (x ∷ xs) = get_or hex_digits (x / 2 ^ 4 % 16) 0 ∷ get_or hex_digits (x % 16) 0 ∷ hex xs

-- A stack slot to begin with; `Digest` proves that its content does not matter.
abbrev pub blank : Ctx
blank = record { block = replicate 64 0; datalen = 0; bitlen = 0; state = initial_state }

unfoldable pub bytes_hex_from : Ctx → Bytes → Bytes
bytes_hex_from stack message = hex (digest stack message)

-- The line lets a test run the whole hash.
unfoldable pub bytes_hex : Bytes → Bytes
unfolding bytes_hex_from digest hex init update update_byte final close_block fill_zero store_bitlen
    state_bytes word_bytes transform
bytes_hex = bytes_hex_from blank
