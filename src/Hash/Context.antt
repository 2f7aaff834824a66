-- ===== src/Hash/Context.antt =====
-- src/common/hash.c: the streaming context, `adr_sha256_init`, `_update`, `_final` and
-- `_bytes_hex` up to the print.
use os_ai_assisted_determini.Base.{
  ℕ, zero, suc, ◌+◌, ◌-◌, ◌*◌, ◌/◌, ◌%◌, ◌^◌, [], ◌∷◌, ◌++◌, Bytes, ltb, ◌==◌, if◌then◌else◌, set,
  drop, replicate,
}
use os_ai_assisted_determini.Hash.Words.{Words, transform}

-- `adr_sha256_ctx`. `block` is its `data[64]`.
pub record Ctx : Type 0 where
  pub block : Bytes
  pub datalen : ℕ
  pub bitlen : ℕ
  pub state : Words

abbrev pub initial_state : Words
initial_state = record {
  a = 0x6a09e667;
  b = 0xbb67ae85;
  c = 0x3c6ef372;
  d = 0xa54ff53a;
  e = 0x510e527f;
  f = 0x9b05688c;
  g = 0x1f83d9ab;
  h = 0x5be0cd19;
}

-- `data` keeps what was on the stack.
unfoldable pub init : Ctx → Ctx
init ctx = record ctx { datalen = 0; bitlen = 0; state = initial_state }

-- One round of the loop of `adr_sha256_update`.
unfoldable pub update_byte : Ctx → ℕ → Ctx
update_byte ctx x =
    let block' = set ctx.block ctx.datalen x in
    if (ctx.datalen + 1) == 64
    then record {
      block = block';
      datalen = 0;
      bitlen = (ctx.bitlen + 512) % 2 ^ 64;
      state = transform ctx.state block';
    }
    else record ctx { block = block'; datalen = ctx.datalen + 1 }

unfoldable pub update : Ctx → Bytes → Ctx
update ctx [] = ctx
update ctx (x ∷ xs) = update (update_byte ctx x) xs

-- `while (i < end) ctx->data[i++] = 0x00;` with `end - i` rounds left.
unfoldable pub fill_zero : ℕ → ℕ → Bytes → Bytes
fill_zero zero i block = block
fill_zero (suc left) i block = fill_zero left (i + 1) (set block i 0x00)

-- The bytes of `ctx->bitlen` at 63 down to 56; the stores cut to `uint8_t`.
unfoldable pub store_bitlen : ℕ → Bytes → Bytes
store_bitlen n block =
    let b63 = set block 63 (n % 256) in
    let b62 = set b63 62 (n / 2 ^ 8 % 256) in
    let b61 = set b62 61 (n / 2 ^ 16 % 256) in
    let b60 = set b61 60 (n / 2 ^ 24 % 256) in
    let b59 = set b60 59 (n / 2 ^ 32 % 256) in
    let b58 = set b59 58 (n / 2 ^ 40 % 256) in
    let b57 = set b58 57 (n / 2 ^ 48 % 256) in set b57 56 (n / 2 ^ 56 % 256)

-- The context with room made for the length: the first part of `adr_sha256_final`.
unfoldable pub close_block : Ctx → Ctx
close_block ctx =
    let i = ctx.datalen in
    let marked = set ctx.block i 0x80 in
    if ltb i 56
    then record ctx { block = fill_zero (56 - (i + 1)) (i + 1) marked }
    else let full = fill_zero (64 - (i + 1)) (i + 1) marked in
      record ctx { block = replicate 56 0 ++ drop 56 full; state = transform ctx.state full }

-- `hash[i] = (state >> (24 - i * 8)) & 0xff` for `i` from 0 to 3.
unfoldable pub word_bytes : ℕ → Bytes
word_bytes w = w / 2 ^ 24 % 256 ∷ w / 2 ^ 16 % 256 ∷ w / 2 ^ 8 % 256 ∷ w % 256 ∷ []

-- The loop writes the bytes of the eight words interleaved, each place of `hash[32]` once; this is
-- the array in order.
unfoldable pub state_bytes : Words → Bytes
state_bytes s =
    word_bytes s.a
    ++ (word_bytes s.b
        ++ (word_bytes s.c
            ++ (word_bytes s.d
                ++ (word_bytes s.e ++ (word_bytes s.f ++ (word_bytes s.g ++ word_bytes s.h))))))

unfoldable pub final : Ctx → Bytes
final ctx =
    let closed = close_block ctx in
    let bits = (closed.bitlen + closed.datalen * 8) % 2 ^ 64 in
    state_bytes (transform closed.state (store_bitlen bits closed.block))

-- `hash` in `adr_sha256_bytes_hex`, for any content of the context's stack slot.
unfoldable pub digest : Ctx → Bytes → Bytes
digest stack message = final (update (init stack) message)
