-- ===== src/Hash/Blocks.antt =====
-- What the streaming context holds of the bytes fed to it, and that `adr_sha256_update` keeps it.
use native.Mathlib.Decide.{dec_lt}
use os_ai_assisted_determini.Base.{
  eq-nil_of_length, true, false, ℕ, ◌+◌, ◌*◌, ◌%◌, ◌^◌, ◌<◌, ◌≡◌, refl, List, [], ◌∷◌, ◌++◌,
  append-nil, append_assoc, arith, ◌==◌, Bytes, length, set, All, All-append, length-append,
  set-append,
}
use os_ai_assisted_determini.Hash.Context.{Ctx, init, update_byte, update, initial_state}
use os_ai_assisted_determini.Hash.Spec.{absorb}
use os_ai_assisted_determini.Hash.Words.{Words, transform}

abbrev pub flat : List Bytes → Bytes
flat [] = []
flat (b ∷ bs) = b ++ flat bs

abbrev pub AreBlocks : List Bytes → Type 0
AreBlocks = All (λ b. length b ≡ 64)

-- The bytes fed so far are whole blocks, compressed into the state, and a tail at the front of
-- `data`; `bitlen` counts the bits of the blocks, modulo 2 ^ 64.
pub record IsFed (ctx : Ctx) (message : Bytes) : Type 0 where
  pub blocks : List Bytes
  pub tail : Bytes
  pub rest : Bytes
  pub are_blocks : AreBlocks blocks
  pub message_parts : message ≡ flat blocks ++ tail
  pub block_parts : ctx.block ≡ tail ++ rest
  pub block_size : length tail + length rest ≡ 64
  pub tail_fits : length tail < 64
  pub datalen_tail : ctx.datalen ≡ length tail
  pub bitlen_blocks : ctx.bitlen ≡ 512 * length blocks % 2 ^ 64
  pub state_blocks : ctx.state ≡ absorb initial_state blocks

pub flat-append : (bs cs : List Bytes) → flat (bs ++ cs) ≡ flat bs ++ flat cs
flat-append [] cs = refl
flat-append (b ∷ bs) cs = rw (flat-append bs cs, append_assoc)

pub absorb-append : (s : Words) (bs cs : List Bytes) → absorb s (bs ++ cs) ≡ absorb (absorb s bs) cs
absorb-append s [] cs = refl
absorb-append s (b ∷ bs) cs = absorb-append (transform s b) bs cs

pub init-IsFed : (stack : Ctx) → length stack.block ≡ 64 → IsFed (init stack) []
unfolding init
init-IsFed stack h = record {
  blocks = [];
  tail = [];
  rest = stack.block;
  are_blocks = tt;
  message_parts = refl;
  block_parts = refl;
  block_size = omega arith;
  tail_fits = omega arith;
  datalen_tail = refl;
  bitlen_blocks = refl;
  state_blocks = refl;
}

-- The store at `datalen` puts the byte behind the tail.
set_tail :
    (tail rest : Bytes) (x : ℕ)
    → length tail + length rest ≡ 64
    → length tail < 64
    → (r : Bytes) × (set (tail ++ rest) (length tail) x ≡ (tail ++ x ∷ []) ++ r)
      × (length tail + 1 + length r ≡ 64)
set_tail tail [] x h lt = absurd (omega arith)
set_tail tail (y ∷ r) x h lt = (r, rw (set-append tail r x y, append_assoc), omega arith)

-- The byte that does not fill the block extends the tail.
byte_tail :
    {ctx : Ctx} {message : Bytes} (x : ℕ) (fed : IsFed ctx message)
    → length fed.tail + 1 < 64
    → IsFed (update_byte ctx x) (message ++ x ∷ [])
unfolding update_byte
byte_tail {ctx} {message} x fed lt =
    let (r, stored, size) = set_tail fed.tail fed.rest x fed.block_size fed.tail_fits in
    let more : (ctx.datalen + 1 == 64) ≡ false = ground arith in
    rw more (record {
      blocks = fed.blocks;
      tail = fed.tail ++ x ∷ [];
      rest = r;
      are_blocks = fed.are_blocks;
      message_parts = rw (fed.message_parts, append_assoc);
      block_parts = rw (fed.block_parts, fed.datalen_tail) stored;
      block_size = omega (arith, length-append fed.tail (x ∷ []));
      tail_fits = omega (arith, length-append fed.tail (x ∷ []));
      datalen_tail = omega (arith, length-append fed.tail (x ∷ []));
      bitlen_blocks = fed.bitlen_blocks;
      state_blocks = fed.state_blocks;
    })

-- The byte that fills the block has it compressed, and the next byte goes to the front.
byte_block :
    {ctx : Ctx} {message : Bytes} (x : ℕ) (fed : IsFed ctx message)
    → length fed.tail + 1 ≡ 64
    → IsFed (update_byte ctx x) (message ++ x ∷ [])
unfolding update_byte
byte_block {ctx} {message} x fed last =
    let (r, stored, size) = set_tail fed.tail fed.rest x fed.block_size fed.tail_fits in
    let b = fed.tail ++ x ∷ [] in
    let full : (ctx.datalen + 1 == 64) ≡ true = ground arith in
    let no_rest : r ≡ [] = eq-nil_of_length r (omega arith) in
    let stored' : set ctx.block ctx.datalen x ≡ b =
      rw (fed.block_parts, fed.datalen_tail, stored, no_rest) (append-nil b) in
    rw (full, stored')
      (record {
        blocks = fed.blocks ++ b ∷ [];
        tail = [];
        rest = b;
        are_blocks =
            All-append _ fed.blocks (b ∷ []) fed.are_blocks
              (omega (arith, length-append fed.tail (x ∷ [])), tt);
        message_parts = rw (fed.message_parts, flat-append) (simp (append_assoc, append-nil));
        block_parts = refl;
        block_size = omega (arith, length-append fed.tail (x ∷ []));
        tail_fits = omega arith;
        datalen_tail = refl;
        bitlen_blocks = omega (arith, length-append fed.blocks (b ∷ []), fed.bitlen_blocks);
        state_blocks = rw (absorb-append, ← fed.state_blocks);
      })

update_byte-IsFed :
    {ctx : Ctx} {message : Bytes} (x : ℕ)
    → IsFed ctx message
    → IsFed (update_byte ctx x) (message ++ x ∷ [])
update_byte-IsFed x fed = elim (dec_lt (length fed.tail + 1) 64) [
  | yes lt ↦ byte_tail x fed lt
  | no ge ↦ byte_block x fed (omega arith)
]

pub update-IsFed :
    (xs : Bytes) (ctx : Ctx) (message : Bytes)
    → IsFed ctx message
    → IsFed (update ctx xs) (message ++ xs)
unfolding update
update-IsFed [] ctx message fed = rw append-nil fed
update-IsFed (x ∷ xs) ctx message fed =
    rw append_assoc at
      (update-IsFed xs (update_byte ctx x) (message ++ x ∷ []) (update_byte-IsFed x fed))
