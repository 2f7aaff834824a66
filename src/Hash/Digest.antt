-- ===== src/Hash/Digest.antt =====
-- The digest of a message by src/common/hash.c is the one that Spec describes.
use native.Mathlib.Decide.{dec_lt}
use native.Mathlib.Nat.{suc-add, zero-add}
use os_ai_assisted_determini.Hash.Final.{
  close_block_long, state_bytes-words_digest, length-marked, store_bitlen_lem, close_block_short,
  marked,
}
use os_ai_assisted_determini.Base.{
  ◌≤◌, All-append, ◌^◌, ◌-◌, zero, ◌%◌, ◌<◌, suc, ◌+◌, replicate, ℕ, ◌*◌, ◌/◌, ◌≡◌, refl, sym, ap,
  ◌∙◌, List, [], ◌∷◌, ◌++◌, append-nil, append_assoc, arith, Bytes, length, length-append,
  take-append, drop-append,
}
use os_ai_assisted_determini.Hash.Context.{init, digest, final, Ctx, initial_state}
use os_ai_assisted_determini.Hash.Spec.{
  zero_count, padding, be_bytes, pad, blocks_of, absorb, words_digest, sha256,
}
use os_ai_assisted_determini.Hash.Blocks.{
  init-IsFed, update-IsFed, flat-append, absorb-append, IsFed, flat, AreBlocks,
}

length-flat : (bs : List Bytes) → AreBlocks bs → length (flat bs) ≡ 64 * length bs
length-flat [] h = refl
length-flat (b ∷ bs) h = omega (arith, length-append b (flat bs), length-flat bs h.1)

blocks_of-flat : (bs : List Bytes) → AreBlocks bs → blocks_of (length bs) (flat bs) ≡ bs
blocks_of-flat [] h = refl
blocks_of-flat (b ∷ bs) h =
    rw (← h.0, take-append b (flat bs), drop-append b (flat bs))
      (ap (λ r. b ∷ r) (blocks_of-flat bs h.1))

-- A padded message that is known to be whole blocks is cut into these blocks.
sha256_blocks :
    (message : Bytes) (bs : List Bytes)
    → AreBlocks bs
    → pad message ≡ flat bs
    → sha256 message ≡ words_digest (absorb initial_state bs)
unfolding sha256
sha256_blocks message bs h e =
    let count : length (flat bs) / 64 ≡ length bs = omega (arith, length-flat bs h) in
    rw (e, count, blocks_of-flat bs h) refl

length-be_bytes : (k n : ℕ) → length (be_bytes k n) ≡ k
unfolding be_bytes
length-be_bytes zero n = refl
length-be_bytes (suc k) n =
    omega (arith, length-append (be_bytes k (n / 256)) (n % 256 ∷ []), length-be_bytes k (n / 256))

replicate-add : (n m : ℕ) → replicate (n + m) 0 ≡ replicate n 0 ++ replicate {A = ℕ} m 0
replicate-add zero m = ap (λ k. replicate k 0) (zero-add m)
replicate-add (suc n) m =
    ap (λ k. replicate k 0) (suc-add n m) ∙ ap (λ r. 0 ∷ r) (replicate-add n m)

module _ {ctx : Ctx} {message : Bytes} (fed : IsFed ctx message) where
  abbrev bits : ℕ
  bits = (ctx.bitlen + ctx.datalen * 8) % 2 ^ 64

  length-message : length message ≡ 64 * length fed.blocks + length fed.tail
  length-message = rw fed.message_parts (
      omega
        (arith, length-append (flat fed.blocks) fed.tail, length-flat fed.blocks fed.are_blocks))

  -- The padding of the standard behind the tail; the length that the code stores is the message's.
  pad_parts :
      (n : ℕ)
      → zero_count (length message) ≡ n
      → pad message ≡ flat fed.blocks ++ (marked fed.tail n ++ be_bytes 8 bits)
  unfolding pad padding
  pad_parts n e =
      let same : 8 * length message % 2 ^ 64 ≡ bits =
        omega (arith, length-message, fed.bitlen_blocks) in
      let zeros = replicate {A = ℕ} n 0 in
      rw (e, same)
        (ap (λ r. r ++ (0x80 ∷ (zeros ++ be_bytes 8 bits))) fed.message_parts
          ∙ append_assoc (flat fed.blocks) fed.tail (0x80 ∷ (zeros ++ be_bytes 8 bits))
          ∙ ap (λ r. flat fed.blocks ++ r)
              (sym (append_assoc fed.tail (0x80 ∷ zeros) (be_bytes 8 bits))))

  -- The digest from the blocks behind the whole ones.
  sha256_last :
      (ends : List Bytes)
      → AreBlocks ends
      → pad message ≡ flat fed.blocks ++ flat ends
      → sha256 message ≡ words_digest (absorb ctx.state ends)
  sha256_last ends sized e =
      sha256_blocks message (fed.blocks ++ ends) (All-append _ fed.blocks ends fed.are_blocks sized)
        (e ∙ sym (flat-append fed.blocks ends))
      ∙ ap words_digest (
          absorb-append initial_state fed.blocks ends
          ∙ ap (λ s. absorb s ends) (sym fed.state_blocks))

  final_short : length fed.tail < 56 → final ctx ≡ sha256 message
  unfolding final
  final_short lt =
      let n = 56 - (length fed.tail + 1) in
      let (q, closed, eight) =
        close_block_short ctx fed.tail fed.rest fed.block_parts fed.datalen_tail fed.block_size
          lt in
      let last = marked fed.tail n ++ be_bytes 8 bits in
      let size = length-append (marked fed.tail n) (be_bytes 8 bits) in
      let stored =
        store_bitlen_lem bits (marked fed.tail n) q (omega (arith, length-marked fed.tail n))
          eight in
      let padded = pad_parts n (omega (arith, length-message)) in
      let spec =
        sha256_last (last ∷ [])
          (omega (arith, size, length-marked fed.tail n, length-be_bytes 8 bits), tt)
          (padded ∙ ap (λ r. flat fed.blocks ++ r) (sym (append-nil last))) in
      rw (closed, stored, state_bytes-words_digest) (sym spec)

  final_long : 56 ≤ length fed.tail → final ctx ≡ sha256 message
  unfolding final
  final_long ge =
      let n = 64 - (length fed.tail + 1) in
      let (q, closed, eight) =
        close_block_long ctx fed.tail fed.rest fed.block_parts fed.datalen_tail fed.block_size ge
          fed.tail_fits in
      let zeros = replicate {A = ℕ} 56 0 in
      let full = marked fed.tail n in
      let last = zeros ++ be_bytes 8 bits in
      let stored = store_bitlen_lem bits zeros q (omega arith) eight in
      let padded = pad_parts (n + 56) (omega (arith, length-message, fed.tail_fits)) in
      let cut : marked fed.tail (n + 56) ++ be_bytes 8 bits ≡ full ++ last =
        rw (replicate-add n 56, ← append_assoc fed.tail (0x80 ∷ replicate n 0) zeros)
          (append_assoc full zeros (be_bytes 8 bits)) in
      let spec =
        sha256_last (full ∷ last ∷ [])
          (
            omega (arith, length-marked fed.tail n, fed.tail_fits),
            (omega (arith, length-be_bytes 8 bits), tt),
          )
          (padded
            ∙ ap (λ r. flat fed.blocks ++ r) (cut ∙ ap (λ r. full ++ r) (sym (append-nil last)))) in
      rw (closed, stored, state_bytes-words_digest) (sym spec)

-- Whatever the stack slot of the context holds, with 64 bytes of `data`, `adr_sha256_init`, `_update` and `_final` compute
-- the SHA-256 digest of the message: the padding of the standard, cut into blocks of 64 bytes that
-- are compressed in turn.
pub digest-eq-sha256 :
    (stack : Ctx) (message : Bytes)
    → length stack.block ≡ 64
    → digest stack message ≡ sha256 message
unfolding digest
digest-eq-sha256 stack message size =
    let fed = update-IsFed message (init stack) [] (init-IsFed stack size) in
    elim (dec_lt (length fed.tail) 56) [
      | yes lt ↦ final_short fed lt
      | no ge ↦ final_long fed (omega arith)
    ]
