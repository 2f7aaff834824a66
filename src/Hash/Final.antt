-- ===== src/Hash/Final.antt =====
-- What `adr_sha256_final` stores behind the tail: the mark, the zeros and the length.

use os_ai_assisted_determini.Base.{
  le→ltb, append-nil, eq-nil_of_length, refl, ap, length-drop, length-replicate, set-append_add,
  lt→ltb, zero, suc, sym, ◌∙◌, length-append, [], append_assoc, set-append, suc, drop, replicate,
  ◌∷◌, arith, ◌++◌, ◌^◌, ◌-◌, ◌/◌, ◌%◌, ◌+◌, ◌≤◌, set, ◌<◌, ◌≡◌, length, Bytes, ℕ,
}
use os_ai_assisted_determini.Hash.Context.{
  Ctx, fill_zero, store_bitlen, close_block, word_bytes, state_bytes,
}
use os_ai_assisted_determini.Hash.Spec.{be_bytes, words_digest}
use os_ai_assisted_determini.Hash.Words.{Words, transform}

pub fill_zero_lem :
    (n i : ℕ) (p q : Bytes)
    → i ≡ length p
    → n ≤ length q
    → fill_zero n i (p ++ q) ≡ p ++ (replicate n 0 ++ drop n q)
unfolding fill_zero
fill_zero_lem zero i p q e h = refl
fill_zero_lem (suc n) i p [] e h = absurd (omega arith)
fill_zero_lem (suc n) i p (y ∷ q) e h =
    rw (e, set-append p q 0 y, ← append_assoc p (0 ∷ []) q)
      (fill_zero_lem n (length p + 1) (p ++ 0 ∷ []) q (omega (arith, length-append p (0 ∷ [])))
          (omega arith)
        ∙ append_assoc p (0 ∷ []) (replicate n 0 ++ drop n q))

-- The mark at `datalen`, then zeros up to `stop`.
pub mark_and_fill :
    (tail rest : Bytes) (stop : ℕ)
    → length tail < stop
    → stop ≤ length tail + length rest
    → fill_zero (stop - (length tail + 1)) (length tail + 1) (set (tail ++ rest) (length tail) 0x80)
      ≡ (tail ++ (0x80 ∷ replicate (stop - (length tail + 1)) 0)) ++ drop (stop - length tail) rest
mark_and_fill tail [] stop lt le = absurd (omega arith)
mark_and_fill tail (y ∷ rest) stop lt le =
    let n = stop - (length tail + 1) in
    let one : stop - length tail ≡ suc n = omega arith in
    rw
      (
        set-append tail rest 0x80 y,
        one,
        ← append_assoc tail (0x80 ∷ []) rest,
        ← append_assoc tail (0x80 ∷ []) (replicate n 0),
      )
      (fill_zero_lem n (length tail + 1) (tail ++ 0x80 ∷ []) rest
          (omega (arith, length-append tail (0x80 ∷ []))) (omega arith)
        ∙ sym (append_assoc (tail ++ 0x80 ∷ []) (replicate n 0) (drop n rest)))

-- A store of eight bytes in place.
store_eight :
    (n : ℕ) (q : Bytes)
    → length q ≡ 8
    → set
        (set
          (set
            (set
              (set
                (set (set (set q 7 (n % 256)) 6 (n / 2 ^ 8 % 256)) 5 (n / 2 ^ 16 % 256))
                4
                (n / 2 ^ 24 % 256))
              3
              (n / 2 ^ 32 % 256))
            2
            (n / 2 ^ 40 % 256))
          1
          (n / 2 ^ 48 % 256))
        0
        (n / 2 ^ 56 % 256)
      ≡ be_bytes 8 n
unfolding be_bytes
store_eight n (a ∷ b ∷ c ∷ d ∷ e ∷ f ∷ g ∷ h ∷ []) len = ground arith
store_eight n _ len = absurd (omega arith)

word_bytes-be_bytes : (w : ℕ) → word_bytes w ≡ be_bytes 4 w
unfolding word_bytes be_bytes
word_bytes-be_bytes w = ground arith

pub state_bytes-words_digest : (s : Words) → state_bytes s ≡ words_digest s
unfolding state_bytes words_digest
state_bytes-words_digest s = simp word_bytes-be_bytes

-- The last eight places get the length, most significant byte first.
pub store_bitlen_lem :
    (n : ℕ) (p q : Bytes)
    → length p ≡ 56
    → length q ≡ 8
    → store_bitlen n (p ++ q) ≡ p ++ be_bytes 8 n
unfolding store_bitlen
store_bitlen_lem n p q lp lq =
    rw
      (
        set-append_add p q 63 7 (n % 256) (omega arith),
        set-append_add p _ 62 6 (n / 2 ^ 8 % 256) (omega arith),
        set-append_add p _ 61 5 (n / 2 ^ 16 % 256) (omega arith),
        set-append_add p _ 60 4 (n / 2 ^ 24 % 256) (omega arith),
        set-append_add p _ 59 3 (n / 2 ^ 32 % 256) (omega arith),
        set-append_add p _ 58 2 (n / 2 ^ 40 % 256) (omega arith),
        set-append_add p _ 57 1 (n / 2 ^ 48 % 256) (omega arith),
        set-append_add p _ 56 0 (n / 2 ^ 56 % 256) (omega arith),
      )
      (ap (λ r. p ++ r) (store_eight n q lq))

-- The mark and `n` zeros behind a tail.
abbrev pub marked : Bytes → ℕ → Bytes
marked tail n = tail ++ (0x80 ∷ replicate n 0)

pub length-marked : (tail : Bytes) (n : ℕ) → length (marked tail n) ≡ length tail + 1 + n
length-marked tail n =
    omega (arith, length-append tail (0x80 ∷ replicate n 0), length-replicate n (zero))

-- A tail below 56 bytes leaves room for the length in its own block.
pub close_block_short :
    (ctx : Ctx) (tail rest : Bytes)
    → ctx.block ≡ tail ++ rest
    → ctx.datalen ≡ length tail
    → length tail + length rest ≡ 64
    → length tail < 56
    → (q : Bytes) × (close_block ctx
        ≡ record ctx { block = marked tail (56 - (length tail + 1)) ++ q })
      × (length q ≡ 8)
unfolding close_block
close_block_short ctx tail rest eb ed size lt = (
  drop (56 - length tail) rest,
  rw (eb, ed, lt→ltb _ _ lt, mark_and_fill tail rest 56 lt (omega arith)) refl,
  omega (arith, length-drop (56 - length tail) rest),
)

-- A longer tail is compressed with its mark, and the length goes to a block of its own.
pub close_block_long :
    (ctx : Ctx) (tail rest : Bytes)
    → ctx.block ≡ tail ++ rest
    → ctx.datalen ≡ length tail
    → length tail + length rest ≡ 64
    → 56 ≤ length tail
    → length tail < 64
    → (q : Bytes) × (close_block ctx ≡ record ctx {
      block = replicate 56 0 ++ q;
      state = transform ctx.state (marked tail (64 - (length tail + 1)));
    })
      × (length q ≡ 8)
unfolding close_block
close_block_long ctx tail rest eb ed size ge lt =
    let full = marked tail (64 - (length tail + 1)) in
    let nothing : drop (64 - length tail) rest ≡ [] =
      eq-nil_of_length _ (omega (arith, length-drop (64 - length tail) rest)) in
    let filled =
      mark_and_fill tail rest 64 lt (omega arith) ∙ ap (λ r. full ++ r) nothing ∙ append-nil full in
    (
      drop 56 full,
      rw (eb, ed, le→ltb _ _ ge, filled) refl,
      omega (arith, length-drop 56 full, length-marked tail (64 - (length tail + 1))),
    )
