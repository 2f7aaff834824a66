-- ===== src/Hash/Spec.antt =====
-- The description of SHA-256 by whole messages: padding to blocks of 64 bytes, one compression for
-- each block, the words of the last state in big-endian order. It is independent of the streaming
-- code of src/common/hash.c, but for the compression of one block.
use os_ai_assisted_determini.Base.{
  ℕ, zero, suc, ◌-◌, ◌*◌, ◌/◌, ◌%◌, ◌^◌, List, [], ◌∷◌, ◌++◌, Bytes, length, take, drop, replicate,
}
use os_ai_assisted_determini.Hash.Context.{initial_state}
use os_ai_assisted_determini.Hash.Words.{Words, transform}

-- The low `k` bytes of a number, the most significant first.
unfoldable pub be_bytes : ℕ → ℕ → Bytes
be_bytes zero n = []
be_bytes (suc k) n = be_bytes k (n / 256) ++ n % 256 ∷ []

-- The fewest zeros that bring a message of this length and the mark to 56 bytes modulo 64.
abbrev pub zero_count : ℕ → ℕ
zero_count n = (119 - n % 64) % 64

unfoldable pub padding : ℕ → Bytes
padding n = 0x80 ∷ (replicate (zero_count n) 0 ++ be_bytes 8 (8 * n % 2 ^ 64))

unfoldable pub pad : Bytes → Bytes
pad message = message ++ padding (length message)

-- `n` blocks of 64 bytes.
abbrev pub blocks_of : ℕ → Bytes → List Bytes
blocks_of zero xs = []
blocks_of (suc n) xs = take 64 xs ∷ blocks_of n (drop 64 xs)

abbrev pub absorb : Words → List Bytes → Words
absorb s [] = s
absorb s (b ∷ bs) = absorb (transform s b) bs

unfoldable pub words_digest : Words → Bytes
words_digest s =
    be_bytes 4 s.a
    ++ (be_bytes 4 s.b
        ++ (be_bytes 4 s.c
            ++ (be_bytes 4 s.d
                ++ (be_bytes 4 s.e ++ (be_bytes 4 s.f ++ (be_bytes 4 s.g ++ be_bytes 4 s.h))))))

unfoldable pub sha256 : Bytes → Bytes
unfolding pad padding words_digest be_bytes
sha256 message =
    words_digest (absorb initial_state (blocks_of (length (pad message) / 64) (pad message)))
