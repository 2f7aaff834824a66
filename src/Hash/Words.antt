-- ===== src/Hash/Words.antt =====
-- src/common/hash.c: the macros on 32-bit words and `adr_sha256_transform`.
use Prim.Native.Nat.{bit_and, bit_or, bit_xor}
use os_ai_assisted_determini.Base.{
  ℕ, zero, suc, ◌+◌, ◌-◌, ◌*◌, ◌/◌, ◌%◌, ◌^◌, List, [], ◌∷◌, ◌++◌, Bytes, get_or,
}

abbrev pub u32 : ℕ → ℕ
u32 n = n % 2 ^ 32

rotright : ℕ → ℕ → ℕ
rotright a b = bit_or (a / 2 ^ b) (u32 (a * 2 ^ (32 - b)))

not32 : ℕ → ℕ
not32 x = 2 ^ 32 - 1 - u32 x

ch : ℕ → ℕ → ℕ → ℕ
ch x y z = bit_xor (bit_and x y) (bit_and (not32 x) z)

maj : ℕ → ℕ → ℕ → ℕ
maj x y z = bit_xor (bit_xor (bit_and x y) (bit_and x z)) (bit_and y z)

ep0 : ℕ → ℕ
ep0 x = bit_xor (bit_xor (rotright x 2) (rotright x 13)) (rotright x 22)

ep1 : ℕ → ℕ
ep1 x = bit_xor (bit_xor (rotright x 6) (rotright x 11)) (rotright x 25)

sig0 : ℕ → ℕ
sig0 x = bit_xor (bit_xor (rotright x 7) (rotright x 18)) (x / 2 ^ 3)

sig1 : ℕ → ℕ
sig1 x = bit_xor (bit_xor (rotright x 17) (rotright x 19)) (x / 2 ^ 10)

-- The table `k`.
abbrev round_constants : List ℕ
round_constants =
    0x428a2f98 ∷ 0x71374491 ∷ 0xb5c0fbcf ∷ 0xe9b5dba5 ∷ 0x3956c25b ∷ 0x59f111f1 ∷ 0x923f82a4
    ∷ 0xab1c5ed5 ∷ 0xd807aa98 ∷ 0x12835b01 ∷ 0x243185be ∷ 0x550c7dc3 ∷ 0x72be5d74 ∷ 0x80deb1fe
    ∷ 0x9bdc06a7 ∷ 0xc19bf174 ∷ 0xe49b69c1 ∷ 0xefbe4786 ∷ 0x0fc19dc6 ∷ 0x240ca1cc ∷ 0x2de92c6f
    ∷ 0x4a7484aa ∷ 0x5cb0a9dc ∷ 0x76f988da ∷ 0x983e5152 ∷ 0xa831c66d ∷ 0xb00327c8 ∷ 0xbf597fc7
    ∷ 0xc6e00bf3 ∷ 0xd5a79147 ∷ 0x06ca6351 ∷ 0x14292967 ∷ 0x27b70a85 ∷ 0x2e1b2138 ∷ 0x4d2c6dfc
    ∷ 0x53380d13 ∷ 0x650a7354 ∷ 0x766a0abb ∷ 0x81c2c92e ∷ 0x92722c85 ∷ 0xa2bfe8a1 ∷ 0xa81a664b
    ∷ 0xc24b8b70 ∷ 0xc76c51a3 ∷ 0xd192e819 ∷ 0xd6990624 ∷ 0xf40e3585 ∷ 0x106aa070 ∷ 0x19a4c116
    ∷ 0x1e376c08 ∷ 0x2748774c ∷ 0x34b0bcb5 ∷ 0x391c0cb3 ∷ 0x4ed8aa4a ∷ 0x5b9cca4f ∷ 0x682e6ff3
    ∷ 0x748f82ee ∷ 0x78a5636f ∷ 0x84c87814 ∷ 0x8cc70208 ∷ 0x90befffa ∷ 0xa4506ceb ∷ 0xbef9a3f7
    ∷ 0xc67178f2 ∷ []

-- The eight words of `ctx->state`, index 0 in `a` to index 7 in `h`, and the variables of the same
-- names in the rounds.
pub record Words : Type 0 where
  pub a : ℕ
  pub b : ℕ
  pub c : ℕ
  pub d : ℕ
  pub e : ℕ
  pub f : ℕ
  pub g : ℕ
  pub h : ℕ

-- The first loop: `m[i]` is the big-endian word at `data[4 * i]`. The argument is the rounds left.
load_words : ℕ → ℕ → Bytes → List ℕ → List ℕ
load_words zero j block m = m
load_words (suc left) j block m =
    let w =
      bit_or
        (bit_or (bit_or (get_or block j 0 * 2 ^ 24) (get_or block (j + 1) 0 * 2 ^ 16))
          (get_or block (j + 2) 0 * 2 ^ 8))
        (get_or block (j + 3) 0) in
    load_words left (j + 4) block (m ++ u32 w ∷ [])

-- The second loop, from index `i`.
extend_words : ℕ → ℕ → List ℕ → List ℕ
extend_words zero i m = m
extend_words (suc left) i m =
    let w =
      sig1 (get_or m (i - 2) 0)
      + get_or m (i - 7) 0
      + sig0 (get_or m (i - 15) 0)
      + get_or m (i - 16) 0 in
    extend_words left (i + 1) (m ++ u32 w ∷ [])

round : ℕ → ℕ → Words → Words
round k_i m_i v =
    let t1 = u32 (v.h + ep1 v.e + ch v.e v.f v.g + k_i + m_i) in
    let t2 = u32 (ep0 v.a + maj v.a v.b v.c) in
    record {
      a = u32 (t1 + t2);
      b = v.a;
      c = v.b;
      d = v.c;
      e = u32 (v.d + t1);
      f = v.e;
      g = v.f;
      h = v.g;
    }

rounds : ℕ → ℕ → List ℕ → Words → Words
rounds zero i m v = v
rounds (suc left) i m v =
    rounds left (i + 1) m (round (get_or round_constants i 0) (get_or m i 0) v)

-- `ctx->state` after `adr_sha256_transform(ctx, data)`, which changes no other field.
unfoldable pub transform : Words → Bytes → Words
unfolding load_words extend_words rounds round ch maj ep0 ep1 sig0 sig1 rotright not32
transform s block =
    let m = extend_words 48 16 (load_words 16 0 block []) in
    let v = rounds 64 0 m s in
    record {
      a = u32 (s.a + v.a);
      b = u32 (s.b + v.b);
      c = u32 (s.c + v.c);
      d = u32 (s.d + v.d);
      e = u32 (s.e + v.e);
      f = u32 (s.f + v.f);
      g = u32 (s.g + v.g);
      h = u32 (s.h + v.h);
    }
