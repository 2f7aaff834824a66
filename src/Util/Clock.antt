-- ===== src/Util/Clock.antt =====
-- src/common/util.c: `adr_now_ns`. The hooks have a copy of it.
use os_ai_assisted_determini.Base.{ℕ, ◌+◌, ◌*◌, ◌%◌, ◌^◌, ◌<◌, ◌≡◌, ◌⊎◌, inl, inr, arith}

-- `struct timespec`, of a time that is not negative.
pub record Timespec : Type 0 where
  pub tv_sec : ℕ
  pub tv_nsec : ℕ

unfoldable pub now_ns : Timespec → ℕ
now_ns ts = (ts.tv_sec * 1000000000 + ts.tv_nsec) % 2 ^ 64

-- The order of two times.
abbrev pub IsBefore : Timespec → Timespec → Type 0
IsBefore a b = (a.tv_sec < b.tv_sec) ⊎ ((a.tv_sec ≡ b.tv_sec) × (a.tv_nsec < b.tv_nsec))

-- A later time of the clock has a greater number of nanoseconds: it does not wrap while the clock is
-- below 18446744073 seconds, with its nanoseconds below a second.
pub now_ns-IsBefore :
    (a b : Timespec)
    → a.tv_nsec < 1000000000
    → b.tv_nsec < 1000000000
    → b.tv_sec < 18446744073
    → IsBefore a b
    → now_ns a < now_ns b
unfolding now_ns
now_ns-IsBefore a b ha hb small (inl earlier) = omega arith
now_ns-IsBefore a b ha hb small (inr (same, earlier)) = omega arith
