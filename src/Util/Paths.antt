-- ===== src/Util/Paths.antt =====
-- src/common/util.c: `adr_join_path`, and `adr_basename_const`.
use os_ai_assisted_determini.Base.{
  ℕ, ◌+◌, ◌-◌, ◌≤◌, ◌<◌, ◌≡◌, refl, ◌↔◌, Bool, true, false, not, Option, none, some, [], ◌∷◌, ◌++◌,
  arith, leb, ◌==◌, if◌then◌else◌, Bytes, length, Lacks, length-append, length-take, take_all,
}
use os_ai_assisted_determini.Libc.Print.{cut_to}

abbrev pub slash : ℕ
slash = b'/'

-- The buffer after the call, and whether the result is 0.
pub record Joined : Type 0 where
  pub out : Bytes
  pub fits : Bool

unfoldable pub join_path : ℕ → Bytes → Bytes → Joined
join_path out_len a b =
    let text = a ++ (slash ∷ b) in
    record { out = cut_to out_len text; fits = not (leb out_len (length text)) }

-- The text behind the last slash, if there is one: `strrchr(path, '/') + 1`.
after_last_slash : Bytes → Option Bytes
after_last_slash [] = none
after_last_slash (c ∷ s) = elim (after_last_slash s) [
  | some r ↦ some r
  | none ↦ if c == slash then some s else none
]

unfoldable pub basename : Bytes → Bytes
unfolding after_last_slash
basename path = elim (after_last_slash path) [ some r ↦ r | none ↦ path ]

after_last_slash-Lacks : (b : Bytes) → Lacks slash b → after_last_slash b ≡ none
unfolding after_last_slash
after_last_slash-Lacks [] h = refl
after_last_slash-Lacks (c ∷ b) h = ground (arith, after_last_slash-Lacks b h.1)

after_last_slash-append :
    (a b : Bytes) → Lacks slash b → after_last_slash (a ++ (slash ∷ b)) ≡ some b
unfolding after_last_slash
after_last_slash-append [] b h = ground (arith, after_last_slash-Lacks b h)
after_last_slash-append (c ∷ a) b h = rw (after_last_slash-append a b h)

pub basename-append : (a b : Bytes) → Lacks slash b → basename (a ++ (slash ∷ b)) ≡ b
unfolding basename
basename-append a b h = rw (basename, after_last_slash-append a b h)

-- `adr_join_path` returns 0 exactly when the joined path and its terminator fit the buffer; then
-- the buffer holds the whole path, and its base name is the second part if that has no slash.
-- Otherwise the buffer holds the front of the path, one byte short of its size.
pub join_path_lem :
    (out_len : ℕ) (a b : Bytes)
    → 0 < out_len
    → ((join_path out_len a b).fits ≡ true ↔ length a + length b + 2 ≤ out_len)
      × ((join_path out_len a b).fits ≡ true → (join_path out_len a b).out ≡ a ++ (slash ∷ b))
      × ((join_path out_len a b).fits ≡ true
          → Lacks slash b
          → basename (join_path out_len a b).out ≡ b)
      × ((join_path out_len a b).fits ≡ false → length (join_path out_len a b).out + 1 ≡ out_len)
unfolding join_path cut_to
join_path_lem out_len a b pos =
    let size = length-append a (slash ∷ b) in
    let whole : (not (leb out_len (length (a ++ (slash ∷ b)))) ≡ true
        → cut_to out_len (a ++ (slash ∷ b)) ≡ a ++ (slash ∷ b)) =
      λ h. take_all (out_len - 1) (a ++ (slash ∷ b)) (ground arith) in
    (
      ground (arith, size),
      whole,
      (λ h lacks. rw (whole h, basename-append a b lacks)),
      (λ h. ground (arith, length-take (out_len - 1) (a ++ (slash ∷ b)))),
    )
