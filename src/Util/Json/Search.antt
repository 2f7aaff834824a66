-- ===== src/Util/Json/Search.antt =====
-- A search for a key, as the replayer makes it with `strstr`, passes over a literal.
use os_ai_assisted_determini.Base.{
  ℕ, ◌/◌, ◌%◌, ◌<◌, ◌≡◌, refl, ◌∙◌, ◌≢◌, ◌⊎◌, inl, inr, none, some, Bool, not, ◌||◌, ◌==◌, ltb,
  Bool-cases, drop, [], ◌∷◌, ◌++◌, append_assoc, arith, Bytes, All-append, Lacks, get_or,
}
use os_ai_assisted_determini.Hash.Hex.{hex_digits}
use os_ai_assisted_determini.Hash.HexText.{hex_digits_lem}
use os_ai_assisted_determini.Libc.Find.{strip_prefix, find_after}
use os_ai_assisted_determini.Libc.FindLaws.{find_after_skip}
use os_ai_assisted_determini.Util.Json.{
  backslash, quote, unicode_escape, escape_byte, escape_bytes, json_escape,
}

-- What is written for a byte: the byte itself, or a backslash and what it escapes.
abbrev Written : ℕ → Type 0
Written c =
    ((escape_byte c ≡ c ∷ []) × (c ≢ quote))
    ⊎ ((u : Bytes) × (escape_byte c ≡ backslash ∷ u) × (Lacks quote u ⊎ (u ≡ quote ∷ [])))

hex_digit-ne-quote : (i : ℕ) → i < 16 → get_or hex_digits i 0 ≢ quote
hex_digit-ne-quote i h = ground (arith, hex_digits_lem i h)

abbrev is_plain : ℕ → Bool
is_plain c = not (c == backslash || c == quote || ltb c 0x20)

written : (c : ℕ) → Written c
unfolding escape_byte unicode_escape
written c = elim (Bool-cases (is_plain c)) [
  | inl plain ↦ inl (ground arith, ground arith)
  | inr special ↦ elim (Bool-cases (c == quote)) [
    | inl same ↦ inr (quote ∷ [], ground arith, inr refl)
    | inr other ↦
        let hi = hex_digit-ne-quote (c / 16 % 16) (omega arith) in
        let lo = hex_digit-ne-quote (c % 16) (omega arith) in
        inr (drop 1 (escape_byte c), ground arith, inl (ground (arith, hi, lo)))
  ]
]

-- Inside a literal, no key begins: a quote there stands behind a backslash.
inside_is_no_key :
    (key more s rest : Bytes)
    → Lacks quote key
    → Lacks backslash key
    → strip_prefix (key ++ (quote ∷ b':' ∷ more)) (escape_bytes s ++ (quote ∷ b',' ∷ rest)) ≡ none
unfolding strip_prefix escape_bytes
inside_is_no_key [] more [] rest q b = refl
inside_is_no_key (k ∷ key) more [] rest q b = ground arith
inside_is_no_key [] more (c ∷ s) rest q b = elim (written c) [
  | inl (e, ne) ↦ rw e (ground arith)
  | inr (u, e, kind) ↦ rw e refl
]
inside_is_no_key (k ∷ key) more (c ∷ s) rest q b = elim (written c) [
  | inl (e, ne) ↦ rw e (ground (arith, inside_is_no_key key more s rest q.1 b.1))
  | inr (u, e, kind) ↦ rw e (ground arith)
]

comma_is_no_key :
    (key more rest : Bytes)
    → Lacks b',' key
    → strip_prefix (key ++ (quote ∷ b':' ∷ more)) (b',' ∷ rest) ≡ none
unfolding strip_prefix
comma_is_no_key [] more rest h = refl
comma_is_no_key (k ∷ key) more rest h = ground arith

module _ (key more : Bytes) (no_quote : Lacks quote key) (no_backslash : Lacks backslash key)
    (no_comma : Lacks b',' key) where
  abbrev needle : Bytes
  needle = quote ∷ (key ++ (quote ∷ b':' ∷ more))

  -- At a quote inside a literal, or before one.
  pass_quote :
      (s rest : Bytes)
      → find_after (quote ∷ (escape_bytes s ++ (quote ∷ b',' ∷ rest))) needle
        ≡ find_after (escape_bytes s ++ (quote ∷ b',' ∷ rest)) needle
  unfolding find_after strip_prefix
  pass_quote s rest = rw (find_after, inside_is_no_key key more s rest no_quote no_backslash) refl

  pass_inside :
      (s rest : Bytes)
      → find_after (escape_bytes s ++ (quote ∷ b',' ∷ rest)) needle
        ≡ find_after (b',' ∷ rest) needle
  unfolding escape_bytes find_after
  pass_inside [] rest = rw (find_after, strip_prefix, comma_is_no_key key more rest no_comma) refl
  pass_inside (c ∷ s) rest = elim (written c) [
    | inl (e, ne) ↦ rw (e) (
        find_after_skip (c ∷ []) (escape_bytes s ++ (quote ∷ b',' ∷ rest))
          (key ++ (quote ∷ b':' ∷ more)) quote (ne, tt)
        ∙ pass_inside s rest)
    | inr (u, e, inl clean) ↦
        rw (e, append_assoc)
          (find_after_skip (backslash ∷ u) (escape_bytes s ++ (quote ∷ b',' ∷ rest))
              (key ++ (quote ∷ b':' ∷ more)) quote (omega arith, clean)
            ∙ pass_inside s rest)
    | inr (u, e, inr one) ↦
        rw (e, one)
          (find_after_skip (backslash ∷ []) (quote ∷ (escape_bytes s ++ (quote ∷ b',' ∷ rest)))
              (key ++ (quote ∷ b':' ∷ more)) quote (omega arith)
            ∙ pass_quote s rest
            ∙ pass_inside s rest)
  ]

  -- The search goes on behind the literal, whatever bytes the text has.
  pub find_after-json_escape :
      (s rest : Bytes)
      → find_after (json_escape (some s) ++ (b',' ∷ rest)) needle ≡ find_after (b',' ∷ rest) needle
  unfolding json_escape
  find_after-json_escape s rest = rw append_assoc (pass_quote s rest ∙ pass_inside s rest)

escape_byte-Lacks : (c : ℕ) → c ≢ quote → Lacks quote (escape_byte c)
unfolding escape_byte unicode_escape
escape_byte-Lacks c h = ground (
  arith,
  hex_digit-ne-quote (c / 16 % 16) (omega arith),
  hex_digit-ne-quote (c % 16) (omega arith),
)

-- A literal of a text without quotes holds none inside.
pub escape_bytes-Lacks : (s : Bytes) → Lacks quote s → Lacks quote (escape_bytes s)
unfolding escape_bytes
escape_bytes-Lacks [] h = tt
escape_bytes-Lacks (c ∷ s) h =
    All-append _ (escape_byte c) (escape_bytes s) (escape_byte-Lacks c h.0)
      (escape_bytes-Lacks s h.1)
