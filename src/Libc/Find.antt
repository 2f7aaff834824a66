-- ===== src/Libc/Find.antt =====
-- `strstr`, `strchr` and `strrchr`, as the texts behind the place that they find.
use os_ai_assisted_determini.Base.{ℕ, Option, none, some, [], ◌∷◌, ◌==◌, if◌then◌else◌, Bytes}

-- The text behind a prefix.
unfoldable pub strip_prefix : Bytes → Bytes → Option Bytes
strip_prefix [] s = some s
strip_prefix (p ∷ ps) [] = none
strip_prefix (p ∷ ps) (c ∷ s) = if p == c then strip_prefix ps s else none

-- `strstr(line, needle) + strlen(needle)`, at the first occurrence.
unfoldable pub find_after : Bytes → Bytes → Option Bytes
unfolding strip_prefix
find_after [] needle = strip_prefix needle []
find_after (c ∷ s) needle =
    let rest = find_after s needle in
    elim (strip_prefix needle (c ∷ s)) [ some r ↦ some r | none ↦ rest ]

-- The text before the first `c`, if there is one.
unfoldable pub until : ℕ → Bytes → Option Bytes
until q [] = none
until q (c ∷ s) =
    let rest = until q s in
    if c == q then some [] else elim rest [ none ↦ none | some r ↦ some (c ∷ r) ]
