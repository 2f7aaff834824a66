-- ===== src/Tests/Texts.antt =====
-- src/common/util.c at short inputs.
use mathlib.Core.List.{Mem, mem-cons_self, mem-cons_of_mem, concat-ne-nil}
use os_ai_assisted_determini.Base.{
  arith, List, ◌+◌, ◌≤◌, ◌≢◌, ◌≡◌, refl, inr, ℕ, ap, ◌∙◌, ◌↔◌, ◌∷◌, [], ◌++◌, false, true, some,
  Bytes, codes, length, Lacks,
}
use os_ai_assisted_determini.Libc.Print.{cut_to}
use os_ai_assisted_determini.Util.Directories.{
  FileSystem, made, MkdirResult, failed, mkdir_p, trim_slash, make_path, walk, attempt, is_made,
}
use os_ai_assisted_determini.Util.Directories.Created.{mkdir_p-IsThere, mkdir_p_succeeds}
use os_ai_assisted_determini.Util.Json.{json_escape}
use os_ai_assisted_determini.Util.Json.Literal.{
  read_literal, read_literal-json_escape, IsVisible, json_escape-IsVisible,
}
use os_ai_assisted_determini.Util.Paths.{basename, join_path, join_path_lem, slash}

read_literal-json_escape_example :
    read_literal (json_escape (some (codes "a\"b\n")) ++ codes "}")
    ≡ some (codes "a\"b\n", codes "}")
read_literal-json_escape_example = read_literal-json_escape (codes "a\"b\n") (codes "}")

json_escape-IsVisible_example : IsVisible (json_escape (some (codes "a\n")))
json_escape-IsVisible_example = json_escape-IsVisible (some (codes "a\n"))

join_path_lem_example :
    ((join_path 8 (codes "ab") (codes "cd")).fits ≡ true ↔ 2 + 2 + 2 ≤ 8)
    × ((join_path 8 (codes "ab") (codes "cd")).fits ≡ true
        → (join_path 8 (codes "ab") (codes "cd")).out ≡ codes "ab" ++ (slash ∷ codes "cd"))
    × ((join_path 8 (codes "ab") (codes "cd")).fits ≡ true
        → Lacks slash (codes "cd")
        → basename (join_path 8 (codes "ab") (codes "cd")).out ≡ codes "cd")
    × ((join_path 8 (codes "ab") (codes "cd")).fits ≡ false
        → length (join_path 8 (codes "ab") (codes "cd")).out + 1 ≡ 8)
join_path_lem_example = join_path_lem 8 (codes "ab") (codes "cd") (omega arith)

-- A file system that remembers every path it was asked for, and makes those with a byte in them.
abbrev answer : Bytes → MkdirResult
answer [] = failed
answer (c ∷ p) = made

abbrev pub remembering : FileSystem
remembering = record {
  State = List Bytes;
  mkdir = λ p s. (answer p, p ∷ s);
  IsThere = λ p s. Mem p s;
  made_there = λ p s e. mem-cons_self;
  exists_there = λ p s e. mem-cons_self;
  there_stays = λ p q s h. mem-cons_of_mem p h;
}

abbrev last_code : Bytes → ℕ
last_code [] = 0
last_code (c ∷ []) = c
last_code (c ∷ d ∷ s) = last_code (d ∷ s)

last_ended : (pre : Bytes) → last_code (pre ++ slash ∷ []) ≡ slash
last_ended [] = refl
last_ended (c ∷ []) = refl
last_ended (c ∷ d ∷ pre) = last_ended (d ∷ pre)

unended : (pre : Bytes) → codes "/a/b" ≢ pre ++ slash ∷ []
unended pre e =
    let same : b'b' ≡ slash = ap last_code e ∙ last_ended pre in absurd (omega (arith, same))

mkdir_p-IsThere_example :
    Mem (codes "/a/b") (mkdir_p remembering (some (codes "/a/b/")) []).1
    × ((pre post : Bytes)
        → pre ≢ []
        → codes "/a/b" ≡ pre ++ (slash ∷ post)
        → Mem pre (mkdir_p remembering (some (codes "/a/b/")) []).1)
unfolding mkdir_p make_path walk attempt is_made trim_slash cut_to
mkdir_p-IsThere_example =
    mkdir_p-IsThere remembering (codes "/a/b/") (codes "/a/b") [] (inr refl) unended (omega arith)
      refl

never_fails : (p : Bytes) (t : List Bytes) → p ≢ [] → answer p ≢ failed
never_fails [] t ne = absurd (ne refl)
never_fails (c ∷ p) t ne = cc

mkdir_p_succeeds_example : (mkdir_p remembering (some (codes "/a/b/")) []).0 ≡ true
unfolding trim_slash cut_to
mkdir_p_succeeds_example =
    mkdir_p_succeeds remembering (codes "/a/b/") [] never_fails (concat-ne-nil b'b' (codes "/a/"))
