-- ===== src/Util/Directories.antt =====
-- src/common/util.c: `adr_mkdir_p`. The system call `mkdir` and the file system that it changes are
-- parameters; `tmp` is the list of its bytes up to the terminator.
pub mod Created
use os_ai_assisted_determini.Base.{
  ℕ, ◌+◌, ◌≡◌, Bool, true, false, Option, none, some, [], ◌∷◌, ◌++◌, ◌==◌, if◌then◌else◌, Bytes,
}
use os_ai_assisted_determini.Libc.Print.{cut_to}
use os_ai_assisted_determini.Util.Paths.{slash}

-- `mkdir` returns 0, or -1 with `errno` at EEXIST or at another value.
pub data MkdirResult : Type 0 where
  made exists failed : MkdirResult

-- What the code relies on: `IsThere` says that something has this name. After 0 it is the new directory;
-- EEXIST says only that the name is taken, by a directory, a regular file or a symbolic link, a dangling
-- one too. A name that is taken stays taken.
pub record FileSystem : Type 1 where
  pub State : Type 0
  pub mkdir : Bytes → State → MkdirResult × State
  pub IsThere : Bytes → State → Type 0
  pub made_there : (p : Bytes) (s : State) → (mkdir p s).0 ≡ made → IsThere p (mkdir p s).1
  pub exists_there : (p : Bytes) (s : State) → (mkdir p s).0 ≡ exists → IsThere p (mkdir p s).1
  pub there_stays : (p q : Bytes) (s : State) → IsThere q s → IsThere q (mkdir p s).1

abbrev pub path_max : ℕ
path_max = 4096

-- `if (tmp[len - 1] == '/') tmp[len - 1] = '\0';`
unfoldable pub trim_slash : Bytes → Bytes
trim_slash [] = []
trim_slash (c ∷ []) = if c == slash then [] else c ∷ []
trim_slash (c ∷ d ∷ s) = c ∷ trim_slash (d ∷ s)

unfoldable pub is_made : MkdirResult → Bool
is_made made = true
is_made exists = true
is_made failed = false

module _ (fs : FileSystem) where
  open fs use {State, mkdir, IsThere, made_there, exists_there, there_stays}

  -- `mkdir(tmp, 0775) != 0 && errno != EEXIST` is the negation of the result.
  unfoldable pub attempt : Bytes → State → Bool × State
  unfolding is_made
  attempt p s = let (r, s') = mkdir p s in (is_made r, s')

  -- The loop at `p`, with `before` the bytes of `tmp` below `p`, and the `mkdir` behind it. The
  -- result 0 is `true`.
  unfoldable pub walk : Bytes → Bytes → State → Bool × State
  walk before [] s = attempt before s
  walk before (c ∷ rest) s = elim (c == slash) [
    | true ↦ elim (attempt before s).0 [
      | true ↦ walk (before ++ c ∷ []) rest (attempt before s).1
      | false ↦ (false, (attempt before s).1)
    ]
    | false ↦ walk (before ++ c ∷ []) rest s
  ]

  -- The loop starts behind the first byte. Where the trim has emptied `tmp`, the byte behind its
  -- terminator is the old terminator, so the loop makes no round.
  unfoldable pub make_path : Bytes → State → Bool × State
  make_path [] s = attempt [] s
  make_path (c ∷ rest) s = walk (c ∷ []) rest s

  unfoldable pub mkdir_p : Option Bytes → State → Bool × State
  mkdir_p none s = (false, s)
  mkdir_p (some []) s = (false, s)
  mkdir_p (some (c ∷ path)) s = make_path (trim_slash (cut_to path_max (c ∷ path))) s
