-- ===== src/Util/Directories/Created.antt =====
-- What `adr_mkdir_p` leaves in the file system.
use mathlib.Core.List.{concat-ne-nil}
use os_ai_assisted_determini.Base.{
  ℕ, ◌≡◌, refl, ap, ◌≢◌, ◌⊎◌, inl, inr, Bool, true, false, some, [], ◌∷◌, ◌++◌, append-nil,
  append_assoc, arith, ◌==◌, Bool-cases, Bytes, get_or, drop, ◌∙◌, ◌<◌, length,
}
use os_ai_assisted_determini.Libc.Print.{cut_to, cut_to_fits}
use os_ai_assisted_determini.Util.Paths.{slash}
use os_ai_assisted_determini.Util.Directories.{
  MkdirResult, made, exists, failed, FileSystem, path_max, trim_slash, is_made, attempt, walk,
  make_path, mkdir_p,
}

trim_slash-unended :
    (dir : Bytes) → ((pre : Bytes) → dir ≢ pre ++ slash ∷ []) → trim_slash dir ≡ dir
unfolding trim_slash
trim_slash-unended [] plain = refl
trim_slash-unended (c ∷ []) plain = elim (Bool-cases (c == slash)) [
  | inl e ↦ let same : c ≡ slash = ground arith in absurd (plain [] (ap (λ d. d ∷ []) same))
  | inr e ↦ rw e refl
]
trim_slash-unended (c ∷ d ∷ dir) plain =
    ap (λ l. c ∷ l) (trim_slash-unended (d ∷ dir) (λ pre e. plain (c ∷ pre) (ap (λ l. c ∷ l) e)))

trim_slash-ended : (dir : Bytes) → trim_slash (dir ++ slash ∷ []) ≡ dir
unfolding trim_slash
trim_slash-ended [] = refl
trim_slash-ended (c ∷ []) = refl
trim_slash-ended (c ∷ d ∷ dir) = ap (λ l. c ∷ l) (trim_slash-ended (d ∷ dir))

trimmed :
    (path dir : Bytes)
    → (path ≡ dir) ⊎ (path ≡ dir ++ slash ∷ [])
    → ((pre : Bytes) → dir ≢ pre ++ slash ∷ [])
    → trim_slash path ≡ dir
trimmed path dir (inl e) plain = ap trim_slash e ∙ trim_slash-unended dir plain
trimmed path dir (inr e) plain = ap trim_slash e ∙ trim_slash-ended dir

MkdirResult-cases : (r : MkdirResult) → ((r ≡ made) ⊎ (r ≡ exists)) ⊎ (r ≡ failed)
MkdirResult-cases made = inl (inl refl)
MkdirResult-cases exists = inl (inr refl)
MkdirResult-cases failed = inr refl

module _ (fs : FileSystem) where
  open fs use {State, mkdir, IsThere, made_there, exists_there, there_stays}

  attempt-IsThere :
      (p : Bytes) (s : State) → (attempt fs p s).0 ≡ true → IsThere p (attempt fs p s).1
  unfolding attempt is_made
  attempt-IsThere p s h = elim (MkdirResult-cases (mkdir p s).0) [
    | inl (inl e) ↦ made_there p s e
    | inl (inr e) ↦ exists_there p s e
    | inr e ↦ cc (ap is_made e, h)
  ]

  attempt_stays : (p q : Bytes) (s : State) → IsThere q s → IsThere q (attempt fs p s).1
  unfolding attempt
  attempt_stays p q s h = there_stays p q s h

  module _ (before rest : Bytes) (c : ℕ) (s : State) where
    walk_good :
        (c == slash) ≡ true
        → (attempt fs before s).0 ≡ true
        → walk fs before (c ∷ rest) s ≡ walk fs (before ++ c ∷ []) rest (attempt fs before s).1
    unfolding walk
    walk_good e good = rw (walk, e, good)

    walk_bad :
        (c == slash) ≡ true
        → (attempt fs before s).0 ≡ false
        → walk fs before (c ∷ rest) s ≡ (false, (attempt fs before s).1)
    unfolding walk
    walk_bad e bad = rw (walk, e, bad)

    walk_inside :
        (c == slash) ≡ false → walk fs before (c ∷ rest) s ≡ walk fs (before ++ c ∷ []) rest s
    unfolding walk
    walk_inside e = rw (walk, e)

  walk_stays :
      (before rest q : Bytes) (s : State) → IsThere q s → IsThere q (walk fs before rest s).1
  walk_stays before [] q s h = unfold walk in attempt_stays before q s h
  walk_stays before (c ∷ rest) q s h = elim (Bool-cases (c == slash)) [
    | inl e ↦ elim (Bool-cases (attempt fs before s).0) [
      | inl good ↦ rw (walk_good before rest c s e good) (
          walk_stays (before ++ c ∷ []) rest q (attempt fs before s).1 (attempt_stays before q s h))
      | inr bad ↦ rw (walk_bad before rest c s e bad) (attempt_stays before q s h)
    ]
    | inr e ↦ rw (walk_inside before rest c s e) (walk_stays (before ++ c ∷ []) rest q s h)
  ]

  -- The whole path, and what ends at a slash of `rest`.
  abbrev AllThere : Bytes → Bytes → State → Type 0
  AllThere before rest s =
      IsThere (before ++ rest) s
      × ((pre post : Bytes) → rest ≡ pre ++ (slash ∷ post) → IsThere (before ++ pre) s)

  -- One byte further, once the path up to here is there if the byte is a slash.
  AllThere-cons :
      (before rest : Bytes) (c : ℕ) (s : State)
      → (c ≡ slash → IsThere before s)
      → AllThere (before ++ c ∷ []) rest s
      → AllThere before (c ∷ rest) s
  AllThere-cons before rest c s at_slash (whole, inner) = (rw append_assoc at whole, earlier)
    where
      earlier : (pre post : Bytes) → c ∷ rest ≡ pre ++ (slash ∷ post) → IsThere (before ++ pre) s
      earlier [] post e = rw append-nil (at_slash (ap (λ l. get_or l 0 0) e))
      earlier (d ∷ pre) post e =
          let same : c ≡ d = ap (λ l. get_or l 0 0) e in
          rw (← same) (rw append_assoc at (inner pre post (ap (λ l. drop 1 l) e)))

  walk-AllThere :
      (before rest : Bytes) (s : State)
      → (walk fs before rest s).0 ≡ true
      → AllThere before rest (walk fs before rest s).1
  walk-AllThere before [] s h =
      (rw append-nil (unfold walk in attempt-IsThere before s h), none_left)
    where
      none_left :
          (pre post : Bytes)
          → [] ≡ pre ++ (slash ∷ post)
          → IsThere (before ++ pre) (walk fs before [] s).1
      none_left [] post e = cc
      none_left (d ∷ pre) post e = cc
  walk-AllThere before (c ∷ rest) s h = elim (Bool-cases (c == slash)) [
    | inl e ↦ elim (Bool-cases (attempt fs before s).0) [
      | inl good ↦ rw (walk_good before rest c s e good) (
          AllThere-cons before rest c _
            (λ _.
              walk_stays (before ++ c ∷ []) rest before (attempt fs before s).1
                (attempt-IsThere before s good))
            (walk-AllThere (before ++ c ∷ []) rest (attempt fs before s).1
              (rw (walk_good before rest c s e good) at h)))
      | inr bad ↦ cc (ap (λ (r : Bool × State). r.0) (walk_bad before rest c s e bad), h)
    ]
    | inr e ↦ rw (walk_inside before rest c s e) (
        AllThere-cons before rest c _ (λ same. absurd (ground arith))
          (walk-AllThere (before ++ c ∷ []) rest s (rw (walk_inside before rest c s e) at h)))
  ]

  walk_succeeds :
      ((p : Bytes) (t : State) → p ≢ [] → (attempt fs p t).0 ≡ true)
      → (before rest : Bytes) (s : State) → before ≢ []
      → (walk fs before rest s).0 ≡ true
  walk_succeeds all before [] s ne = unfold walk in all before s ne
  walk_succeeds all before (c ∷ rest) s ne =
      let longer : before ++ c ∷ [] ≢ [] = concat-ne-nil c before in
      elim (Bool-cases (c == slash)) [
        | inl e ↦
            rw (walk_good before rest c s e (all before s ne))
              (walk_succeeds all (before ++ c ∷ []) rest (attempt fs before s).1 longer)
        | inr e ↦
            rw (walk_inside before rest c s e) (walk_succeeds all (before ++ c ∷ []) rest s longer)
      ]

  make_path-IsThere :
      (tmp : Bytes) (s : State)
      → (make_path fs tmp s).0 ≡ true
      → IsThere tmp (make_path fs tmp s).1
        × ((pre post : Bytes)
            → pre ≢ []
            → tmp ≡ pre ++ (slash ∷ post)
            → IsThere pre (make_path fs tmp s).1)
  unfolding make_path
  make_path-IsThere [] s h = (attempt-IsThere [] s h, none_left)
    where
      none_left :
          (pre post : Bytes)
          → pre ≢ []
          → [] ≡ pre ++ (slash ∷ post)
          → IsThere pre (make_path fs [] s).1
      none_left [] post ne e = cc
      none_left (d ∷ pre) post ne e = cc
  make_path-IsThere (c ∷ rest) s h = (there.0, earlier)
    where
      there : AllThere (c ∷ []) rest (walk fs (c ∷ []) rest s).1
      there = walk-AllThere (c ∷ []) rest s h

      earlier :
          (pre post : Bytes)
          → pre ≢ []
          → c ∷ rest ≡ pre ++ (slash ∷ post)
          → IsThere pre (make_path fs (c ∷ rest) s).1
      earlier [] post ne e = absurd (ne refl)
      earlier (d ∷ pre) post ne e =
          let same : c ≡ d = ap (λ l. get_or l 0 0) e in
          rw (← same) (there.1 pre post (ap (λ l. drop 1 l) e))

  attempt_succeeds : (p : Bytes) (s : State) → (mkdir p s).0 ≢ failed → (attempt fs p s).0 ≡ true
  unfolding attempt is_made
  attempt_succeeds p s h = ground arith

  make_path_succeeds :
      (tmp : Bytes) (s : State)
      → ((p : Bytes) (t : State) → p ≢ [] → (mkdir p t).0 ≢ failed)
      → tmp ≢ []
      → (make_path fs tmp s).0 ≡ true
  unfolding make_path
  make_path_succeeds [] s never ne = absurd (ne refl)
  make_path_succeeds (c ∷ rest) s never ne =
      walk_succeeds (λ p t h. attempt_succeeds p t (never p t h)) (c ∷ []) rest s
        (concat-ne-nil c [])

  tmp-IsThere :
      (path : Bytes) (s : State)
      → (mkdir_p fs (some path) s).0 ≡ true
      → IsThere (trim_slash (cut_to path_max path)) (mkdir_p fs (some path) s).1
        × ((pre post : Bytes)
            → pre ≢ []
            → trim_slash (cut_to path_max path) ≡ pre ++ (slash ∷ post)
            → IsThere pre (mkdir_p fs (some path) s).1)
  unfolding mkdir_p
  tmp-IsThere [] s h = cc
  tmp-IsThere (c ∷ path) s h = make_path-IsThere (trim_slash (cut_to path_max (c ∷ path))) s h

  -- When `adr_mkdir_p` returns 0 for a path shorter than `PATH_MAX`, which is `dir` or `dir` and a slash
  -- where `dir` does not end in a slash, then something of the name `dir` is there, and something of
  -- each name that ends at an inner slash of `dir`. That each of them is a directory is not said: `mkdir`
  -- answers EEXIST for a regular file too.
  pub mkdir_p-IsThere :
      (path dir : Bytes) (s : State)
      → (path ≡ dir) ⊎ (path ≡ dir ++ slash ∷ [])
      → ((pre : Bytes) → dir ≢ pre ++ slash ∷ [])
      → length path < path_max
      → (mkdir_p fs (some path) s).0 ≡ true
      → IsThere dir (mkdir_p fs (some path) s).1
        × ((pre post : Bytes)
            → pre ≢ []
            → dir ≡ pre ++ (slash ∷ post)
            → IsThere pre (mkdir_p fs (some path) s).1)
  mkdir_p-IsThere path dir s named plain short h =
      let tmp : trim_slash (cut_to path_max path) ≡ dir =
        ap trim_slash (cut_to_fits path_max path short) ∙ trimmed path dir named plain in
      rw tmp at (tmp-IsThere path s h)

  -- When no `mkdir` of a path with a byte in it fails but by EEXIST, `adr_mkdir_p` returns 0 for
  -- every path that has a byte left after the removal of one final slash.
  pub mkdir_p_succeeds :
      (path : Bytes) (s : State)
      → ((p : Bytes) (t : State) → p ≢ [] → (mkdir p t).0 ≢ failed)
      → trim_slash (cut_to path_max path) ≢ []
      → (mkdir_p fs (some path) s).0 ≡ true
  unfolding mkdir_p
  mkdir_p_succeeds [] s never ne = absurd (ne (unfold trim_slash cut_to in refl))
  mkdir_p_succeeds (c ∷ path) s never ne =
      make_path_succeeds (trim_slash (cut_to path_max (c ∷ path))) s never ne
