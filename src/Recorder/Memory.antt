-- ===== src/Recorder/Memory.antt =====
-- recorder/ptrace_recorder.c: `read_child_mem`.
use Prim.Native.Nat.{min}
use os_ai_assisted_determini.Base.{
  ℕ, zero, suc, ◌+◌, ◌-◌, ◌%◌, ◌^◌, ◌≤◌, ◌<◌, ◌≡◌, refl, ap, ◌∙◌, inl, inr, false, Option, none,
  some, [], ◌++◌, arith, ltb, ◌==◌, if◌then◌else◌, Bool-cases, Option-cases, Bytes, length, get_or,
  take, length-append, length-take, ltb→lt,
}
use os_ai_assisted_determini.Base.Index.{get_or-take, get_or-append_left, get_or-append_right}
use os_ai_assisted_determini.Child.{ChildMemory}

module _ (child : ChildMemory) where
  open child use {State, byte_at, peek, vm_read, word_size, peek_reads, vm_read_size, vm_read_reads}

  -- The loop from `addr + copied`, with `left` bytes to copy and at most so many rounds: what it
  -- copies from here on. It ends where `PTRACE_PEEKDATA` fails.
  unfoldable pub read_words : ℕ → ℕ → ℕ → State → Bytes
  read_words zero addr left s = []
  read_words (suc rounds) addr left s = if left == 0 then [] else elim (peek s addr) [
    | none ↦ []
    | some word ↦ take (min 8 left) word ++ read_words rounds ((addr + 8) % 2 ^ 64) (left - 8) s
  ]

  -- The bytes of the buffer that are counted by the result; `none` is the -1.
  unfoldable pub read_child_mem : ℕ → ℕ → State → Option Bytes
  unfolding read_words
  read_child_mem addr len s = elim (vm_read s addr len) [
    | some bytes ↦ some bytes
    | none ↦
        let copied = read_words len addr len s in if length copied == 0 then none else some copied
  ]

  -- A text that stands in the memory from an address on.
  abbrev pub StandsAt : State → ℕ → Bytes → Type 0
  StandsAt s addr bytes = (i : ℕ) → i < length bytes → get_or bytes i 0 ≡ byte_at s (addr + i)

  StandsAt-append :
      (s : State) (addr : ℕ) (xs ys : Bytes)
      → StandsAt s addr xs
      → StandsAt s (addr + length xs) ys
      → StandsAt s addr (xs ++ ys)
  StandsAt-append s addr xs ys hx hy i below = elim (Bool-cases (ltb i (length xs))) [
    | inl front ↦ let h = ltb→lt i (length xs) front in get_or-append_left xs ys i h ∙ hx i h
    | inr back ↦
        let h : length xs ≤ i = ground arith in
        let place : addr + length xs + (i - length xs) ≡ addr + i = omega arith in
        get_or-append_right xs ys i h
        ∙ hy (i - length xs) (omega (arith, length-append xs ys))
        ∙ ap (byte_at s) place
  ]

  read_words_lem :
      (rounds addr left : ℕ) (s : State)
      → (0 < left → addr + left + 8 ≤ 2 ^ 64)
      → (length (read_words rounds addr left s) ≤ left)
        × StandsAt s addr (read_words rounds addr left s)
  unfolding read_words
  read_words_lem zero addr left s room = (omega arith, λ i h. omega arith)
  read_words_lem (suc rounds) addr left s room = elim (Bool-cases (left == 0)) [
    | inl done ↦ rw (read_words, done) (omega arith, λ i h. omega arith)
    | inr more ↦ elim (Option-cases (peek s addr)) [
      | inl failed ↦ rw (read_words, more, failed) (omega arith, λ i h. omega arith)
      | inr (word, got) ↦
          let some_left : 0 < left = ground arith in
          let high = room some_left in
          let next : (addr + 8) % 2 ^ 64 ≡ addr + 8 = omega arith in
          let size = word_size s addr word got in
          let front_size = length-take (min 8 left) word in
          let (le, stands) = read_words_lem rounds (addr + 8) (left - 8) s (λ h. omega arith) in
          rw (read_words, more, got, next)
            (
              omega (
                arith,
                length-append (take (min 8 left) word) (read_words rounds (addr + 8) (left - 8) s),
              ),
              StandsAt-append s addr (take (min 8 left) word)
                  (read_words rounds (addr + 8) (left - 8) s)
                  (λ i h.
                    get_or-take (min 8 left) i word (omega (arith, front_size))
                    ∙ peek_reads s addr i word got (omega (arith, front_size)))
                  (λ i h. stands i h ∙ ap (byte_at s) (omega (arith, front_size, le))),
            )
    ]
  ]

  read_words_whole :
      (s : State)
      → ((a : ℕ) → (w : Bytes) × (peek s a ≡ some w))
      → (rounds addr left : ℕ) → left ≤ rounds
      → length (read_words rounds addr left s) ≡ left
  unfolding read_words
  read_words_whole s peeks zero addr left enough = omega arith
  read_words_whole s peeks (suc rounds) addr left enough = elim (Bool-cases (left == 0)) [
    | inl done ↦ rw (read_words, done) (ground arith)
    | inr more ↦
        let (word, got) = peeks addr in
        let some_left : 0 < left = ground arith in
        let rest = read_words rounds ((addr + 8) % 2 ^ 64) (left - 8) s in
        let whole =
          read_words_whole s peeks rounds ((addr + 8) % 2 ^ 64) (left - 8) (omega arith) in
        rw (read_words, more, got)
          (omega (
            arith,
            whole,
            length-append (take (min 8 left) word) rest,
            length-take (min 8 left) word,
            word_size s addr word got,
          ))
  ]

  -- What `read_child_mem` has copied, by `process_vm_readv` or by the words of `ptrace`, is not more
  -- than was asked for, and stands in the child's memory from the address on. The range ends at
  -- least eight bytes below the end of the address space.
  pub read_child_mem_lem :
      (s : State) (addr len : ℕ) (bytes : Bytes)
      → addr + len + 8 ≤ 2 ^ 64
      → read_child_mem addr len s ≡ some bytes
      → (length bytes ≤ len) × StandsAt s addr bytes
  unfolding read_child_mem
  read_child_mem_lem s addr len bytes room h = elim (Option-cases (vm_read s addr len)) [
    | inr (got, e) ↦
        let there : vm_read s addr len ≡ some bytes = ground arith in
        (
          vm_read_size s addr len bytes there,
          λ i below. vm_read_reads s addr len i bytes there below,
        )
    | inl failed ↦
        let same : read_words len addr len s ≡ bytes = ground arith in
        rw (← same) (read_words_lem len addr len s (λ some_left. room))
  ]

  -- Where `process_vm_readv` fails, no `PTRACE_PEEKDATA` does, and there is a byte to copy, all of
  -- them are copied.
  pub read_child_mem_whole :
      (s : State) (addr len : ℕ)
      → vm_read s addr len ≡ none
      → 0 < len
      → ((a : ℕ) → (w : Bytes) × (peek s a ≡ some w))
      → (bytes : Bytes) × (read_child_mem addr len s ≡ some bytes) × (length bytes ≡ len)
  unfolding read_child_mem
  read_child_mem_whole s addr len failed some_bytes peeks =
      let whole = read_words_whole s peeks len addr len (omega arith) in
      let counted : (length (read_words len addr len s) == 0) ≡ false = ground arith in
      (read_words len addr len s, rw (read_child_mem, failed, counted) refl, whole)
