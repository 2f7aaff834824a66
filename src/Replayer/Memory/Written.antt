-- ===== src/Replayer/Memory/Written.antt =====
-- What `write_child_mem` leaves in the memory of the child.
use Prim.Native.Nat.{min}
use os_ai_assisted_determini.Base.{
  ltb→lt, ℕ, zero, suc, ◌+◌, ◌-◌, ◌%◌, ◌^◌, ◌≤◌, ◌<◌, ◌≡◌, refl, ap, ◌∙◌, inl, inr, false, ◌&&◌,
  none, some, ◌++◌, arith, ltb, leb, ◌==◌, if◌then◌else◌, Bool-cases, Option-cases, Bytes, length,
  get_or, take, drop, length-drop,
}
use os_ai_assisted_determini.Base.Index.{
  get_or-take, get_or-drop, get_or-append_left, get_or-append_drop,
}
use os_ai_assisted_determini.Child.{ChildMemory}
use os_ai_assisted_determini.Replayer.Memory.{word_of, write_words, write_child_mem}

module _ (child : ChildMemory) where
  open child use {State, byte_at, peek, poke, vm_write, peek_reads, poke_writes}

  -- The byte at `a` once `n` bytes of `buf` stand at `addr`.
  abbrev pub with_bytes : ℕ → Bytes → ℕ → State → ℕ → ℕ
  with_bytes addr buf n s a =
      if leb addr a && ltb a (addr + n) then get_or buf (a - addr) 0 else byte_at s a

  -- A word holds the next bytes of the buffer, and behind them those of the child.
  word_of_lem :
      (addr i : ℕ) (rest word : Bytes) (s : State)
      → word_of child addr rest s ≡ some word
      → i < 8
      → get_or word i 0 ≡ (if ltb i (length rest) then get_or rest i 0 else byte_at s (addr + i))
  unfolding word_of
  word_of_lem addr i rest word s h below = elim (Bool-cases (ltb (length rest) 8)) [
    | inr long ↦ ground (arith, get_or-take 8 i rest below)
    | inl short ↦ elim (Option-cases (peek s addr)) [
      | inl failed ↦ ground arith
      | inr (old, got) ↦ elim (Bool-cases (ltb i (length rest))) [
        | inl inside ↦ ground (
          arith,
          get_or-append_left rest (drop (length rest) old) i (ltb→lt i (length rest) inside),
        )
        | inr behind ↦
            ground (
              arith,
              get_or-append_drop rest old i (ground arith),
              peek_reads s addr i old got below,
            )
      ]
    ]
  ]

  -- Nothing was written.
  unwritten :
      (addr : ℕ) (rest : Bytes) (s : State) (a : ℕ) → byte_at s a ≡ with_bytes addr rest 0 s a
  unwritten addr rest s a = ground arith

  -- A word, and then what the later rounds write.
  one_more :
      (addr n : ℕ) (rest word : Bytes) (s s' : State) (a : ℕ)
      → word_of child addr rest s ≡ some word
      → poke s addr word ≡ some s'
      → n ≤ length (drop 8 rest)
      → with_bytes (addr + 8) (drop 8 rest) n s' a
        ≡ with_bytes addr rest (min 8 (length rest) + n) s a
  one_more addr n rest word s s' a made poked le =
      let p = poke_writes s s' addr a word poked in
      let l = length-drop 8 rest in
      elim (Bool-cases (leb addr a && ltb a (addr + 8))) [
        | inl inside ↦
            let below : a - addr < 8 = ground arith in
            let back : addr + (a - addr) ≡ a = ground arith in
            let w = word_of_lem addr (a - addr) rest word s made below in
            let same : byte_at s (addr + (a - addr)) ≡ byte_at s a = ap (byte_at s) back in
            ground (arith, p, l, w, same)
        | inr outside ↦ elim (Bool-cases (ltb a addr)) [
          | inl before ↦ ground (arith, p, l)
          | inr behind ↦
              let far : 8 ≤ a - addr = ground arith in
              let place : a - (addr + 8) ≡ a - addr - 8 = omega arith in
              let d = get_or-drop 8 (a - addr) rest far in
              let same : get_or (drop 8 rest) (a - (addr + 8)) 0 ≡ get_or rest (a - addr) 0 =
                ap (λ j. get_or (drop 8 rest) j 0) place ∙ d in
              ground (arith, p, l, same)
        ]
      ]

  write_words_lem :
      (rounds addr : ℕ) (rest : Bytes) (s : State)
      → length rest ≤ rounds
      → (0 < length rest → addr + length rest + 8 ≤ 2 ^ 64)
      → ((write_words child rounds addr rest s).0 ≤ length rest)
        × ((a : ℕ)
            → byte_at (write_words child rounds addr rest s).1 a
              ≡ with_bytes addr rest (write_words child rounds addr rest s).0 s a)
  unfolding write_words
  write_words_lem zero addr rest s enough room = (omega arith, unwritten addr rest s)
  write_words_lem (suc rounds) addr rest s enough room = elim (Bool-cases (length rest == 0)) [
    | inl done ↦ rw (write_words, done) (omega arith, unwritten addr rest s)
    | inr more ↦ elim (Option-cases (word_of child addr rest s)) [
      | inl failed ↦ rw (write_words, more, failed) (omega arith, unwritten addr rest s)
      | inr (word, made) ↦ elim (Option-cases (poke s addr word)) [
        | inl failed ↦ rw (write_words, more, made, failed) (omega arith, unwritten addr rest s)
        | inr (s', poked) ↦
            let some_left : 0 < length rest = ground arith in
            let high = room some_left in
            let l = length-drop 8 rest in
            let next : (addr + 8) % 2 ^ 64 ≡ addr + 8 = omega arith in
            let (le, bytes) =
              write_words_lem rounds (addr + 8) (drop 8 rest) s' (omega arith) (λ h. omega arith) in
            rw (write_words, more, made, poked, next)
              (omega arith, λ a. bytes a ∙ one_more addr _ rest word s s' a made poked le)
      ]
    ]
  ]

  word_of_made :
      ((t : State) (a : ℕ) → (w : Bytes) × (peek t a ≡ some w))
      → (addr : ℕ) (rest : Bytes) (s : State) → (w : Bytes) × (word_of child addr rest s ≡ some w)
  unfolding word_of
  word_of_made peeks addr rest s = elim (Bool-cases (ltb (length rest) 8)) [
    | inr long ↦ (take 8 rest, rw long refl)
    | inl short ↦
        let (old, got) = peeks s addr in (rest ++ drop (length rest) old, rw (short, got) refl)
  ]

  write_words_whole :
      ((t : State) (a : ℕ) → (w : Bytes) × (peek t a ≡ some w))
      → ((t : State) (a : ℕ) (w : Bytes) → (t' : State) × (poke t a w ≡ some t'))
      → (rounds addr : ℕ) (rest : Bytes) (s : State) → length rest ≤ rounds
      → (write_words child rounds addr rest s).0 ≡ length rest
  unfolding write_words
  write_words_whole peeks pokes zero addr rest s enough = omega arith
  write_words_whole peeks pokes (suc rounds) addr rest s enough =
      elim (Bool-cases (length rest == 0)) [
        | inl done ↦ rw (write_words, done) (ground arith)
        | inr more ↦
            let (word, made) = word_of_made peeks addr rest s in
            let (s', poked) = pokes s addr word in
            let l = length-drop 8 rest in
            let some_left : 0 < length rest = ground arith in
            let whole =
              write_words_whole peeks pokes rounds ((addr + 8) % 2 ^ 64) (drop 8 rest) s'
                (omega arith) in
            rw (write_words, more, made, poked) (omega (arith, whole, l))
      ]

  -- Where `process_vm_writev` fails, and the buffer ends at least eight bytes below the end of the
  -- address space: the result is a number n of bytes, or -1 for none of them. The child's memory
  -- then holds the first n bytes of the buffer at the address, and every other byte is as before,
  -- wherever `ptrace` has failed.
  pub write_child_mem_lem :
      (addr : ℕ) (buf : Bytes) (s : State)
      → addr + length buf + 8 ≤ 2 ^ 64
      → vm_write s addr buf ≡ none
      → (n : ℕ) × (n ≤ length buf)
        × ((write_child_mem child addr buf s).0 ≡ (if n == 0 then none else some n))
        × ((a : ℕ) → byte_at (write_child_mem child addr buf s).1 a ≡ with_bytes addr buf n s a)
  unfolding write_child_mem
  write_child_mem_lem addr buf s room failed =
      let (le, bytes) = write_words_lem (length buf) addr buf s (omega arith) (λ h. room) in
      rw (write_child_mem, failed) ((write_words child (length buf) addr buf s).0, le, refl, bytes)

  -- If in that case no request of `ptrace` fails, and there is a byte to write, the result is the
  -- size of the buffer, and all of the buffer stands in the child's memory at the address, and
  -- every other byte is as before.
  pub write_child_mem_whole :
      (addr : ℕ) (buf : Bytes) (s : State)
      → addr + length buf + 8 ≤ 2 ^ 64
      → vm_write s addr buf ≡ none
      → 0 < length buf
      → ((t : State) (a : ℕ) → (w : Bytes) × (peek t a ≡ some w))
      → ((t : State) (a : ℕ) (w : Bytes) → (t' : State) × (poke t a w ≡ some t'))
      → ((write_child_mem child addr buf s).0 ≡ some (length buf))
        × ((a : ℕ)
            → byte_at (write_child_mem child addr buf s).1 a ≡ with_bytes addr buf (length buf) s a)
  unfolding write_child_mem
  write_child_mem_whole addr buf s room failed some_bytes peeks pokes =
      let whole = write_words_whole peeks pokes (length buf) addr buf s (omega arith) in
      let (le, bytes) = write_words_lem (length buf) addr buf s (omega arith) (λ h. room) in
      let counted : (length buf == 0) ≡ false = ground arith in
      rw (write_child_mem, failed, whole, counted)
        (refl, λ a. bytes a ∙ ap (λ n. with_bytes addr buf n s a) whole)
