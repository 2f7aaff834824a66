-- ===== src/Replayer/Memory.antt =====
-- replayer/ptrace_replayer.c: `write_child_mem`.
pub mod Written
pub mod Copied
use os_ai_assisted_determini.Base.{
  ℕ, zero, suc, ◌+◌, ◌%◌, ◌^◌, Option, none, some, ◌++◌, ltb, ◌==◌, if◌then◌else◌, Bytes, length,
  take, drop,
}
use Prim.Native.Nat.{min}
use os_ai_assisted_determini.Child.{ChildMemory}

module _ (child : ChildMemory) where
  open child use {State, byte_at, peek, poke, vm_write, peek_reads, poke_writes}

  -- The word of a round: the last one keeps the child's bytes behind the buffer.
  unfoldable pub word_of : ℕ → Bytes → State → Option Bytes
  word_of addr rest s =
      if ltb (length rest) 8
      then elim (peek s addr) [ none ↦ none | some old ↦ some (rest ++ drop (length rest) old) ]
      else some (take 8 rest)

  -- The loop from `addr + copied`, with `rest` of the buffer to copy and at most so many rounds: the
  -- bytes copied from here on. It ends where a request fails.
  unfoldable pub write_words : ℕ → ℕ → Bytes → State → ℕ × State
  unfolding word_of
  write_words zero addr rest s = (0, s)
  write_words (suc rounds) addr rest s =
      if length rest == 0 then (0, s) else elim (word_of addr rest s) [
        | none ↦ (0, s)
        | some word ↦ elim (poke s addr word) [
          | none ↦ (0, s)
          | some s' ↦
              let next = write_words rounds ((addr + 8) % 2 ^ 64) (drop 8 rest) s' in
              (min 8 (length rest) + next.0, next.1)
        ]
      ]

  -- `none` is the -1.
  unfoldable pub write_child_mem : ℕ → Bytes → State → Option ℕ × State
  unfolding write_words
  write_child_mem addr buf s = elim (vm_write s addr buf) [
    | some written ↦ (some written.0, written.1)
    | none ↦
        let copied = write_words (length buf) addr buf s in
        (if copied.0 == 0 then none else some copied.0, copied.1)
  ]
