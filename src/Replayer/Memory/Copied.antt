-- ===== src/Replayer/Memory/Copied.antt =====
-- From the memory of the recorded child, by `read_child_mem` of the recorder and `write_child_mem`
-- of the replayer, into the memory of the replayed child.
use os_ai_assisted_determini.Base.{
  ℕ, ◌+◌, ◌-◌, ◌^◌, ◌≤◌, ◌<◌, ◌≡◌, refl, ◌∙◌, ◌&&◌, inl, inr, true, false, some, arith, ltb, leb,
  Option-cases, Bytes, length,
}
use os_ai_assisted_determini.Child.{ChildMemory}
use os_ai_assisted_determini.Recorder.Memory.{read_child_mem, read_child_mem_lem}
use os_ai_assisted_determini.Replayer.Memory.{write_child_mem}
use os_ai_assisted_determini.Replayer.Memory.Written.{with_bytes, write_child_mem_lem}

module _ (child : ChildMemory) where
  open child use {State, byte_at, vm_write, vm_write_size, vm_write_writes}

  -- Both ways of writing put a front of the buffer at the address.
  pub write_child_mem-with_bytes :
      (addr n : ℕ) (buf : Bytes) (s : State)
      → addr + length buf + 8 ≤ 2 ^ 64
      → (write_child_mem child addr buf s).0 ≡ some n
      → (a : ℕ) → byte_at (write_child_mem child addr buf s).1 a ≡ with_bytes child addr buf n s a
  unfolding write_child_mem
  write_child_mem-with_bytes addr n buf s room h a = elim (Option-cases (vm_write s addr buf)) [
    | inr ((m, s'), e) ↦
        let same : m ≡ n = ground arith in
        rw (write_child_mem, e, ← same) (vm_write_writes s s' addr m a buf e)
    | inl failed ↦
        let (m, le, result, bytes) = write_child_mem_lem child addr buf s room failed in
        let same : m ≡ n = ground arith in rw (← same) (bytes a)
  ]

module _ (recorded replayed : ChildMemory) where
  -- The recorder reads `len` bytes of the recorded child at `from`, and the replayer, for the same
  -- call, writes them into the replayed child at `to`, each by the one or the other way. If each
  -- says that it has copied `len` bytes, then the replayed child has at `to` what the recorded child
  -- had at `from`, byte by byte, and every other byte of the replayed child is as it was. Both ranges
  -- end at least eight bytes below the end of the address space.
  pub write_child_mem-read_child_mem :
      (from to len : ℕ) (bytes : Bytes) (s : recorded.State) (t : replayed.State)
      → from + len + 8 ≤ 2 ^ 64
      → to + len + 8 ≤ 2 ^ 64
      → read_child_mem recorded from len s ≡ some bytes
      → length bytes ≡ len
      → (write_child_mem replayed to bytes t).0 ≡ some len
      → ((i : ℕ)
          → i < len
          → replayed.byte_at (write_child_mem replayed to bytes t).1 (to + i)
            ≡ recorded.byte_at s (from + i))
        × ((a : ℕ)
            → (leb to a && ltb a (to + len)) ≡ false
            → replayed.byte_at (write_child_mem replayed to bytes t).1 a ≡ replayed.byte_at t a)
  write_child_mem-read_child_mem from to len bytes s t low high got size put = (inside, outside)
    where
      room : to + length bytes + 8 ≤ 2 ^ 64
      room = omega (arith, size, high)

      written :
          (a : ℕ)
          → replayed.byte_at (write_child_mem replayed to bytes t).1 a
            ≡ with_bytes replayed to bytes len t a
      written = write_child_mem-with_bytes replayed to len bytes t room put

      inside :
          (i : ℕ)
          → i < len
          → replayed.byte_at (write_child_mem replayed to bytes t).1 (to + i)
            ≡ recorded.byte_at s (from + i)
      inside i below =
          let here : (leb to (to + i) && ltb (to + i) (to + len)) ≡ true = ground arith in
          let place : to + i - to ≡ i = omega arith in
          written (to + i)
          ∙ (rw (here, place)
              ((read_child_mem_lem recorded s from len bytes low got).1 i
                (omega (arith, size, below))))

      outside :
          (a : ℕ)
          → (leb to a && ltb a (to + len)) ≡ false
          → replayed.byte_at (write_child_mem replayed to bytes t).1 a ≡ replayed.byte_at t a
      outside a off = written a ∙ rw off refl
