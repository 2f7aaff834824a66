-- ===== src/Tests/Memories.antt =====
-- The replayer writes into a memory.
use os_ai_assisted_determini.Base.{
  ℕ, zero, suc, ◌+◌, ◌-◌, ◌%◌, false, ◌<◌, ◌≤◌, ◌≡◌, refl, sym, ap, ◌∙◌, Option, none, some, ◌∷◌,
  [], ◌&&◌, arith, ltb, leb, ◌==◌, if◌then◌else◌, length, Bytes, get_or,
}
use os_ai_assisted_determini.Recorder.Memory.{
  StandsAt, read_child_mem, read_child_mem_lem, read_child_mem_whole,
}
use os_ai_assisted_determini.Replayer.Memory.Copied.{write_child_mem-read_child_mem}
use os_ai_assisted_determini.Child.{ChildMemory}
use os_ai_assisted_determini.Replayer.Memory.{write_child_mem}
use os_ai_assisted_determini.Replayer.Memory.Written.{
  with_bytes, write_child_mem_lem, write_child_mem_whole,
}

abbrev bytes_from : ℕ → (ℕ → ℕ) → ℕ → Bytes
bytes_from zero s a = []
bytes_from (suc k) s a = s a ∷ bytes_from k s (a + 1)

get_or-bytes_from : (k i a : ℕ) (s : ℕ → ℕ) → i < k → get_or (bytes_from k s a) i 0 ≡ s (a + i)
get_or-bytes_from zero i a s h = omega arith
get_or-bytes_from (suc k) zero a s h = ap s (omega arith)
get_or-bytes_from (suc k) (suc i) a s h =
    get_or-bytes_from k i (a + 1) s (omega arith) ∙ ap s (omega arith)

abbrev word_in : Option Bytes → Bytes
word_in none = []
word_in (some w) = w

abbrev byte_in : Option (ℕ → ℕ) → ℕ → ℕ
byte_in none a = 0
byte_in (some s) a = s a

abbrev put : (ℕ → ℕ) → ℕ → Bytes → ℕ → ℕ
put s addr word a = if leb addr a && ltb a (addr + 8) then get_or word (a - addr) 0 else s a

-- A call that never succeeds.
refused : {A : Type 0} {P : Type 0} (x : A) → none ≡ some x → P
refused x h = absurd (cc h)

-- A memory on a system without `process_vm_writev`.
abbrev plain_memory : ChildMemory
plain_memory = record {
  State = ℕ → ℕ;
  byte_at = λ s a. s a;
  peek = λ s a. some (bytes_from 8 s a);
  poke = λ s addr word. some (put s addr word);
  vm_read = λ s addr len. none;
  vm_write = λ s addr bytes. none;
  peek_reads = λ s addr i word h below.
      ap (λ o. get_or (word_in o) i 0) (sym h) ∙ get_or-bytes_from 8 i addr s below;
  word_size = λ s addr word h. ap (λ o. length (word_in o)) (sym h);
  vm_read_size = λ s addr len bytes h. refused bytes h;
  vm_read_reads = λ s addr len i bytes h below. refused bytes h;
  vm_write_size = λ s s' addr n bytes h. refused (n, s') h;
  vm_write_writes = λ s s' addr n a bytes h. refused (n, s') h;
  poke_writes = λ s s' addr a word h. ap (λ o. byte_in o a) (sym h);
}

abbrev zeros : ℕ → ℕ
zeros a = 0

abbrev ten_bytes : Bytes
ten_bytes = 1 ∷ 2 ∷ 3 ∷ 4 ∷ 5 ∷ 6 ∷ 7 ∷ 8 ∷ 9 ∷ 10 ∷ []

write_child_mem_lem_example :
    (n : ℕ) × (n ≤ 10)
    × ((write_child_mem plain_memory 4096 ten_bytes zeros).0 ≡ (if n == 0 then none else some n))
    × ((a : ℕ)
        → (write_child_mem plain_memory 4096 ten_bytes zeros).1 a
          ≡ with_bytes plain_memory 4096 ten_bytes n zeros a)
write_child_mem_lem_example =
    write_child_mem_lem plain_memory 4096 ten_bytes zeros (omega arith) refl

write_child_mem_whole_example :
    ((write_child_mem plain_memory 4096 ten_bytes zeros).0 ≡ some 10)
    × ((a : ℕ)
        → (write_child_mem plain_memory 4096 ten_bytes zeros).1 a
          ≡ with_bytes plain_memory 4096 ten_bytes 10 zeros a)
write_child_mem_whole_example =
    write_child_mem_whole plain_memory 4096 ten_bytes zeros (omega arith) refl (omega arith)
      (λ t a. (bytes_from 8 t a, refl)) (λ t a w. (put t a w, refl))

abbrev ramp : ℕ → ℕ
ramp a = a % 256

read_child_mem_lem_example :
    (length (bytes_from 10 ramp 4096) ≤ 10)
    × StandsAt plain_memory ramp 4096 (bytes_from 10 ramp 4096)
unfolding read_child_mem
read_child_mem_lem_example =
    read_child_mem_lem plain_memory ramp 4096 10 (bytes_from 10 ramp 4096) (omega arith) refl

read_child_mem_whole_example :
    (bytes : Bytes) × (read_child_mem plain_memory 4096 10 ramp ≡ some bytes) × (length bytes ≡ 10)
read_child_mem_whole_example =
    read_child_mem_whole plain_memory ramp 4096 10 refl (omega arith)
      (λ a. (bytes_from 8 ramp a, refl))

write_child_mem-read_child_mem_example :
    ((i : ℕ)
      → i < 10
      → (write_child_mem plain_memory 8192 (bytes_from 10 ramp 4096) zeros).1 (8192 + i)
        ≡ ramp (4096 + i))
    × ((a : ℕ)
        → (leb 8192 a && ltb a (8192 + 10)) ≡ false
        → (write_child_mem plain_memory 8192 (bytes_from 10 ramp 4096) zeros).1 a ≡ 0)
unfolding read_child_mem write_child_mem
write_child_mem-read_child_mem_example =
    write_child_mem-read_child_mem plain_memory plain_memory 4096 8192 10 (bytes_from 10 ramp 4096)
      ramp zeros (omega arith) (omega arith) refl refl refl
