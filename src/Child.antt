-- ===== src/Child.antt =====
-- The memory of the traced child, as the recorder and the replayer reach it: the requests of
-- `ptrace` and the calls `process_vm_readv` and `process_vm_writev`, which are the system's.
use os_ai_assisted_determini.Base.{
  ℕ, ◌+◌, ◌-◌, ◌≤◌, ◌<◌, ◌≡◌, ◌&&◌, Option, some, ltb, leb, if◌then◌else◌, Bytes, length, get_or,
}

-- What the code relies on. A word is eight bytes; `peek` gives those at its address, and `poke`
-- replaces them and no others. `vm_read` gives at most the bytes that were asked for, from the
-- address on, and `vm_write` puts a front of the buffer at the address and says how long it is.
-- `none` is a failure.
pub record ChildMemory : Type 1 where
  pub State : Type 0
  pub byte_at : State → ℕ → ℕ
  pub peek : State → ℕ → Option Bytes
  pub poke : State → ℕ → Bytes → Option State
  pub vm_read : State → ℕ → ℕ → Option Bytes
  pub vm_write : State → ℕ → Bytes → Option (ℕ × State)
  pub word_size : (s : State) (addr : ℕ) (word : Bytes) → peek s addr ≡ some word → length word ≡ 8
  pub peek_reads :
      (s : State) (addr i : ℕ) (word : Bytes)
      → peek s addr ≡ some word
      → i < 8
      → get_or word i 0 ≡ byte_at s (addr + i)
  pub poke_writes :
      (s s' : State) (addr a : ℕ) (word : Bytes)
      → poke s addr word ≡ some s'
      → byte_at s' a
        ≡ (if leb addr a && ltb a (addr + 8) then get_or word (a - addr) 0 else byte_at s a)
  pub vm_read_size :
      (s : State) (addr len : ℕ) (bytes : Bytes)
      → vm_read s addr len ≡ some bytes
      → length bytes ≤ len
  pub vm_read_reads :
      (s : State) (addr len i : ℕ) (bytes : Bytes)
      → vm_read s addr len ≡ some bytes
      → i < length bytes
      → get_or bytes i 0 ≡ byte_at s (addr + i)
  pub vm_write_size :
      (s s' : State) (addr n : ℕ) (bytes : Bytes)
      → vm_write s addr bytes ≡ some (n, s')
      → n ≤ length bytes
  pub vm_write_writes :
      (s s' : State) (addr n a : ℕ) (bytes : Bytes)
      → vm_write s addr bytes ≡ some (n, s')
      → byte_at s' a
        ≡ (if leb addr a && ltb a (addr + n) then get_or bytes (a - addr) 0 else byte_at s a)
