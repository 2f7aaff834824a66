-- ===== src/Recorder/Buffers.antt =====
-- Where the four calls with a payload put their bytes, by their manual pages: `read(fd, buf, n)`,
-- `clock_gettime(clock, time)`, `getrandom(buf, n, flags)` and `gettimeofday(time, zone)`, with the
-- arguments in rdi, rsi and rdx.
use os_ai_assisted_determini.Base.{ℕ, ◌≡◌, refl, true, if◌then◌else◌, ◌==◌, ◌||◌, arith}
use os_ai_assisted_determini.Base.Int.{ℤ, pos, negsuc, to_long}
use os_ai_assisted_determini.Recorder.Loop.{Regs, entry_of}
use os_ai_assisted_determini.Trace.Syscalls.{
  SyscallEntry, is_payload_syscall, payload_addr, payload_len,
}

-- The number of the call that is entered.
abbrev pub number_of : Regs → ℤ
number_of regs = to_long regs.orig_rax

-- The second argument for `read` and `clock_gettime`, the first for the two others.
abbrev pub buffer_of : ℤ → Regs → ℕ
buffer_of (pos n) regs = if n == 0 || n == 228 then regs.rsi else regs.rdi
buffer_of (negsuc n) regs = regs.rdi

-- How many bytes are in it: for `read` and `getrandom` the result, for the two others the 16 of a time
-- if they succeed.
abbrev pub size_of : ℤ → ℤ → ℕ
size_of (pos n) (pos ret) = if n == 0 || n == 318 then ret else if ret == 0 then 16 else 0
size_of (negsuc n) (pos ret) = 0
size_of number (negsuc ret) = 0

address :
    (z : ℤ) (regs : Regs)
    → is_payload_syscall z ≡ true
    → payload_addr (record (entry_of regs) { syscall_no = z }) ≡ buffer_of z regs
unfolding payload_addr is_payload_syscall entry_of
address (pos n) regs h = ground arith
address (negsuc n) regs h = cc

pub payload_addr-buffer_of :
    (regs : Regs)
    → is_payload_syscall (number_of regs) ≡ true
    → payload_addr (entry_of regs) ≡ buffer_of (number_of regs) regs
unfolding entry_of
payload_addr-buffer_of regs h = address (number_of regs) regs h

size :
    (z ret : ℤ) (entry : SyscallEntry)
    → is_payload_syscall z ≡ true
    → payload_len (record entry { syscall_no = z }) ret ≡ size_of z ret
unfolding payload_len is_payload_syscall
size (pos n) (pos ret) entry h = ground arith
size (pos n) (negsuc ret) entry h = refl
size (negsuc n) (pos ret) entry h = cc
size (negsuc n) (negsuc ret) entry h = refl

pub payload_len-size_of :
    (regs : Regs) (ret : ℤ)
    → is_payload_syscall (number_of regs) ≡ true
    → payload_len (entry_of regs) ret ≡ size_of (number_of regs) ret
unfolding entry_of
payload_len-size_of regs ret h = size (number_of regs) ret (entry_of regs) h
