-- ===== src/Trace/Syscalls.antt =====
-- recorder/ptrace_recorder.c: the system calls that are named and those with a payload.
-- replayer/ptrace_replayer.c has the same functions, but for `payload_len`.
use os_ai_assisted_determini.Base.{
  ℕ, Bool, false, ◌||◌, Option, none, some, ◌==◌, if◌then◌else◌, Bytes, codes,
}
use os_ai_assisted_determini.Base.Int.{ℤ, pos, negsuc}

-- `syscall_entry_t`: `syscall_no` is a `long`, `args` are six `unsigned long`.
pub record SyscallEntry : Type 0 where
  pub syscall_no : ℤ
  pub a0 : ℕ
  pub a1 : ℕ
  pub a2 : ℕ
  pub a3 : ℕ
  pub a4 : ℕ
  pub a5 : ℕ

-- The numbers of <sys/syscall.h> on x86-64.
abbrev pub sys_read : ℕ
sys_read = 0

abbrev pub sys_write : ℕ
sys_write = 1

abbrev pub sys_close : ℕ
sys_close = 3

abbrev pub sys_lseek : ℕ
sys_lseek = 8

abbrev pub sys_gettimeofday : ℕ
sys_gettimeofday = 96

abbrev pub sys_futex : ℕ
sys_futex = 202

abbrev pub sys_clock_gettime : ℕ
sys_clock_gettime = 228

abbrev pub sys_openat : ℕ
sys_openat = 257

abbrev pub sys_getrandom : ℕ
sys_getrandom = 318

-- `no == SYS_…`
abbrev pub is_no : ℤ → ℕ → Bool
is_no (pos n) k = n == k
is_no (negsuc n) k = false

-- `none` is the null pointer of the default case.
unfoldable pub syscall_name : ℤ → Option Bytes
syscall_name number =
    if is_no number sys_read
    then some (codes "read")
    else if is_no number sys_write
    then some (codes "write")
    else if is_no number sys_openat
    then some (codes "openat")
    else if is_no number sys_close
    then some (codes "close")
    else if is_no number sys_lseek
    then some (codes "lseek")
    else if is_no number sys_futex
    then some (codes "futex")
    else if is_no number sys_getrandom
    then some (codes "getrandom")
    else if is_no number sys_clock_gettime
    then some (codes "clock_gettime")
    else if is_no number sys_gettimeofday
    then some (codes "gettimeofday")
    else none

-- `is_payload_syscall`, and `is_replayable_syscall` of the replayer.
unfoldable pub is_payload_syscall : ℤ → Bool
is_payload_syscall number =
    is_no number sys_read
    || is_no number sys_getrandom
    || is_no number sys_clock_gettime
    || is_no number sys_gettimeofday

unfoldable pub payload_addr : SyscallEntry → ℕ
payload_addr entry =
    if is_no entry.syscall_no sys_read
    then entry.a1
    else if is_no entry.syscall_no sys_getrandom
    then entry.a0
    else if is_no entry.syscall_no sys_clock_gettime
    then entry.a1
    else if is_no entry.syscall_no sys_gettimeofday
    then entry.a0
    else 0

unfoldable pub payload_len : SyscallEntry → ℤ → ℕ
payload_len entry (negsuc n) = 0
payload_len entry (pos n) =
    if is_no entry.syscall_no sys_read || is_no entry.syscall_no sys_getrandom
    then n
    else if is_no entry.syscall_no sys_clock_gettime || is_no entry.syscall_no sys_gettimeofday
    then (if n == 0 then 16 else 0)
    else 0
