-- ===== src/Lib.antt =====
-- The recorder and the replayer of system calls.
--
-- The recorder (recorder/ptrace_recorder.c) runs a program under `ptrace`. For each system call it
-- appends an event to `events.jsonl`, and for `read`, `getrandom`, `clock_gettime` and
-- `gettimeofday` it saves the bytes that the call put into the program's memory in `payload.bin`.
-- Each event holds the hash of the one before it. The replayer (replayer/ptrace_replayer.c) loads
-- these events, runs the program again, and gives each of these calls the recorded bytes and result.
-- Both use SHA-256 (src/common/hash.c) and helpers for paths and JSON (src/common/util.c). A library
-- that is loaded into the traced program (hooks/sync_hook.c) stands in for seven functions of pthread
-- and appends an event before and after each call to the same `events.jsonl`.
--
--   Base      the names that are shared, lists and signed integers over the native numbers
--   Libc      what the code uses of the C library: the formats %s, %ld, %lu, %zu and %d into a buffer
--             of a given size (Print), `strtol` (Parse), `strstr` and `strchr` (Find),
--             `strcmp` (Compare)
--   Hash      src/common/hash.c: `adr_sha256_transform` (Words), `_init`, `_update`, `_final`
--             (Context), `_hex` and `_bytes_hex` (Hex), `_file_hex` (Files); the standard's digest
--             is Spec, and Blocks, Final and Digest compare the two
--   Util      src/common/util.c: `adr_join_path` and `adr_basename_const` (Paths), `adr_mkdir_p`
--             (Directories), `adr_json_escape` (Json), `adr_now_ns` (Clock), `adr_write_text_file`
--             (TextFile)
--   Trace     what the recorder and the replayer share: the tables of system calls (Syscalls) and
--             `trace_writer_t` with `emit_line`, `emit_process` and `emit_syscall` (Writer)
--   Child     the memory of the traced program, as the two use it
--   Recorder  `append_payload` and the replayer's `read_payload` (Payload), the loop of `main` (Loop;
--             its event file as one text is Written), the buffers of the four calls (Buffers),
--             `read_child_mem` (Memory), `write_metadata` and `write_result` (Outputs), and `main` up
--             to the loop (CommandLine)
--   Replayer  `load_replay_events` and its parsers (Events), what these make of the recorder's lines
--             (LinePieces, Load, Bare), the loop of `main` (Loop),
--             `write_child_mem` (Memory), `copy_metadata` and `parse_target_from_metadata` (Metadata),
--             and `main` up to the loop (CommandLine)
--   Hooks     hooks/sync_hook.c: `log_sync_event` and its lines, the functions that stand in for those
--             of pthread (Wrappers), their environment (Attached), and the threads that share
--             `sync_seq` and the file (Threads)
--   Session   the recorder's files of a whole run, and what the replayer loads of them: the lines that
--             an event adds (Added, Steps), a call (Calls) and a run (Records), and its replay (Replayed)
--   Tests     runs at fixed inputs
--
-- A byte is a number, a C string the list of its bytes without the terminator, a file the list of
-- its bytes. `uint32_t`, `uint64_t` and registers are native numbers reduced modulo 2 ^ 32 and
-- 2 ^ 64, `long` and `int` the type ℤ of Base/Int.antt. A buffer of `snprintf` cuts its text to its
-- size (`cut_to`). What the system answers comes as data: the stops of the child are a list, and each
-- stop at the end of a call carries the answers to the calls that the code makes there (whether
-- `malloc` succeeds, what `read_child_mem` gives, whether `ftell` succeeds, how many bytes `fwrite`
-- takes, the clock). The file system of `adr_mkdir_p`, the child's memory under `read_child_mem` and
-- `write_child_mem`, and the real functions of pthread are records of operations and laws. The stack
-- slots that the C code leaves uninitialised are arguments.
--
-- Some failures that the code does not look at are left out. The event file of the recorder and the
-- replayer takes every line whole, and the bytes that `fwrite` has taken count as in the payload file,
-- so that a `fprintf` or `fflush` that fails is not modelled. The lines of a trace are what `getline`
-- gives before it returns -1, whether at the end of the file or where it fails. What the hooks do to
-- `errno` is an operation `disturb` of the world of the real functions. For `adr_mkdir_p` a name is
-- there when something has it: `mkdir` answers EEXIST for a regular file too.
--
-- All loops are structural recursions, but for these. The digits of a number: `print_nat n` has fuel
-- n + 1, and n has at most n + 1 digits. The word loops of `read_child_mem` and `write_child_mem`:
-- they are given as many rounds as the buffer has bytes, and each round copies at least one. The
-- files and the command line hold no NUL byte.
--
-- In Hooks a call of `log_sync_event` is one function of the shared state, and in Threads it is two
-- steps, the atomic increment and the `write` of a line, which the threads interleave.
--
-- Not modelled: `ptrace`, `fork` and `execvp` themselves; the forked child's own calls before
-- `execvp`, but for the environment of the hooks; the messages on the standard error stream; and the
-- tools in Python and shell. The loops take what `read_child_mem` gives as an answer and hand what
-- `write_child_mem` is called with to a list of injections.
pub mod Base
pub mod Hash
pub mod Libc
pub mod Util
pub mod Trace
pub mod Child
pub mod Replayer
pub mod Recorder
pub mod Hooks
pub mod Session
pub mod Tests
