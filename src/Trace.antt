-- ===== src/Trace.antt =====
-- The event trace that recorder/ptrace_recorder.c and replayer/ptrace_replayer.c write: system
-- calls in Syscalls, the writer and its lines in Writer, the hash chain in Chain.
pub mod Syscalls
pub mod Writer
pub mod Chain
