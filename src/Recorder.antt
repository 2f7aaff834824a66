-- ===== src/Recorder.antt =====
-- recorder/ptrace_recorder.c: the payload file in Payload, `read_child_mem` in Memory, the loop over
-- the stops of the traced program in Loop, the metadata and the results in Outputs, and what `main`
-- does before the loop in CommandLine.
pub mod Payload
pub mod Memory
pub mod Loop
pub mod Buffers
pub mod Outputs
pub mod CommandLine
