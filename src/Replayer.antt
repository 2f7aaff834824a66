-- ===== src/Replayer.antt =====
-- replayer/ptrace_replayer.c: the events that it loads in Events and Lines; how it reads the lines
-- of the recorder in Passes, OneLine, LinePieces, Load and Bare; the loop over the stops of the child
-- in Loop, and what `main` does before it in CommandLine; the metadata in Metadata, and what it writes
-- into the child in Memory.
pub mod Events
pub mod Passes
pub mod OneLine
pub mod LinePieces
pub mod Load
pub mod Bare
pub mod Lines
pub mod Loop
pub mod CommandLine
pub mod Metadata
pub mod Memory
