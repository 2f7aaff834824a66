-- ===== src/Tests.antt =====
-- Test vectors, and each theorem at an input.
mod Hashes
mod Texts
mod Traces
mod Replays
mod Memories
mod Hooked
mod Outputs
mod CommandLines
mod ReplayerLines
mod Sessions
