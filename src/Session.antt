-- ===== src/Session.antt =====
-- A run of the recorder, and what the replayer loads of it.
pub mod Added
pub mod Steps
pub mod Calls
pub mod Records
pub mod Replayable
pub mod Replayed
