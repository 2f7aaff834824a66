-- ===== src/Util.antt =====
-- src/common/util.c: paths in Paths, directories in Directories, JSON string literals in
-- Json, the clock in Clock, `adr_write_text_file` in TextFile.
pub mod Clock
pub mod Paths
pub mod Directories
pub mod Json
pub mod TextFile
