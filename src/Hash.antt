-- ===== src/Hash.antt =====
-- src/common/hash.c and hash.h: SHA-256. The compression is in Words, the streaming context in
-- Context, the hexadecimal print in Hex and
-- its laws in HexText, the hash of a file in Files; Spec is the message padding
-- of the standard, and Blocks, Final and Digest prove that the context computes it.
pub mod Words
pub mod Context
pub mod Hex
pub mod HexText
pub mod Files
pub mod Spec
pub mod Blocks
pub mod Final
pub mod Digest
