-- ===== src/Libc.antt =====
-- What the sources use of the C library on texts: the conversions of `snprintf` and `strtol`, the
-- searches of <string.h>. A C string is the list of its bytes, without the terminator.
pub mod Print
pub mod Parse
pub mod Find
pub mod Compare
pub mod RoundTrip
pub mod FindLaws
