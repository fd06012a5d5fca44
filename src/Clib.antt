-- ===== src/Clib.antt =====
-- The parts of the C standard library that the program calls, over strings without their
-- terminating NUL: lists of bytes.
pub mod Chars
pub mod Format
pub mod Strings
pub mod Numbers
