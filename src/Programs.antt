-- ===== src/Programs.antt =====
-- sw/prog: the user's programs, and the stubs of their system calls.
pub mod Syslib
pub mod Calls
pub mod Disktest
pub mod Hello
pub mod Tests
