-- ===== src/Kernel.antt =====
-- sw/kernel/src: the kernel: processes, context switch, boot, user memory, block device, console and
-- system calls.
pub mod ZeroPage
pub mod Process
pub mod UserMemory
pub mod Block
pub mod Console
pub mod Syscalls
pub mod Entry
pub mod Spawn
pub mod Bbx
pub mod Switch
pub mod Boot
pub mod Tests
