-- ===== src/Debug.antt =====
-- rtl/dbg: the debugger, a VPI module inside the simulation.
pub mod Opcodes
pub mod Sim
pub mod Disasm
pub mod State
pub mod Breakpoints
pub mod Symbols
pub mod Parse
pub mod Dump
pub mod Control
pub mod Display
pub mod Handles
pub mod Commands
pub mod Fetch
pub mod Vpi
pub mod Tests
