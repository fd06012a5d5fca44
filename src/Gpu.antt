-- ===== src/Gpu.antt =====
-- tools/gpu.c: the 80 x 25 text screen of the monitor.
pub mod Screen
pub mod Bounds
pub mod Text
pub mod Monitor
pub mod Sending
pub mod Render
pub mod Tests
