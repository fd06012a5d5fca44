-- ===== src/Programs/Calls/Copy.antt =====
-- A block written by sys_block_write and read back by sys_block_read.
use bb6502_verilog.Machine.Bus.{Machine}
