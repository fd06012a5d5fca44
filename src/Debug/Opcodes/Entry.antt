-- ===== src/Debug/Opcodes/Entry.antt =====
-- rtl/dbg/debugger.h: addressing modes and the opcode descriptor.
use Prim.Native.String.{String}
use bb6502_verilog.Common.{ℕ}

pub data AddrMode : Type 0 where
  imp acc imm zp zpx zpy abs absx absy ind indx indy rel zpi absxi zprel : AddrMode

pub record Opcode : Type 0 where
  pub mnemonic : String
  pub mode : AddrMode
  pub bytes : ℕ

abbrev pub op : String → AddrMode → ℕ → Opcode
op name mode bytes = record { mnemonic = name; mode = mode; bytes = bytes }
