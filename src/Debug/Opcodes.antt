-- ===== src/Debug/Opcodes.antt =====
-- rtl/dbg/debugger.h: the opcode table of the disassembler.
mod Entry
mod Low
mod High
pub use Entry.*
use Low.{low_half}
use High.{high_half}
use bb6502_verilog.Common.{ℕ, List, ◌++◌, get_or}

unfoldable pub optable : List Opcode
optable = low_half ++ high_half

-- `optable[opcode]`; an index past the table does not occur, since an opcode is a byte.
unfoldable pub lookup_op : ℕ → Opcode
unfolding optable
lookup_op opcode = get_or optable opcode (op "" imp 0)
