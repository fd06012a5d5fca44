-- ===== src/Debug/Disasm.antt =====
-- rtl/dbg/debugger.c: dbgDisasmInstrFromPc.
pub mod Layout
pub mod Branch
use bb6502_verilog.Common.{ℕ, ◌+◌, ◌-◌, ◌^◌, List, [], ◌++◌, ltb, if◌then◌else◌}
use bb6502_verilog.Common.Bits.{u16, bit_or, shl}
use bb6502_verilog.Clib.Chars.{text}
use bb6502_verilog.Clib.Format.{hex4_upper, hex2_upper}
use bb6502_verilog.Debug.Opcodes.{
  AddrMode, imp, acc, imm, zp, zpx, zpy, abs, absx, absy, ind, indx, indy, rel, zpi, absxi, zprel,
  lookup_op,
}

-- `(uint16_t)(at + off)` for `int8_t off = (int8_t)b`.
unfoldable pub target : ℕ → ℕ → ℕ
target at b = u16 (at + (if ltb b 128 then b else b + 2 ^ 16 - 256))

-- What stands behind the mnemonic, for the two bytes `b1` and `b2` behind the opcode.
unfoldable pub operand : AddrMode → (pc b1 b2 : ℕ) → List ℕ
unfolding target
operand imp pc b1 b2 = []
operand acc pc b1 b2 = text " A"
operand imm pc b1 b2 = text " #$" ++ hex2_upper b1
operand zp pc b1 b2 = text " $" ++ hex2_upper b1
operand zpx pc b1 b2 = text " $" ++ (hex2_upper b1 ++ text ",X")
operand zpy pc b1 b2 = text " $" ++ (hex2_upper b1 ++ text ",Y")
operand abs pc b1 b2 = text " $" ++ hex4_upper (u16 (bit_or b1 (shl b2 8)))
operand absx pc b1 b2 = text " $" ++ (hex4_upper (u16 (bit_or b1 (shl b2 8))) ++ text ",X")
operand absy pc b1 b2 = text " $" ++ (hex4_upper (u16 (bit_or b1 (shl b2 8))) ++ text ",Y")
operand ind pc b1 b2 = text " ($" ++ (hex4_upper (u16 (bit_or b1 (shl b2 8))) ++ text ")")
operand indx pc b1 b2 = text " ($" ++ (hex2_upper b1 ++ text ",X)")
operand indy pc b1 b2 = text " ($" ++ (hex2_upper b1 ++ text "),Y")
operand rel pc b1 b2 = text " $" ++ hex4_upper (target (pc + 2) b1)
operand zpi pc b1 b2 = text " ($" ++ (hex2_upper b1 ++ text ")")
operand absxi pc b1 b2 = text " ($" ++ (hex4_upper (u16 (bit_or b1 (shl b2 8))) ++ text ",X)")
operand zprel pc b1 b2 =
    text " $" ++ (hex2_upper b1 ++ (text ",$" ++ hex4_upper (target (pc + 3) b2)))

-- The line written to `out`, and the length returned.
unfoldable pub disasm : ℕ → (ℕ → ℕ) → List ℕ × ℕ
disasm pc read =
    let entry = lookup_op (read pc) in
    let b1 = read (u16 (pc + 1)) in
    let b2 = read (u16 (pc + 2)) in
    (text entry.mnemonic ++ operand entry.mode pc b1 b2, entry.bytes)
