-- ===== src/Debug/Disasm/Layout.antt =====
-- The opcode table's lengths, and the size of a disassembled line.

use bb6502_verilog.Common.{
  ℕ, zero, suc, ◌+◌, ◌<◌, ◌≤◌, ◌≡◌, refl, Bool, true, ◌&&◌, List, [], ◌∷◌, ◌++◌, length,
  length-append, leb, ◌==◌, arith, get_or, and-true, leb→le, ==_iff,
}
use bb6502_verilog.Common.Bits.{u16, bit_or, shl}
use bb6502_verilog.Clib.Chars.{text}
use bb6502_verilog.Clib.Format.{hex4_upper, hex2_upper, length-hex2_upper, length-hex4_upper}
use bb6502_verilog.Debug.Opcodes.{
  AddrMode, imp, acc, imm, zp, zpx, zpy, abs, absx, absy, ind, indx, indy, rel, zpi, absxi, zprel,
  Opcode, optable, lookup_op,
}
use bb6502_verilog.Debug.Disasm.{target, operand, disasm}

-- The 65C02's instruction length by addressing mode: the opcode and its operand bytes.
unfoldable pub mode_bytes : AddrMode → ℕ
mode_bytes imp = 1
mode_bytes acc = 1
mode_bytes imm = 2
mode_bytes zp = 2
mode_bytes zpx = 2
mode_bytes zpy = 2
mode_bytes indx = 2
mode_bytes indy = 2
mode_bytes rel = 2
mode_bytes zpi = 2
mode_bytes abs = 3
mode_bytes absx = 3
mode_bytes absy = 3
mode_bytes ind = 3
mode_bytes absxi = 3
mode_bytes zprel = 3

mode_bytes_range : (m : AddrMode) → (1 ≤ mode_bytes m) × (mode_bytes m ≤ 3)
unfolding mode_bytes
mode_bytes_range imp = omega arith
mode_bytes_range m = omega arith

-- One check of every row, run by evaluation.
row_ok : Opcode → Bool
row_ok o = o.bytes == mode_bytes o.mode && leb (length (text o.mnemonic)) 4

all_ok : List Opcode → Bool
unfolding row_ok
all_ok [] = true
all_ok (o ∷ os) = row_ok o && all_ok os

all_ok_at :
    (os : List Opcode) (d : Opcode) (i : ℕ)
    → all_ok os ≡ true
    → i < length os
    → row_ok (get_or os i d) ≡ true
unfolding all_ok
all_ok_at [] d i h p = absurd (omega arith)
all_ok_at (o ∷ os) d zero h p = (and-true h).0
all_ok_at (o ∷ os) d (suc i) h p = all_ok_at os d i (and-true h).1 (omega arith)

table_ok : all_ok optable ≡ true
unfolding all_ok row_ok optable mode_bytes text
table_ok = refl

length-optable : length optable ≡ 256
unfolding optable
length-optable = refl

lookup_op-row_ok : (opcode : ℕ) → opcode < 256 → row_ok (lookup_op opcode) ≡ true
unfolding lookup_op
lookup_op-row_ok opcode h = all_ok_at optable _ opcode table_ok (omega (arith, length-optable))

-- For every opcode byte the table's length is that of its addressing mode (so 1, 2 or 3), and the
-- mnemonic has at most four letters.
pub lookup_op_lengths :
    (opcode : ℕ)
    → opcode < 256
    → ((lookup_op opcode).bytes ≡ mode_bytes (lookup_op opcode).mode)
      × (length (text (lookup_op opcode).mnemonic) ≤ 4)
unfolding row_ok
lookup_op_lengths opcode h =
    let both = and-true (lookup_op-row_ok opcode h) in ((==_iff _ _).0 both.0, leb→le _ _ both.1)

target-lt : (at b : ℕ) → target at b < 65536
unfolding target
target-lt at b = omega arith

-- The longest operands are those of `absxi` and `zprel`.
length-operand : (m : AddrMode) (pc b1 b2 : ℕ) → b1 < 256 → length (operand m pc b1 b2) ≤ 10
unfolding operand text
length-operand imp pc b1 b2 h = omega arith
length-operand rel pc b1 b2 h =
    omega (arith, length-hex4_upper (target (pc + 2) b1) (target-lt (pc + 2) b1))
length-operand zprel pc b1 b2 h = omega (
  arith,
  length-append (hex2_upper b1) (text ",$" ++ hex4_upper (target (pc + 3) b2)),
  length-hex2_upper b1 h,
  length-hex4_upper (target (pc + 3) b2) (target-lt (pc + 3) b2),
)
length-operand m pc b1 b2 h =
    let word = u16 (bit_or b1 (shl b2 8)) in
    omega (
      arith,
      length-hex2_upper b1 h,
      length-hex4_upper word (omega arith),
      length-append {0} (hex2_upper b1),
      length-append {0} (hex4_upper word),
    )

-- For every program counter and every memory of bytes the disassembled line has at most 14
-- characters, so with its NUL it fits the smallest buffer that a caller passes, which has 32; and the
-- length returned is 1, 2 or 3, by the addressing mode.
pub disasm_fits :
    (pc : ℕ) (read : ℕ → ℕ)
    → ((a : ℕ) → read a < 256)
    → (length (disasm pc read).0 ≤ 14)
      × ((disasm pc read).1 ≡ mode_bytes (lookup_op (read pc)).mode)
      × (1 ≤ (disasm pc read).1)
      × ((disasm pc read).1 ≤ 3)
unfolding disasm
disasm_fits pc read bytes =
    let entry = lookup_op (read pc) in
    let sizes = lookup_op_lengths (read pc) (bytes pc) in
    let b1 = read (u16 (pc + 1)) in
    let b2 = read (u16 (pc + 2)) in
    let shown = length-operand entry.mode pc b1 b2 (bytes (u16 (pc + 1))) in
    (
      omega
          (arith, length-append (text entry.mnemonic) (operand entry.mode pc b1 b2), sizes, shown),
      sizes.0,
      omega (arith, sizes.0, mode_bytes_range entry.mode),
      omega (arith, sizes.0, mode_bytes_range entry.mode),
    )
