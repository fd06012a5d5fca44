-- ===== src/Debug/Opcodes/Low.antt =====
-- rtl/dbg/debugger.h: the rows of the opcode table from $00 to $7F.
use bb6502_verilog.Common.{List, [], ◌∷◌, ◌++◌}
use bb6502_verilog.Debug.Opcodes.Entry.{
  Opcode, op, abs, absx, absxi, absy, acc, imm, imp, ind, indx, indy, rel, zp, zpi, zprel, zpx,
}

abbrev page_0 : List Opcode
page_0 =
    op "BRK" imm 2
    ∷ op "ORA" indx 2
    ∷ op "NOP" imm 2
    ∷ op "NOP" imp 1
    ∷ op "TSB" zp 2
    ∷ op "ORA" zp 2
    ∷ op "ASL" zp 2
    ∷ op "RMB0" zp 2
    ∷ op "PHP" imp 1
    ∷ op "ORA" imm 2
    ∷ op "ASL" acc 1
    ∷ op "NOP" imp 1
    ∷ op "TSB" abs 3
    ∷ op "ORA" abs 3
    ∷ op "ASL" abs 3
    ∷ op "BBR0" zprel 3
    ∷ []

abbrev page_1 : List Opcode
page_1 =
    op "BPL" rel 2
    ∷ op "ORA" indy 2
    ∷ op "ORA" zpi 2
    ∷ op "NOP" imp 1
    ∷ op "TRB" zp 2
    ∷ op "ORA" zpx 2
    ∷ op "ASL" zpx 2
    ∷ op "RMB1" zp 2
    ∷ op "CLC" imp 1
    ∷ op "ORA" absy 3
    ∷ op "INC" acc 1
    ∷ op "NOP" imp 1
    ∷ op "TRB" abs 3
    ∷ op "ORA" absx 3
    ∷ op "ASL" absx 3
    ∷ op "BBR1" zprel 3
    ∷ []

abbrev page_2 : List Opcode
page_2 =
    op "JSR" abs 3
    ∷ op "AND" indx 2
    ∷ op "NOP" imm 2
    ∷ op "NOP" imp 1
    ∷ op "BIT" zp 2
    ∷ op "AND" zp 2
    ∷ op "ROL" zp 2
    ∷ op "RMB2" zp 2
    ∷ op "PLP" imp 1
    ∷ op "AND" imm 2
    ∷ op "ROL" acc 1
    ∷ op "NOP" imp 1
    ∷ op "BIT" abs 3
    ∷ op "AND" abs 3
    ∷ op "ROL" abs 3
    ∷ op "BBR2" zprel 3
    ∷ []

abbrev page_3 : List Opcode
page_3 =
    op "BMI" rel 2
    ∷ op "AND" indy 2
    ∷ op "AND" zpi 2
    ∷ op "NOP" imp 1
    ∷ op "BIT" zpx 2
    ∷ op "AND" zpx 2
    ∷ op "ROL" zpx 2
    ∷ op "RMB3" zp 2
    ∷ op "SEC" imp 1
    ∷ op "AND" absy 3
    ∷ op "DEC" acc 1
    ∷ op "NOP" imp 1
    ∷ op "BIT" absx 3
    ∷ op "AND" absx 3
    ∷ op "ROL" absx 3
    ∷ op "BBR3" zprel 3
    ∷ []

abbrev page_4 : List Opcode
page_4 =
    op "RTI" imp 1
    ∷ op "EOR" indx 2
    ∷ op "NOP" imm 2
    ∷ op "NOP" imp 1
    ∷ op "NOP" zp 2
    ∷ op "EOR" zp 2
    ∷ op "LSR" zp 2
    ∷ op "RMB4" zp 2
    ∷ op "PHA" imp 1
    ∷ op "EOR" imm 2
    ∷ op "LSR" acc 1
    ∷ op "NOP" imp 1
    ∷ op "JMP" abs 3
    ∷ op "EOR" abs 3
    ∷ op "LSR" abs 3
    ∷ op "BBR4" zprel 3
    ∷ []

abbrev page_5 : List Opcode
page_5 =
    op "BVC" rel 2
    ∷ op "EOR" indy 2
    ∷ op "EOR" zpi 2
    ∷ op "NOP" imp 1
    ∷ op "NOP" zpx 2
    ∷ op "EOR" zpx 2
    ∷ op "LSR" zpx 2
    ∷ op "RMB5" zp 2
    ∷ op "CLI" imp 1
    ∷ op "EOR" absy 3
    ∷ op "PHY" imp 1
    ∷ op "NOP" imp 1
    ∷ op "NOP" abs 3
    ∷ op "EOR" absx 3
    ∷ op "LSR" absx 3
    ∷ op "BBR5" zprel 3
    ∷ []

abbrev page_6 : List Opcode
page_6 =
    op "RTS" imp 1
    ∷ op "ADC" indx 2
    ∷ op "NOP" imm 2
    ∷ op "NOP" imp 1
    ∷ op "STZ" zp 2
    ∷ op "ADC" zp 2
    ∷ op "ROR" zp 2
    ∷ op "RMB6" zp 2
    ∷ op "PLA" imp 1
    ∷ op "ADC" imm 2
    ∷ op "ROR" acc 1
    ∷ op "NOP" imp 1
    ∷ op "JMP" ind 3
    ∷ op "ADC" abs 3
    ∷ op "ROR" abs 3
    ∷ op "BBR6" zprel 3
    ∷ []

abbrev page_7 : List Opcode
page_7 =
    op "BVS" rel 2
    ∷ op "ADC" indy 2
    ∷ op "ADC" zpi 2
    ∷ op "NOP" imp 1
    ∷ op "STZ" zpx 2
    ∷ op "ADC" zpx 2
    ∷ op "ROR" zpx 2
    ∷ op "RMB7" zp 2
    ∷ op "SEI" imp 1
    ∷ op "ADC" absy 3
    ∷ op "PLY" imp 1
    ∷ op "NOP" imp 1
    ∷ op "JMP" absxi 3
    ∷ op "ADC" absx 3
    ∷ op "ROR" absx 3
    ∷ op "BBR7" zprel 3
    ∷ []

abbrev pub low_half : List Opcode
low_half =
    page_0 ++ (page_1 ++ (page_2 ++ (page_3 ++ (page_4 ++ (page_5 ++ (page_6 ++ (page_7)))))))
