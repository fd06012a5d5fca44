-- ===== src/Debug/Opcodes/High.antt =====
-- rtl/dbg/debugger.h: the rows of the opcode table from $80 to $FF.
use bb6502_verilog.Common.{List, [], ◌∷◌, ◌++◌}
use bb6502_verilog.Debug.Opcodes.Entry.{
  Opcode, op, abs, absx, absy, imm, imp, indx, indy, rel, zp, zpi, zprel, zpx, zpy,
}

abbrev page_8 : List Opcode
page_8 =
    op "BRA" rel 2
    ∷ op "STA" indx 2
    ∷ op "NOP" imm 2
    ∷ op "NOP" imp 1
    ∷ op "STY" zp 2
    ∷ op "STA" zp 2
    ∷ op "STX" zp 2
    ∷ op "SMB0" zp 2
    ∷ op "DEY" imp 1
    ∷ op "BIT" imm 2
    ∷ op "TXA" imp 1
    ∷ op "NOP" imp 1
    ∷ op "STY" abs 3
    ∷ op "STA" abs 3
    ∷ op "STX" abs 3
    ∷ op "BBS0" zprel 3
    ∷ []

abbrev page_9 : List Opcode
page_9 =
    op "BCC" rel 2
    ∷ op "STA" indy 2
    ∷ op "STA" zpi 2
    ∷ op "NOP" imp 1
    ∷ op "STY" zpx 2
    ∷ op "STA" zpx 2
    ∷ op "STX" zpy 2
    ∷ op "SMB1" zp 2
    ∷ op "TYA" imp 1
    ∷ op "STA" absy 3
    ∷ op "TXS" imp 1
    ∷ op "NOP" imp 1
    ∷ op "STZ" abs 3
    ∷ op "STA" absx 3
    ∷ op "STZ" absx 3
    ∷ op "BBS1" zprel 3
    ∷ []

abbrev page_a : List Opcode
page_a =
    op "LDY" imm 2
    ∷ op "LDA" indx 2
    ∷ op "LDX" imm 2
    ∷ op "NOP" imp 1
    ∷ op "LDY" zp 2
    ∷ op "LDA" zp 2
    ∷ op "LDX" zp 2
    ∷ op "SMB2" zp 2
    ∷ op "TAY" imp 1
    ∷ op "LDA" imm 2
    ∷ op "TAX" imp 1
    ∷ op "NOP" imp 1
    ∷ op "LDY" abs 3
    ∷ op "LDA" abs 3
    ∷ op "LDX" abs 3
    ∷ op "BBS2" zprel 3
    ∷ []

abbrev page_b : List Opcode
page_b =
    op "BCS" rel 2
    ∷ op "LDA" indy 2
    ∷ op "LDA" zpi 2
    ∷ op "NOP" imp 1
    ∷ op "LDY" zpx 2
    ∷ op "LDA" zpx 2
    ∷ op "LDX" zpy 2
    ∷ op "SMB3" zp 2
    ∷ op "CLV" imp 1
    ∷ op "LDA" absy 3
    ∷ op "TSX" imp 1
    ∷ op "NOP" imp 1
    ∷ op "LDY" absx 3
    ∷ op "LDA" absx 3
    ∷ op "LDX" absy 3
    ∷ op "BBS3" zprel 3
    ∷ []

abbrev page_c : List Opcode
page_c =
    op "CPY" imm 2
    ∷ op "CMP" indx 2
    ∷ op "NOP" imm 2
    ∷ op "NOP" imp 1
    ∷ op "CPY" zp 2
    ∷ op "CMP" zp 2
    ∷ op "DEC" zp 2
    ∷ op "SMB4" zp 2
    ∷ op "INY" imp 1
    ∷ op "CMP" imm 2
    ∷ op "DEX" imp 1
    ∷ op "WAI" imp 1
    ∷ op "CPY" abs 3
    ∷ op "CMP" abs 3
    ∷ op "DEC" abs 3
    ∷ op "BBS4" zprel 3
    ∷ []

abbrev page_d : List Opcode
page_d =
    op "BNE" rel 2
    ∷ op "CMP" indy 2
    ∷ op "CMP" zpi 2
    ∷ op "NOP" imp 1
    ∷ op "NOP" zpx 2
    ∷ op "CMP" zpx 2
    ∷ op "DEC" zpx 2
    ∷ op "SMB5" zp 2
    ∷ op "CLD" imp 1
    ∷ op "CMP" absy 3
    ∷ op "PHX" imp 1
    ∷ op "STP" imp 1
    ∷ op "NOP" abs 3
    ∷ op "CMP" absx 3
    ∷ op "DEC" absx 3
    ∷ op "BBS5" zprel 3
    ∷ []

abbrev page_e : List Opcode
page_e =
    op "CPX" imm 2
    ∷ op "SBC" indx 2
    ∷ op "NOP" imm 2
    ∷ op "NOP" imp 1
    ∷ op "CPX" zp 2
    ∷ op "SBC" zp 2
    ∷ op "INC" zp 2
    ∷ op "SMB6" zp 2
    ∷ op "INX" imp 1
    ∷ op "SBC" imm 2
    ∷ op "NOP" imp 1
    ∷ op "NOP" imp 1
    ∷ op "CPX" abs 3
    ∷ op "SBC" abs 3
    ∷ op "INC" abs 3
    ∷ op "BBS6" zprel 3
    ∷ []

abbrev page_f : List Opcode
page_f =
    op "BEQ" rel 2
    ∷ op "SBC" indy 2
    ∷ op "SBC" zpi 2
    ∷ op "NOP" imp 1
    ∷ op "NOP" zpx 2
    ∷ op "SBC" zpx 2
    ∷ op "INC" zpx 2
    ∷ op "SMB7" zp 2
    ∷ op "SED" imp 1
    ∷ op "SBC" absy 3
    ∷ op "PLX" imp 1
    ∷ op "NOP" imp 1
    ∷ op "NOP" abs 3
    ∷ op "SBC" absx 3
    ∷ op "INC" absx 3
    ∷ op "BBS7" zprel 3
    ∷ []

abbrev pub high_half : List Opcode
high_half =
    page_8 ++ (page_9 ++ (page_a ++ (page_b ++ (page_c ++ (page_d ++ (page_e ++ (page_f)))))))
