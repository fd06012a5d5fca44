-- ===== src/Debug/Dump.antt =====
-- rtl/dbg/debugger.c: dbgShowMem and dbgPrintRegisters.
pub mod Range
use bb6502_verilog.Common.{
  ℕ, zero, suc, ◌+◌, ◌-◌, ◌%◌, ◌||◌, none, some, List, [], ◌∷◌, ◌++◌, flatten, ltb, ◌==◌,
  if◌then◌else◌,
}
use bb6502_verilog.Common.Bits.{u16, bit}
use bb6502_verilog.Clib.Chars.{text}
use bb6502_verilog.Clib.Format.{hex4_upper, hex2_upper, hex4, hex2, dec2}
use bb6502_verilog.Debug.State.{Debugger, echo}
use bb6502_verilog.Debug.Sim.{sim_read_mem, sim_mmu_is_kernel, sim_mmu_ppn}

-- The `for` over the offsets of a row, with its `break`: the addresses that it shows. `n` rounds are
-- left, from `offset` on.
unfoldable pub row : (n offset addr endaddr : ℕ) → List ℕ
row zero offset addr endaddr = []
row (suc n) offset addr endaddr =
    let cur = u16 (addr + offset) in
    let rest = row n (offset + 1) addr endaddr in
    if ltb cur addr || ltb endaddr cur then [] else cur ∷ rest

-- The `while (1)` of dbgShowMem: each row's address and the addresses in it. A range of 16-bit
-- addresses has at most 4096 rows.
unfoldable pub rows : (fuel addr endaddr : ℕ) → List (ℕ × List ℕ)
rows zero addr endaddr = []
rows (suc f) addr endaddr =
    let this = row 16 0 addr endaddr in
    let rest = rows f (u16 (addr + 16)) endaddr in
    if ltb endaddr 16 || ltb (endaddr - 16) addr then (addr, this) ∷ [] else (addr, this) ∷ rest

-- One byte of a row: `..` for the I/O window, which is not read.
unfoldable pub show_byte : Debugger → ℕ → List ℕ
show_byte d cur = elim (sim_read_mem d.world.machine cur) [
  | none ↦ text ".. "
  | some v ↦ hex2_upper v ++ text " "
]

unfoldable pub show_bytes : Debugger → List ℕ → List ℕ
show_bytes d [] = []
show_bytes d (cur ∷ rest) = show_byte d cur ++ show_bytes d rest

unfoldable pub show_rows : Debugger → List (ℕ × List ℕ) → List ℕ
show_rows d [] = []
show_rows d ((addr, cells) ∷ rest) =
    hex4_upper addr ++ (text ": " ++ (show_bytes d cells ++ (text "\n" ++ show_rows d rest)))

abbrev pub max_rows : ℕ
max_rows = 4096

-- dbgShowMem
unfoldable pub show_mem : ℕ → ℕ → Debugger → Debugger
show_mem startaddr endaddr d = echo (show_rows d (rows max_rows startaddr endaddr)) d

-- "NV-BDIZC" from bit 7 down, a dot where the flag is clear.
unfoldable pub flag_letters : (p i : ℕ) → List ℕ → List ℕ
flag_letters p i [] = []
flag_letters p i (c ∷ cs) = (if bit p (7 - i) == 1 then c else b'.') ∷ flag_letters p (i + 1) cs

-- The page table from entry i on, `n` entries, with a heading before every eighth.
unfoldable pub page_list : (n i : ℕ) → Debugger → List ℕ
page_list zero i d = []
page_list (suc n) i d =
    (if i % 8 == 0
      then (if i == 0 then text " " else text "  ")
        ++ (text "[" ++ (dec2 i ++ (text ".." ++ (dec2 (i + 7) ++ text "]"))))
      else [])
    ++ (text " " ++ (dec2 (sim_mmu_ppn d.world.machine i) ++ page_list n (i + 1) d))

-- dbgPrintRegisters
unfoldable pub print_registers : Debugger → Debugger
print_registers d =
    let r = d.world.regs in
    echo
      (flatten (
        text "PC="
        ∷ hex4 d.pc
        ∷ text " SP="
        ∷ hex2 r.sp
        ∷ text " A="
        ∷ hex2 r.a
        ∷ text " X="
        ∷ hex2 r.x
        ∷ text " Y="
        ∷ hex2 r.y
        ∷ text " status="
        ∷ hex2 r.p
        ∷ text "\nflags="
        ∷ flag_letters r.p 0 (text "NV-BDIZC")
        ∷ text "  MMU="
        ∷ (if sim_mmu_is_kernel d.world.machine then text "kernel" else text "user")
        ∷ text "\nPPN"
        ∷ page_list 32 0 d
        ∷ text "\n"
        ∷ []))
      d
