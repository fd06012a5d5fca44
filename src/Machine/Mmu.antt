-- ===== src/Machine/Mmu.antt =====
-- rtl/mmu6502.v: translation, permission faults, control registers. Bit vectors are numbers; the
-- permission registers are kept as the four bytes each that software writes.
use bb6502_verilog.Common.{
  ℕ, ◌+◌, ◌-◌, ◌<◌, ◌*◌, ◌/◌, ◌%◌, ◌^◌, Bool, not, ◌&&◌, ◌||◌, ltb, ◌==◌, if◌then◌else◌,
}
use bb6502_verilog.Common.Bits.{shr, low_bits, bit}

pub record Mmu : Type 0 where
  pub ppn : ℕ → ℕ
  pub u_bits : ℕ → ℕ
  pub w_bits : ℕ → ℕ
  pub kernel : Bool

-- A register file with one entry written.
abbrev pub update : (ℕ → ℕ) → ℕ → ℕ → ℕ → ℕ
update f i v j = if i == j then v else f j

-- `addr[14:10]`
abbrev pub vpn : ℕ → ℕ
vpn addr = low_bits (shr addr 10) 5

-- `ram_addr = {kernel ? addr[14:10] : ppn[vpn], addr[9:0]}`
unfoldable pub ram_addr : Mmu → ℕ → ℕ
ram_addr m addr = (if m.kernel then vpn addr else m.ppn (vpn addr)) * 2 ^ 10 + low_bits addr 10

-- Bit `page` of a permission register.
unfoldable pub allows : (ℕ → ℕ) → ℕ → Bool
allows bits page = bit (bits (page / 8)) (page % 8) == 1

-- `fault_u | fault_w | fault_ctrl`
unfoldable pub is_ctrl : ℕ → Bool
is_ctrl addr = shr addr 6 == 0x202

unfoldable pub faults : Mmu → ℕ → (write : Bool) → Bool
unfolding allows is_ctrl
faults m addr write =
    (ltb addr 0x8000 && not m.kernel && not (allows m.u_bits (vpn addr)))
    || (ltb addr 0x8000 && not m.kernel && write && not (allows m.w_bits (vpn addr)))
    || (is_ctrl addr && not m.kernel && write)

-- A write to a control register by its offset from $8080, in kernel mode; `ppn` keeps 5 bits.
unfoldable pub write_ctrl : ℕ → ℕ → Mmu → Mmu
write_ctrl off v m =
    if ltb off 0x20
    then record m { ppn = update m.ppn off (low_bits v 5) }
    else if ltb off 0x24
    then record m { u_bits = update m.u_bits (off - 0x20) v }
    else if ltb off 0x28
    then record m { w_bits = update m.w_bits (off - 0x24) v }
    else if off == 0x28
    then record m { kernel = low_bits v 1 == 1 }
    else m

-- What a control register reads as.
unfoldable pub read_ctrl : ℕ → Mmu → ℕ
read_ctrl off m =
    if ltb off 0x20
    then m.ppn off
    else if ltb off 0x24
    then m.u_bits (off - 0x20)
    else if ltb off 0x28
    then m.w_bits (off - 0x24)
    else if off == 0x28
    then (if m.kernel then 1 else 0)
    else 0

-- `ppn` entries are 5 bits wide.
abbrev pub IsTable : (ℕ → ℕ) → Type 0
IsTable ppn = (i : ℕ) → ppn i < 32
