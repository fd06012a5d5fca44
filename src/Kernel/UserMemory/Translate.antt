-- ===== src/Kernel/UserMemory/Translate.antt =====
-- The kernel's translation of user addresses against that of the MMU.
use bb6502_verilog.Common.{ℕ, ◌+◌, ◌*◌, ◌^◌, ◌<◌, ◌≡◌, true, false, arith, ◌∙◌, ap, sym}
use bb6502_verilog.Common.Bits.{shr, shl, low_bits, u16, bit_or, bit_or-shifted, bit_or-low}
use bb6502_verilog.Machine.Mmu.{Mmu, IsTable, ram_addr, vpn, is_ctrl, read_ctrl}
use bb6502_verilog.Machine.Bus.{Machine, data_in}
use bb6502_verilog.Machine.Reads.{data_in-ram}
use bb6502_verilog.Machine.Ram.{data_in-kernel}
use bb6502_verilog.Kernel.UserMemory.{mmu_ppn, u_zp, u_ptr, u_arg}

-- The MMU as it was before the system call.
abbrev pub user : Mmu → Mmu
user m = record m { kernel = false }

pub mmu_ppn_lem : (m : Machine) (n : ℕ) → n < 32 → mmu_ppn m n ≡ m.mmu.ppn n
unfolding mmu_ppn data_in is_ctrl read_ctrl
mmu_ppn_lem m n h = ground arith

page_lem : (p a : ℕ) → p < 32 → bit_or (u16 (shl p 10)) (low_bits a 10) ≡ p * 2 ^ 10 + low_bits a 10
page_lem p a h = ground (arith, bit_or-shifted 10 p (low_bits a 10) (omega arith))

-- In the handler of a system call, with a page table of 5-bit pages, u_ptr gives the physical address
-- to which the MMU translates the user's address in user mode.
pub u_ptr-ram_addr :
    (m : Machine) (va : ℕ) → IsTable m.mmu.ppn → u_ptr m va ≡ ram_addr (user m.mmu) va
unfolding u_ptr ram_addr
u_ptr-ram_addr m va table =
    let page = low_bits (shr va 10) 5 in
    rw (mmu_ppn_lem m page (omega arith)) (page_lem (m.mmu.ppn page) va (table page))

pub u_zp_lem :
    (m : Machine) (off : ℕ)
    → IsTable m.mmu.ppn
    → off < 256
    → u_zp m off ≡ m.mmu.ppn 0 * 2 ^ 10 + off
unfolding u_zp
u_zp_lem m off table h =
    let low : low_bits off 10 ≡ off = omega arith in
    rw (mmu_ppn_lem m 0 (omega arith)) (
      ap (bit_or (u16 (shl (m.mmu.ppn 0) 10))) (sym low)
      ∙ page_lem (m.mmu.ppn 0) off (table 0)
      ∙ omega arith)

-- The machine as it was before the system call.
abbrev pub in_user : Machine → Machine
in_user m = record m { mmu = user m.mmu }

pub data_in-user :
    (m : Machine) (off : ℕ)
    → off < 256
    → data_in off (in_user m) ≡ m.ram (m.mmu.ppn 0 * 2 ^ 10 + off)
unfolding ram_addr
data_in-user m off h =
    let page : vpn off ≡ 0 = omega arith in
    data_in-ram (in_user m) off (omega arith) ∙ ap m.ram (rw page (omega arith))

-- In the handler of a system call, in kernel mode with a page table of 5-bit pages and a RAM of
-- bytes, u_arg gives the word whose two bytes the user's program would read at its own zero-page
-- addresses, the low byte first.
pub u_arg-data_in :
    (m : Machine) (lo hi : ℕ)
    → m.mmu.kernel ≡ true
    → IsTable m.mmu.ppn
    → ((i : ℕ) → m.ram i < 256)
    → lo < 256
    → hi < 256
    → u_arg m lo hi ≡ data_in hi (in_user m) * 2 ^ 8 + data_in lo (in_user m)
unfolding u_arg
u_arg-data_in m lo hi k table bytes l h =
    rw (slot lo l, slot hi h)
      (ground (
        arith,
        bytes (m.mmu.ppn 0 * 2 ^ 10 + lo),
        bytes (m.mmu.ppn 0 * 2 ^ 10 + hi),
        bit_or-low 8 (m.ram (m.mmu.ppn 0 * 2 ^ 10 + hi)) (m.ram (m.mmu.ppn 0 * 2 ^ 10 + lo))
            (bytes _),
        data_in-user m lo l,
        data_in-user m hi h,
      ))
  where
    slot : (off : ℕ) → off < 256 → data_in (u_zp m off) m ≡ m.ram (m.mmu.ppn 0 * 2 ^ 10 + off)
    slot off small =
        let at = u_zp_lem m off table small in rw at (data_in-kernel m _ k (omega (arith, table 0)))
