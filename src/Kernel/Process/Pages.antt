-- ===== src/Kernel/Process/Pages.antt =====
-- The page table that spawn_bbx makes: blocks of 4 KB of physical RAM, in order from `base` on.
use bb6502_verilog.Common.{ℕ, ◌+◌, ◌*◌, ◌/◌, ◌%◌, ◌^◌, ◌<◌, ◌≡◌, ◌≢◌, false, arith, ◌∙◌, refl}
use bb6502_verilog.Common.Bits.{shr, shl, low_bits, u16, bit_or, bit_or-shifted}
use bb6502_verilog.Machine.Mmu.{Mmu, vpn, ram_addr}
use bb6502_verilog.Kernel.Process.{ppn_entry, phys}

pub ppn_entry_lem : (base i : ℕ) → ppn_entry base i ≡ (base + i / 4) % 8 * 4 + i % 4
unfolding ppn_entry
ppn_entry_lem base i =
    ground (arith, bit_or-shifted 2 (low_bits (base + shr i 2) 3) (low_bits i 2) (omega arith))

pub ram_addr-user :
    (m : Mmu) (va : ℕ) → m.kernel ≡ false → ram_addr m va ≡ m.ppn (vpn va) * 2 ^ 10 + low_bits va 10
unfolding ram_addr
ram_addr-user m va user = rw user refl

shifted_page :
    (p a : ℕ) → p < 32 → bit_or (u16 (shl p 10)) (low_bits a 10) ≡ p * 2 ^ 10 + low_bits a 10
shifted_page p a h = ground (arith, bit_or-shifted 10 p (low_bits a 10) (omega arith))

pub phys-block :
    (base va : ℕ) → phys (ppn_entry base) va ≡ (base + va / 4096) % 8 * 4096 + va % 4096
unfolding phys
phys-block base va =
    let entry = ppn_entry_lem base (shr va 10) in
    omega (arith, shifted_page (ppn_entry base (shr va 10)) va (omega (arith, entry)), entry)

-- An address of the new process lies in the 4 KB block of physical RAM that is as many blocks behind
-- `base` as its own 4 KB page number, modulo the 8 blocks there are, at the same offset; and it is
-- where the MMU takes it in user mode with the new page table.
pub phys-ram_addr :
    (base va : ℕ) (m : Mmu)
    → va < 2 ^ 15
    → m.kernel ≡ false
    → ((i : ℕ) → m.ppn i ≡ ppn_entry base i)
    → (phys (ppn_entry base) va ≡ (base + va / 4096) % 8 * 4096 + va % 4096)
      × (ram_addr m va ≡ phys (ppn_entry base) va)
phys-ram_addr base va m h user table = (phys-block base va, translated)
  where
    translated : ram_addr m va ≡ phys (ppn_entry base) va
    translated =
        let entry = ppn_entry_lem base (vpn va) in
        ram_addr-user m va user ∙ omega (arith, table (vpn va), entry, phys-block base va)

-- Two different addresses of one new process are never at the same place of the RAM.
pub phys-injective :
    (base va vb : ℕ)
    → va < 2 ^ 15
    → vb < 2 ^ 15
    → va ≢ vb
    → phys (ppn_entry base) va ≢ phys (ppn_entry base) vb
phys-injective base va vb h k differ e =
    differ (omega (arith, phys-block base va, phys-block base vb, e))
