-- ===== src/Kernel/Entry/Number.antt =====
-- The number of a system call, as brk_handler finds it.
use bb6502_verilog.Common.{
  ℕ, ◌+◌, ◌-◌, ◌*◌, ◌/◌, ◌%◌, ◌^◌, ◌<◌, ◌≤◌, ◌≡◌, refl, ◌∙◌, ap, ◌==◌, if◌then◌else◌, arith,
}
use bb6502_verilog.Common.Bits.{shr, shl, low_bits, u8, u16, bit_or, bit_or-shifted}
use bb6502_verilog.Machine.Mmu.{IsTable, ram_addr, vpn}
use bb6502_verilog.Machine.Bus.{Machine, data_in, bus_write}
use bb6502_verilog.Machine.Ram.{data_in-kernel}
use bb6502_verilog.Kernel.UserMemory.{mmu_ppn}
use bb6502_verilog.Kernel.UserMemory.Translate.{user, mmu_ppn_lem}
use bb6502_verilog.Kernel.Entry.{
  in_kernel, set_frame_ptr, load_at, set_num_ptr, translate_num_ptr, fetch_number,
}
use bb6502_verilog.Kernel.Entry.Writes.{poke, kernel_write}

page_byte :
    (m : Machine) (n : ℕ)
    → IsTable m.mmu.ppn
    → n < 32
    → u8 (shl (data_in (0x8080 + n) (in_kernel m)) 2) ≡ m.mmu.ppn n * 2 ^ 2
unfolding mmu_ppn
page_byte m n table h =
    let entry = mmu_ppn_lem (in_kernel m) n h in rw entry (omega (arith, table n))

pub set_frame_ptr_lem :
    (sp : ℕ) (m : Machine)
    → IsTable m.mmu.ppn
    → set_frame_ptr sp (in_kernel m) ≡ in_kernel (poke 0x54 sp (poke 0x55 (m.mmu.ppn 0 * 4 + 1) m))
unfolding set_frame_ptr
set_frame_ptr_lem sp m table =
    let high : bit_or (u8 (shl (data_in 0x8080 (in_kernel m)) 2)) 1 ≡ m.mmu.ppn 0 * 4 + 1 =
      ap (λ b. bit_or b 1) (page_byte m 0 table (omega arith))
      ∙ bit_or-shifted 2 (m.mmu.ppn 0) 1 (omega arith) in
    ap (λ b. bus_write 0x54 sp (bus_write 0x55 b (in_kernel m))) high
    ∙ ap (bus_write 0x54 sp) (kernel_write 0x55 (m.mmu.ppn 0 * 4 + 1) m (omega arith))
    ∙ kernel_write 0x54 sp (poke 0x55 (m.mmu.ppn 0 * 4 + 1) m) (omega arith)

pub load_at_lem :
    (ptr y lo hi : ℕ) (m : Machine)
    → ptr + 1 < 2 ^ 15
    → m.ram ptr ≡ lo
    → m.ram (ptr + 1) ≡ hi
    → hi * 256 + lo + y < 2 ^ 15
    → load_at ptr y (in_kernel m) ≡ m.ram (hi * 256 + lo + y)
unfolding load_at
load_at_lem ptr y lo hi m h low high small =
    let l = data_in-kernel (in_kernel m) ptr refl (omega arith) ∙ low in
    let k = data_in-kernel (in_kernel m) (ptr + 1) refl h ∙ high in
    let short : u16 (hi * 256 + lo + y) ≡ hi * 256 + lo + y = omega arith in
    rw (l, k, short) (data_in-kernel (in_kernel m) (hi * 256 + lo + y) refl small)

-- The frame lies at `at`, and the saved address is `pc` + 2.
pub set_num_ptr_lem :
    (at pc : ℕ) (m : Machine)
    → m.ram 0x55 * 256 + m.ram 0x54 ≡ at
    → 2 ^ 10 ≤ at
    → at + 3 < 2 ^ 15
    → m.ram (at + 2) ≡ (pc + 2) % 256
    → m.ram (at + 3) ≡ (pc + 2) / 256 % 256
    → pc + 1 < 2 ^ 15
    → set_num_ptr (in_kernel m)
      ≡ in_kernel (poke 0x31 ((pc + 1) / 256) (poke 0x30 ((pc + 1) % 256) m))
unfolding set_num_ptr
set_num_ptr_lem at pc m ptr above below lo hi h =
    let low =
      load_at_lem 0x54 2 (m.ram 0x54) (m.ram 0x55) m (omega arith) refl refl (omega arith) in
    let m1 = poke 0x30 ((pc + 1) % 256) m in
    let high =
      load_at_lem 0x54 3 (m.ram 0x54) (m.ram 0x55) m1 (omega arith) refl refl (omega arith) in
    let pcl : load_at 0x54 2 (in_kernel m) ≡ (pc + 2) % 256 = rw ptr at low ∙ lo in
    let byte : u8 ((pc + 2) % 256 + 255) ≡ (pc + 1) % 256 = omega arith in
    let stored : bus_write 0x30 ((pc + 1) % 256) (in_kernel m) ≡ in_kernel m1 =
      kernel_write 0x30 ((pc + 1) % 256) m (omega arith) in
    let away : m1.ram (at + 3) ≡ m.ram (at + 3) = ground arith in
    let pch : load_at 0x54 3 (in_kernel m1) ≡ (pc + 2) / 256 % 256 = rw ptr at high ∙ away ∙ hi in
    let borrow : u8 ((pc + 2) / 256 % 256 + 256 - (if (pc + 2) % 256 == 0 then 1 else 0))
        ≡ (pc + 1) / 256 =
      ground arith in
    rw (pcl, byte, stored, pch, borrow) (kernel_write 0x31 ((pc + 1) / 256) m1 (omega arith))

translate_num_ptr_lem :
    (va : ℕ) (m : Machine)
    → IsTable m.mmu.ppn
    → m.ram 0x31 ≡ va / 256
    → va < 2 ^ 15
    → translate_num_ptr (in_kernel m)
      ≡ in_kernel (poke 0x31 (m.mmu.ppn (vpn va) * 4 + va / 256 % 4) (poke 0x31 (va / 256 % 4) m))
unfolding translate_num_ptr
translate_num_ptr_lem va m table high h =
    let byte = data_in-kernel (in_kernel m) 0x31 refl (omega arith) ∙ high in
    let page : low_bits (shr (va / 256) 2) 5 ≡ vpn va = omega arith in
    let m1 = poke 0x31 (va / 256 % 4) m in
    let cut : bus_write 0x31 (low_bits (va / 256) 2) (in_kernel m) ≡ in_kernel m1 =
      kernel_write 0x31 (low_bits (va / 256) 2) m (omega arith) in
    let again = data_in-kernel (in_kernel m1) 0x31 refl (omega arith) in
    let joined : bit_or (m.mmu.ppn (vpn va) * 2 ^ 2) (va / 256 % 4)
        ≡ m.mmu.ppn (vpn va) * 4 + va / 256 % 4 =
      bit_or-shifted 2 (m.mmu.ppn (vpn va)) (va / 256 % 4) (omega arith) in
    rw (byte, cut, page, page_byte m1 (vpn va) table (omega arith), again, joined)
      (kernel_write 0x31 (m.mmu.ppn (vpn va) * 4 + va / 256 % 4) m1 (omega arith))

fetch_number_lem :
    (va : ℕ) (m : Machine)
    → IsTable m.mmu.ppn
    → m.ram 0x30 ≡ va % 256
    → m.ram 0x31 ≡ m.mmu.ppn (vpn va) * 4 + va / 256 % 4
    → fetch_number (in_kernel m) ≡ in_kernel (poke 0x32 (m.ram (ram_addr (user m.mmu) va)) m)
unfolding fetch_number ram_addr
fetch_number_lem va m table low high =
    let frame = table (vpn va) in
    let at : (m.mmu.ppn (vpn va) * 4 + va / 256 % 4) * 256 + va % 256 + 0
        ≡ m.mmu.ppn (vpn va) * 2 ^ 10 + low_bits va 10 =
      omega arith in
    let byte = load_at_lem 0x30 0 _ _ m (omega arith) low high (omega arith) in
    rw (byte, at) (kernel_write 0x32 _ m (omega arith))

-- From a frame at `at` with the return address `pc` + 2, brk_handler puts the byte that the user has
-- at `pc` + 1 into $32, and changes no cell behind the kernel's first page.
pub number_stored :
    (at pc : ℕ) (m : Machine)
    → IsTable m.mmu.ppn
    → m.ram 0x55 * 256 + m.ram 0x54 ≡ at
    → 2 ^ 10 ≤ at
    → at + 3 < 2 ^ 15
    → m.ram (at + 2) ≡ (pc + 2) % 256
    → m.ram (at + 3) ≡ (pc + 2) / 256 % 256
    → pc + 1 < 2 ^ 15
    → 2 ^ 10 ≤ ram_addr (user m.mmu) (pc + 1)
    → ((i : ℕ) → m.ram i < 256)
    → (r : ℕ → ℕ) × (fetch_number (translate_num_ptr (set_num_ptr (in_kernel m)))
        ≡ in_kernel (record m { ram = r }))
      × (r 0x32 ≡ m.ram (ram_addr (user m.mmu) (pc + 1)))
      × ((a : ℕ) → 2 ^ 10 ≤ a → r a ≡ m.ram a)
      × ((i : ℕ) → r i < 256)
number_stored at pc m table ptr above below lo hi h code bytes =
    let va = pc + 1 in
    let m1 = poke 0x31 (va / 256) (poke 0x30 (va % 256) m) in
    let m2 = poke 0x31 (m.mmu.ppn (vpn va) * 4 + va / 256 % 4) (poke 0x31 (va / 256 % 4) m1) in
    let m3 = poke 0x32 (m2.ram (ram_addr (user m.mmu) va)) m2 in
    (
      m3.ram,
      ap (λ x. fetch_number (translate_num_ptr x)) (set_num_ptr_lem at pc m ptr above below lo hi h)
          ∙ ap fetch_number (translate_num_ptr_lem va m1 table refl h)
          ∙ fetch_number_lem va m2 table refl refl,
      ground arith,
      λ a big. ground arith,
      λ i. ground (arith, bytes i, bytes (ram_addr (user m.mmu) va), table (vpn va)),
    )
