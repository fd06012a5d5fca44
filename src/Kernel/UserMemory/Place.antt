-- ===== src/Kernel/UserMemory/Place.antt =====
-- Where a piece of a page of the user's memory lies in the RAM.
use bb6502_verilog.Common.{ℕ, ◌+◌, ◌*◌, ◌^◌, ◌%◌, ◌<◌, ◌≤◌, ◌≡◌, ◌≢◌, arith}
use bb6502_verilog.Machine.Mmu.{Mmu, IsTable, ram_addr, vpn}
use bb6502_verilog.Kernel.UserMemory.Translate.{user}

pub place_add :
    (m : Mmu) (va i : ℕ)
    → va % 2 ^ 10 + i < 2 ^ 10
    → ram_addr (user m) (va + i) ≡ ram_addr (user m) va + i
unfolding ram_addr
place_add m va i h = let page : vpn (va + i) ≡ vpn va = omega arith in rw page (omega arith)

pub place_low :
    (m : Mmu) (va n : ℕ)
    → IsTable m.ppn
    → va % 2 ^ 10 + n ≤ 2 ^ 10
    → ram_addr (user m) va + n ≤ 2 ^ 15
unfolding ram_addr
place_low m va n table h = let frame = table (vpn va) in omega arith

-- A page of the RAM other than that of the user's zero page does not hold its slots.
pub place_apart :
    (m : Mmu) (va i off : ℕ)
    → m.ppn (vpn va) ≢ m.ppn 0
    → va % 2 ^ 10 + i < 2 ^ 10
    → off < 256
    → m.ppn 0 * 2 ^ 10 + off ≢ ram_addr (user m) va + i
unfolding ram_addr
place_apart m va i off apart h small e = apart (omega arith)
