-- ===== src/Kernel/Entry/Writes.antt =====
-- Writes of the user and of the kernel, as changes of the RAM.
use bb6502_verilog.Common.{ℕ, ◌+◌, ◌*◌, ◌^◌, ◌<◌, ◌≡◌, refl, true, lt→ltb, ltb, arith}
use bb6502_verilog.Common.Bits.{low_bits}
use bb6502_verilog.Machine.Mmu.{update, ram_addr, vpn, is_ctrl, write_ctrl}
use bb6502_verilog.Machine.Bus.{Machine, bus_write}
use bb6502_verilog.Kernel.UserMemory.Translate.{in_user}
use bb6502_verilog.Kernel.Entry.{in_kernel}

-- The machine with one cell of the RAM changed.
abbrev pub poke : (a v : ℕ) → Machine → Machine
poke a v m = record m { ram = update m.ram a v }

-- Where the user's page 0 lies in the RAM.
abbrev pub low_page : Machine → ℕ → ℕ
low_page m off = m.mmu.ppn 0 * 2 ^ 10 + off

pub user_write :
    (a v : ℕ) (m : Machine)
    → a < 2 ^ 10
    → bus_write a v (in_user m) ≡ in_user (poke (low_page m a) v m)
unfolding bus_write ram_addr
user_write a v m h =
    let low : ltb a 0x8000 ≡ true = lt→ltb a 0x8000 (omega arith) in
    let page : vpn a ≡ 0 = omega arith in
    let same : low_bits a 10 ≡ a = omega arith in rw (low, page, same) refl

pub kernel_write :
    (a v : ℕ) (m : Machine) → a < 2 ^ 15 → bus_write a v (in_kernel m) ≡ in_kernel (poke a v m)
unfolding bus_write ram_addr
kernel_write a v m h =
    let low : ltb a 0x8000 ≡ true = lt→ltb a 0x8000 h in
    let same : vpn a * 2 ^ 10 + low_bits a 10 ≡ a = omega arith in rw (low, same) refl

pub leave_lem : (m : Machine) → bus_write 0x80a8 0 (in_kernel m) ≡ in_user m
unfolding bus_write is_ctrl write_ctrl
leave_lem m = refl
