-- ===== src/Programs/Calls.antt =====
-- What a system call leaves as it was for the program.
pub mod Stored
pub mod Output
pub mod Buffer
pub mod Blocks
pub mod Chain
pub mod Copy
pub mod Keys
use bb6502_verilog.Common.{ℕ, ◌+◌, ◌-◌, ◌/◌, ◌^◌, ◌<◌, ◌≡◌, inl, sym, ◌∙◌, ap, List, ◌++◌, arith}
use bb6502_verilog.Machine.Mmu.{Mmu, ram_addr, vpn}
use bb6502_verilog.Machine.Bus.{Machine, data_in}
use bb6502_verilog.Machine.Reads.{data_in-ram}
use bb6502_verilog.Kernel.UserMemory.Translate.{user, in_user}
use bb6502_verilog.Kernel.Console.Output.{Counts}
use bb6502_verilog.Kernel.Entry.{Cpu}
use bb6502_verilog.Kernel.Entry.Writes.{low_page}
use bb6502_verilog.Kernel.Entry.Stack.{IsUsable, IsCpu, IsAway, IsStub}
use bb6502_verilog.Kernel.Entry.Call.{Entered}

-- The RAM outside the kernel's first page and the user's page 0.
abbrev pub SameAway : Machine → (r r' : ℕ → ℕ) → Type 0
SameAway m r r' = (a : ℕ) → IsAway m (a / 2 ^ 10) → r' a ≡ r a

-- A program's machine.
pub record IsRunning (m : Machine) : Type 0 where
  pub usable : IsUsable m
  pub counts : Counts m

-- A call that writes `cs` on both ports.
pub record Wrote (cs : List ℕ) (m m' : Machine) : Type 0 where
  pub running : IsRunning m'
  pub mmu : m'.mmu ≡ m.mmu
  pub disk : m'.disk ≡ m.disk
  pub sent : m'.acia.sent ≡ m.acia.sent ++ cs
  pub gpu : m'.gpu_sent ≡ m.gpu_sent ++ cs
  pub away : SameAway m m.ram m'.ram

pub ram_addr-frame : (t : Mmu) (va : ℕ) → ram_addr (user t) va / 2 ^ 10 ≡ t.ppn (vpn va)
unfolding ram_addr
ram_addr-frame t va = omega arith

-- The program reads the same behind a call, in such a page.
pub data_in-away :
    (va : ℕ) (m m' : Machine)
    → va < 2 ^ 15
    → IsAway m (m.mmu.ppn (vpn va))
    → m'.mmu ≡ m.mmu
    → SameAway m m.ram m'.ram
    → data_in va (in_user m') ≡ data_in va (in_user m)
data_in-away va m m' low away mmu same =
    let frame = ram_addr-frame m.mmu va in
    let there : IsAway m (ram_addr (user m.mmu) va / 2 ^ 10) = rw frame away in
    data_in-ram (in_user m') va low
    ∙ ap (λ t. m'.ram (ram_addr (user t) va)) mmu
    ∙ same (ram_addr (user m.mmu) va) there
    ∙ sym (data_in-ram (in_user m) va low)

pub IsStub-kept :
    (n pc : ℕ) (m m' : Machine)
    → pc + 1 < 2 ^ 15
    → m'.mmu ≡ m.mmu
    → SameAway m m.ram m'.ram
    → IsStub n pc m
    → IsStub n pc m'
IsStub-kept n pc m m' low mmu same stub = record {
  number = data_in-away (pc + 1) m m' low stub.page mmu same ∙ stub.number;
  page = rw mmu stub.page;
}

-- What the handler finds is what the stub left, but for the stack and the kernel's first page.
pub Entered-away :
    (n : ℕ) (c : Cpu) (m : Machine) (r : ℕ → ℕ) → IsCpu c → Entered n c m r → SameAway m m.ram r
Entered-away n c m r cpu entered a (kernel, own) =
    entered.kept a (omega (arith, kernel)) (ground (arith, own, cpu.sp_small, cpu.room))

-- The slots lie below the stack.
pub Entered-slot :
    (n : ℕ) (c : Cpu) (m : Machine) (r : ℕ → ℕ) (off : ℕ)
    → IsUsable m
    → Entered n c m r
    → off < 256
    → r (low_page m off) ≡ m.ram (low_page m off)
Entered-slot n c m r off usable entered h =
    entered.kept (low_page m off) (omega (arith, usable.own)) (inl (omega arith))
