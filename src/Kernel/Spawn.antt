-- ===== src/Kernel/Spawn.antt =====
-- sw/kernel/src/proc.c: spawn_bbx.
pub mod Copy
pub mod Place
pub mod Load
pub mod Program
pub mod Entry
pub mod Started
pub mod Refused
use bb6502_verilog.Common.{
  ℕ, zero, suc, ◌+◌, ◌||◌, not, ◌==◌, leb, if◌then◌else◌, Option, some, List, set, get_or,
}
use bb6502_verilog.Common.Bits.{shr, shl, u8, u16, u32, bit_or}
use bb6502_verilog.Common.Maybe.{◌>>=◌}
use bb6502_verilog.Clib.Chars.{text}
use bb6502_verilog.Machine.Mmu.{update}
use bb6502_verilog.Machine.Bus.{Machine, data_in, after_read, bus_write}
use bb6502_verilog.Kernel.ZeroPage.{ZeroPage, set_ptr, indirect, inc_high}
use bb6502_verilog.Kernel.Block.{block_read}
use bb6502_verilog.Kernel.Console.{k_print}
use bb6502_verilog.Kernel.Process.{Process, Table, waiting, ppn_entry, phys}

-- What the kernel's image fixes: the addresses of `block_buf` and of the pointers in the zero page,
-- which the linker places; and the clocks that a round of the serial port's wait takes.
pub record Image : Type 0 where
  pub zero_page : ZeroPage
  pub block_buf : ℕ
  pub clocks : ℕ

-- The loop of memcpy512.s within a page: n bytes from y on.
unfoldable pub copy_page : ZeroPage → (n y : ℕ) → Machine → Machine
copy_page z zero y m = m
copy_page z (suc n) y m =
    let a = indirect z.ptr1 y m in
    let m1 = after_read a m in
    copy_page z n (y + 1) (bus_write (indirect z.ptr2 y m1) (data_in a m) m1)

-- A page, and the two pointers to the next one.
unfoldable pub next_page : ZeroPage → Machine → Machine
next_page z m = inc_high z.ptr2 (inc_high z.ptr1 (copy_page z 256 0 m))

-- memcpy512
unfoldable pub memcpy512 : ZeroPage → (dst src : ℕ) → Machine → Machine
memcpy512 z dst src m = next_page z (next_page z (set_ptr z.ptr2 dst (set_ptr z.ptr1 src m)))

-- The loop over `p->mmu_ppn_table`, for the n entries from i on.
unfoldable pub fill_table : (n i base : ℕ) → (ℕ → ℕ) → ℕ → ℕ
fill_table zero i base ppn = ppn
fill_table (suc n) i base ppn = fill_table n (i + 1) base (update ppn i (ppn_entry base i))

abbrev pub too_many : List ℕ
unfolding text
too_many = text "spawn: too many procs\r\n"

abbrev pub read_fail : List ℕ
unfolding text
read_fail = text "spawn: read fail\r\n"

abbrev pub bad_magic : List ℕ
unfolding text
bad_magic = text "spawn: bad BBX magic\r\n"

-- `k_print(...); return code;`
unfoldable pub give_up : (clocks code : ℕ) → List ℕ → Machine → Option (ℕ × Machine)
give_up clocks code message m = k_print clocks message m >>= λ m'. some (code, m')

-- The read of block b, which the first round has behind it.
unfoldable pub fetch_block : Image → (lba b : ℕ) → Machine → Option (ℕ × Machine)
fetch_block im lba b m =
    if b == 0 then some (0, m) else block_read im.zero_page (u32 (lba + b)) im.block_buf m

-- `virt_addr`, with 16 bits.
abbrev pub virt_addr : ℕ → ℕ
virt_addr b = u16 (0x1000 + u16 (shl b 9))

-- The end of a round: the copy, or the return on a failed read.
unfoldable pub copy_block : Image → (dst : ℕ) → ℕ × Machine → Option (ℕ × Machine)
copy_block im dst (r, m) =
    if r == 0
    then some (0, memcpy512 im.zero_page dst im.block_buf m)
    else give_up im.clocks 1 read_fail m

-- The loop over the blocks from b on; the result is 0 when all are copied.
unfoldable pub load_blocks :
    Image → (ppn : ℕ → ℕ) → (lba rounds b : ℕ) → Machine → Option (ℕ × Machine)
load_blocks im ppn lba zero b m = some (0, m)
load_blocks im ppn lba (suc k) b m =
    fetch_block im lba b m >>= copy_block im (phys ppn (virt_addr b)) >>= λ p.
    let rest = load_blocks im ppn lba k (b + 1) p.1 in if p.0 == 0 then rest else some p

-- `block_buf[i]`
abbrev pub buf_byte : Image → ℕ → Machine → ℕ
buf_byte im i m = data_in (im.block_buf + i) m

-- `entry`
abbrev pub entry_of : Image → Machine → ℕ
entry_of im m = bit_or (buf_byte im 4 m) (u16 (shl (buf_byte im 5 m) 8))

-- The three bytes that the RTI of the first resume pulls.
unfoldable pub push_frame : (f entry : ℕ) → Machine → Machine
push_frame f entry m =
    bus_write (f + 2) (u8 (shr entry 8)) (bus_write (f + 1) (u8 entry) (bus_write f 0x20 m))

-- `f`
abbrev pub frame_addr : (ppn : ℕ → ℕ) → ℕ
frame_addr ppn = bit_or (u16 (shl (ppn 0) 10)) 0x01fd

-- What follows the loop, when no read failed.
unfoldable pub add_frame : (ppn : ℕ → ℕ) → (entry : ℕ) → ℕ × Machine → Option (ℕ × Machine)
add_frame ppn entry (r, m) = some (r, if r == 0 then push_frame (frame_addr ppn) entry m else m)

-- What follows the read of the first block: the test of the magic, the loop, and the frame.
unfoldable pub load_image :
    Image → (ppn : ℕ → ℕ) → (lba nblocks : ℕ) → ℕ × Machine → Option (ℕ × Machine)
load_image im ppn lba nblocks (r, m) =
    if not (r == 0)
    then give_up im.clocks 1 read_fail m
    else if not (buf_byte im 0 m == 0x42) || not (buf_byte im 1 m == 0x58)
    then give_up im.clocks 2 bad_magic m
    else (load_blocks im ppn lba nblocks 0 m >>= add_frame ppn (entry_of im m))

-- The kernel: the machine and the process table. The table's own place in the RAM is not modelled.
pub record System : Type 0 where
  pub machine : Machine
  pub table : Table

-- An entry of `plist` at the start.
abbrev pub unused : Process
unused = record { state = 0; exit_code = 0; lba = 0; nblocks = 0; sp = 0; mmu_ppn_table = λ _. 0 }

-- `plist[idx]`
abbrev pub process_at : Table → ℕ → Process
process_at t idx = get_or t.plist idx unused

-- The fields of `*p` that the end of spawn_bbx sets.
abbrev pub started : (lba nblocks : ℕ) → Process → Process
started lba nblocks p = record p {
  state = waiting;
  exit_code = 0;
  lba = u8 lba;
  nblocks = u8 nblocks;
  sp = 0xfc;
}

-- The end of spawn_bbx: the entry and the count, when the program is loaded.
unfoldable pub register : (lba nblocks : ℕ) → Table → ℕ × Machine → Option (ℕ × System)
register lba nblocks t (r, m) =
    let done = record t {
      plist = set t.plist t.nprocs (started lba nblocks (process_at t t.nprocs));
      nprocs = t.nprocs + 1;
    } in
    some (r, record { machine = m; table = if r == 0 then done else t })

-- `p->mmu_ppn_table` filled in.
abbrev pub with_table : (base : ℕ) → Table → Table
with_table base t =
    let p = process_at t t.nprocs in
    record t {
      plist =
          set t.plist t.nprocs (record p { mmu_ppn_table = fill_table 32 0 base p.mmu_ppn_table });
    }

-- spawn_bbx
unfoldable pub spawn_bbx : Image → (lba nblocks base : ℕ) → System → Option (ℕ × System)
spawn_bbx im lba nblocks base s =
    let t = with_table base s.table in
    let ppn = (process_at t t.nprocs).mmu_ppn_table in
    if leb 4 s.table.nprocs
    then (give_up im.clocks 1 too_many s.machine >>= λ p. some (p.0, record s { machine = p.1 }))
    else (block_read im.zero_page lba im.block_buf s.machine
        >>= load_image im ppn lba nblocks
        >>= register lba nblocks t)
