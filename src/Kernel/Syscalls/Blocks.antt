-- ===== src/Kernel/Syscalls/Blocks.antt =====
-- do_block_read and do_block_write, as the user's program sees them.
use bb6502_verilog.Common.{
  ℕ, ◌+◌, ◌-◌, ◌*◌, ◌^◌, ◌%◌, ◌<◌, ◌≤◌, ◌≡◌, ◌≢◌, refl, sym, ◌∙◌, ap, some, none, arith,
}
use bb6502_verilog.Common.Bits.{u32}
use bb6502_verilog.Machine.Mmu.{ram_addr, vpn, update}
use bb6502_verilog.Machine.Bus.{Machine, Disk, data_in}
use bb6502_verilog.Machine.Reads.{data_in-ram}
use bb6502_verilog.Kernel.UserMemory.Translate.{user, in_user, u_ptr-ram_addr, data_in-user}
use bb6502_verilog.Kernel.UserMemory.Place.{place_add, place_low, place_apart}
use bb6502_verilog.Kernel.Block.{block_read, block_write}
use bb6502_verilog.Kernel.Block.Read.{block_read_lem, block_read_err}
use bb6502_verilog.Kernel.Block.Write.{block_write-stores}
use bb6502_verilog.Kernel.Syscalls.{
  Env, off_ret, off_arg0_lo, off_arg0_hi, off_arg1_lo, off_arg1_hi, store_ret, do_block_read,
  do_block_write, syscall_dispatch,
}
use bb6502_verilog.Kernel.Syscalls.Slots.{
  InCall, slot, with_slot, set_slot_lem, number_lem, user_arg, user_word,
}

-- What the user's program passes: a block number, and the address of a buffer within a page.
pub record IsBlockCall (lba va : ℕ) (m : Machine) : Type 0 where
  pub call : InCall m
  pub arg0 : data_in off_arg0_hi (in_user m) * 2 ^ 8 + data_in off_arg0_lo (in_user m) ≡ lba
  pub arg1 : data_in off_arg1_hi (in_user m) * 2 ^ 8 + data_in off_arg1_lo (in_user m) ≡ va
  pub low : va < 2 ^ 15
  pub page : va % 2 ^ 10 + 512 ≤ 2 ^ 10
  pub old_lba : m.disk.lba < 2 ^ 32

lba_small : (lba va : ℕ) (m : Machine) → IsBlockCall lba va m → lba < 2 ^ 16
lba_small lba va m b =
    user_word m off_arg0_lo off_arg0_hi lba b.call (omega arith) (omega arith) b.arg0

-- The buffer in the RAM.
abbrev pub frame : ℕ → Machine → ℕ
frame va m = ram_addr (user m.mmu) va

pub frame_low : (lba va : ℕ) (m : Machine) → IsBlockCall lba va m → frame va m + 512 ≤ 2 ^ 15
frame_low lba va m b = place_low m.mmu va 512 b.call.table b.page

frame_from : (va : ℕ) (m : Machine) → 4 ≤ m.mmu.ppn (vpn va) → 0x1000 ≤ frame va m
unfolding ram_addr
frame_from va m h = omega arith

pub do_block_read-args :
    (env : Env) (lba va : ℕ) (m : Machine)
    → IsBlockCall lba va m
    → do_block_read env m ≡ store_ret (block_read env.zero_page lba (frame va m) m)
unfolding do_block_read
do_block_read-args env lba va m b =
    let lba_arg =
      user_arg m off_arg0_lo off_arg0_hi lba b.call (omega arith) (omega arith) b.arg0 in
    let va_arg = user_arg m off_arg1_lo off_arg1_hi va b.call (omega arith) (omega arith) b.arg1 in
    rw (lba_arg, va_arg, u_ptr-ram_addr m va b.call.table) refl

pub do_block_write-args :
    (lba va : ℕ) (m : Machine)
    → IsBlockCall lba va m
    → do_block_write m ≡ store_ret (block_write lba (frame va m) m)
unfolding do_block_write
do_block_write-args lba va m b =
    let lba_arg =
      user_arg m off_arg0_lo off_arg0_hi lba b.call (omega arith) (omega arith) b.arg0 in
    let va_arg = user_arg m off_arg1_lo off_arg1_hi va b.call (omega arith) (omega arith) b.arg1 in
    rw (lba_arg, va_arg, u_ptr-ram_addr m va b.call.table) refl

pub store_ret_lem :
    (r : ℕ) (m m1 : Machine)
    → InCall m
    → m1.mmu ≡ m.mmu
    → store_ret (some (r, m1)) ≡ some (with_slot off_ret r m1)
unfolding store_ret
store_ret_lem r m m1 call mmu =
    ap some (set_slot_lem off_ret r m1 (rw mmu call.kernel) (rw mmu call.table) (omega arith))

pub dispatch-read :
    (env : Env) (m : Machine)
    → InCall m
    → m.ram 0x32 ≡ 5
    → syscall_dispatch env m ≡ do_block_read env m
unfolding syscall_dispatch
dispatch-read env m call number = rw (number_lem m 5 call number) refl

pub dispatch-write :
    (env : Env) (m : Machine)
    → InCall m
    → m.ram 0x32 ≡ 6
    → syscall_dispatch env m ≡ do_block_write m
unfolding syscall_dispatch
dispatch-write env m call number = rw (number_lem m 6 call number) refl

-- A byte of the buffer, as the user reads it behind the call.
buffer_byte :
    (lba va i : ℕ) (img r : ℕ → ℕ) (d : Disk) (m : Machine)
    → IsBlockCall lba va m
    → i < 512
    → m.mmu.ppn (vpn va) ≢ m.mmu.ppn 0
    → r (ram_addr (user m.mmu) va + i) ≡ img (u32 (lba * 512) + i)
    → data_in (va + i) (in_user (with_slot off_ret 0 (record m { ram = r; disk = d })))
      ≡ img (lba * 512 + i)
buffer_byte lba va i img r d m b h apart cell =
    let m' = with_slot off_ret 0 (record m { ram = r; disk = d }) in
    let place = place_add m.mmu va i (omega (arith, b.page)) in
    let other = place_apart m.mmu va i off_ret apart (omega (arith, b.page)) (omega arith) in
    let word = user_word m off_arg0_lo off_arg0_hi lba b.call (omega arith) (omega arith) b.arg0 in
    data_in-ram (in_user m') (va + i) (omega (arith, b.page, b.low))
    ∙ ap m'.ram place
    ∙ ground (arith, other)
    ∙ cell
    ∙ ap img (omega arith)

-- With a disk image, SYS_BLOCK_READ of a block into a buffer within a page of the user's memory, whose
-- frame is one of 4 to 27 (the kernel has the four below and the four above) and not that of the zero
-- page, returns: the user reads the 512 bytes of the block of the image in the buffer, and 0 in the
-- RET slot, and the MMU is as it was.
pub syscall_dispatch-block_read :
    (env : Env) (m : Machine) (lba va : ℕ) (img : ℕ → ℕ)
    → IsBlockCall lba va m
    → m.ram 0x32 ≡ 5
    → m.disk.image ≡ some img
    → m.mmu.ppn (vpn va) ≢ m.mmu.ppn 0
    → 4 ≤ m.mmu.ppn (vpn va)
    → m.mmu.ppn (vpn va) < 28
    → (m' : Machine) × (syscall_dispatch env m ≡ some m')
      × ((i : ℕ) → i < 512 → data_in (va + i) (in_user m') ≡ img (lba * 512 + i))
      × (data_in off_ret (in_user m') ≡ 0)
      × (m'.mmu ≡ m.mmu)
syscall_dispatch-block_read env m lba va img b number disk apart from top =
    let buf = frame va m in
    let above : 0x1000 ≤ buf = frame_from va m from in
    let (r, d, read, image, at, cells, variables) =
      block_read_lem env.zero_page lba buf img m b.call.kernel disk
        (omega (arith, lba_small lba va m b)) b.old_lba (omega arith) (frame_low lba va m b) in
    let m' = with_slot off_ret 0 (record m { ram = r; disk = d }) in
    (
      m',
      dispatch-read env m b.call number
          ∙ do_block_read-args env lba va m b
          ∙ ap store_ret read
          ∙ store_ret_lem 0 m (record m { ram = r; disk = d }) b.call refl,
      λ i h.
          let same : buf + i - buf ≡ i = omega arith in
          let cell = rw same at (cells (buf + i) (omega arith)) in
          buffer_byte lba va i img r d m b h apart (cell ∙ ground arith),
      data_in-user m' off_ret (omega arith) ∙ ground arith,
      refl,
    )

-- Without a disk image SYS_BLOCK_READ returns, and the user reads 1 in the RET slot; no other cell of
-- the RAM has changed.
pub syscall_dispatch-block_read_fails :
    (env : Env) (m : Machine) (lba va : ℕ)
    → IsBlockCall lba va m
    → m.ram 0x32 ≡ 5
    → m.disk.image ≡ none
    → (m' : Machine) × (syscall_dispatch env m ≡ some m')
      × (data_in off_ret (in_user m') ≡ 1)
      × (m'.ram ≡ update m.ram (slot m off_ret) 1)
syscall_dispatch-block_read_fails env m lba va b number closed =
    let (d, read) =
      block_read_err env.zero_page lba (frame va m) m closed (omega (arith, lba_small lba va m b))
        b.old_lba in
    let m' = with_slot off_ret 1 (record m { disk = d }) in
    (
      m',
      dispatch-read env m b.call number
          ∙ do_block_read-args env lba va m b
          ∙ ap store_ret read
          ∙ store_ret_lem 1 m (record m { disk = d }) b.call refl,
      data_in-user m' off_ret (omega arith) ∙ ground arith,
      refl,
    )

-- With a disk image, SYS_BLOCK_WRITE of a buffer within a page of the user's memory returns: the block
-- of the image holds the 512 bytes that the user reads in the buffer, every other byte of the image
-- is as it was, and the user reads 0 in the RET slot.
pub syscall_dispatch-block_write :
    (env : Env) (m : Machine) (lba va : ℕ) (img : ℕ → ℕ)
    → IsBlockCall lba va m
    → m.ram 0x32 ≡ 6
    → m.disk.image ≡ some img
    → (m' : Machine) × (img' : ℕ → ℕ) × (syscall_dispatch env m ≡ some m')
      × (m'.disk.image ≡ some img')
      × ((i : ℕ) → i < 512 → img' (lba * 512 + i) ≡ data_in (va + i) (in_user m))
      × ((a : ℕ) → a < lba * 512 → img' a ≡ img a)
      × ((a : ℕ) → lba * 512 + 512 ≤ a → img' a ≡ img a)
      × (data_in off_ret (in_user m') ≡ 0)
syscall_dispatch-block_write env m lba va img b number disk =
    let small = lba_small lba va m b in
    let (m1, img1, wrote, image, ram, mmu, at, bytes) =
      block_write-stores lba (frame va m) img m b.call.kernel disk (omega arith) b.old_lba
        (frame_low lba va m b) in
    let m' = with_slot off_ret 0 m1 in
    let short : u32 (lba * 512) ≡ lba * 512 = omega arith in
    let cells = rw short at bytes in
    (
      m',
      img1,
      dispatch-write env m b.call number
          ∙ do_block_write-args lba va m b
          ∙ ap store_ret wrote
          ∙ store_ret_lem 0 m m1 b.call mmu,
      image,
      λ i h.
          let same : lba * 512 + i - lba * 512 ≡ i = omega arith in
          let place = place_add m.mmu va i (omega (arith, b.page)) in
          let cell = rw same at (cells (lba * 512 + i)) in
          cell
          ∙ ground arith
          ∙ sym (data_in-ram (in_user m) (va + i) (omega (arith, b.page, b.low)) ∙ ap m.ram place),
      λ a h. cells a ∙ ground arith,
      λ a h. cells a ∙ ground arith,
      data_in-user m' off_ret (omega arith) ∙ ground arith,
    )
