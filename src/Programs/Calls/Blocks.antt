-- ===== src/Programs/Calls/Blocks.antt =====
-- sys_block_read and sys_block_write.
use bb6502_verilog.Common.{
  ℕ, ◌+◌, ◌*◌, ◌/◌, ◌^◌, ◌<◌, ◌≡◌, ◌≢◌, ◌-◌, ◌&&◌, ◌≤◌, leb, ltb, if◌then◌else◌, true, refl, ◌∙◌,
  ap, ◌==◌, none, some, arith,
}
use bb6502_verilog.Common.Bits.{u32}
use bb6502_verilog.Common.Maybe.{◌>>=◌}
use bb6502_verilog.Machine.Mmu.{update}
use bb6502_verilog.Machine.Bus.{Machine, Disk, bus_write}
use bb6502_verilog.Machine.Reads.{data_in-ram}
use bb6502_verilog.Kernel.UserMemory.Translate.{in_user, data_in-user}
use bb6502_verilog.Kernel.UserMemory.Place.{place_add}
use bb6502_verilog.Kernel.Block.Read.{block_read_lem, block_read_err}
use bb6502_verilog.Kernel.Block.Write.{block_write_lem}
use bb6502_verilog.Kernel.Syscalls.{
  Env, off_ret, off_arg0_lo, off_arg0_hi, off_arg1_lo, off_arg1_hi, store_ret, syscall_dispatch,
}
use bb6502_verilog.Kernel.Syscalls.Blocks.{
  IsBlockCall, frame, frame_low, do_block_read-args, do_block_write-args, dispatch-write,
  dispatch-read, store_ret_lem,
}
use bb6502_verilog.Kernel.Entry.{Cpu, in_kernel, sys_call}
use bb6502_verilog.Kernel.Entry.Writes.{low_page}
use bb6502_verilog.Kernel.Entry.Stack.{IsCpu, IsAway, IsStub, frame_at}
use bb6502_verilog.Kernel.Entry.Call.{sys_call-dispatches, sys_call-returns}
use bb6502_verilog.Programs.Syslib.{
  sys_block_read_number, sys_block_write_number, sys_block_write, low_byte, high_byte, go_on,
  with_ret, sys_block_read,
}
use bb6502_verilog.Programs.Calls.{SameAway, IsRunning, IsStub-kept, Entered-away}
use bb6502_verilog.Programs.Calls.Stored.{with_ax}
use bb6502_verilog.Programs.Calls.Buffer.{
  IsBuffer, Read, filled, filled_lem, filled-away, filled-IsUsable, block_call_lem, frame_apart,
  buffer_from, After, after_lem, unread, buffer-IsAway,
}

-- The way back from a handler that has done so.
Read-back :
    (env : Env) (c : Cpu) (lba buf ret : ℕ) (bytes r r' : ℕ → ℕ) (d : Disk) (m : Machine)
    → IsRunning m
    → IsCpu c
    → IsBuffer buf m
    → (sys_call env c (in_user (filled lba buf m))
        ≡ some (c.pc + 2, in_user (record (filled lba buf m) { ram = r'; disk = d })))
    → SameAway m m.ram r
    → After buf ret bytes m r r'
    → (m' : Machine) × ((sys_call env c (in_user (filled lba buf m)) >>= go_on c.pc >>= with_ret)
        ≡ some (ret, in_user m'))
      × Read buf ret bytes m m'
      × (m'.disk ≡ d)
unfolding go_on
Read-back env c lba buf ret bytes r r' d m running cpu b called same after =
    let m' : Machine = record (filled lba buf m) { ram = r'; disk = d } in
    let next : (c.pc + 2 == c.pc + 2) ≡ true = ground arith in
    let result = data_in-user m' off_ret (omega arith) ∙ after.result in
    (
      m',
      rw (called, next, result) refl,
      record {
        running = record {
          usable = record {
            table = running.usable.table;
            bytes = after.small;
            own = running.usable.own;
          };
          counts = running.counts;
        };
        mmu = refl;
        sent = refl;
        gpu = refl;
        result = result;
        buffer = λ i h.
            data_in-ram (in_user m') (buf + i) (omega (arith, b.in_page, b.low))
            ∙ ap r' (place_add m.mmu buf i (omega (arith, b.in_page)))
            ∙ after.filled i h;
        away = λ a far out.
            let apart : low_page m off_ret ≢ a = λ e. far.1 (omega (arith, e)) in
            after.others a (omega (arith, far.0)) out apart ∙ same a far;
      },
      refl,
    )

-- The machine that the handler finds when the RAM is `r`.
abbrev handled : (lba buf : ℕ) → Machine → (ℕ → ℕ) → Machine
handled lba buf m r = in_kernel (record (filled lba buf m) { ram = r })

-- A stub of a block call whose handler ends with `ret`, leaves `bytes` in the buffer, and may change
-- the controller.
block_sys_call_lem :
    (env : Env) (c : Cpu) (n lba buf ret : ℕ) (bytes : ℕ → ℕ) (m : Machine) (P : Disk → Type 0)
    → IsRunning m
    → IsCpu c
    → IsStub n c.pc m
    → IsBuffer buf m
    → lba < 2 ^ 16
    → n ≢ 0
    → ret < 256
    → ((i : ℕ) → bytes i < 256)
    → ((r : ℕ → ℕ)
        → SameAway m m.ram r
        → r 0x32 ≡ n
        → IsBlockCall lba buf (handled lba buf m r)
        → (r1 : ℕ → ℕ) × (d : Disk) × (syscall_dispatch env (handled lba buf m r)
            ≡ store_ret (some (ret, record (handled lba buf m r) { ram = r1; disk = d })))
          × ((a : ℕ)
              → 0x20 ≤ a
              → r1 a ≡ (
                  if leb (frame buf m) a && ltb a (frame buf m + 512)
                  then bytes (a - frame buf m)
                  else r a))
          × ((a : ℕ) → a < 0x20 → r a < 256 → r1 a < 256)
          × P d)
    → (m' : Machine) × ((sys_call env
            (record c { a = low_byte lba; x = high_byte lba })
            (bus_write off_arg0_hi (high_byte lba) (
              bus_write off_arg0_lo (low_byte lba) (
                bus_write off_arg1_hi
                  (high_byte buf)
                  (bus_write off_arg1_lo (low_byte buf) (in_user m)))))
          >>= go_on c.pc
          >>= with_ret)
        ≡ some (ret, in_user m'))
      × Read buf ret bytes m m'
      × P m'.disk
block_sys_call_lem env c n lba buf ret bytes m P running cpu stub b small some_call low bytes_small
      handler =
    let m4 = filled lba buf m in
    let c1 : Cpu = record c { a = low_byte lba; x = high_byte lba } in
    let cpu1 = with_ax c (low_byte lba) (high_byte lba) (omega arith) (omega arith) cpu in
    let usable4 = filled-IsUsable lba buf m running.usable in
    let stub4 = IsStub-kept n c.pc m m4 cpu.pc_small refl (filled-away lba buf m) stub in
    let (r, called, entered) = sys_call-dispatches env n c1 m4 usable4 cpu1 stub4 some_call in
    let call = block_call_lem n lba buf c1 m r running.usable b small entered in
    let same = λ (a : ℕ) (far : IsAway m (a / 2 ^ 10)).
      Entered-away n c1 m4 r cpu1 entered a far ∙ filled-away lba buf m a far in
    let (r1, d, dispatched, cells, variables, holds) = handler r same entered.number call in
    let after = after_lem buf ret bytes r r1 m b bytes_small low entered.bytes cells variables in
    let r2 = update r1 (low_page m off_ret) ret in
    let m' : Machine = record m4 { ram = r2; disk = d } in
    let done : syscall_dispatch env (handled lba buf m r) ≡ some (in_kernel m') =
      dispatched
      ∙ store_ret_lem ret (handled lba buf m r)
          (record (handled lba buf m r) { ram = r1; disk = d }) call.call refl in
    let back = sys_call-returns env n c1 m4 m' r cpu1 called entered done refl λ k above high.
      after.others (frame_at c1 m4 + k) (omega (arith, running.usable.own))
        (frame_apart buf k c m b cpu high) (ground arith) in
    let (m6, result, what, kept) =
      Read-back env c1 lba buf ret bytes r r2 d m running cpu1 b back same after in
    (
      m6,
      ap (λ x. sys_call env c1 x >>= go_on c.pc >>= with_ret) (filled_lem lba buf m) ∙ result,
      what,
      rw kept holds,
    )

-- With a disk image of bytes, sys_block_read comes back with 0, and the program reads the 512 bytes of
-- the block in its buffer.
pub sys_block_read_lem :
    (env : Env) (c : Cpu) (lba buf : ℕ) (img : ℕ → ℕ) (m : Machine)
    → IsRunning m
    → IsCpu c
    → IsStub sys_block_read_number c.pc m
    → IsBuffer buf m
    → lba < 2 ^ 16
    → m.disk.image ≡ some img
    → ((i : ℕ) → img i < 256)
    → (m' : Machine) × (sys_block_read env c lba buf (in_user m) ≡ some (0, in_user m'))
      × Read buf 0 (λ i. img (lba * 512 + i)) m m'
unfolding sys_block_read
sys_block_read_lem env c lba buf img m running cpu stub b small disk bytes =
    let (m', came, what, _) =
      block_sys_call_lem env c sys_block_read_number lba buf 0 (λ i. img (lba * 512 + i)) m
        (λ d. Unit) running cpu stub b small (omega arith) (omega arith)
        (λ i. bytes (lba * 512 + i))
        λ r same number call.
          let m5 = handled lba buf m r in
          let (r1, d, read, image, at, cells, variables) =
            block_read_lem env.zero_page lba (frame buf m) img m5 refl disk (omega arith) b.old_lba
              (omega (arith, buffer_from buf m b)) (frame_low lba buf m5 call) in
          let short : u32 (lba * 512) ≡ lba * 512 = omega arith in
          (
            r1,
            d,
            dispatch-read env m5 call.call number
                ∙ do_block_read-args env lba buf m5 call
                ∙ ap store_ret read,
            rw short at cells,
            variables,
            tt,
          ) in
    (m', came, what)

-- Without a disk image it comes back with 1, and the buffer is as it was.
pub sys_block_read_fails :
    (env : Env) (c : Cpu) (lba buf : ℕ) (m : Machine)
    → IsRunning m
    → IsCpu c
    → IsStub sys_block_read_number c.pc m
    → IsBuffer buf m
    → lba < 2 ^ 16
    → m.disk.image ≡ none
    → (m' : Machine) × (sys_block_read env c lba buf (in_user m) ≡ some (1, in_user m'))
      × Read buf 1 (λ i. m.ram (frame buf m + i)) m m'
unfolding sys_block_read
sys_block_read_fails env c lba buf m running cpu stub b small closed =
    let (m', came, what, _) =
      block_sys_call_lem env c sys_block_read_number lba buf 1 (λ i. m.ram (frame buf m + i)) m
        (λ d. Unit) running cpu stub b small (omega arith) (omega arith)
        (λ i. running.usable.bytes (frame buf m + i))
        λ r same number call.
          let m5 = handled lba buf m r in
          let (d, read) =
            block_read_err env.zero_page lba (frame buf m) m5 closed (omega arith) b.old_lba in
          (
            r,
            d,
            dispatch-read env m5 call.call number
                ∙ do_block_read-args env lba buf m5 call
                ∙ ap store_ret read,
            λ a _. unread buf a m r b same,
            λ a _ held. held,
            tt,
          ) in
    (m', came, what)

-- The disk behind a write of `bytes` to a block.
pub record IsStored (lba : ℕ) (bytes img img' : ℕ → ℕ) (d : Disk) : Type 0 where
  pub image : d.image ≡ some img'
  pub at : d.lba ≡ lba
  pub block : (i : ℕ) → i < 512 → img' (lba * 512 + i) ≡ bytes i
  pub below : (a : ℕ) → a < lba * 512 → img' a ≡ img a
  pub above : (a : ℕ) → lba * 512 + 512 ≤ a → img' a ≡ img a

-- With a disk image, sys_block_write comes back with 0, the block of the image holds what was in the
-- buffer, and the buffer is as it was.
pub sys_block_write_lem :
    (env : Env) (c : Cpu) (lba buf : ℕ) (img : ℕ → ℕ) (m : Machine)
    → IsRunning m
    → IsCpu c
    → IsStub sys_block_write_number c.pc m
    → IsBuffer buf m
    → lba < 2 ^ 16
    → m.disk.image ≡ some img
    → (m' : Machine) × (sys_block_write env c lba buf (in_user m) ≡ some (0, in_user m'))
      × Read buf 0 (λ i. m.ram (frame buf m + i)) m m'
      × ((img' : ℕ → ℕ) × IsStored lba (λ i. m.ram (frame buf m + i)) img img' m'.disk)
unfolding sys_block_write
sys_block_write_lem env c lba buf img m running cpu stub b small disk =
    block_sys_call_lem env c sys_block_write_number lba buf 0 (λ i. m.ram (frame buf m + i)) m
      (λ d. (img' : ℕ → ℕ) × IsStored lba (λ i. m.ram (frame buf m + i)) img img' d) running cpu
      stub b small (omega arith) (omega arith) (λ i. running.usable.bytes (frame buf m + i))
      λ r same number call.
        let m5 = handled lba buf m r in
        let (d, img', wrote, image, at, bytes) =
          block_write_lem lba (frame buf m) img m5 refl disk (omega arith) b.old_lba
            (frame_low lba buf m5 call) in
        let short : u32 (lba * 512) ≡ lba * 512 = omega arith in
        let cells = rw short at bytes in
        (
          r,
          d,
          dispatch-write env m5 call.call number
              ∙ do_block_write-args lba buf m5 call
              ∙ ap store_ret wrote,
          λ a _. unread buf a m r b same,
          λ a _ held. held,
          (
            img',
            record {
              image = image;
              at = at;
              block = λ i h.
                  let back : lba * 512 + i - lba * 512 ≡ i = omega arith in
                  let cell = rw back at (cells (lba * 512 + i)) in
                  cell ∙ ground arith ∙ same (frame buf m + i) (buffer-IsAway buf i m b h);
              below = λ a h. cells a ∙ ground arith;
              above = λ a h. cells a ∙ ground arith;
            },
          ),
        )
