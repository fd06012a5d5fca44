-- ===== src/Kernel/Bbx/Accepted.antt =====
-- The header check against spawn_bbx.
use bb6502_verilog.Common.{
  ℕ, ◌+◌, ◌*◌, ◌^◌, ◌<◌, ◌≡◌, refl, sym, ◌∙◌, ap, ap₂, Bool-cases, inl, inr, true, ◌==◌, ltb, some,
  List, length, get_or, arith,
}
use bb6502_verilog.Common.Bits.{shl, bit_or, bit_or-low}
use bb6502_verilog.Machine.Bus.{data_in}
use bb6502_verilog.Kernel.Spawn.{Image, System, process_at, spawn_bbx}
use bb6502_verilog.Kernel.Spawn.Place.{IsLoadable}
use bb6502_verilog.Kernel.Spawn.Started.{in_process, Spawned, spawn_bbx-Spawned}
use bb6502_verilog.Kernel.Bbx.{header_word, report, check_header}

-- What an accepted file is.
record IsAccepted (content : List ℕ) : Type 0 where
  magic0 : get_or content 0 0 ≡ 0x42
  magic1 : get_or content 1 0 ≡ 0x58
  out : (check_header content).out ≡ report (header_word content 2 3) (header_word content 4 5)

accepted_lem : (content : List ℕ) → (check_header content).code ≡ 0 → IsAccepted content
unfolding check_header
accepted_lem content ok = elim (Bool-cases (ltb (length content) 6)) [
  | inl short ↦ absurd (let bad = rw short at ok in omega arith)
  | inr long ↦ elim (Bool-cases (get_or content 0 0 == 0x42)) [
    | inr other ↦ absurd (let bad = rw (long, other) at ok in omega arith)
    | inl first ↦ elim (Bool-cases (get_or content 1 0 == 0x58)) [
      | inr other ↦ absurd (let bad = rw (long, first, other) at ok in omega arith)
      | inl second ↦ record {
        magic0 = ground arith;
        magic1 = ground arith;
        out = rw (long, first, second) refl;
      }
    ]
  ]
]

-- A file that mkbbx accepts, on the disk at block `lba`, is one that spawn_bbx starts, under its
-- conditions on the table and the place in the RAM; and the entry address that mkbbx prints is the one
-- that the new process finds on its stack.
pub check_header-Spawned :
    (im : Image) (lba nblocks base : ℕ) (img : ℕ → ℕ) (s : System) (content : List ℕ)
    → (check_header content).code ≡ 0
    → ((i : ℕ) → i < 6 → img (lba * 512 + i) ≡ get_or content i 0)
    → ((i : ℕ) → img i < 256)
    → IsLoadable im lba nblocks base
    → s.machine.mmu.kernel ≡ true
    → s.machine.disk.image ≡ some img
    → s.machine.disk.lba < 2 ^ 32
    → s.table.nprocs < 4
    → length s.table.plist ≡ 4
    → (s' : System) × (spawn_bbx im lba nblocks base s ≡ some (0, s'))
      × Spawned im lba nblocks base img s s'
      × ((check_header content).out
          ≡ report (header_word content 2 3) (
              data_in 0x1ff (in_process (process_at s'.table s.table.nprocs) s'.machine) * 2 ^ 8
              + data_in 0x1fe (in_process (process_at s'.table s.table.nprocs) s'.machine)))
check_header-Spawned im lba nblocks base img s content ok disk bytes fits kernel image lba_small
      room size =
    let good = accepted_lem content ok in
    let (s', spawned, what) =
      spawn_bbx-Spawned im lba nblocks base img s fits
        (record {
          kernel = kernel;
          image = image;
          lba_small = lba_small;
          bytes = bytes;
          magic0 = ap img (omega arith) ∙ disk 0 (omega arith) ∙ good.magic0;
          magic1 = disk 1 (omega arith) ∙ good.magic1;
        })
        room size in
    let lo = sym (disk 4 (omega arith)) in
    let hi = sym (disk 5 (omega arith)) in
    let word : header_word content 4 5 ≡ img (lba * 512 + 5) * 2 ^ 8 + img (lba * 512 + 4) =
      ap₂ (λ a b. bit_or a (shl b 8)) lo hi
      ∙ bit_or-low 8 (img (lba * 512 + 5)) (img (lba * 512 + 4)) (bytes _) in
    let pushed = ap₂ (λ a b. a * 2 ^ 8 + b) what.process.loaded.pch what.process.loaded.pcl in
    (s', spawned, what, good.out ∙ ap (report (header_word content 2 3)) (word ∙ sym pushed))
