-- ===== src/Debug/Handles.antt =====
-- rtl/dbg/bbdbg_vpi.c: simReadMem, simMmuPpn and simGetRegs down to the VPI handles, which are made
-- on first use and kept. VPI is an argument.
pub mod Cached
use bb6502_verilog.Common.{ℕ, ◌-◌, Bool, Option, none, some, ltb, leb, ◌==◌, if◌then◌else◌}
use bb6502_verilog.Common.Bits.{shr, shl, low_bits, bit, u8, bit_or}
use bb6502_verilog.Debug.State.{Regs}
use bb6502_verilog.Debug.Sim.{rom_base, page_shift}

-- What VPI gives: vpi_handle_by_index, which makes a handle of a word of an array, and the integer of
-- vpi_get_value.
pub record Access (H : Type 0) : Type 0 where
  pub by_index : H → ℕ → H
  pub value : H → ℕ

-- The handles that startOfSim looks up. The one for the reset is in none of the reads.
pub record Signals (H : Type 0) : Type 0 where
  pub h_ram : H
  pub h_rom : H
  pub h_regs : H
  pub h_p : H
  pub h_mmu_kernel : H
  pub h_mmu_ppn : H

-- The statics ramWord, romWord, regWord and ppnWord; `none` is a null pointer.
pub record Words (H : Type 0) : Type 0 where
  pub ram_word : ℕ → Option H
  pub rom_word : ℕ → Option H
  pub reg_word : ℕ → Option H
  pub ppn_word : ℕ → Option H

-- A cache with one more entry.
abbrev pub with_word : {H : Type 0} → (ℕ → Option H) → ℕ → H → ℕ → Option H
with_word cache idx h j = if idx == j then some h else cache j

module _ {H : Type 0} (vpi : Access H) where
  -- readInt
  abbrev pub read_int : H → ℕ
  read_int h = vpi.value h

  -- wordOf, with the cache behind it.
  unfoldable pub word_of : (array : H) → (cache : ℕ → Option H) → (idx : ℕ) → H × (ℕ → Option H)
  word_of array cache idx = elim (cache idx) [
    | some h ↦ (h, cache)
    | none ↦ (vpi.by_index array idx, with_word cache idx (vpi.by_index array idx))
  ]

  module _ (h : Signals H) where
    -- simMmuIsKernel
    unfoldable pub mmu_is_kernel : Bool
    mmu_is_kernel = bit (read_int h.h_mmu_kernel) 0 == 1

    -- simMmuPpn
    unfoldable pub mmu_ppn_word : ℕ → Words H → ℕ × Words H
    mmu_ppn_word vpage w =
        let (word, cache) = word_of h.h_mmu_ppn w.ppn_word (low_bits vpage 5) in
        (u8 (read_int word), record w { ppn_word = cache })

    -- `paddr` of simReadMem.
    unfoldable pub paddr_word : ℕ → Words H → ℕ × Words H
    paddr_word addr w =
        let (page, w') = mmu_ppn_word (low_bits (shr addr page_shift) 5) w in
        if mmu_is_kernel
        then (addr, w)
        else (bit_or (shl page page_shift) (low_bits addr page_shift), w')

    -- simReadMem; `none` is the result `false`.
    unfoldable pub read_mem_word : ℕ → Words H → Option ℕ × Words H
    read_mem_word addr w =
        let (paddr, w') = paddr_word addr w in
        let (word, cache) = word_of h.h_ram w'.ram_word (low_bits paddr 15) in
        let (rom, rom_cache) = word_of h.h_rom w.rom_word (addr - rom_base) in
        if ltb addr 0x8000
        then (some (u8 (read_int word)), record w' { ram_word = cache })
        else if leb rom_base addr
        then (some (u8 (read_int rom)), record w { rom_word = rom_cache })
        else (none, w)

    -- simGetRegs
    unfoldable pub get_regs_word : Words H → Regs × Words H
    get_regs_word w =
        let (x, w0) = word_of h.h_regs w.reg_word 0 in
        let (y, w1) = word_of h.h_regs w0 1 in
        let (a, w2) = word_of h.h_regs w1 2 in
        let (sp, w3) = word_of h.h_regs w2 3 in
        (
          record {
            x = u8 (read_int x);
            y = u8 (read_int y);
            a = u8 (read_int a);
            sp = u8 (read_int sp);
            p = u8 (read_int h.h_p);
          },
          record w { reg_word = w3 },
        )
