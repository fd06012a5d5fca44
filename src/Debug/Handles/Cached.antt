-- ===== src/Debug/Handles/Cached.antt =====
-- The reads through cached handles against those of the machine.
use bb6502_verilog.Common.{
  ℕ, ◌-◌, ◌^◌, ◌<◌, ◌≡◌, refl, ◌∙◌, ap, inl, inr, Bool-cases, Option-cases, Option, some, ltb, leb,
  ◌==◌, arith,
}
use bb6502_verilog.Common.Bits.{shr, low_bits, bit, u8}
use bb6502_verilog.Machine.Bus.{Machine}
use bb6502_verilog.Debug.Sim.{
  rom_base, page_shift, ram_words, rom_words, sim_mmu_is_kernel, sim_mmu_ppn, sim_paddr,
  sim_ram_index, sim_read_mem,
}
use bb6502_verilog.Debug.Vpi.{sim_get_regs}
use bb6502_verilog.Debug.Handles.{
  Access, Signals, Words, word_of, mmu_is_kernel, mmu_ppn_word, paddr_word, read_mem_word,
  get_regs_word,
}

module _ {H : Type 0} (vpi : Access H) where
  -- A cache of words of `array`: what it holds was made for its index.
  abbrev pub IsOf : H → (ℕ → Option H) → Type 0
  IsOf array cache = (i : ℕ) (word : H) → cache i ≡ some word → word ≡ vpi.by_index array i

  pub word_of_lem :
      (array : H) (cache : ℕ → Option H) (idx : ℕ)
      → IsOf array cache
      → ((word_of vpi array cache idx).0 ≡ vpi.by_index array idx)
        × IsOf array (word_of vpi array cache idx).1
  unfolding word_of
  word_of_lem array cache idx good = elim (Option-cases (cache idx)) [
    | inr (word, held) ↦ rw (word_of, held) (good idx word held, good)
    | inl empty ↦
        rw (word_of, empty)
          (
            refl,
            λ i word h. elim (Bool-cases (idx == i)) [
              | inl same ↦ ground arith
              | inr other ↦ good i word (rw other at h)
            ],
          )
  ]

  module _ (h : Signals H) where
    -- The four caches hold words of their arrays.
    pub record IsCached (w : Words H) : Type 0 where
      pub ram_of : IsOf h.h_ram w.ram_word
      pub rom_of : IsOf h.h_rom w.rom_word
      pub reg_of : IsOf h.h_regs w.reg_word
      pub ppn_of : IsOf h.h_mmu_ppn w.ppn_word

    -- The words of the handles are those of a machine, of a register file and of the flags.
    pub record Shows (m : Machine) (regfile : ℕ → ℕ) (flags : ℕ) : Type 0 where
      pub ram_value : (i : ℕ) → i < ram_words → vpi.value (vpi.by_index h.h_ram i) ≡ m.ram i
      pub rom_value : (i : ℕ) → i < rom_words → vpi.value (vpi.by_index h.h_rom i) ≡ m.rom i
      pub ppn_value : (i : ℕ) → i < 32 → vpi.value (vpi.by_index h.h_mmu_ppn i) ≡ m.mmu.ppn i
      pub kernel_value : (bit (vpi.value h.h_mmu_kernel) 0 == 1) ≡ m.mmu.kernel
      pub reg_value : (i : ℕ) → i < 4 → vpi.value (vpi.by_index h.h_regs i) ≡ regfile i
      pub p_value : vpi.value h.h_p ≡ flags

    mmu_ppn_word_lem :
        (m : Machine) (regfile : ℕ → ℕ) (flags vpage : ℕ) (w : Words H)
        → Shows m regfile flags
        → IsCached w
        → ((mmu_ppn_word vpi h vpage w).0 ≡ sim_mmu_ppn m vpage)
          × IsCached (mmu_ppn_word vpi h vpage w).1
    unfolding mmu_ppn_word sim_mmu_ppn
    mmu_ppn_word_lem m regfile flags vpage w s c =
        let page = low_bits vpage 5 in
        let (word, cache) = word_of_lem h.h_mmu_ppn w.ppn_word page c.ppn_of in
        (
          ap (λ x. u8 (vpi.value x)) word ∙ ap u8 (s.ppn_value page (omega arith)),
          record { ram_of = c.ram_of; rom_of = c.rom_of; reg_of = c.reg_of; ppn_of = cache },
        )

    paddr_word_lem :
        (m : Machine) (regfile : ℕ → ℕ) (flags addr : ℕ) (w : Words H)
        → Shows m regfile flags
        → IsCached w
        → ((paddr_word vpi h addr w).0 ≡ sim_paddr m addr) × IsCached (paddr_word vpi h addr w).1
    unfolding paddr_word sim_paddr mmu_is_kernel sim_mmu_is_kernel
    paddr_word_lem m regfile flags addr w s c =
        let page = low_bits (shr addr page_shift) 5 in
        let (same, cache) = mmu_ppn_word_lem m regfile flags page w s c in
        elim (Bool-cases m.mmu.kernel) [
          | inl kernel ↦ rw (s.kernel_value, kernel) (refl, c)
          | inr user ↦ rw (s.kernel_value, user, same) (refl, cache)
        ]

    -- While VPI gives the words of the machine, and the caches hold handles of their own arrays,
    -- simReadMem through the handles gives what the machine gives at every 16-bit address, and the
    -- caches hold handles of their own arrays again.
    pub read_mem_word-sim :
        (m : Machine) (regfile : ℕ → ℕ) (flags addr : ℕ) (w : Words H)
        → Shows m regfile flags
        → IsCached w
        → addr < 2 ^ 16
        → ((read_mem_word vpi h addr w).0 ≡ sim_read_mem m addr)
          × IsCached (read_mem_word vpi h addr w).1
    unfolding read_mem_word sim_read_mem
    read_mem_word-sim m regfile flags addr w s c small =
        let (paddr, c') = paddr_word_lem m regfile flags addr w s c in
        let w' = (paddr_word vpi h addr w).1 in
        let index = low_bits (paddr_word vpi h addr w).0 15 in
        let (word, cache) = word_of_lem h.h_ram w'.ram_word index c'.ram_of in
        let (rom, rom_cache) = word_of_lem h.h_rom w.rom_word (addr - rom_base) c.rom_of in
        elim (Bool-cases (ltb addr 0x8000)) [
          | inl low ↦ rw low (
            ap (λ x. some (u8 (vpi.value x))) word
                ∙ ap (λ x. some (u8 x)) (s.ram_value index (omega arith))
                ∙ unfold sim_ram_index in ap (λ x. some (u8 (m.ram (low_bits x 15)))) paddr,
            record { ram_of = cache; rom_of = c'.rom_of; reg_of = c'.reg_of; ppn_of = c'.ppn_of },
          )
          | inr high ↦ elim (Bool-cases (leb rom_base addr)) [
            | inl in_rom ↦
                rw (high, in_rom)
                  (
                    ap (λ x. some (u8 (vpi.value x))) rom
                        ∙ ap (λ x. some (u8 x)) (s.rom_value (addr - rom_base) (ground arith)),
                    record {
                      ram_of = c.ram_of;
                      rom_of = rom_cache;
                      reg_of = c.reg_of;
                      ppn_of = c.ppn_of;
                    },
                  )
            | inr in_window ↦ rw (high, in_window) (refl, c)
          ]
        ]

    -- So does simGetRegs of the registers.
    pub get_regs_word-sim :
        (m : Machine) (regfile : ℕ → ℕ) (flags : ℕ) (w : Words H)
        → Shows m regfile flags
        → IsCached w
        → ((get_regs_word vpi h w).0 ≡ sim_get_regs regfile flags)
          × IsCached (get_regs_word vpi h w).1
    unfolding get_regs_word sim_get_regs
    get_regs_word-sim m regfile flags w s c =
        let (x, c0) = word_of_lem h.h_regs w.reg_word 0 c.reg_of in
        let w0 = (word_of vpi h.h_regs w.reg_word 0).1 in
        let (y, c1) = word_of_lem h.h_regs w0 1 c0 in
        let w1 = (word_of vpi h.h_regs w0 1).1 in
        let (a, c2) = word_of_lem h.h_regs w1 2 c1 in
        let w2 = (word_of vpi h.h_regs w1 2).1 in
        let (sp, c3) = word_of_lem h.h_regs w2 3 c2 in
        (
          rw
              (
                x,
                y,
                a,
                sp,
                s.reg_value 0 (omega arith),
                s.reg_value 1 (omega arith),
                s.reg_value 2 (omega arith),
                s.reg_value 3 (omega arith),
                s.p_value,
              )
              refl,
          record { ram_of = c.ram_of; rom_of = c.rom_of; reg_of = c3; ppn_of = c.ppn_of },
        )
