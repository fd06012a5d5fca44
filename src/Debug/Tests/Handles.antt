-- ===== src/Debug/Tests/Handles.antt =====
-- Reads through handles of the arrays of a concrete machine.
use bb6502_verilog.Common.{ℕ, ◌≡◌, refl, ◌==◌, none, some, arith, if◌then◌else◌}
use bb6502_verilog.Debug.Sim.{sim_read_mem}
use bb6502_verilog.Debug.Handles.{Access, Signals, Words, read_mem_word}
use bb6502_verilog.Debug.Handles.Cached.{IsCached, Shows, read_mem_word-sim}
use bb6502_verilog.Debug.Tests.{demo_machine}

-- A handle of a signal, or of a word of it.
data Signal : Type 0 where
  ram_array : Signal
  rom_array : Signal
  regs_array : Signal
  p_value : Signal
  kernel_value : Signal
  ppn_array : Signal

abbrev word_value : Signal → ℕ → ℕ
word_value ram_array i = demo_machine.ram i
word_value rom_array i = demo_machine.rom i
word_value regs_array i = 7
word_value p_value i = 0x24
word_value kernel_value i = 0
word_value ppn_array i = demo_machine.mmu.ppn i

abbrev demo_access : Access (Signal × ℕ)
demo_access = record { by_index = λ h i. (h.0, i); value = λ h. word_value h.0 h.1 }

abbrev demo_signals : Signals (Signal × ℕ)
demo_signals = record {
  h_ram = (ram_array, 0);
  h_rom = (rom_array, 0);
  h_regs = (regs_array, 0);
  h_p = (p_value, 0);
  h_mmu_kernel = (kernel_value, 0);
  h_mmu_ppn = (ppn_array, 0);
}

-- One word of the RAM has been read before.
abbrev demo_words : Words (Signal × ℕ)
demo_words = record {
  ram_word = λ i. if 0x3234 == i then some (ram_array, i) else none;
  rom_word = λ _. none;
  reg_word = λ _. none;
  ppn_word = λ _. none;
}

demo-Shows : Shows demo_access demo_signals demo_machine (λ _. 7) 0x24
demo-Shows = record {
  ram_value = λ i h. refl;
  rom_value = λ i h. refl;
  ppn_value = λ i h. refl;
  kernel_value = refl;
  reg_value = λ i h. refl;
  p_value = refl;
}

demo-IsCached : IsCached demo_access demo_signals demo_words
demo-IsCached = record {
  ram_of = λ i word h. ground (arith, h);
  rom_of = λ i word h. cc;
  reg_of = λ i word h. cc;
  ppn_of = λ i word h. cc;
}

read_mem_word-sim_example :
    ((read_mem_word demo_access demo_signals 0x1234 demo_words).0
      ≡ sim_read_mem demo_machine 0x1234)
    × IsCached demo_access demo_signals (read_mem_word demo_access demo_signals 0x1234 demo_words).1
read_mem_word-sim_example =
    read_mem_word-sim demo_access demo_signals demo_machine (λ _. 7) 0x24 0x1234 demo_words
      demo-Shows demo-IsCached (omega arith)
