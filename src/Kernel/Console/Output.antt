-- ===== src/Kernel/Console/Output.antt =====
-- What the console functions send, and that their waits end.
use bb6502_verilog.Common.{
  ℕ, zero, suc, ◌+◌, ◌-◌, ◌<◌, ◌≤◌, ◌≡◌, refl, ◌∙◌, ap, sym, inl, inr, ◌⊎◌, Bool, true, false,
  Bool-cases, some, List, [], ◌∷◌, ◌++◌, ◌==◌, append-nil, append_assoc, arith,
}
use bb6502_verilog.Common.Bits.{bit}
use bb6502_verilog.Machine.Mmu.{is_ctrl}
use bb6502_verilog.Machine.Bus.{Machine, Acia, data_in, bus_write, tick}
use bb6502_verilog.Kernel.Console.{ticks, wait_tx, k_putc, wait_gpu, k_gputc, put_both, k_print}

-- The transmitter's count is one that a write starts.
abbrev pub Counts : Machine → Type 0
Counts m = m.acia.tx_count ≤ 86

-- The machine with the transmitter in another state.
abbrev pub with_tx : Bool → ℕ → Machine → Machine
with_tx ready count m = record m { acia = record m.acia { tx_ready = ready; tx_count = count } }

-- What a clock does to the transmitter: it becomes ready, or its count goes down.
tick_lem :
    (m : Machine)
    → (ready : Bool) × (count : ℕ) × (tick m ≡ with_tx ready count m)
      × ((ready ≡ true) ⊎ ((m.acia.tx_ready ≡ false) × (count + 1 ≤ m.acia.tx_count)))
unfolding tick
tick_lem m = elim (Bool-cases m.acia.tx_ready) [
  | inl on ↦ rw (tick, on) (true, m.acia.tx_count, refl, inl refl)
  | inr off ↦ elim (Bool-cases (m.acia.tx_count == 0)) [
    | inl done ↦ rw (tick, off, done) (true, m.acia.tx_count, refl, inl refl)
    | inr more ↦ rw (tick, off, more) (false, m.acia.tx_count - 1, refl, inr (refl, ground arith))
  ]
]

ticks_lem :
    (n : ℕ) (m : Machine)
    → (ready : Bool) × (count : ℕ) × (ticks n m ≡ with_tx ready count m)
      × ((ready ≡ true) ⊎ ((m.acia.tx_ready ≡ false) × (count + n ≤ m.acia.tx_count)))
unfolding ticks
ticks_lem zero m = (
  m.acia.tx_ready,
  m.acia.tx_count,
  refl,
  elim (Bool-cases m.acia.tx_ready) [ inl on ↦ inl on | inr off ↦ inr (off, omega arith) ],
)
ticks_lem (suc n) m =
    let (r, c, one, how) = tick_lem m in
    let (ready, count, all, went) = ticks_lem n (with_tx r c m) in
    (
      ready,
      count,
      ap (ticks n) one ∙ all,
      elim went [
        | inl on ↦ inl on
        | inr (off, less) ↦ elim how [
          | inl on ↦ absurd (ground arith)
          | inr (was_off, one_less) ↦ inr (was_off, omega arith)
        ]
      ],
    )

-- A byte on the serial line: the transmitter starts to count.
abbrev pub sent_to_acia : ℕ → Machine → Machine
sent_to_acia c m = record m {
  acia = record m.acia { tx_ready = false; tx_count = 86; sent = m.acia.sent ++ (c ∷ []) };
}

tx_status : (m : Machine) → (bit (data_in 0x8001 m) 1 == 1) ≡ m.acia.tx_ready
unfolding data_in is_ctrl
tx_status m = ground arith

wait_tx-ready :
    (clocks k : ℕ) (m : Machine) → m.acia.tx_ready ≡ true → wait_tx clocks (suc k) m ≡ some m
unfolding wait_tx
wait_tx-ready clocks k m on =
    let test : (bit (data_in 0x8001 m) 1 == 1) ≡ true = tx_status m ∙ on in rw (wait_tx, test) refl

wait_tx-busy :
    (clocks k : ℕ) (m : Machine)
    → m.acia.tx_ready ≡ false
    → wait_tx clocks (suc k) m ≡ wait_tx clocks k (ticks clocks m)
unfolding wait_tx
wait_tx-busy clocks k m off =
    let test : (bit (data_in 0x8001 m) 1 == 1) ≡ false = tx_status m ∙ off in
    rw (wait_tx, test) refl

wait_tx_lem :
    (clocks loads : ℕ) (m : Machine)
    → 0 < clocks
    → (m.acia.tx_ready ≡ true) ⊎ (m.acia.tx_count + 2 ≤ loads)
    → 0 < loads
    → (count : ℕ) × (wait_tx clocks loads m ≡ some (with_tx true count m))
wait_tx_lem clocks zero m h r p = absurd (omega arith)
wait_tx_lem clocks (suc k) m h r p = elim (Bool-cases m.acia.tx_ready) [
  | inl on ↦ (
    m.acia.tx_count,
    wait_tx-ready clocks k m on ∙ ap (λ b. some (with_tx b m.acia.tx_count m)) on,
  )
  | inr off ↦
      let (ready, count, passed, how) = ticks_lem clocks m in
      let closer : (ready ≡ true) ⊎ (count + 2 ≤ k) = elim how [
        | inl on ↦ inl on
        | inr (was_off, less) ↦ elim r [
          | inl on ↦ absurd (ground arith)
          | inr few ↦ inr (omega arith)
        ]
      ] in
      let more : 0 < k = elim r [ inl on ↦ absurd (ground arith) | inr few ↦ omega arith ] in
      let (left, waited) = wait_tx_lem clocks k (with_tx ready count m) h closer more in
      (left, wait_tx-busy clocks k m off ∙ ap (wait_tx clocks k) passed ∙ waited)
]

-- k_putc waits no longer than the transmitter is busy, and then sends the byte.
pub k_putc_lem :
    (clocks c : ℕ) (m : Machine)
    → 0 < clocks
    → Counts m
    → k_putc clocks c m ≡ some (sent_to_acia c m)
unfolding k_putc bus_write is_ctrl
k_putc_lem clocks c m h few =
    let (count, waited) = wait_tx_lem clocks 88 m h (inr (omega arith)) (omega arith) in
    rw (k_putc, waited) refl

abbrev pub sent_to_gpu : ℕ → Machine → Machine
sent_to_gpu c m = record m { gpu_sent = m.gpu_sent ++ (c ∷ []) }

pub k_gputc_lem : (c : ℕ) (m : Machine) → k_gputc c m ≡ some (sent_to_gpu c m)
unfolding k_gputc wait_gpu data_in bus_write is_ctrl
k_gputc_lem c m = refl

pub put_both_lem :
    (clocks c : ℕ) (m : Machine)
    → 0 < clocks
    → Counts m
    → put_both clocks c m ≡ some (sent_to_gpu c (sent_to_acia c m))
unfolding put_both
put_both_lem clocks c m h few = rw (k_putc_lem clocks c m h few) (k_gputc_lem c (sent_to_acia c m))

-- The machine after a text has been sent both ways.
unfoldable pub shown : List ℕ → Machine → Machine
shown [] m = m
shown (c ∷ cs) m = record m {
  acia = record m.acia { tx_ready = false; tx_count = 86; sent = m.acia.sent ++ (c ∷ cs) };
  gpu_sent = m.gpu_sent ++ (c ∷ cs);
}

pub shown-cons :
    (c : ℕ) (cs : List ℕ) (m : Machine)
    → shown cs (sent_to_gpu c (sent_to_acia c m)) ≡ shown (c ∷ cs) m
unfolding shown
shown-cons c [] m = refl
shown-cons c (d ∷ cs) m =
    rw (append_assoc m.acia.sent (c ∷ []) (d ∷ cs), append_assoc m.gpu_sent (c ∷ []) (d ∷ cs)) refl

-- With a transmitter that counts from at most 86, and a round of the wait that takes a clock at
-- least, k_print ends: the text has gone out on the serial port and on the display port, in order,
-- and nothing else has changed but the transmitter's state.
pub k_print-shown :
    (clocks : ℕ) (cs : List ℕ) (m : Machine)
    → 0 < clocks
    → Counts m
    → k_print clocks cs m ≡ some (shown cs m)
unfolding k_print shown
k_print-shown clocks [] m h few = refl
k_print-shown clocks (c ∷ cs) m h few = rw (put_both_lem clocks c m h few) (
    k_print-shown clocks cs (sent_to_gpu c (sent_to_acia c m)) h (omega arith)
    ∙ ap some (shown-cons c cs m))

-- What a text leaves as it was.
pub k_print-frame :
    (clocks : ℕ) (cs : List ℕ) (m : Machine)
    → 0 < clocks
    → Counts m
    → (a : Acia) × (g : List ℕ) × (k_print clocks cs m ≡ some (record m { acia = a; gpu_sent = g }))
      × (a.tx_count ≤ 86)
      × (a.sent ≡ m.acia.sent ++ cs)
      × (g ≡ m.gpu_sent ++ cs)
unfolding shown
k_print-frame clocks [] m h few = (
  m.acia,
  m.gpu_sent,
  k_print-shown clocks [] m h few,
  few,
  sym (append-nil m.acia.sent),
  sym (append-nil m.gpu_sent),
)
k_print-frame clocks (c ∷ cs) m h few =
    let sent = shown (c ∷ cs) m in
    (sent.acia, sent.gpu_sent, k_print-shown clocks (c ∷ cs) m h few, omega arith, refl, refl)
