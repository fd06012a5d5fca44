-- ===== src/Kernel/Syscalls/Keys.antt =====
-- do_getc and do_getc_nb, as the user's program sees them.
use bb6502_verilog.Common.{
  ℕ, zero, suc, ◌≡◌, refl, ◌∙◌, ap, true, false, Bool-cases, inl, inr, Option, none, some, List, [],
  ◌∷◌, ◌++◌, ◌==◌, if◌then◌else◌, replicate, arith,
}
use bb6502_verilog.Common.Bits.{bit}
use bb6502_verilog.Machine.Mmu.{is_ctrl}
use bb6502_verilog.Machine.Bus.{Machine, data_in, after_read, arrive}
use bb6502_verilog.Kernel.UserMemory.Translate.{in_user, data_in-user}
use bb6502_verilog.Kernel.Syscalls.{
  Env, off_ret, off_a_reg, set_slot, wait_rx, take_key, do_getc, do_getc_nb, syscall_dispatch,
}
use bb6502_verilog.Kernel.Syscalls.Slots.{InCall, with_slot, set_slot_lem, number_lem}

-- The receive flag, as the status register shows it.
rx_status : (m : Machine) → (bit (data_in 0x8001 m) 0 == 1) ≡ m.acia.rx_valid
unfolding data_in is_ctrl
rx_status m = ground arith

-- The machine after the user has taken the byte `c`.
abbrev pub taken : ℕ → Machine → Machine
taken c m =
    with_slot off_ret 0
      (with_slot off_a_reg c (record m { acia = record m.acia { rx_data = c; rx_valid = false } }))

take_key_lem : (m : Machine) → InCall m → take_key m ≡ taken m.acia.rx_data m
unfolding take_key data_in after_read is_ctrl
take_key_lem m call =
    let read = record m { acia = record m.acia { rx_valid = false } } in
    let byte = set_slot_lem off_a_reg m.acia.rx_data read call.kernel call.table (omega arith) in
    ap (set_slot off_ret 0) byte
    ∙ set_slot_lem off_ret 0 (with_slot off_a_reg m.acia.rx_data read) call.kernel call.table
        (omega arith)

wait_rx-valid :
    (es : List (Option ℕ)) (m : Machine) → m.acia.rx_valid ≡ true → wait_rx es m ≡ some m
unfolding wait_rx
wait_rx-valid [] m on = let test = rx_status m ∙ on in rw (wait_rx, test) refl
wait_rx-valid (e ∷ es) m on = let test = rx_status m ∙ on in rw (wait_rx, test) refl

-- The machine with a byte received.
abbrev pub received : ℕ → Machine → Machine
received c m = record m { acia = record m.acia { rx_data = c; rx_valid = true } }

wait_rx-arrives :
    (n c : ℕ) (later : List (Option ℕ)) (m : Machine)
    → m.acia.rx_valid ≡ false
    → wait_rx (replicate n none ++ (some c ∷ later)) m ≡ some (received c m)
unfolding wait_rx arrive
wait_rx-arrives zero c later m off =
    let test = rx_status m ∙ off in
    rw (wait_rx, test, off) (wait_rx-valid later (received c m) refl)
wait_rx-arrives (suc n) c later m off =
    let test = rx_status m ∙ off in rw (wait_rx, test) (wait_rx-arrives n c later m off)

pub dispatch-getc :
    (env : Env) (m : Machine) (n c : ℕ) (later : List (Option ℕ))
    → InCall m
    → m.ram 0x32 ≡ 3
    → m.acia.rx_valid ≡ false
    → env.arrivals ≡ replicate n none ++ (some c ∷ later)
    → syscall_dispatch env m ≡ some (taken c (received c m))
unfolding syscall_dispatch do_getc
dispatch-getc env m n c later call number off comes =
    rw (number_lem m 3 call number, comes, wait_rx-arrives n c later m off)
      (ap some (
        take_key_lem (received c m)
          (record { kernel = call.kernel; table = call.table; bytes = call.bytes })))

-- The handler of SYS_GETC, with no byte waiting, returns once a byte comes in, however many rounds
-- that takes: the user finds the byte in the A_REG slot and 0 in the RET slot, and the receive flag
-- is clear.
pub syscall_dispatch-getc :
    (env : Env) (m : Machine) (n c : ℕ) (later : List (Option ℕ))
    → InCall m
    → m.ram 0x32 ≡ 3
    → m.acia.rx_valid ≡ false
    → env.arrivals ≡ replicate n none ++ (some c ∷ later)
    → (m' : Machine) × (syscall_dispatch env m ≡ some m')
      × (data_in off_a_reg (in_user m') ≡ c)
      × (data_in off_ret (in_user m') ≡ 0)
      × (m'.acia.rx_valid ≡ false)
syscall_dispatch-getc env m n c later call number off comes =
    let m' = taken c (received c m) in
    (
      m',
      dispatch-getc env m n c later call number off comes,
      data_in-user m' off_a_reg (omega arith) ∙ ground arith,
      data_in-user m' off_ret (omega arith) ∙ ground arith,
      refl,
    )

do_getc_nb-ready :
    (m : Machine) → InCall m → m.acia.rx_valid ≡ true → do_getc_nb m ≡ taken m.acia.rx_data m
unfolding do_getc_nb
do_getc_nb-ready m call on = let test = rx_status m ∙ on in rw test (take_key_lem m call)

-- The machine after the user has found that there is no byte.
abbrev nothing : Machine → Machine
nothing m = with_slot off_ret 1 (with_slot off_a_reg 0 m)

do_getc_nb-empty : (m : Machine) → InCall m → m.acia.rx_valid ≡ false → do_getc_nb m ≡ nothing m
unfolding do_getc_nb
do_getc_nb-empty m call off =
    let test = rx_status m ∙ off in
    let first = set_slot_lem off_a_reg 0 m call.kernel call.table (omega arith) in
    rw test (
      ap (set_slot off_ret 1) first
      ∙ set_slot_lem off_ret 1 (with_slot off_a_reg 0 m) call.kernel call.table (omega arith))

-- The handler of SYS_GETC_NB returns at once. With a byte waiting the user finds it in the A_REG slot
-- and 0 in the RET slot, and the receive flag is clear; without, the user finds 0 and 1.
pub syscall_dispatch-getc_nb :
    (env : Env) (m : Machine)
    → InCall m
    → m.ram 0x32 ≡ 8
    → (m' : Machine) × (syscall_dispatch env m ≡ some m')
      × (data_in off_a_reg (in_user m') ≡ (if m.acia.rx_valid then m.acia.rx_data else 0))
      × (data_in off_ret (in_user m') ≡ (if m.acia.rx_valid then 0 else 1))
      × (m'.acia.rx_valid ≡ false)
unfolding syscall_dispatch
syscall_dispatch-getc_nb env m call number = elim (Bool-cases m.acia.rx_valid) [
  | inl on ↦
      let m' = taken m.acia.rx_data m in
      (
        m',
        rw (number_lem m 8 call number) (ap some (do_getc_nb-ready m call on)),
        data_in-user m' off_a_reg (omega arith) ∙ ground (arith, on),
        data_in-user m' off_ret (omega arith) ∙ ground (arith, on),
        refl,
      )
  | inr off ↦
      let m' = nothing m in
      (
        m',
        rw (number_lem m 8 call number) (ap some (do_getc_nb-empty m call off)),
        data_in-user m' off_a_reg (omega arith) ∙ ground (arith, off),
        data_in-user m' off_ret (omega arith) ∙ ground (arith, off),
        off,
      )
]
