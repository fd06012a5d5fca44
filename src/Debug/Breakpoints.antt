-- ===== src/Debug/Breakpoints.antt =====
-- rtl/dbg/debugger.c: the breakpoint list (dbgSetBp, dbgRmvBp, dbgCheckIfAtBp, dbgListBps).
pub mod Remove
pub mod Check
pub mod Insert
use bb6502_verilog.Common.{
  ℕ, zero, suc, ◌+◌, ◌-◌, ◌*◌, Bool, true, false, ◌&&◌, Option, none, some, List, [], ◌∷◌, ◌++◌,
  length, get_elem?, take, ltb, leb, ◌==◌, if◌then◌else◌,
}
use bb6502_verilog.Common.Bits.{u16}
use bb6502_verilog.Clib.Chars.{text}
use bb6502_verilog.Clib.Format.{hex4}
use bb6502_verilog.Debug.State.{Breakpoint, Debugger, echo, read6502}
use bb6502_verilog.Debug.Disasm.{disasm}

abbrev pub max_symbol_length : ℕ
max_symbol_length = 32

-- `calloc` and `strncpy` of at most MAX_SYMBOL_LENGTH - 1 characters.
unfoldable pub copy_symbol : Option (List ℕ) → Option (List ℕ)
copy_symbol none = none
copy_symbol (some s) = some (take (max_symbol_length - 1) s)

-- The entry behind the last one.
unfoldable pub append_bp : ℕ → Option (List ℕ) → Debugger → Debugger
unfolding copy_symbol
append_bp addr symbol d = record d {
  bps = d.bps ++ (record { address = addr; symbol = copy_symbol symbol } ∷ []);
}

-- The first allocation, of 10 entries; the code does not test whether it failed.
unfoldable pub first_alloc : Debugger → Debugger
first_alloc d = if d.bp_list_size == 0 then record d { bp_list_size = 10 } else d

-- The growth check of dbgSetBp, and the entry.
unfoldable pub grow_and_append : ℕ → Option (List ℕ) → Debugger → Debugger
grow_and_append addr symbol d =
    if leb d.bp_list_size (length d.bps)
    then (if d.world.reallocs
        then append_bp addr symbol (record d { bp_list_size = d.bp_list_size * 2 })
        else echo (text "setBreakpoint: out of memory, breakpoint not set\n") d)
    else append_bp addr symbol d

-- dbgSetBp
unfoldable pub set_bp : ℕ → Option (List ℕ) → Debugger → Debugger
set_bp addr symbol d = grow_and_append addr symbol (first_alloc d)

-- The `memmove` of what stands behind entry i.
unfoldable pub delete : ℕ → List Breakpoint → List Breakpoint
delete i [] = []
delete zero (b ∷ bs) = bs
delete (suc i) (b ∷ bs) = b ∷ delete i bs

-- `dbgBpList[i].address == bp`
unfoldable pub is_at : ℕ → ℕ → List Breakpoint → Bool
is_at bp i bps = elim (get_elem? bps i) [ none ↦ false | some b ↦ b.address == bp ]

-- The loop of dbgRmvBp, with the rounds that are left.
unfoldable pub rmv_loop : (rounds bp i : ℕ) → Bool → List Breakpoint → Bool × List Breakpoint
unfolding delete is_at
rmv_loop zero bp i found bps = (found, bps)
rmv_loop (suc k) bp i found bps =
    let next = rmv_loop k bp (i + 1) found bps in
    let again = rmv_loop k bp i true (delete i bps) in
    if ltb i (length bps) then (if is_at bp i bps then again else next) else (found, bps)

-- dbgRmvBp. Each round either passes an entry or removes one.
unfoldable pub rmv_bp : ℕ → Debugger → Bool × Debugger
unfolding rmv_loop
rmv_bp bp d =
    let (found, bps) = rmv_loop (length d.bps) bp 0 false d.bps in (found, record d { bps = bps })

-- The loop of dbgCheckIfAtBp from entry i on.
unfoldable pub find_bp : (first last i : ℕ) → List Breakpoint → Option ℕ
find_bp first last i [] = none
find_bp first last i (b ∷ bs) =
    if leb first b.address && leb b.address last then some i else find_bp first last (i + 1) bs

-- dbgCheckIfAtBp; `none` is the result false with `*bpnum = -1`.
unfoldable pub check_if_at_bp : (pc instrlen : ℕ) → Debugger → Option ℕ
unfolding find_bp
check_if_at_bp pc instrlen d = find_bp pc (u16 (pc + instrlen)) 0 d.bps

-- One line of dbgListBps.
unfoldable pub bp_line : Debugger → Breakpoint → List ℕ
bp_line d b =
    let line = (disasm b.address (read6502 d)).0 in
    elim b.symbol [
      | some s ↦
          text "\t"
          ++ (s ++ (text ":\t0x" ++ (hex4 b.address ++ (text "\t" ++ (line ++ text "\n")))))
      | none ↦ text "\t\t0x" ++ (hex4 b.address ++ (text "\t" ++ (line ++ text "\n")))
    ]

unfoldable pub bp_lines : Debugger → List Breakpoint → List ℕ
unfolding bp_line
bp_lines d [] = []
bp_lines d (b ∷ bs) = bp_line d b ++ bp_lines d bs

-- dbgListBps
unfoldable pub list_bps : Debugger → Debugger
unfolding bp_lines echo
list_bps d =
    if length d.bps == 0 then echo (text "\tNo breakpoints set\n") d else echo (bp_lines d d.bps) d
