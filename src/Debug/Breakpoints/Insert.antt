-- ===== src/Debug/Breakpoints/Insert.antt =====
-- dbgSetBp: the allocation, the entry, and its removal.
use bb6502_verilog.Common.{
  ℕ, ◌*◌, ◌<◌, ◌≤◌, ◌≡◌, refl, ap, sym, ◌∙◌, true, false, Option, none, some, List, [], ◌∷◌, ◌++◌,
  length, length-append, length-take, leb, leb→le, ◌==◌, arith, if-elim, All, All-append,
}
use bb6502_verilog.Debug.State.{Breakpoint, World, Debugger, echo}
use bb6502_verilog.Debug.Breakpoints.{
  copy_symbol, append_bp, first_alloc, grow_and_append, set_bp, rmv_bp,
}
use bb6502_verilog.Debug.Breakpoints.Remove.{without, has, rmv_bp_lem}

-- A stored symbol and its NUL fit MAX_SYMBOL_LENGTH bytes, and an address 16 bits.
abbrev pub IsEntry : Breakpoint → Type 0
IsEntry b = (b.address < 65536) × ((s : List ℕ) → b.symbol ≡ some s → length s < 32)

-- The entries in use fit what is allocated.
pub record IsStored (d : Debugger) : Type 0 where
  pub fits : length d.bps ≤ d.bp_list_size
  pub entries : All IsEntry d.bps

copy_symbol-short : (o : Option (List ℕ)) (s : List ℕ) → copy_symbol o ≡ some s → length s < 32
unfolding copy_symbol
copy_symbol-short none s e = cc
copy_symbol-short (some t) s e = ground (arith, length-take 31 t)

append_bp-IsStored :
    (addr : ℕ) (symbol : Option (List ℕ)) (d : Debugger)
    → addr < 65536
    → length d.bps < d.bp_list_size
    → All IsEntry d.bps
    → IsStored (append_bp addr symbol d)
unfolding append_bp
append_bp-IsStored addr symbol d h room all = record {
  fits =
      omega
        (arith, length-append d.bps (record { address = addr; symbol = copy_symbol symbol } ∷ []));
  entries = All-append IsEntry d.bps _ all ((h, copy_symbol-short symbol), tt);
}

append_bp-bps :
    (addr : ℕ) (symbol : Option (List ℕ)) (d : Debugger)
    → (append_bp addr symbol d).bps
      ≡ d.bps ++ (record { address = addr; symbol = copy_symbol symbol } ∷ [])
unfolding append_bp
append_bp-bps addr symbol d = refl

-- What dbgSetBp does on each of its paths: it appends the entry, or it runs out of memory and only
-- says so.
pub data Outcome (addr : ℕ) (symbol : Option (List ℕ)) (d d' : Debugger) : Type 0 where
  added :
      d'.bps ≡ d.bps ++ (record { address = addr; symbol = copy_symbol symbol } ∷ [])
      → Outcome addr symbol d d'
  refused :
      d.world.reallocs ≡ false
      → d.bp_list_size ≤ length d.bps
      → d'.bps ≡ d.bps
      → Outcome addr symbol d d'

grow_and_append-IsStored :
    (addr : ℕ) (symbol : Option (List ℕ)) (d : Debugger)
    → addr < 65536
    → 0 < d.bp_list_size
    → IsStored d
    → IsStored (grow_and_append addr symbol d)
      × Outcome addr symbol d (grow_and_append addr symbol d)
unfolding grow_and_append echo
grow_and_append-IsStored addr symbol d h p v =
    if-elim (λ e. IsStored e × Outcome addr symbol d e) (leb d.bp_list_size (length d.bps))
      (λ full.
        if-elim (λ e. IsStored e × Outcome addr symbol d e) d.world.reallocs
          (λ _. (
            append_bp-IsStored addr symbol (record d { bp_list_size = d.bp_list_size * 2 }) h
                (omega (arith, v.fits)) v.entries,
            added (append_bp-bps addr symbol (record d { bp_list_size = d.bp_list_size * 2 })),
          ))
          (λ no_memory. (
            record { fits = v.fits; entries = v.entries },
            refused no_memory (leb→le _ _ full) refl,
          )))
      (λ room. (
        append_bp-IsStored addr symbol d h (ground arith) v.entries,
        added (append_bp-bps addr symbol d),
      ))

-- A fresh list is empty, so the first allocation keeps it well formed.
first_alloc-IsStored :
    (d : Debugger) → IsStored d → IsStored (first_alloc d) × (0 < (first_alloc d).bp_list_size)
unfolding first_alloc
first_alloc-IsStored d v =
    if-elim (λ e. IsStored e × (0 < e.bp_list_size)) (d.bp_list_size == 0)
      (λ fresh. (record { fits = ground (arith, v.fits); entries = v.entries }, omega arith))
      (λ old. (v, ground arith))

first_alloc-bps : (d : Debugger) → (first_alloc d).bps ≡ d.bps
unfolding first_alloc
first_alloc-bps d =
    if-elim (λ (e : Debugger). e.bps ≡ d.bps) (d.bp_list_size == 0) (λ _. refl) (λ _. refl)

first_alloc-world : (d : Debugger) → (first_alloc d).world ≡ d.world
unfolding first_alloc
first_alloc-world d =
    if-elim (λ (e : Debugger). e.world ≡ d.world) (d.bp_list_size == 0) (λ _. refl) (λ _. refl)

first_alloc-size :
    (d : Debugger) → (first_alloc d).bp_list_size ≤ length d.bps → d.bp_list_size ≤ length d.bps
unfolding first_alloc
first_alloc-size d =
    if-elim (λ (e : Debugger). e.bp_list_size ≤ length d.bps → d.bp_list_size ≤ length d.bps)
      (d.bp_list_size == 0) (λ fresh h. ground arith) (λ _ h. h)

Outcome-first_alloc :
    (addr : ℕ) (symbol : Option (List ℕ)) (d d' : Debugger)
    → Outcome addr symbol (first_alloc d) d'
    → Outcome addr symbol d d'
Outcome-first_alloc addr symbol d d' (added e) = added (
    e
    ∙ ap (λ l. l ++ (record { address = addr; symbol = copy_symbol symbol } ∷ []))
        (first_alloc-bps d))
Outcome-first_alloc addr symbol d d' (refused m full e) =
    refused (ap (λ (w : World). w.reallocs) (sym (first_alloc-world d)) ∙ m)
      (first_alloc-size d (rw first_alloc-bps at full)) (e ∙ first_alloc-bps d)

-- Setting a breakpoint keeps the list inside its allocation, every entry well formed. The entry is
-- appended, unless the list is full and realloc fails: then the list stays as it was.
pub set_bp-IsStored :
    (addr : ℕ) (symbol : Option (List ℕ)) (d : Debugger)
    → addr < 65536
    → IsStored d
    → IsStored (set_bp addr symbol d) × Outcome addr symbol d (set_bp addr symbol d)
unfolding set_bp
set_bp-IsStored addr symbol d h v =
    let (start, room) = first_alloc-IsStored d v in
    let (kept, outcome) = grow_and_append-IsStored addr symbol (first_alloc d) h room start in
    (kept, Outcome-first_alloc addr symbol d _ outcome)

without-append :
    (bp : ℕ) (bs : List Breakpoint) (b : Breakpoint)
    → has bp bs ≡ false
    → b.address ≡ bp
    → without bp (bs ++ (b ∷ [])) ≡ bs
unfolding has without
without-append bp [] b h e = ground arith
without-append bp (c ∷ bs) b h e = ground (arith, without-append bp bs b)

rmv_bp-Outcome :
    (addr : ℕ) (symbol : Option (List ℕ)) (d d' : Debugger)
    → has addr d.bps ≡ false
    → d.world.reallocs ≡ true
    → Outcome addr symbol d d'
    → (rmv_bp addr d').1.bps ≡ d.bps
rmv_bp-Outcome addr symbol d d' new memory (added e) =
    ap (λ r. r.1.bps) (rmv_bp_lem addr d')
    ∙ ap (without addr) e
    ∙ without-append addr d.bps _ new refl
rmv_bp-Outcome addr symbol d d' new memory (refused m full e) = cc

-- Where there was no breakpoint at an address, setting one there (with memory left) and removing it
-- again gives the list back.
pub rmv_bp-set_bp :
    (addr : ℕ) (symbol : Option (List ℕ)) (d : Debugger)
    → addr < 65536
    → IsStored d
    → has addr d.bps ≡ false
    → d.world.reallocs ≡ true
    → (rmv_bp addr (set_bp addr symbol d)).1.bps ≡ d.bps
rmv_bp-set_bp addr symbol d h v new memory =
    rmv_bp-Outcome addr symbol d (set_bp addr symbol d) new memory
      (set_bp-IsStored addr symbol d h v).1
