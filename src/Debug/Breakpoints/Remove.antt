-- ===== src/Debug/Breakpoints/Remove.antt =====
-- dbgRmvBp: the loop that removes the breakpoints at an address.
use bb6502_verilog.Common.{
  ℕ, zero, suc, ◌+◌, ◌≡◌, refl, ap, sym, ◌∙◌, inl, inr, Bool, true, false, ◌||◌, List, [], ◌∷◌,
  ◌++◌, append_assoc, length, length-append, ltb, lt→ltb, ◌==◌, if◌then◌else◌, arith, Bool-cases,
}
use bb6502_verilog.Debug.State.{Breakpoint, Debugger}
use bb6502_verilog.Debug.Breakpoints.{delete, is_at, rmv_loop, rmv_bp}

-- The list with every breakpoint at `bp` left out, and whether there is one.
unfoldable pub without : ℕ → List Breakpoint → List Breakpoint
without bp [] = []
without bp (b ∷ bs) = if b.address == bp then without bp bs else b ∷ without bp bs

unfoldable pub has : ℕ → List Breakpoint → Bool
has bp [] = false
has bp (b ∷ bs) = b.address == bp || has bp bs

delete-append :
    (ps bs : List Breakpoint) (b : Breakpoint) (i : ℕ)
    → i ≡ length ps
    → delete i (ps ++ (b ∷ bs)) ≡ ps ++ bs
unfolding delete
delete-append [] bs b i e = rw e
delete-append (p ∷ ps) bs b zero e = absurd (omega arith)
delete-append (p ∷ ps) bs b (suc i) e = ap (λ r. p ∷ r) (delete-append ps bs b i (omega arith))

is_at-append :
    (bp : ℕ) (ps bs : List Breakpoint) (b : Breakpoint) (i : ℕ)
    → i ≡ length ps
    → is_at bp i (ps ++ (b ∷ bs)) ≡ (b.address == bp)
unfolding is_at
is_at-append bp [] bs b i e = rw e
is_at-append bp (p ∷ ps) bs b zero e = absurd (omega arith)
is_at-append bp (p ∷ ps) bs b (suc i) e = is_at-append bp ps bs b i (omega arith)

-- `ps` is what the loop has passed, `bs` what is left.
rmv_loop_lem :
    (bp k i : ℕ) (found : Bool) (ps bs : List Breakpoint)
    → i ≡ length ps
    → k ≡ length bs
    → rmv_loop k bp i found (ps ++ bs) ≡ (found || has bp bs, ps ++ without bp bs)
unfolding rmv_loop has without
rmv_loop_lem bp zero i found ps [] e f = ap (λ b. (b, ps ++ [])) (ground arith)
rmv_loop_lem bp zero i found ps (b ∷ bs) e f = absurd (omega arith)
rmv_loop_lem bp (suc k) i found ps [] e f = absurd (omega arith)
rmv_loop_lem bp (suc k) i found ps (b ∷ bs) e f =
    let inside : ltb i (length (ps ++ (b ∷ bs))) ≡ true =
      lt→ltb i _ (omega (arith, length-append ps (b ∷ bs))) in
    elim (Bool-cases (b.address == bp)) [
      | inl hit ↦
          rw (inside, is_at-append bp ps bs b i e, hit, delete-append ps bs b i e)
            (rmv_loop_lem bp k i true ps bs e (omega arith)
              ∙ ap (λ t. (t, ps ++ without bp bs)) (ground arith))
      | inr miss ↦
          rw (inside, is_at-append bp ps bs b i e, miss)
            (ap (λ l. rmv_loop k bp (i + 1) found l) (sym (append_assoc ps (b ∷ []) bs))
              ∙ rmv_loop_lem bp k (i + 1) found (ps ++ (b ∷ [])) bs
                  (omega (arith, length-append ps (b ∷ []))) (omega arith)
              ∙ ap (λ l. (found || has bp bs, l)) (append_assoc ps (b ∷ []) (without bp bs)))
    ]

-- The loop of dbgRmvBp leaves exactly the breakpoints at other addresses, in order, and the result
-- says whether there was one at `bp`; nothing else of the debugger changes.
pub rmv_bp_lem :
    (bp : ℕ) (d : Debugger) → rmv_bp bp d ≡ (has bp d.bps, record d { bps = without bp d.bps })
unfolding rmv_bp
rmv_bp_lem bp d = rw (rmv_loop_lem bp (length d.bps) 0 false [] d.bps refl refl)
