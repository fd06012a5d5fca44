-- ===== src/Kernel/Spawn/Copy.antt =====
-- The loops of spawn_bbx over bytes: memcpy512, the page table, and the frame.
use bb6502_verilog.Common.{
  ℕ, zero, suc, ◌+◌, ◌-◌, ◌^◌, ◌<◌, ◌≤◌, ◌≡◌, ◌⊎◌, inl, inr, refl, ◌∙◌, ap, true, ◌&&◌, leb, ltb,
  ◌==◌, if◌then◌else◌, ◌≢◌, Bool-cases, arith,
}
use bb6502_verilog.Common.Bits.{shr, u8}
use bb6502_verilog.Machine.Mmu.{update}
use bb6502_verilog.Machine.Bus.{Machine, data_in, after_read, bus_write}
use bb6502_verilog.Machine.Ram.{data_in-kernel, after_read-ram, bus_write-kernel}
use bb6502_verilog.Kernel.Process.{ppn_entry}
use bb6502_verilog.Kernel.ZeroPage.{ZeroPage, set_ptr, indirect, inc_high}
use bb6502_verilog.Kernel.ZeroPage.Pointers.{
  Points, Points-kept, Points-at, indirect_lem, pointed, pointed-Points, set_ptr_lem, raised,
  raised-Points, inc_high_lem, Points-raised,
}
use bb6502_verilog.Kernel.Spawn.{copy_page, next_page, memcpy512, fill_table, push_frame}

-- Two pieces of 512 bytes of the RAM that share none.
pub record Apart (dst src : ℕ) : Type 0 where
  pub dst_from : 0x20 ≤ dst
  pub src_from : 0x20 ≤ src
  pub dst_low : dst + 512 ≤ 2 ^ 15
  pub src_low : src + 512 ≤ 2 ^ 15
  pub disjoint : (dst + 512 ≤ src) ⊎ (src + 512 ≤ dst)

-- The machine behind one byte of the copy.
abbrev byte_copied : (i dst src : ℕ) → Machine → Machine
byte_copied i dst src m = record m { ram = update m.ram (dst + i) (m.ram (src + i)) }

copy_page_step :
    (z : ZeroPage) (n i k dst src : ℕ) (m : Machine)
    → k + i < 512
    → Apart dst src
    → m.mmu.kernel ≡ true
    → Points z.ptr1 (src + k) m.ram
    → Points z.ptr2 (dst + k) m.ram
    → copy_page z (suc n) i m ≡ copy_page z n (i + 1) (byte_copied (k + i) dst src m)
unfolding copy_page
copy_page_step z n i k dst src m h low kernel at1 at2 =
    let a = src + (k + i) in
    let b = dst + (k + i) in
    let from : indirect z.ptr1 i m ≡ a =
      indirect_lem z.ptr1 (src + k) i m kernel z.ptr1_in at1 (omega (arith, low.src_low))
      ∙ omega arith in
    let to : indirect z.ptr2 i m ≡ b =
      indirect_lem z.ptr2 (dst + k) i m kernel z.ptr2_in at2 (omega (arith, low.dst_low))
      ∙ omega arith in
    let load = data_in-kernel m a kernel (omega (arith, low.src_low)) in
    let quiet = after_read-ram a m (omega (arith, low.src_low)) in
    ap
      (λ x.
        copy_page z n (i + 1)
          (bus_write (indirect z.ptr2 i (after_read x m)) (data_in x m) (after_read x m)))
      from
    ∙ ap (λ x. copy_page z n (i + 1) (bus_write (indirect z.ptr2 i x) (data_in a m) x)) quiet
    ∙ ap (λ x. copy_page z n (i + 1) (bus_write x (data_in a m) m)) to
    ∙ ap (λ x. copy_page z n (i + 1) (bus_write b x m)) load
    ∙ ap (copy_page z n (i + 1))
        (bus_write-kernel b (m.ram a) m (omega (arith, low.dst_low)) kernel)

-- What the copy leaves in a cell of the RAM.
abbrev copied : (n i dst src : ℕ) → (ℕ → ℕ) → ℕ → ℕ
copied n i dst src ram a =
    if leb (dst + i) a && ltb a (dst + i + n) then ram (src + (a - dst)) else ram a

copied_lem :
    (n i dst src a : ℕ) (ram : ℕ → ℕ)
    → i + suc n ≤ 512
    → Apart dst src
    → copied n (i + 1) dst src (update ram (dst + i) (ram (src + i))) a
      ≡ copied (suc n) i dst src ram a
copied_lem n i dst src a ram h low = elim (Bool-cases (dst + i == a)) [
  | inl here ↦ let at : a - dst ≡ i = ground arith in rw at (ground arith)
  | inr away ↦ elim low.disjoint [ inl below ↦ ground arith | inr above ↦ ground arith ]
]

copy_page_lem :
    (z : ZeroPage) (n i k dst src : ℕ) (m : Machine)
    → k + (i + n) ≤ 512
    → Apart dst src
    → m.mmu.kernel ≡ true
    → Points z.ptr1 (src + k) m.ram
    → Points z.ptr2 (dst + k) m.ram
    → (r : ℕ → ℕ) × (copy_page z n i m ≡ record m { ram = r })
      × ((a : ℕ) → r a ≡ copied n (k + i) dst src m.ram a)
copy_page_lem z zero i k dst src m h low kernel at1 at2 =
    (m.ram, unfold copy_page in refl, λ a. ground arith)
copy_page_lem z (suc n) i k dst src m h low kernel at1 at2 =
    let m1 = byte_copied (k + i) dst src m in
    let one = copy_page_step z n i k dst src m (omega arith) low kernel at1 at2 in
    let (r, all, cells) =
      copy_page_lem z n (i + 1) k dst src m1 (omega arith) low kernel
        (Points-kept z.ptr1 (src + k) m.ram m1.ram (ground (arith, z.ptr1_in, low.dst_from))
          (ground (arith, z.ptr1_in, low.dst_from)) at1)
        (Points-kept z.ptr2 (dst + k) m.ram m1.ram (ground (arith, z.ptr2_in, low.dst_from))
          (ground (arith, z.ptr2_in, low.dst_from)) at2) in
    let index : k + (i + 1) ≡ k + i + 1 = omega arith in
    (
      r,
      one ∙ all,
      λ a.
          cells a
          ∙ ap (λ j. copied n j dst src m1.ram a) index
          ∙ copied_lem n (k + i) dst src a m.ram (omega arith) low,
    )

-- A page of the copy, with the pointers at byte k.
next_page_lem :
    (z : ZeroPage) (k dst src : ℕ) (m : Machine)
    → k + 256 ≤ 512
    → Apart dst src
    → m.mmu.kernel ≡ true
    → Points z.ptr1 (src + k) m.ram
    → Points z.ptr2 (dst + k) m.ram
    → (r : ℕ → ℕ) × (next_page z m ≡ record m { ram = r })
      × Points z.ptr1 (src + k + 256) r
      × Points z.ptr2 (dst + k + 256) r
      × ((a : ℕ) → 0x20 ≤ a → r a ≡ copied 256 k dst src m.ram a)
unfolding next_page
next_page_lem z k dst src m h low kernel at1 at2 =
    let (r1, page, cells) = copy_page_lem z 256 0 k dst src m (omega arith) low kernel at1 at2 in
    let p1 =
      Points-kept z.ptr1 (src + k) m.ram r1 (cells z.ptr1 ∙ ground (arith, z.ptr1_in, low.dst_from))
        (cells (z.ptr1 + 1) ∙ ground (arith, z.ptr1_in, low.dst_from)) at1 in
    let p2 =
      Points-kept z.ptr2 (dst + k) m.ram r1 (cells z.ptr2 ∙ ground (arith, z.ptr2_in, low.dst_from))
        (cells (z.ptr2 + 1) ∙ ground (arith, z.ptr2_in, low.dst_from)) at2 in
    let m1 = record m { ram = r1 } in
    let inc1 = inc_high_lem z.ptr1 (src + k) m1 kernel z.ptr1_in p1 (omega (arith, low.src_low)) in
    let r2 = raised z.ptr1 (src + k + 256) r1 in
    let q1 = raised-Points z.ptr1 (src + k + 256) (src + k) r1 p1 (omega arith) in
    let q2 =
      Points-raised z.ptr1 z.ptr2 (src + k + 256) (dst + k) r1 (λ e. omega (arith, z.disjoint))
        (λ e. omega (arith, z.disjoint)) p2 in
    let inc2 =
      inc_high_lem z.ptr2 (dst + k) (record m { ram = r2 }) kernel z.ptr2_in q2
        (omega (arith, low.dst_low)) in
    let r3 = raised z.ptr2 (dst + k + 256) r2 in
    (
      r3,
      ap (λ x. inc_high z.ptr2 (inc_high z.ptr1 x)) page ∙ ap (inc_high z.ptr2) inc1 ∙ inc2,
      Points-raised z.ptr2 z.ptr1 (dst + k + 256) (src + k + 256) r2
          (λ e. omega (arith, z.disjoint)) (λ e. omega (arith, z.disjoint)) q1,
      raised-Points z.ptr2 (dst + k + 256) (dst + k) r2 q2 (omega arith),
      λ a user.
          let off1 : z.ptr1 + 1 ≢ a = λ e. omega (arith, z.ptr1_in) in
          let off2 : z.ptr2 + 1 ≢ a = λ e. omega (arith, z.ptr2_in) in
          let same : r3 a ≡ r1 a = ground (arith, off1, off2) in
          let index : k + 0 ≡ k = omega arith in
          same ∙ cells a ∙ ap (λ j. copied 256 j dst src m.ram a) index,
    )

pages_lem :
    (dst src a : ℕ) (r r1 ram : ℕ → ℕ)
    → Apart dst src
    → r1 a ≡ copied 256 0 dst src ram a
    → r1 (src + (a - dst)) ≡ copied 256 0 dst src ram (src + (a - dst))
    → r a ≡ copied 256 256 dst src r1 a
    → r a ≡ (if leb dst a && ltb a (dst + 512) then ram (src + (a - dst)) else ram a)
pages_lem dst src a r r1 ram low first source second = elim low.disjoint [
  | inl below ↦ ground arith
  | inr above ↦ ground arith
]

-- memcpy512 of two pieces that share no byte, outside the zero page's variables.
pub memcpy512_lem :
    (z : ZeroPage) (dst src : ℕ) (m : Machine)
    → Apart dst src
    → m.mmu.kernel ≡ true
    → (r : ℕ → ℕ) × (memcpy512 z dst src m ≡ record m { ram = r })
      × ((a : ℕ)
          → 0x20 ≤ a
          → r a ≡ (if leb dst a && ltb a (dst + 512) then m.ram (src + (a - dst)) else m.ram a))
unfolding memcpy512
memcpy512_lem z dst src m low kernel =
    let set1 = set_ptr_lem z.ptr1 src m kernel z.ptr1_in in
    let r1 = pointed z.ptr1 src m.ram in
    let set2 = set_ptr_lem z.ptr2 dst (record m { ram = r1 }) kernel z.ptr2_in in
    let r2 = pointed z.ptr2 dst r1 in
    let p1 = pointed-Points z.ptr1 src m.ram (omega (arith, low.src_low)) in
    let p2 = pointed-Points z.ptr2 dst r1 (omega (arith, low.dst_low)) in
    let q1 =
      Points-kept z.ptr1 src r1 r2 (ground (arith, z.disjoint)) (ground (arith, z.disjoint)) p1 in
    let (r3, page1, at1, at2, cells1) =
      next_page_lem z 0 dst src (record m { ram = r2 }) (omega arith) low kernel
        (Points-at z.ptr1 src (src + 0) r2 (omega arith) q1)
        (Points-at z.ptr2 dst (dst + 0) r2 (omega arith) p2) in
    let (r4, page2, _, _, cells2) =
      next_page_lem z 256 dst src (record m { ram = r3 }) (omega arith) low kernel
        (Points-at z.ptr1 (src + 0 + 256) (src + 256) r3 (omega arith) at1)
        (Points-at z.ptr2 (dst + 0 + 256) (dst + 256) r3 (omega arith) at2) in
    (
      r4,
      ap (λ x. next_page z (next_page z (set_ptr z.ptr2 dst x))) set1
          ∙ ap (λ x. next_page z (next_page z x)) set2
          ∙ ap (next_page z) page1
          ∙ page2,
      λ a user.
          let kept : (b : ℕ) → 0x20 ≤ b → r2 b ≡ m.ram b =
            λ b from. ground (arith, z.ptr1_in, z.ptr2_in) in
          let source : 0x20 ≤ src + (a - dst) = omega (arith, low.src_from) in
          pages_lem dst src a r4 r3 r2 low (cells1 a user) (cells1 (src + (a - dst)) source)
            (cells2 a user)
          ∙ rw (kept a user, kept (src + (a - dst)) source) refl,
    )

fill_table_lem :
    (n i base : ℕ) (ppn : ℕ → ℕ) (j : ℕ)
    → fill_table n i base ppn j ≡ (if leb i j && ltb j (i + n) then ppn_entry base j else ppn j)
unfolding fill_table
fill_table_lem zero i base ppn j = ground arith
fill_table_lem (suc n) i base ppn j = elim (Bool-cases (i == j)) [
  | inl here ↦
      let at : j ≡ i = ground arith in
      fill_table_lem n (i + 1) base (update ppn i (ppn_entry base i)) j ∙ rw at (ground arith)
  | inr away ↦ fill_table_lem n (i + 1) base (update ppn i (ppn_entry base i)) j ∙ ground arith
]

-- The page table that spawn_bbx makes.
pub filled :
    (base : ℕ) (ppn : ℕ → ℕ) (j : ℕ) → j < 32 → fill_table 32 0 base ppn j ≡ ppn_entry base j
filled base ppn j h = fill_table_lem 32 0 base ppn j ∙ ground arith

-- The cells behind push_frame.
abbrev pub framed : (f entry : ℕ) → (ℕ → ℕ) → ℕ → ℕ
framed f entry ram =
    update (update (update ram f 0x20) (f + 1) (u8 entry)) (f + 2) (u8 (shr entry 8))

pub push_frame_lem :
    (f entry : ℕ) (m : Machine)
    → f + 2 < 2 ^ 15
    → m.mmu.kernel ≡ true
    → push_frame f entry m ≡ record m { ram = framed f entry m.ram }
unfolding push_frame
push_frame_lem f entry m low kernel =
    let m1 = record m { ram = update m.ram f 0x20 } in
    let m2 = record m1 { ram = update m1.ram (f + 1) (u8 entry) } in
    ap (λ x. bus_write (f + 2) (u8 (shr entry 8)) (bus_write (f + 1) (u8 entry) x))
      (bus_write-kernel f 0x20 m (omega arith) kernel)
    ∙ ap (bus_write (f + 2) (u8 (shr entry 8)))
        (bus_write-kernel (f + 1) (u8 entry) m1 (omega arith) kernel)
    ∙ bus_write-kernel (f + 2) (u8 (shr entry 8)) m2 (omega arith) kernel
