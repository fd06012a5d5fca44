-- ===== src/Kernel/Block/Spread.antt =====
-- The copy of the controller's buffer, byte by byte, and the assembly of block_read as such a copy.
use bb6502_verilog.Common.{
  ℕ, zero, suc, ◌+◌, ◌-◌, ◌^◌, ◌<◌, ◌≤◌, ◌≡◌, ◌≢◌, refl, ◌∙◌, ap, sym, true, ◌&&◌, leb, ltb, lt→ltb,
  ◌==◌, if◌then◌else◌, if-elim, Bool-cases, inl, inr, arith,
}
use bb6502_verilog.Common.Bits.{u16}
use bb6502_verilog.Machine.Mmu.{is_ctrl, update}
use bb6502_verilog.Machine.Bus.{Machine, Disk, step_dptr, data_in, after_read, bus_write}
use bb6502_verilog.Machine.Ram.{bus_write-kernel}
use bb6502_verilog.Kernel.ZeroPage.{ZeroPage, indirect, inc_high, dec_high}
use bb6502_verilog.Kernel.ZeroPage.Pointers.{
  Points, Points-kept, indirect_lem, raised, raised-Points, inc_high_lem, dec_high_lem,
}
use bb6502_verilog.Kernel.Block.{drain_page, drain}

-- Byte i of the controller's buffer is loaded from DISK_DATA and stored at `buf + i`, for the n bytes
-- from i on.
spread : (n i buf : ℕ) → Machine → Machine
spread zero i buf m = m
spread (suc n) i buf m =
    spread n (i + 1) buf (bus_write (u16 (buf + i)) (data_in 0x80e6 m) (after_read 0x80e6 m))

-- What the copy leaves in a cell of the RAM.
abbrev pub copied : (n i buf : ℕ) → Machine → ℕ → ℕ
copied n i buf m a =
    if leb (buf + i) a && ltb a (buf + i + n) then m.disk.buf (a - buf) else m.ram a

cells_lem :
    (n i buf a : ℕ) (b ram : ℕ → ℕ)
    → (if leb (buf + (i + 1)) a && ltb a (buf + (i + 1) + n)
        then b (a - buf)
        else update ram (buf + i) (b i) a)
      ≡ (if leb (buf + i) a && ltb a (buf + i + suc n) then b (a - buf) else ram a)
cells_lem n i buf a b ram = elim (Bool-cases (buf + i == a)) [
  | inl here ↦ let at : a - buf ≡ i = ground arith in rw at (ground arith)
  | inr away ↦ ground arith
]

step_dptr-buf : (d : Disk) → (step_dptr d).buf ≡ d.buf
unfolding step_dptr
step_dptr-buf d = if-elim (λ (e : Disk). e.buf ≡ d.buf) (ltb d.dptr 511) (λ _. refl) (λ _. refl)

step_dptr-next : (d : Disk) → d.dptr < 511 → (step_dptr d).dptr ≡ d.dptr + 1
unfolding step_dptr
step_dptr-next d h = rw (lt→ltb d.dptr 511 h) refl

-- The machine behind one byte of the copy.
stepped : (buf i : ℕ) → Machine → Machine
stepped buf i m = record m {
  ram = update m.ram (buf + i) (m.disk.buf m.disk.dptr);
  disk = step_dptr m.disk;
}

spread_step :
    (n i buf : ℕ) (m : Machine)
    → i < 512
    → buf + 512 ≤ 2 ^ 15
    → m.mmu.kernel ≡ true
    → spread (suc n) i buf m ≡ spread n (i + 1) buf (stepped buf i m)
unfolding spread after_read data_in is_ctrl stepped
spread_step n i buf m h f k =
    let next = record m { disk = step_dptr m.disk } in
    let v = m.disk.buf m.disk.dptr in
    let at : u16 (buf + i) ≡ buf + i = omega arith in
    ap (spread n (i + 1) buf)
      (ap (λ a. bus_write a v next) at ∙ bus_write-kernel (buf + i) v next (omega arith) k)

spread_ram :
    (n i buf : ℕ) (m : Machine) (a : ℕ)
    → i + n ≤ 512
    → buf + 512 ≤ 2 ^ 15
    → m.mmu.kernel ≡ true
    → (0 < n → m.disk.dptr ≡ i)
    → (spread n i buf m).ram a ≡ copied n i buf m a
unfolding stepped
spread_ram zero i buf m a h f k d = unfold spread in ground arith
spread_ram (suc n) i buf m a h f k d =
    let here : m.disk.dptr ≡ i = d (omega arith) in
    ap (λ (x : Machine). x.ram a) (spread_step n i buf m (omega arith) f k)
    ∙ spread_ram n (i + 1) buf (stepped buf i m) a (omega arith) f k
        (λ more. step_dptr-next m.disk (omega arith) ∙ omega arith)
    ∙ rw (step_dptr-buf m.disk, here) (cells_lem n i buf a m.disk.buf m.ram)

-- The copy changes the RAM and the controller only.
spread_frame :
    (n i buf : ℕ) (m : Machine)
    → i + n ≤ 512
    → buf + 512 ≤ 2 ^ 15
    → m.mmu.kernel ≡ true
    → (d : Disk) × (spread n i buf m ≡ record m { ram = (spread n i buf m).ram; disk = d })
      × (d.image ≡ m.disk.image)
      × (d.lba ≡ m.disk.lba)
      × (d.buf ≡ m.disk.buf)
      × (m.disk.dptr ≡ i → i + n < 512 → d.dptr ≡ i + n)
unfolding stepped step_dptr
spread_frame zero i buf m h f k =
    (m.disk, unfold spread in refl, refl, refl, refl, λ e small. e ∙ omega arith)
spread_frame (suc n) i buf m h f k =
    let one = spread_step n i buf m (omega arith) f k in
    let (d, rest, image, lba, held, ptr) =
      spread_frame n (i + 1) buf (stepped buf i m) (omega arith) f k in
    (
      d,
      one ∙ rest ∙ ap (λ (x : Machine). record m { ram = x.ram; disk = d }) (sym one),
      image
          ∙ if-elim (λ (e : Disk). e.image ≡ m.disk.image) (ltb m.disk.dptr 511) (λ _. refl)
              (λ _. refl),
      lba
          ∙ if-elim (λ (e : Disk). e.lba ≡ m.disk.lba) (ltb m.disk.dptr 511) (λ _. refl)
              (λ _. refl),
      held
          ∙ if-elim (λ (e : Disk). e.buf ≡ m.disk.buf) (ltb m.disk.dptr 511) (λ _. refl)
              (λ _. refl),
      λ e small.
          let next : (step_dptr m.disk).dptr ≡ i + 1 =
            step_dptr-next m.disk (omega arith) ∙ ap (λ x. x + 1) e in
          ptr next (omega arith) ∙ omega arith,
    )

-- A page of the assembly's loop, with zp_ptr at byte k of the buffer.
drain_page_lem :
    (z : ZeroPage) (n i k buf : ℕ) (m : Machine)
    → k + (i + n) ≤ 512
    → 0x20 ≤ buf
    → buf + 512 ≤ 2 ^ 15
    → m.mmu.kernel ≡ true
    → Points z.zp_ptr (buf + k) m.ram
    → drain_page z n i m ≡ spread n (k + i) buf m
unfolding drain_page
drain_page_lem z zero i k buf m h from low kernel at = unfold spread in refl
drain_page_lem z (suc n) i k buf m h from low kernel at =
    let next = after_read 0x80e6 m in
    let same : next ≡ record m { disk = step_dptr m.disk } = unfold after_read is_ctrl in refl in
    let v = data_in 0x80e6 m in
    let quiet = record m { disk = step_dptr m.disk } in
    let place : indirect z.zp_ptr i quiet ≡ buf + (k + i) =
      indirect_lem z.zp_ptr (buf + k) i quiet kernel z.zp_ptr_in at (omega arith) ∙ omega arith in
    let short : u16 (buf + (k + i)) ≡ buf + (k + i) = omega arith in
    let stored = bus_write-kernel (buf + (k + i)) v quiet (omega arith) kernel in
    let m' = record quiet { ram = update m.ram (buf + (k + i)) v } in
    let at' : Points z.zp_ptr (buf + k) m'.ram =
      Points-kept z.zp_ptr (buf + k) m.ram m'.ram (ground (arith, z.zp_ptr_in))
        (ground (arith, z.zp_ptr_in)) at in
    let index : k + (i + 1) ≡ k + i + 1 = omega arith in
    ap (λ x. drain_page z n (i + 1) (bus_write (indirect z.zp_ptr i x) v x)) same
    ∙ ap (λ a. drain_page z n (i + 1) (bus_write a v quiet)) place
    ∙ ap (drain_page z n (i + 1)) stored
    ∙ drain_page_lem z n (i + 1) k buf m' (omega arith) from low kernel at'
    ∙ ap (λ j. spread n j buf m') index
    ∙ ap (spread n (k + i + 1) buf) (sym stored)
    ∙ ap (λ a. spread n (k + i + 1) buf (bus_write a v quiet)) (sym short)
    ∙ ap (λ x. spread n (k + i + 1) buf (bus_write (u16 (buf + (k + i))) v x)) (sym same)
    ∙ unfold spread in refl

-- A page of the loop, and all it changes.
page_lem :
    (z : ZeroPage) (k buf : ℕ) (m : Machine)
    → k + 256 ≤ 512
    → 0x20 ≤ buf
    → buf + 512 ≤ 2 ^ 15
    → m.mmu.kernel ≡ true
    → m.disk.dptr ≡ k
    → Points z.zp_ptr (buf + k) m.ram
    → (r : ℕ → ℕ) × (d : Disk) × (drain_page z 256 0 m ≡ record m { ram = r; disk = d })
      × (d.image ≡ m.disk.image)
      × (d.lba ≡ m.disk.lba)
      × (d.buf ≡ m.disk.buf)
      × (k + 256 < 512 → d.dptr ≡ k + 256)
      × Points z.zp_ptr (buf + k) r
      × ((a : ℕ) → r a ≡ copied 256 k buf m a)
page_lem z k buf m h from low kernel dptr at =
    let (d, frame, image, lba, held, ptr) = spread_frame 256 k buf m h low kernel in
    let r = (spread 256 k buf m).ram in
    let cells = λ (a : ℕ). spread_ram 256 k buf m a h low kernel (λ _. dptr) in
    let index : k + 0 ≡ k = omega arith in
    (
      r,
      d,
      drain_page_lem z 256 0 k buf m (omega arith) from low kernel at
          ∙ ap (λ j. spread 256 j buf m) index
          ∙ frame,
      image,
      lba,
      held,
      λ small. ptr dptr small,
      Points-kept z.zp_ptr (buf + k) m.ram r (cells z.zp_ptr ∙ ground (arith, z.zp_ptr_in))
          (cells (z.zp_ptr + 1) ∙ ground (arith, z.zp_ptr_in)) at,
      cells,
    )

both_lem :
    (buf a : ℕ) (b r1 r2 r3 ram : ℕ → ℕ)
    → r1 a ≡ (if leb (buf + 0) a && ltb a (buf + 0 + 256) then b (a - buf) else ram a)
    → r2 a ≡ r1 a
    → r3 a ≡ (if leb (buf + 256) a && ltb a (buf + 256 + 256) then b (a - buf) else r2 a)
    → r3 a ≡ (if leb buf a && ltb a (buf + 512) then b (a - buf) else ram a)
both_lem buf a b r1 r2 r3 ram h k l = ground arith

-- The assembly of block_read copies the controller's buffer to where zp_ptr points, outside the zero
-- page's variables, which stay bytes.
pub drain_lem :
    (z : ZeroPage) (buf : ℕ) (m : Machine)
    → 0x20 ≤ buf
    → buf + 512 ≤ 2 ^ 15
    → m.mmu.kernel ≡ true
    → m.disk.dptr ≡ 0
    → Points z.zp_ptr buf m.ram
    → (r : ℕ → ℕ) × (d : Disk) × (drain z m ≡ record m { ram = r; disk = d })
      × (d.image ≡ m.disk.image)
      × (d.lba ≡ m.disk.lba)
      × ((a : ℕ)
          → 0x20 ≤ a
          → r a ≡ (if leb buf a && ltb a (buf + 512) then m.disk.buf (a - buf) else m.ram a))
      × ((a : ℕ) → a < 0x20 → m.ram a < 256 → r a < 256)
unfolding drain
drain_lem z buf m from low kernel dptr at0 =
    let p = z.zp_ptr in
    let zero_off : buf + 0 ≡ buf = omega arith in
    let (r1, d1, page1, image1, lba1, buf1, ptr1, at1', cells1) =
      page_lem z 0 buf m (omega arith) from low kernel dptr (rw zero_off at0) in
    let at1 : Points p buf r1 = rw zero_off at at1' in
    let m1 = record m { ram = r1; disk = d1 } in
    let inc1 = inc_high_lem p buf m1 kernel z.zp_ptr_in at1 (omega arith) in
    let r2 = raised p (buf + 256) r1 in
    let at2 = raised-Points p (buf + 256) buf r1 at1 (omega arith) in
    let m2 = record m1 { ram = r2 } in
    let (r3, d3, page2, image3, lba3, buf3, ptr3, at3, cells3) =
      page_lem z 256 buf m2 (omega arith) from low kernel (ptr1 (omega arith)) at2 in
    let m3 = record m2 { ram = r3; disk = d3 } in
    let inc2 = inc_high_lem p (buf + 256) m3 kernel z.zp_ptr_in at3 (omega arith) in
    let r4 = raised p (buf + 256 + 256) r3 in
    let at4 = raised-Points p (buf + 256 + 256) (buf + 256) r3 at3 (omega arith) in
    let m4 = record m3 { ram = r4 } in
    let dec1 = dec_high_lem p (buf + 256) m4 kernel z.zp_ptr_in at4 (omega arith) in
    let r5 = raised p (buf + 256) r4 in
    let at5 = raised-Points p (buf + 256) (buf + 256 + 256) r4 at4 (omega arith) in
    let m5 = record m4 { ram = r5 } in
    let dec2 = dec_high_lem p buf m5 kernel z.zp_ptr_in at5 (omega arith) in
    let r6 = raised p buf r5 in
    (
      r6,
      d3,
      ap (λ x. dec_high p (dec_high p (inc_high p (drain_page z 256 0 (inc_high p x))))) page1
          ∙ ap (λ x. dec_high p (dec_high p (inc_high p (drain_page z 256 0 x)))) inc1
          ∙ ap (λ x. dec_high p (dec_high p (inc_high p x))) page2
          ∙ ap (λ x. dec_high p (dec_high p x)) inc2
          ∙ ap (dec_high p) dec1
          ∙ dec2,
      image3 ∙ image1,
      lba3 ∙ lba1,
      λ a user.
          let off : p + 1 ≢ a = λ e. omega (arith, z.zp_ptr_in) in
          let last : r6 a ≡ r3 a = ground (arith, off) in
          let mid : r2 a ≡ r1 a = ground (arith, off) in
          let copy : r3 a ≡ (
              if leb (buf + 256) a && ltb a (buf + 256 + 256) then m.disk.buf (a - buf) else r2 a) =
            cells3 a
            ∙ ap
                (λ (b : ℕ → ℕ).
                  if leb (buf + 256) a && ltb a (buf + 256 + 256) then b (a - buf) else r2 a)
                buf1 in
          last ∙ both_lem buf a m.disk.buf r1 r2 r3 m.ram (cells1 a) mid copy,
      λ a variable small.
          let first : r1 a ≡ m.ram a = cells1 a ∙ ground (arith, from, variable) in
          let second : r3 a ≡ r2 a = cells3 a ∙ ground (arith, from, variable) in
          ground (arith, first, second, small),
    )
