-- ===== src/Cuckoo/CellStream/Read.antt =====
-- Reading a bit field of the stream gives the field of the number that the cells stand for.
use native.Mathlib.Nat.{div-div-eq-div-mul, mod-lt}
use ikpir.Prelude.{
  ℕ, zero, suc, ◌+◌, ◌-◌, ◌*◌, ◌/◌, ◌%◌, ◌^◌, ◌≤◌, ◌<◌, min, bit_or, ◌≡◌, sym, ap, ◌∙◌, List, arith,
  u64, get_or, length, Bool-cases, inl, inr, ltb, ltb→lt,
}
use ikpir.Bits.{bit_or_fields, bit_and_mask, two_pow_add, two_pow_pos}
use ikpir.Bits.Field.{field, split}
use ikpir.Bits.Power.{mod_glue, mod_mod_min, mod_mod_le, shift_mod, mod-div, ones-shr}
use ikpir.Cuckoo.CellStream.{read_loop, slot_read_bits}
use ikpir.Cuckoo.CellStream.Number.{Fits, number, cell-field}

-- One round of the loop: the next cell joins the bits already read.
pub join :
    (x v filled pb : ℕ)
    → v ≡ x / 2 ^ filled % 2 ^ pb
    → filled < 64
    → bit_or (x % 2 ^ filled) (u64 (v * 2 ^ filled)) ≡ x % 2 ^ min (filled + pb) 64
join x v filled pb e h =
    let word : 64 ≡ filled + (64 - filled) = omega arith in
    let least : filled + min pb (64 - filled) ≡ min (filled + pb) 64 = omega arith in
    let shifted : u64 (v * 2 ^ filled) ≡ v % 2 ^ (64 - filled) * 2 ^ filled =
      ap (λ (t : ℕ). v * 2 ^ filled % 2 ^ t) word ∙ shift_mod v filled (64 - filled) in
    let kept : v % 2 ^ (64 - filled) ≡ x / 2 ^ filled % 2 ^ min pb (64 - filled) =
      rw e (mod_mod_min (x / 2 ^ filled) pb (64 - filled)) in
    rw (shifted, kept, bit_or_fields filled _ (x % 2 ^ filled) (mod-lt x (two_pow_pos filled)))
      (mod_glue x filled (min pb (64 - filled)) ∙ ap (λ (t : ℕ). x % 2 ^ t) least)

module _ (cells : List ℕ) (pb : ℕ) (fit : Fits pb cells) (pb_pos : 0 < pb) where
  -- A whole cell, as a digit of the stream above position `off`.
  cell-digit :
      (off filled ci : ℕ)
      → off + filled ≡ ci * pb
      → get_or cells ci 0 ≡ number pb cells / 2 ^ off / 2 ^ filled % 2 ^ pb
  cell-digit off filled ci e =
      let at : number pb cells / 2 ^ off / 2 ^ filled ≡ number pb cells / 2 ^ (ci * pb) =
        div-div-eq-div-mul _ (2 ^ off) (2 ^ filled)
        ∙ ap (λ (t : ℕ). number pb cells / t) (sym (two_pow_add off filled))
        ∙ ap (λ (t : ℕ). number pb cells / 2 ^ t) e in
      rw at (sym (cell-field pb cells ci fit))

  -- The loop invariant: `acc` holds the bits from `off` on, as many as are filled, 64 at most.
  read_loop_lem :
      (fuel n off ci acc filled : ℕ)
      → n ≤ 64
      → n ≤ filled + fuel
      → off + filled ≡ ci * pb
      → acc ≡ number pb cells / 2 ^ off % 2 ^ min filled 64
      → read_loop fuel cells pb n ci acc filled % 2 ^ n ≡ number pb cells / 2 ^ off % 2 ^ n
  unfolding read_loop
  read_loop_lem zero n off ci acc filled small enough at h =
      rw h (mod_mod_le _ n (min filled 64) (omega arith))
  read_loop_lem (suc fuel) n off ci acc filled small enough at h =
      elim (Bool-cases (ltb filled n)) [
        | inr done ↦ rw (done, read_loop, h) (mod_mod_le _ n (min filled 64) ground arith)
        | inl more ↦
            let lt : filled < n = ltb→lt filled n more in
            let least : min filled 64 ≡ filled = omega arith in
            let x = number pb cells / 2 ^ off in
            let start : acc ≡ x % 2 ^ filled = h ∙ ap (λ (t : ℕ). x % 2 ^ t) least in
            let next : bit_or acc (u64 (get_or cells ci 0 * 2 ^ filled))
                ≡ x % 2 ^ min (filled + pb) 64 =
              rw start (
                join x (get_or cells ci 0) filled pb (cell-digit off filled ci at) (omega arith)) in
            rw (more, read_loop)
              (read_loop_lem fuel n off (ci + 1) _ (filled + pb) small (omega arith) (omega arith)
                next)
      ]

  -- What the first cell holds from `off` on.
  first-cell :
      (off : ℕ)
      → get_or cells (off / pb) 0 / 2 ^ (off % pb) ≡ number pb cells / 2 ^ off % 2 ^ (pb - off % pb)
  first-cell off =
      let q = off / pb in
      let r = off % pb in
      let r-lt : r < pb = mod-lt off pb_pos in
      let width : pb ≡ r + (pb - r) = omega arith in
      let place : q * pb + r ≡ off = sym (split pb off) in
      let at : number pb cells / 2 ^ (q * pb) / 2 ^ r ≡ number pb cells / 2 ^ off =
        div-div-eq-div-mul _ (2 ^ (q * pb)) (2 ^ r)
        ∙ ap (λ (t : ℕ). number pb cells / t) (sym (two_pow_add (q * pb) r))
        ∙ ap (λ (t : ℕ). number pb cells / 2 ^ t) place in
      ap (λ (t : ℕ). t / 2 ^ r) (sym (cell-field pb cells q fit))
      ∙ ap (λ (t : ℕ). number pb cells / 2 ^ (q * pb) % 2 ^ t / 2 ^ r) width
      ∙ mod-div _ r (pb - r)
      ∙ ap (λ (t : ℕ). t % 2 ^ (pb - r)) at

  next-cell : (off : ℕ) → off + (pb - off % pb) ≡ (off / pb + 1) * pb
  next-cell off = omega (arith, split pb off, mod-lt off pb_pos)

  -- With cells of 1 to 64 bits that keep their high bits zero, a read of 1 to 64 bits that lie
  -- within the cells yields the bits `[bit_offset, bit_offset + n_bits)` of the number that the
  -- cells stand for.
  pub slot_read_bits_lem :
      (bit_offset n_bits : ℕ)
      → pb ≤ 64
      → 1 ≤ n_bits
      → n_bits ≤ 64
      → bit_offset + n_bits ≤ length cells * pb
      → slot_read_bits cells bit_offset n_bits pb
        ≡ field (number pb cells) (2 ^ bit_offset) (2 ^ n_bits)
  unfolding slot_read_bits
  slot_read_bits_lem off n wide pos small room =
      let r-lt : off % pb < pb = mod-lt off pb_pos in
      let least : min (pb - off % pb) 64 ≡ pb - off % pb = omega arith in
      rw (ones-shr n small, bit_and_mask)
        (read_loop_lem n n off (off / pb + 1) _ (pb - off % pb) small (omega arith) (next-cell off)
          (rw least (first-cell off)))
