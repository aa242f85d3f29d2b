-- ===== src/Cuckoo/CellStream/Write.antt =====
-- Writing a bit field of the stream replaces that field of the number that the cells stand for,
-- and nothing else.
use native.Mathlib.Nat.{mod-lt, div-one, mod-one}
use ikpir.Prelude.{
  ℕ, zero, suc, ◌+◌, ◌-◌, ◌*◌, ◌/◌, ◌%◌, ◌^◌, ◌≤◌, ◌<◌, min, max, ◌≡◌, refl, sym, ap, ap₂, ◌∙◌,
  List, arith, get_or, set, length, length-set, ltb, if◌then◌else◌, ◌>>>◌, get_or,
}
use ikpir.Bits.{two_pow_add, two_pow_pos, two_pow_mono}
use ikpir.Bits.Field.{field, put, split, put-put, put-inside, put-lt}
use ikpir.Cuckoo.CellStream.{write_cell, write_loop, slot_write_bits, div_ceil}
use ikpir.Cuckoo.CellStream.Cell.{write_cell_lem}
use ikpir.Cuckoo.CellStream.Number.{
  Fits, number, weight, get_or-lt, set-Fits, cell-field, number-set,
}

-- What the write loops keep: the cells stand for `N` with `pos` bits of the value written.
pub record Written (pb off value N : ℕ) (init : List ℕ) (pos : ℕ) (cells : List ℕ) : Type 0 where
  pub fits : Fits pb cells
  pub size : length cells ≡ length init
  pub bits : number pb cells ≡ put N (2 ^ off) (2 ^ pos) value

module _ (pb : ℕ) (pb_pos : 0 < pb) (pb_small : pb ≤ 32) where
  -- The cell `ci` with the bits `[lo, lo + n)` replaced.
  one-cell :
      (cells : List ℕ) (ci lo n v : ℕ)
      → Fits pb cells
      → ci < length cells
      → lo + n ≤ pb
      → let r = set cells ci (write_cell (get_or cells ci 0) lo n v) in
        Fits pb r × (number pb r ≡ put (number pb cells) (2 ^ (ci * pb + lo)) (2 ^ n) v)
  one-cell cells ci lo n v fit h narrow =
      let cell = get_or cells ci 0 in
      let cell-lt : cell < 2 ^ pb = get_or-lt pb cells ci fit in
      let word : 2 ^ pb ≤ 2 ^ 32 = two_pow_mono pb 32 pb_small in
      let above = pb - (lo + n) in
      let width : pb ≡ lo + n + above = omega arith in
      let parts : 2 ^ pb ≡ 2 ^ lo * 2 ^ n * 2 ^ above =
        ap (λ (t : ℕ). 2 ^ t) width
        ∙ two_pow_add (lo + n) above
        ∙ ap (λ (t : ℕ). t * 2 ^ above) (two_pow_add lo n) in
      let e : write_cell cell lo n v ≡ put cell (2 ^ lo) (2 ^ n) v =
        write_cell_lem cell lo n v (omega arith) (omega arith) in
      let new = put cell (2 ^ lo) (2 ^ n) v in
      let new-lt : new < 2 ^ pb = rw parts (
        put-lt cell (2 ^ lo) (2 ^ n) (2 ^ above) v (two_pow_pos lo) (two_pow_pos n)
          (rw parts at cell-lt)) in
      let N = number pb cells in
      let inside : put N (weight pb ci) (2 ^ lo * 2 ^ n * 2 ^ above)
            (put (field N (weight pb ci) (2 ^ lo * 2 ^ n * 2 ^ above)) (2 ^ lo) (2 ^ n) v)
          ≡ put N (weight pb ci * 2 ^ lo) (2 ^ n) v =
        put-inside N (weight pb ci) (2 ^ lo) (2 ^ n) (2 ^ above) v (two_pow_pos (ci * pb))
          (two_pow_pos lo) (two_pow_pos n) (two_pow_pos above) in
      rw e (
        set-Fits pb cells ci new fit new-lt,
        number-set pb cells ci new fit new-lt h
            ∙ ap (λ (t : ℕ). put N (weight pb ci) (2 ^ pb) (put t (2 ^ lo) (2 ^ n) v))
                (sym (cell-field pb cells ci fit))
            ∙ ap
                (λ (t : ℕ).
                  put N (weight pb ci) t (put (field N (weight pb ci) t) (2 ^ lo) (2 ^ n) v))
                parts
            ∙ inside
            ∙ ap (λ (t : ℕ). put N t (2 ^ n) v) (sym (two_pow_add (ci * pb) lo)),
      )

  module _ (off n value N : ℕ) (init : List ℕ) where
    write_loop_lem :
        (left : ℕ) (cells : List ℕ) (ci pos : ℕ)
        → off + n ≤ length init * pb
        → off < ci * pb + pb
        → off + n ≤ (ci + left) * pb
        → ((k : ℕ) → left ≡ suc k → (ci + k) * pb < off + n)
        → off + pos ≡ max off (min (ci * pb) (off + n))
        → Written pb off value N init pos cells
        → Written pb off value N init n (write_loop left cells pb off n value ci pos)
    unfolding write_loop
    write_loop_lem zero cells ci pos room start reach last at w =
        let e : pos ≡ n = omega arith in rw e at w
    write_loop_lem (suc left) cells ci pos room start reach last at w =
        let base = ci * pb in
        let before : base < off + n = omega (arith, last left refl) in
        let lo = if ltb base off then off - base else 0 in
        let at_lo : base + lo ≡ off + pos = ground arith in
        let width = min (off + n) (base + pb) - base - lo in
        let inside : ci < length cells = grind (arith, w.size) in
        let step =
          one-cell cells ci lo width (value >>> pos) w.fits inside (omega (arith, at_lo)) in
        let joined : number pb
              (set cells ci (write_cell (get_or cells ci 0) lo width (value >>> pos)))
            ≡ put N (2 ^ off) (2 ^ (pos + width)) value =
          step.1
          ∙ ap₂ (λ (x y : ℕ). put x (2 ^ y) (2 ^ width) (value >>> pos)) w.bits at_lo
          ∙ ap (λ (t : ℕ). put (put N (2 ^ off) (2 ^ pos) value) t (2 ^ width) (value >>> pos))
              (two_pow_add off pos)
          ∙ put-put N (2 ^ off) (2 ^ pos) (2 ^ width) value (two_pow_pos off) (two_pow_pos pos)
              (two_pow_pos width)
          ∙ ap (λ (t : ℕ). put N (2 ^ off) t value) (sym (two_pow_add pos width)) in
        write_loop_lem left (set cells ci (write_cell (get_or cells ci 0) lo width (value >>> pos)))
          (ci + 1) (pos + width) room (omega arith) (omega arith)
          (λ k e. omega (arith, last (suc k) (ap suc e))) (omega (arith, at_lo))
          (record { fits = step.0; size = length-set _ ci _ ∙ w.size; bits = joined })

  pub slot_write_bits_lem :
      (cells : List ℕ) (bit_offset n_bits value : ℕ)
      → Fits pb cells
      → bit_offset + n_bits ≤ length cells * pb
      → let r = slot_write_bits cells bit_offset n_bits value pb in
        Fits pb r
        × (length r ≡ length cells)
        × (number pb r ≡ put (number pb cells) (2 ^ bit_offset) (2 ^ n_bits) value)
  unfolding slot_write_bits
  slot_write_bits_lem cells off n value fit room =
      let first = off / pb in
      let end = div_ceil (off + n) pb in
      let N = number pb cells in
      let from = split pb off in
      let from-lt : off % pb < pb = mod-lt off pb_pos in
      let to = split pb (off + n + pb - 1) in
      let to-lt : (off + n + pb - 1) % pb < pb = mod-lt (off + n + pb - 1) pb_pos in
      let ordered : first ≤ end = grind arith in
      let sum : first + (end - first) ≡ end = omega arith in
      let nothing : N ≡ put N (2 ^ off) (2 ^ 0) value =
        simp (div-one, mod-one) (ground (arith, split (2 ^ off) N)) in
      let w =
        write_loop_lem off n value N cells (end - first) cells first 0 room (omega arith)
          (rw sum (omega arith))
          (λ k e.
            let up : end ≡ first + k + 1 = omega arith in omega (arith, ap (λ (t : ℕ). t * pb) up))
          (omega arith) (record { fits = fit; size = refl; bits = nothing }) in
      (w.fits, w.size, w.bits)
