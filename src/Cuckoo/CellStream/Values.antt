-- ===== src/Cuckoo/CellStream/Values.antt =====
-- A value that takes several cells: the loops that read and write it, over the number that the
-- cells stand for.
use native.Mathlib.Nat.{mod-lt, mod-eq_of_lt, div-div-eq-div-mul, mod-one}
use ikpir.Prelude.{
  ℕ, zero, suc, ◌+◌, ◌-◌, ◌*◌, ◌/◌, ◌%◌, ◌^◌, ◌≤◌, ◌<◌, min, ◌≡◌, ◌⊎◌, refl, sym, ap, ap₂, ◌∙◌,
  List, arith, get_or, length, bit_and, u32, inl, inr,
}
use ikpir.Bits.{bit_and_mask, two_pow_add, two_pow_pos, two_pow_mono}
use ikpir.Bits.Field.{field, put, put-put, put-nothing, split}
use ikpir.Bits.Power.{mod_mod_le, mod_glue}
use ikpir.Cuckoo.CellStream.{div_ceil, slot_read_bits, write_values, read_values}
use ikpir.Cuckoo.CellStream.Number.{Fits, number, weight, cell-field}
use ikpir.Cuckoo.CellStream.Read.{slot_read_bits_lem}
use ikpir.Cuckoo.CellStream.Write.{Written, slot_write_bits_lem}

module _ (pb : ℕ) (pb_pos : 0 < pb) (pb_small : pb ≤ 32) (vb off : ℕ) where
  -- The bits of one cell of the value, masked as the code does.
  masked-cell :
      (value : List ℕ) (i n N p : ℕ)
      → Fits pb value
      → n ≤ pb
      → put N p (2 ^ n) (bit_and (get_or value i 0) (u32 (2 ^ n - 1)))
        ≡ put N p (2 ^ n) (number pb value / weight pb i)
  masked-cell value i n N p fit h =
      let small : 2 ^ n ≤ 2 ^ 32 = two_pow_mono n 32 (omega arith) in
      let mask : u32 (2 ^ n - 1) ≡ 2 ^ n - 1 = mod-eq_of_lt (omega (arith, two_pow_pos n)) in
      let low : bit_and (get_or value i 0) (u32 (2 ^ n - 1)) % 2 ^ n
          ≡ number pb value / weight pb i % 2 ^ n =
        ap (λ (t : ℕ). bit_and (get_or value i 0) t % 2 ^ n) mask
        ∙ ap (λ (t : ℕ). t % 2 ^ n) (bit_and_mask n (get_or value i 0))
        ∙ mod-eq_of_lt (mod-lt _ (two_pow_pos n))
        ∙ ap (λ (t : ℕ). t % 2 ^ n) (sym (cell-field pb value i fit))
        ∙ mod_mod_le _ n pb h in
      ap (λ (t : ℕ). (N / p / 2 ^ n * 2 ^ n + t) * p + N % p) low

  module _ (N : ℕ) (init value : List ℕ) (fit : Fits pb value)
      (room : off + vb ≤ length init * pb) where
    write_values_lem :
        (left i : ℕ) (cells : List ℕ)
        → vb ≤ (i + left) * pb
        → ((k : ℕ) → left ≡ suc k → (i + k) * pb < vb)
        → Written pb off (number pb value) N init (min (i * pb) vb) cells
        → Written pb off (number pb value) N init vb (write_values left cells pb vb value off i)
    unfolding write_values
    write_values_lem zero i cells reach last w =
        let all : min (i * pb) vb ≡ vb = omega arith in rw all at w
    write_values_lem (suc left) i cells reach last w =
        let before : i * pb < vb = omega (arith, last left refl) in
        let n = min (vb - i * pb) pb in
        let here : min (i * pb) vb ≡ i * pb = omega arith in
        let next : i * pb + n ≡ min ((i + 1) * pb) vb = omega arith in
        let masked = bit_and (get_or value i 0) (u32 (2 ^ n - 1)) in
        let step =
          slot_write_bits_lem pb pb_pos pb_small cells (off + i * pb) n masked w.fits
            (omega (arith, ap (λ (t : ℕ). t * pb) w.size)) in
        let V = number pb value in
        let P = put N (2 ^ off) (2 ^ (i * pb)) V in
        let bits =
          step.2
          ∙ masked-cell value i n (number pb cells) (2 ^ (off + i * pb)) fit (omega arith)
          ∙ ap₂ (λ (x y : ℕ). put x y (2 ^ n) (V / weight pb i))
              (w.bits ∙ ap (λ (t : ℕ). put N (2 ^ off) (2 ^ t) V) here) (two_pow_add off (i * pb))
          ∙ put-put N (2 ^ off) (2 ^ (i * pb)) (2 ^ n) V (two_pow_pos off) (two_pow_pos (i * pb))
              (two_pow_pos n)
          ∙ ap (λ (t : ℕ). put N (2 ^ off) t V) (sym (two_pow_add (i * pb) n))
          ∙ ap (λ (t : ℕ). put N (2 ^ off) (2 ^ t) V) next in
        write_values_lem left (i + 1) _ (omega arith)
          (λ k e. omega (arith, last (suc k) (ap suc e)))
          (record { fits = step.0; size = step.1 ∙ w.size; bits = bits })

  -- The digit of cell `i` and the ones above it.
  glue :
      (x i : ℕ)
      → i * pb < vb
      → x / 2 ^ pb % 2 ^ (vb - (i + 1) * pb) * 2 ^ pb + x % 2 ^ min (vb - i * pb) pb
        ≡ x % 2 ^ (vb - i * pb)
  glue x i h = elim cases [
    | inl whole ↦
        let n : min (vb - i * pb) pb ≡ pb = omega arith in
        let w : vb - i * pb ≡ pb + (vb - (i + 1) * pb) = omega arith in
        rw (n, w) (mod_glue x pb (vb - (i + 1) * pb))
    | inr part ↦
        let n : min (vb - i * pb) pb ≡ vb - i * pb = omega arith in
        let w : vb - (i + 1) * pb ≡ 0 = omega arith in rw (n, w) (simp mod-one (omega arith))
  ]
    where
      cases : (pb ≤ vb - i * pb) ⊎ (vb - i * pb < pb)
      cases = omega arith

  module _ (cells : List ℕ) (fit : Fits pb cells) (room : off + vb ≤ length cells * pb) where
    -- The rest of the value from cell `i` on.
    read_values_lem :
        (left i : ℕ)
        → vb ≤ (i + left) * pb
        → ((k : ℕ) → left ≡ suc k → (i + k) * pb < vb)
        → let r = read_values left cells pb vb off i in
          Fits pb r
          × (length r ≡ left)
          × (number pb r ≡ field (number pb cells) (2 ^ (off + i * pb)) (2 ^ (vb - i * pb)))
    unfolding read_values number
    read_values_lem zero i reach last =
        let none_left : vb - i * pb ≡ 0 = omega arith in (tt, refl, rw none_left (sym (mod-one _)))
    read_values_lem (suc left) i reach last =
        let before : i * pb < vb = omega (arith, last left refl) in
        let n = min (vb - i * pb) pb in
        let at = off + i * pb in
        let x = number pb cells / 2 ^ at in
        let rest =
          read_values_lem left (i + 1) (omega arith)
            (λ k e. omega (arith, last (suc k) (ap suc e))) in
        let read : slot_read_bits cells at n pb ≡ x % 2 ^ n =
          slot_read_bits_lem cells pb fit pb_pos at n (omega arith) (omega arith) (omega arith)
            (omega (arith, room)) in
        let digit-lt : x % 2 ^ n < 2 ^ n = mod-lt x (two_pow_pos n) in
        let pb-le : 2 ^ n ≤ 2 ^ pb = two_pow_mono n pb (omega arith) in
        let word : 2 ^ pb ≤ 2 ^ 32 = two_pow_mono pb 32 pb_small in
        let digit : u32 (slot_read_bits cells at n pb) ≡ x % 2 ^ n =
          ap u32 read ∙ mod-eq_of_lt (omega arith) in
        let up : number pb cells / 2 ^ (off + (i + 1) * pb) ≡ x / 2 ^ pb =
          let e : off + (i + 1) * pb ≡ at + pb = omega arith in
          ap (λ (t : ℕ). number pb cells / 2 ^ t) e
          ∙ ap (λ (t : ℕ). number pb cells / t) (two_pow_add at pb)
          ∙ sym (div-div-eq-div-mul _ (2 ^ at) (2 ^ pb)) in
        ((rw digit (omega arith), rest.0), ap suc rest.1, rw (digit, rest.2, up) (glue x i before))

  enough : vb ≤ (0 + div_ceil vb pb) * pb
  enough = omega (arith, split pb (vb + pb - 1), mod-lt (vb + pb - 1) pb_pos)

  needed : (k : ℕ) → div_ceil vb pb ≡ suc k → (0 + k) * pb < vb
  needed k e =
      omega (arith, split pb (vb + pb - 1), mod-lt (vb + pb - 1) pb_pos, ap (λ (t : ℕ). t * pb) e)

  -- With cells of 1 to 32 bits that keep their high bits zero, writing a value of such cells where
  -- its `vb` bits lie within the cells replaces those bits by the value's low bits, and keeps the
  -- number of cells and their widths.
  pub write_values_all :
      (cells value : List ℕ)
      → Fits pb cells
      → Fits pb value
      → off + vb ≤ length cells * pb
      → let r = write_values (div_ceil vb pb) cells pb vb value off 0 in
        Fits pb r
        × (length r ≡ length cells)
        × (number pb r ≡ put (number pb cells) (2 ^ off) (2 ^ vb) (number pb value))
  write_values_all cells value fit vfit room =
      let N = number pb cells in
      let nothing : min (0 * pb) vb ≡ 0 = omega arith in
      let w =
        write_values_lem N cells value vfit room (div_ceil vb pb) 0 cells enough needed (record {
          fits = fit;
          size = refl;
          bits = rw nothing (sym (put-nothing N (2 ^ off) (number pb value)));
        }) in
      (w.fits, w.size, w.bits)

  -- With cells of 1 to 32 bits that keep their high bits zero, reading a value of `vb` bits that
  -- lie within the cells gives as many cells as hold them, within their width, that stand for those
  -- bits.
  pub read_values_all :
      (cells : List ℕ)
      → Fits pb cells
      → off + vb ≤ length cells * pb
      → let r = read_values (div_ceil vb pb) cells pb vb off 0 in
        Fits pb r
        × (length r ≡ div_ceil vb pb)
        × (number pb r ≡ field (number pb cells) (2 ^ off) (2 ^ vb))
  read_values_all cells fit room =
      let at : off + 0 * pb ≡ off = omega arith in
      let all : vb - 0 * pb ≡ vb = omega arith in
      let r = read_values_lem cells fit room (div_ceil vb pb) 0 enough needed in
      (r.0, r.1, rw (at, all) at (r.2))
