-- ===== src/Cuckoo/CellStream/Cell.antt =====
-- One cell of `slot_write_bits`: the masks clear and fill the bits `[lo, lo + n)`, and no other bit.
use native.Mathlib.Nat.{mod-lt, mod-eq_of_lt, div-div-eq-div-mul, div-lt_iff_lt-mul}
use ikpir.Prelude.{
  ℕ, zero, suc, ◌+◌, ◌-◌, ◌*◌, ◌/◌, ◌%◌, ◌^◌, ◌≤◌, ◌<◌, bit_and, bit_or, ◌≡◌, sym, ap, ap₂, ◌∙◌,
  arith, u32,
}
use ikpir.Bits.{
  bit_and_split, bit_or_split, bit_or_fields, bit_and_mask, bit_or-zero, two_pow_add, two_pow_pos,
  two_pow_mono,
}
use ikpir.Bits.Field.{put, split}
use ikpir.Bits.Power.{mod_mod_le}
use ikpir.Cuckoo.CellStream.{write_cell}

-- The complement of the mask of `[lo, lo + n)`, as the ones above it and below it.
complement_lem :
    (a b c : ℕ) → 0 < a → 0 < b → 0 < c → a * b * c - 1 - (b - 1) * a ≡ (c - 1) * (a * b) + (a - 1)
complement_lem a zero c h i j = absurd (omega arith)
complement_lem a (suc b) zero h i j = absurd (omega arith)
complement_lem a (suc b) (suc c) h i j =
    let e : suc b - 1 ≡ b = omega arith in
    let f : suc c - 1 ≡ c = omega arith in
    let g : a * suc b * suc c ≡ c * (a * suc b) + b * a + a = omega arith in
    rw (e, f, g) (omega arith)

module _ (cell lo n v : ℕ) (narrow : lo + n ≤ 32) (word : cell < 2 ^ 32) where
  abbrev top : ℕ
  top = 2 ^ (lo + n)

  top-word : top * 2 ^ (32 - (lo + n)) ≡ 2 ^ 32
  top-word =
      let e : lo + n + (32 - (lo + n)) ≡ 32 = omega arith in
      sym (two_pow_add (lo + n) (32 - (lo + n))) ∙ ap (λ (t : ℕ). 2 ^ t) e

  -- What stands at `[lo, lo + n)` is below the next bit.
  shifted-lt : (x : ℕ) → x < 2 ^ n → x * 2 ^ lo + (2 ^ lo - 1) < top
  shifted-lt x h = grind (arith, two_pow_add lo n, two_pow_pos lo)

  fits : (x : ℕ) → x < 2 ^ n → u32 (u32 x * 2 ^ lo) ≡ x * 2 ^ lo
  fits x h =
      let small : 2 ^ n ≤ 2 ^ 32 = two_pow_mono n 32 (omega arith) in
      let one : u32 x ≡ x = mod-eq_of_lt (omega arith) in
      let wide : top ≤ 2 ^ 32 = two_pow_mono (lo + n) 32 narrow in
      rw one (mod-eq_of_lt (omega (arith, shifted-lt x h)))

  placed : u32 (u32 (bit_and v (2 ^ n - 1)) * 2 ^ lo) ≡ v % 2 ^ n * 2 ^ lo
  placed = rw (bit_and_mask n v) (fits (v % 2 ^ n) (mod-lt v (two_pow_pos n)))

  complement :
      2 ^ 32 - 1 - u32 (u32 (2 ^ n - 1) * 2 ^ lo) ≡ (2 ^ (32 - (lo + n)) - 1) * top + (2 ^ lo - 1)
  complement =
      let m : u32 (u32 (2 ^ n - 1) * 2 ^ lo) ≡ (2 ^ n - 1) * 2 ^ lo =
        fits (2 ^ n - 1) (omega (arith, two_pow_pos n)) in
      let above = 2 ^ (32 - (lo + n)) in
      let parts : 2 ^ 32 ≡ 2 ^ lo * 2 ^ n * above =
        sym top-word ∙ ap (λ (t : ℕ). t * above) (two_pow_add lo n) in
      rw m (
        ap (λ (t : ℕ). t - 1 - (2 ^ n - 1) * 2 ^ lo) parts
        ∙ complement_lem (2 ^ lo) (2 ^ n) above (two_pow_pos lo) (two_pow_pos n)
            (two_pow_pos (32 - (lo + n)))
        ∙ ap (λ (t : ℕ). (above - 1) * t + (2 ^ lo - 1)) (sym (two_pow_add lo n)))

  high-lt : cell / top < 2 ^ (32 - (lo + n))
  high-lt = (div-lt_iff_lt-mul (two_pow_pos (lo + n))).1 (omega (arith, top-word))

  low-lt : 2 ^ lo - 1 < top
  low-lt = omega (arith, two_pow_mono lo (lo + n) (omega arith), two_pow_pos lo)

  kept :
      bit_and cell (2 ^ 32 - 1 - u32 (u32 (2 ^ n - 1) * 2 ^ lo)) ≡ cell / top * top + cell % 2 ^ lo
  kept =
      let above : bit_and (cell / top) (2 ^ (32 - (lo + n)) - 1) ≡ cell / top =
        bit_and_mask _ _ ∙ mod-eq_of_lt high-lt in
      let below : bit_and (cell % top) (2 ^ lo - 1) ≡ cell % 2 ^ lo =
        bit_and_mask lo _ ∙ mod_mod_le cell lo (lo + n) (omega arith) in
      rw complement (
        ap (λ (t : ℕ). bit_and t ((2 ^ (32 - (lo + n)) - 1) * top + (2 ^ lo - 1))) (split top cell)
        ∙ bit_and_split (lo + n) (cell / top) _ (cell % top) (2 ^ lo - 1)
            (mod-lt cell (two_pow_pos (lo + n))) low-lt
        ∙ ap₂ (λ (x y : ℕ). x * top + y) above below)

  -- One cell of the write replaces the bits `[lo, lo + n)`.
  pub write_cell_lem : write_cell cell lo n v ≡ put cell (2 ^ lo) (2 ^ n) v
  unfolding write_cell
  write_cell_lem =
      let above : cell / top ≡ cell / 2 ^ lo / 2 ^ n =
        ap (λ (t : ℕ). cell / t) (two_pow_add lo n)
        ∙ sym (div-div-eq-div-mul cell (2 ^ lo) (2 ^ n)) in
      let small : cell % 2 ^ lo < 2 ^ lo = mod-lt cell (two_pow_pos lo) in
      let joined : bit_or (cell / top * top + cell % 2 ^ lo) (0 * top + v % 2 ^ n * 2 ^ lo)
          ≡ cell / top * top + (v % 2 ^ n * 2 ^ lo + cell % 2 ^ lo) =
        bit_or_split (lo + n) (cell / top) 0 (cell % 2 ^ lo) (v % 2 ^ n * 2 ^ lo)
          (omega (arith, low-lt)) (omega (arith, shifted-lt (v % 2 ^ n) (mod-lt v (two_pow_pos n))))
        ∙ ap₂ (λ (x y : ℕ). x * top + y) (bit_or-zero _) (bit_or_fields lo _ _ small) in
      let pad : v % 2 ^ n * 2 ^ lo ≡ 0 * top + v % 2 ^ n * 2 ^ lo = omega arith in
      let high : cell / top * top ≡ cell / 2 ^ lo / 2 ^ n * (2 ^ lo * 2 ^ n) =
        ap₂ ◌*◌ above (two_pow_add lo n) in
      rw (kept, placed)
        (ap (λ (t : ℕ). bit_or (cell / top * top + cell % 2 ^ lo) t) pad
          ∙ joined
          ∙ omega (arith, high))
