-- ===== src/Cuckoo/Store/Pack/Number.antt =====
-- store.rs, `pack_value_bytes_to_cells`: the number that the cells stand for is that of the bytes.
use native.Mathlib.Nat.{
  mod-lt, mod-eq_of_lt, div-eq_of_lt, mul_comm, mul-zero, div-lt_iff_lt-mul, add-mul-div_right,
  add-mul-mod_self_right,
}
use ikpir.Prelude.{
  ℕ, zero, suc, ◌+◌, ◌-◌, ◌*◌, ◌/◌, ◌%◌, ◌^◌, ◌≤◌, ◌<◌, min, ◌≡◌, refl, sym, ap, ap₂, ◌∙◌, ◌⊎◌, inl,
  inr, List, [], ◌∷◌, Bool-cases, ◌&&◌, bit_and, bit_or, u64, u32, ltb, ◌==◌, arith, length,
}
use ikpir.Bits.{two_pow_add, two_pow_pos, two_pow_mono, bit_or_fields, bit_and_mask}
use ikpir.Bits.Power.{mod_glue}
use ikpir.Cuckoo.CellStream.{div_ceil}
use ikpir.Cuckoo.CellStream.Number.{Fits, number}
use ikpir.Cuckoo.Store.{fill_acc, pack_cells, pack_value_bytes_to_cells}
use ikpir.Cuckoo.Store.Unpack.Bytes.{cell_above, cells_cover}

-- The number of what is still to be packed.
abbrev waiting : ℕ → ℕ → List ℕ → ℕ
waiting acc bits bytes = acc + 2 ^ bits * number 8 bytes

record Filled (acc bits pb : ℕ) (bytes : List ℕ) (r : ℕ × ℕ × List ℕ) : Type 0 where
  acc_lt : r.0 < 2 ^ r.1
  fits : Fits 8 r.2
  same : waiting r.0 r.1 r.2 ≡ waiting acc bits bytes
  enough : (pb ≤ r.1) ⊎ (r.2 ≡ [])

regroup : (a b B n : ℕ) → a + b * B + B * 2 ^ 8 * n ≡ a + B * (n * 2 ^ 8 + b)
regroup a b B n = grind arith

fill_acc-Filled :
    (bytes : List ℕ) (acc bits pb : ℕ)
    → pb ≤ 32
    → Fits 8 bytes
    → acc < 2 ^ bits
    → Filled acc bits pb bytes (fill_acc bytes acc bits pb)
unfolding fill_acc number
fill_acc-Filled [] acc bits pb small fit lt = record {
  acc_lt = lt;
  fits = tt;
  same = refl;
  enough = inr refl;
}
fill_acc-Filled (b ∷ bytes) acc bits pb small fit lt = elim (Bool-cases (ltb bits pb)) [
  | inr full ↦
      rw (full, fill_acc)
        (record { acc_lt = lt; fits = fit; same = refl; enough = inl (ground (arith, full)) })
  | inl room ↦
      let bits_lt : bits < pb = ground (arith, room) in
      let above = cell_above acc bits b 8 lt fit.0 in
      let word : u64 (b * 2 ^ bits) ≡ b * 2 ^ bits =
        mod-eq_of_lt (omega (arith, above, two_pow_mono (bits + 8) 64 (omega arith))) in
      let acc_eq : bit_or acc (u64 (b * 2 ^ bits)) ≡ acc + b * 2 ^ bits =
        ap (bit_or acc) word ∙ bit_or_fields bits b acc lt ∙ omega arith in
      let r =
        fill_acc-Filled bytes (bit_or acc (u64 (b * 2 ^ bits))) (bits + 8) pb small fit.1
          (omega (arith, acc_eq, above)) in
      rw (room, fill_acc)
        (record {
          acc_lt = r.acc_lt;
          fits = r.fits;
          same =
              r.same
              ∙ ap₂ (λ x y. x + y * number 8 bytes) acc_eq (two_pow_add bits 8)
              ∙ regroup acc b (2 ^ bits) (number 8 bytes);
          enough = r.enough;
        })
]

above : (N B q : ℕ) → q * B * N ≡ N * B * q
above N B q = grind arith

-- Taking `n` bits off the front of what is waiting.
taken :
    (acc bits n : ℕ) (bytes : List ℕ)
    → acc < 2 ^ bits
    → (n ≤ bits) ⊎ (bytes ≡ [])
    → (acc / 2 ^ n < 2 ^ (bits - n))
      × (acc % 2 ^ n ≡ waiting acc bits bytes % 2 ^ n)
      × (waiting (acc / 2 ^ n) (bits - n) bytes ≡ waiting acc bits bytes / 2 ^ n)
unfolding number
taken acc bits n bytes lt (inl h) =
    let s : n + (bits - n) ≡ bits = omega arith in
    let B = 2 ^ (bits - n) in
    let N = number 8 bytes in
    let pow : 2 ^ bits ≡ 2 ^ n * B = ap (λ x. 2 ^ x) (sym s) ∙ two_pow_add n (bits - n) in
    let W : waiting acc bits bytes ≡ acc + N * B * 2 ^ n =
      ap (λ x. acc + x * N) pow ∙ ap (λ x. acc + x) (above N B (2 ^ n)) in
    (
      (div-lt_iff_lt-mul (two_pow_pos n)).1 (omega (arith, lt, pow, mul_comm (2 ^ n) B)),
      sym (add-mul-mod_self_right acc (N * B) (2 ^ n)) ∙ ap (λ x. x % 2 ^ n) (sym W),
      ap (λ x. acc / 2 ^ n + x) (mul_comm B N)
          ∙ sym (add-mul-div_right acc (N * B) (two_pow_pos n))
          ∙ ap (λ x. x / 2 ^ n) (sym W),
    )
taken acc bits n bytes lt (inr e) =
    let nothing : (x y : ℕ) → waiting x y bytes ≡ x =
      λ x y. ap (λ bs. x + 2 ^ y * number 8 bs) e ∙ omega (arith, mul-zero (2 ^ y)) in
    (
      below,
      ap (λ x. x % 2 ^ n) (sym (nothing acc bits)),
      nothing _ _ ∙ ap (λ x. x / 2 ^ n) (sym (nothing acc bits)),
    )
  where
    below : acc / 2 ^ n < 2 ^ (bits - n)
    below = elim cases [
      | inl h ↦
          let s : n + (bits - n) ≡ bits = omega arith in
          (div-lt_iff_lt-mul (two_pow_pos n)).1 (
            omega (
              arith,
              lt,
              ap (λ x. 2 ^ x) s,
              two_pow_add n (bits - n),
              mul_comm (2 ^ n) (2 ^ (bits - n)),
            ))
      | inr h ↦
          let none : acc / 2 ^ n ≡ 0 =
            div-eq_of_lt (omega (arith, lt, two_pow_mono bits n (omega arith))) in
          omega (arith, none, two_pow_pos (bits - n))
    ]
      where
        cases : (n ≤ bits) ⊎ (bits < n)
        cases = omega arith

-- The first `pb` of `k` bits, or all of them, and the rest.
glued :
    (W k pb rest : ℕ)
    → rest ≡ k - pb
    → W / 2 ^ min k pb % 2 ^ rest * 2 ^ pb + W % 2 ^ min k pb ≡ W % 2 ^ k
glued W k pb rest e = elim cases [
  | inl h ↦
      let least : min k pb ≡ pb = omega arith in
      let s : pb + rest ≡ k = omega (arith, e) in
      rw least (mod_glue W pb rest) ∙ ap (λ x. W % 2 ^ x) s
  | inr h ↦
      let least : min k pb ≡ k = omega arith in
      let none : rest ≡ 0 = omega (arith, e) in
      let empty : W / 2 ^ k % 2 ^ 0 ≡ 0 = omega (arith, mod-lt (W / 2 ^ k) (two_pow_pos 0)) in
      rw (least, none) (ap (λ x. x * 2 ^ pb + W % 2 ^ k) empty ∙ omega arith)
]
  where
    cases : (pb ≤ k) ⊎ (k < pb)
    cases = omega arith

pack_cells-number :
    (left i : ℕ) (bytes : List ℕ) (acc bits vb pb : ℕ)
    → 1 ≤ pb
    → pb ≤ 32
    → Fits 8 bytes
    → acc < 2 ^ bits
    → vb ≤ (i + left) * pb
    → number pb (pack_cells left i bytes acc bits vb pb)
      ≡ waiting acc bits bytes % 2 ^ (vb - i * pb)
unfolding pack_cells number
pack_cells-number zero i bytes acc bits vb pb pos small fit lt enough =
    let none : vb - i * pb ≡ 0 = omega (arith, enough) in rw none (omega arith)
pack_cells-number (suc left) i bytes acc bits vb pb pos small fit lt enough =
    let f = fill_acc-Filled bytes acc bits pb small fit lt in
    let r = fill_acc bytes acc bits pb in
    let n = min (vb - i * pb) pb in
    let W = waiting acc bits bytes in
    let rest_enough : (n ≤ r.1) ⊎ (r.2 ≡ []) = elim f.enough [
      | inl h ↦ inl (omega (arith, h))
      | inr e ↦ inr e
    ] in
    let t = taken r.0 r.1 n r.2 f.acc_lt rest_enough in
    let moved : i + 1 + left ≡ i + suc left = omega arith in
    let ih =
      pack_cells-number left (i + 1) r.2 (r.0 / 2 ^ n) (r.1 - n) vb pb pos small f.fits t.0
        (rw moved enough) in
    let cell : bit_and r.0 (2 ^ n - 1) ≡ W % 2 ^ n =
      bit_and_mask n r.0 ∙ t.1 ∙ ap (λ x. x % 2 ^ n) f.same in
    let word : u32 (bit_and r.0 (2 ^ n - 1)) ≡ W % 2 ^ n =
      ap u32 cell
      ∙ mod-eq_of_lt (omega (arith, mod-lt W (two_pow_pos n), two_pow_mono n 32 (omega arith))) in
    let rest : waiting (r.0 / 2 ^ n) (r.1 - n) r.2 ≡ W / 2 ^ n = t.2 ∙ ap (λ x. x / 2 ^ n) f.same in
    let next : (i + 1) * pb ≡ i * pb + pb = omega arith in
    ap₂ (λ x y. x * 2 ^ pb + y) (ih ∙ ap (λ x. x % 2 ^ (vb - (i + 1) * pb)) rest) word
    ∙ ap (λ x. W / 2 ^ n % 2 ^ (vb - x) * 2 ^ pb + W % 2 ^ n) next
    ∙ glued W (vb - i * pb) pb (vb - (i * pb + pb)) (omega arith)

number-lt : (bytes : List ℕ) → Fits 8 bytes → number 8 bytes < 2 ^ (8 * length bytes)
unfolding number
number-lt [] fit = two_pow_pos 0
number-lt (b ∷ bytes) fit =
    let e : 8 * suc (length bytes) ≡ 8 + 8 * length bytes = omega arith in
    omega (arith, fit.0, number-lt bytes fit.1, ap (λ x. 2 ^ x) e, two_pow_add 8 (8 * length bytes))

-- Bytes in the number that `value_bits` asks for become cells that stand for the number of the
-- bytes, less what is above `value_bits`.
pub pack-number :
    (bytes : List ℕ) (vb pb : ℕ)
    → 1 ≤ pb
    → pb ≤ 32
    → Fits 8 bytes
    → length bytes ≡ div_ceil vb 8
    → number pb (pack_value_bytes_to_cells bytes vb pb) ≡ number 8 bytes % 2 ^ vb
unfolding pack_value_bytes_to_cells
pack-number bytes vb pb pos small fit len = elim (Bool-cases (pb == 8 && (vb % 8 == 0))) [
  | inl fast ↦
      let e : pb ≡ 8 = ground (arith, fast) in
      let whole : 8 * length bytes ≡ vb = ground (arith, fast, len) in
      let lt : number 8 bytes < 2 ^ vb = rw (← whole) (number-lt bytes fit) in
      rw fast (rw e (sym (mod-eq_of_lt lt)))
  | inr slow ↦
      let start : waiting 0 0 bytes ≡ number 8 bytes = omega arith in
      rw slow (
        pack_cells-number (div_ceil vb pb) 0 bytes 0 0 vb pb pos small fit (two_pow_pos 0)
          (cells_cover vb pb pos)
        ∙ ap₂ (λ x k. x % 2 ^ k) start (omega arith))
]
