-- ===== src/Cuckoo/Store/Unpack/Drain.antt =====
-- store.rs, `unpack_slot_cells`: what the inner loop and the last byte leave, as numbers.
use native.Mathlib.Nat.{mod-lt, mod-eq_of_lt}
use ikpir.Prelude.{
  ℕ, zero, suc, ◌+◌, ◌-◌, ◌*◌, ◌/◌, ◌%◌, ◌^◌, ◌≤◌, ◌<◌, ◌≡◌, refl, sym, ap, ap₂, ◌∙◌, ◌⊎◌, inl, inr,
  List, [], ◌∷◌, ◌++◌, Bool-cases, ◌&&◌, ltb, leb, if◌then◌else◌, arith, length, replicate,
  length-replicate,
}
use ikpir.Bits.{two_pow_add, two_pow_pos, two_pow_mono}
use ikpir.Bits.Field.{split}
use ikpir.Cuckoo.CellStream.Number.{Fits, number}
use ikpir.Cuckoo.Store.Unpack.{drain_bytes, last_bytes}

-- What the inner loop leaves, for whatever follows it.
pub record Drained (acc bits left : ℕ) (r : List ℕ × ℕ × ℕ × ℕ) : Type 0 where
  pub fits : Fits 8 r.0
  pub acc_lt : r.1 < 2 ^ r.2
  pub bits_eq : bits ≡ 8 * length r.0 + r.2
  pub left_eq : left ≡ length r.0 + r.3
  pub stopped : (r.2 < 8) ⊎ (r.3 ≡ 0)
  pub value :
      (rest : List ℕ) (T : ℕ)
      → number 8 rest ≡ r.1 + 2 ^ r.2 * T
      → number 8 (r.0 ++ rest) ≡ acc + 2 ^ bits * T

join : (a q P T : ℕ) → (q + P * T) * 2 ^ 8 + a ≡ a + q * 2 ^ 8 + 2 ^ 8 * P * T
join a q P T = grind arith

pub drain_bytes-Drained :
    (fuel acc bits left : ℕ)
    → acc < 2 ^ bits
    → bits ≤ fuel
    → Drained acc bits left (drain_bytes fuel acc bits left)
unfolding drain_bytes number
drain_bytes-Drained zero acc bits left lt h = record {
  fits = tt;
  acc_lt = lt;
  bits_eq = omega arith;
  left_eq = omega arith;
  stopped = inl (omega arith);
  value = λ rest T e. e;
}
drain_bytes-Drained (suc fuel) acc bits left lt h = elim (Bool-cases (leb 8 bits && ltb 0 left)) [
  | inr stop ↦ rw stop (record {
    fits = tt;
    acc_lt = lt;
    bits_eq = omega arith;
    left_eq = omega arith;
    stopped = ground (arith, stop);
    value = λ rest T e. e;
  })
  | inl go ↦
      let enough : (8 ≤ bits) × (1 ≤ left) = ground (arith, go) in
      let e : 8 + (bits - 8) ≡ bits = omega (arith, enough) in
      let pow : 2 ^ bits ≡ 2 ^ 8 * 2 ^ (bits - 8) =
        ap (λ n. 2 ^ n) (sym e) ∙ two_pow_add 8 (bits - 8) in
      let small : acc / 2 ^ 8 < 2 ^ (bits - 8) = omega (arith, lt, pow) in
      let r =
        drain_bytes-Drained fuel (acc / 2 ^ 8) (bits - 8) (left - 1) small (omega (arith, h)) in
      rw go (record {
        fits = (mod-lt acc (two_pow_pos 8), r.fits);
        acc_lt = r.acc_lt;
        bits_eq = omega (arith, r.bits_eq, enough);
        left_eq = omega (arith, r.left_eq, enough);
        stopped = r.stopped;
        value = λ rest T k.
            ap (λ x. x * 2 ^ 8 + acc % 2 ^ 8) (r.value rest T k)
            ∙ join (acc % 2 ^ 8) (acc / 2 ^ 8) (2 ^ (bits - 8)) T
            ∙ ap₂ (λ x y. x + y * T) (omega (arith, split (2 ^ 8) acc)) (sym pow);
      })
]

zero_bytes : (n : ℕ) → Fits 8 (replicate n 0) × (number 8 (replicate n 0) ≡ 0)
unfolding number
zero_bytes zero = (tt, refl)
zero_bytes (suc n) = ((two_pow_pos 8, (zero_bytes n).0), omega (arith, (zero_bytes n).1))

pub Fits-append : (xs ys : List ℕ) → Fits 8 xs → Fits 8 ys → Fits 8 (xs ++ ys)
Fits-append [] ys f g = g
Fits-append (x ∷ xs) ys f g = (f.0, Fits-append xs ys f.1 g)

-- The bytes made of what is left over.
pub last_bytes_lem :
    (acc bits left : ℕ)
    → acc < 2 ^ bits
    → bits < 8
    → bits ≤ 8 * left
    → Fits 8 (last_bytes acc bits left)
      × (length (last_bytes acc bits left) ≡ left)
      × (number 8 (last_bytes acc bits left) ≡ acc)
unfolding last_bytes number
last_bytes_lem acc bits zero lt small room =
    let none : bits ≡ 0 = omega (arith, room) in
    let acc_lt : acc < 2 ^ 0 = rw none at lt in (tt, refl, omega (arith, acc_lt))
last_bytes_lem acc bits (suc left) lt small room =
    let z = zero_bytes left in
    let byte : acc < 2 ^ 8 = omega (arith, lt, two_pow_mono bits 8 (omega arith)) in
    let kept : (if ltb 0 bits then acc % 2 ^ 8 else 0) ≡ acc = elim (Bool-cases (ltb 0 bits)) [
      | inl e ↦ rw e (mod-eq_of_lt byte)
      | inr e ↦
          let none : bits ≡ 0 = ground (arith, e) in
          let acc_lt : acc < 2 ^ 0 = rw none at lt in rw e (omega (arith, acc_lt))
    ] in
    ((rw kept byte, z.0), omega (arith, length-replicate {A = ℕ} left 0), omega (arith, z.1, kept))
