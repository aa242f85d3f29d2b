-- ===== src/Client/ConstantTime.antt =====
-- crates/ikpir-client/src/ct.rs: the branch-free equality mask of the fingerprint scans.
use Prim.Native.Nat.{bit_xor-bitwise}
use native.Mathlib.Nat.{mod-lt, mod-eq_of_lt}
use ikpir.Prelude.{
  ℕ, ◌+◌, ◌-◌, ◌/◌, ◌%◌, ◌^◌, ◌<◌, ◌≡◌, ◌≢◌, refl, ◌⊎◌, inl, inr, sym, ap, ap₂, ◌∙◌, bit_or,
  bit_xor, u64, ◌>>>◌, arith,
}
use ikpir.Bits.{bit_xor_twice, bit_xor-lt, bit_or-lt, bit_or_split, two_pow_pos}
use ikpir.Bits.Field.{split, divmod_unique}

-- `wrapping_neg` and `wrapping_sub` add the modulus first.
unfoldable pub ct_eq_u64_mask : ℕ → ℕ → ℕ
ct_eq_u64_mask a b = let x = bit_xor a b in u64 ((bit_or x (u64 (2 ^ 64 - x)) >>> 63) + 2 ^ 64 - 1)

zero-bit_xor : (b : ℕ) → bit_xor 0 b ≡ b
zero-bit_xor b = bit_xor-bitwise 0 b

-- From the involution: `b ^ b` is `(0 ^ b) ^ b`.
xor_self : (b : ℕ) → bit_xor b b ≡ 0
xor_self b = ap (λ (t : ℕ). bit_xor t b) (sym (zero-bit_xor b)) ∙ bit_xor_twice 0 b

-- A number or its negation has bit 63 set, unless the number is 0.
top_bit : (x : ℕ) → 0 < x → x < 2 ^ 64 → bit_or x (u64 (2 ^ 64 - x)) / 2 ^ 63 ≡ 1
top_bit x pos word =
    let y = u64 (2 ^ 64 - x) in
    let y_eq : y ≡ 2 ^ 64 - x = mod-eq_of_lt (omega arith) in
    let rx : x % 2 ^ 63 < 2 ^ 63 = mod-lt x (two_pow_pos 63) in
    let ry : y % 2 ^ 63 < 2 ^ 63 = mod-lt y (two_pow_pos 63) in
    let tops : ((x / 2 ^ 63 ≡ 1) × (y / 2 ^ 63 ≡ 0))
        ⊎ ((y / 2 ^ 63 ≡ 1) × ((x / 2 ^ 63 ≡ 0) ⊎ (x / 2 ^ 63 ≡ 1))) =
      omega arith in
    let top : bit_or (x / 2 ^ 63) (y / 2 ^ 63) ≡ 1 = ground (arith, tops) in
    ap₂ (λ (s t : ℕ). bit_or s t / 2 ^ 63) (split (2 ^ 63) x) (split (2 ^ 63) y)
    ∙ ap (λ (t : ℕ). t / 2 ^ 63)
        (bit_or_split 63 (x / 2 ^ 63) (y / 2 ^ 63) (x % 2 ^ 63) (y % 2 ^ 63) rx ry)
    ∙ (divmod_unique (2 ^ 63) _ _ (bit_or-lt 63 _ _ rx ry)).0
    ∙ top

xor_positive : (a b : ℕ) → a ≢ b → 0 < bit_xor a b
xor_positive a b ne = elim cases [
  | inl pos ↦ pos
  | inr e ↦ absurd (ne (sym (bit_xor_twice a b) ∙ ap (λ (t : ℕ). bit_xor t b) e ∙ zero-bit_xor b))
]
  where
    cases : (0 < bit_xor a b) ⊎ (bit_xor a b ≡ 0)
    cases = omega arith

-- For two words the mask is all ones when they are equal, and 0 when they differ.
pub ct_eq_u64_mask_lem :
    (a b : ℕ)
    → a < 2 ^ 64
    → b < 2 ^ 64
    → (a ≡ b → ct_eq_u64_mask a b ≡ 2 ^ 64 - 1) × (a ≢ b → ct_eq_u64_mask a b ≡ 0)
unfolding ct_eq_u64_mask
ct_eq_u64_mask_lem a b ha hb = (
  λ e. rw (e, xor_self b) refl,
  λ ne.
      let top = top_bit (bit_xor a b) (xor_positive a b ne) (bit_xor-lt 64 a b ha hb) in
      rw top refl,
)
