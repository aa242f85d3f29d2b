-- ===== src/Bits/Power.antt =====
-- Remainders by powers of two: nested, glued from two digits, and of a shifted number.
use native.Mathlib.Nat.{mod-lt, mod-eq_of_lt}
use ikpir.Prelude.{
  ℕ, zero, suc, ◌+◌, ◌-◌, ◌*◌, ◌/◌, ◌%◌, ◌^◌, ◌≤◌, ◌<◌, min, ◌≡◌, sym, ap, ◌∙◌, arith, inl, inr,
  ◌⊎◌,
}
use ikpir.Bits.Split.{two_pow_add, two_pow_pos, two_pow_mono}
use ikpir.Bits.Field.{field, put, mod-mul, divmod_unique, field-put_above, field-put_below}

-- Two adjacent digits make one.
pub mod_glue : (x a b : ℕ) → x / 2 ^ a % 2 ^ b * 2 ^ a + x % 2 ^ a ≡ x % 2 ^ (a + b)
mod_glue x a b =
    rw (two_pow_add a b) (sym (mod-mul x (2 ^ a) (2 ^ b) (two_pow_pos a) (two_pow_pos b)))

pub mod_mod_le : (x a b : ℕ) → a ≤ b → x % 2 ^ b % 2 ^ a ≡ x % 2 ^ a
mod_mod_le x a b h =
    let e : b ≡ a + (b - a) = omega arith in
    rw (e, ← mod_glue) (divmod_unique (2 ^ a) _ (x % 2 ^ a) (mod-lt x (two_pow_pos a))).1

pub mod_mod_min : (x a b : ℕ) → x % 2 ^ a % 2 ^ b ≡ x % 2 ^ min a b
mod_mod_min x a b = elim cases [
  | inl h ↦
      let e : min a b ≡ a = omega arith in
      rw e (mod-eq_of_lt (omega (arith, two_pow_mono a b h, mod-lt x (two_pow_pos a))))
  | inr h ↦ let e : min a b ≡ b = omega arith in rw e (mod_mod_le x b a h)
]
  where
    cases : (a ≤ b) ⊎ (b ≤ a)
    cases = omega arith

-- A shift to the left by `a` keeps the low `b` bits of what is shifted, in a word of `a + b` bits.
pub shift_mod : (v a b : ℕ) → v * 2 ^ a % 2 ^ (a + b) ≡ v % 2 ^ b * 2 ^ a
shift_mod v a b =
    let d = divmod_unique (2 ^ a) v 0 (two_pow_pos a) in ground (arith, mod_glue (v * 2 ^ a) a b, d)

-- The upper digit of a remainder.
pub mod-div : (x a b : ℕ) → x % 2 ^ (a + b) / 2 ^ a ≡ x / 2 ^ a % 2 ^ b
mod-div x a b =
    ap (λ (t : ℕ). t / 2 ^ a) (sym (mod_glue x a b))
    ∙ (divmod_unique (2 ^ a) _ (x % 2 ^ a) (mod-lt x (two_pow_pos a))).0

ones_lem : (a q : ℕ) → 0 < a → 0 < q → a * q - 1 ≡ (a - 1) * q + (q - 1)
ones_lem zero q h i = absurd (omega arith)
ones_lem (suc a) q h i =
    let e : suc a - 1 ≡ a = omega arith in
    let f : suc a * q ≡ a * q + q = omega arith in rw (e, f) (omega arith)

-- A mask of `n` ones, as the code makes it from all 64.
pub ones-shr : (n : ℕ) → n ≤ 64 → (2 ^ 64 - 1) / 2 ^ (64 - n) ≡ 2 ^ n - 1
ones-shr n h =
    let width : 64 ≡ n + (64 - n) = omega arith in
    let e : 2 ^ 64 ≡ 2 ^ n * 2 ^ (64 - n) = ap (λ (t : ℕ). 2 ^ t) width ∙ two_pow_add n (64 - n) in
    let parts : 2 ^ 64 - 1 ≡ (2 ^ n - 1) * 2 ^ (64 - n) + (2 ^ (64 - n) - 1) =
      ap (λ (t : ℕ). t - 1) e
      ∙ ones_lem (2 ^ n) (2 ^ (64 - n)) (two_pow_pos n) (two_pow_pos (64 - n)) in
    ap (λ (t : ℕ). t / 2 ^ (64 - n)) parts
    ∙ (divmod_unique (2 ^ (64 - n)) (2 ^ n - 1) _ (omega (arith, two_pow_pos (64 - n)))).0

-- A field that does not overlap the one replaced is unchanged.
pub field-put_disjoint :
    (n p w p' w' v : ℕ)
    → (p + w ≤ p') ⊎ (p' + w' ≤ p)
    → field (put n (2 ^ p) (2 ^ w) v) (2 ^ p') (2 ^ w') ≡ field n (2 ^ p') (2 ^ w')
field-put_disjoint n p w p' w' v (inl h) =
    let e : p + w + (p' - (p + w)) ≡ p' = omega arith in
    let parts : 2 ^ p * 2 ^ w * 2 ^ (p' - (p + w)) ≡ 2 ^ p' =
      ap (λ (t : ℕ). t * 2 ^ (p' - (p + w))) (sym (two_pow_add p w))
      ∙ sym (two_pow_add (p + w) (p' - (p + w)))
      ∙ ap (λ (t : ℕ). 2 ^ t) e in
    let moved =
      field-put_above n (2 ^ p) (2 ^ w) v (two_pow_pos p) (two_pow_pos w) (2 ^ (p' - (p + w)))
        (2 ^ w') in
    rw parts at moved
field-put_disjoint n p w p' w' v (inr h) =
    let e : p' + w' + (p - (p' + w')) ≡ p = omega arith in
    let parts : 2 ^ p' * 2 ^ w' * 2 ^ (p - (p' + w')) ≡ 2 ^ p =
      ap (λ (t : ℕ). t * 2 ^ (p - (p' + w'))) (sym (two_pow_add p' w'))
      ∙ sym (two_pow_add (p' + w') (p - (p' + w')))
      ∙ ap (λ (t : ℕ). 2 ^ t) e in
    let moved =
      field-put_below n (2 ^ p') (2 ^ w') (2 ^ (p - (p' + w'))) (2 ^ w) v (two_pow_pos p')
        (two_pow_pos w') (two_pow_pos (p - (p' + w'))) (two_pow_pos w) in
    rw parts at moved
