-- ===== src/Bits/Digit.antt =====
-- The fields of a sum of a small number and a multiple of a power of two.
use native.Mathlib.Nat.{
  mod-eq_of_lt, div-eq_of_lt, div-div-eq-div-mul, div-lt_iff_lt-mul, add-mul-div_right,
  add-mul-mod_self_right, mul-mod_left,
}
use ikpir.Prelude.{
  ℕ, ◌+◌, ◌-◌, ◌*◌, ◌/◌, ◌%◌, ◌^◌, ◌≤◌, ◌<◌, ◌≡◌, ◌⊎◌, inl, inr, sym, ap, ap₂, ◌∙◌, arith,
}
use ikpir.Bits.Split.{two_pow_add, two_pow_pos, two_pow_mono}
use ikpir.Bits.Field.{field}
use ikpir.Bits.Power.{mod_glue}

regroup : (p x y : ℕ) → p * (x * y) ≡ p * y * x
regroup p x y = grind arith

split_pow : (p d f : ℕ) → p * 2 ^ (d + f) ≡ p * 2 ^ f * 2 ^ d
split_pow p d f = ap (λ x. p * x) (two_pow_add d f) ∙ regroup p (2 ^ d) (2 ^ f)

div_above : (e p E k : ℕ) → e < 2 ^ E → (e + p * 2 ^ E) / 2 ^ (E + k) ≡ p / 2 ^ k
div_above e p E k lt =
    ap (λ x. (e + p * 2 ^ E) / x) (two_pow_add E k)
    ∙ sym (div-div-eq-div-mul (e + p * 2 ^ E) (2 ^ E) (2 ^ k))
    ∙ ap (λ x. x / 2 ^ k) (add-mul-div_right e p (two_pow_pos E) ∙ omega (arith, div-eq_of_lt lt))

div_below : (e p d f : ℕ) → (e + p * 2 ^ (d + f)) / 2 ^ d ≡ e / 2 ^ d + p * 2 ^ f
div_below e p d f =
    ap (λ x. (e + x) / 2 ^ d) (split_pow p d f) ∙ add-mul-div_right e (p * 2 ^ f) (two_pow_pos d)

mod_below : (u p f m : ℕ) → u < 2 ^ f → (u + p * 2 ^ f) % 2 ^ m ≡ u % 2 ^ m + p * 2 ^ f % 2 ^ m
mod_below u p f m lt = elim cases [
  | inl h ↦
      let s : m + (f - m) ≡ f = omega arith in
      let e : p * 2 ^ f ≡ p * 2 ^ (f - m) * 2 ^ m =
        ap (λ n. p * 2 ^ n) (sym s) ∙ split_pow p m (f - m) in
      rw e (
        omega (
          arith,
          add-mul-mod_self_right u (p * 2 ^ (f - m)) (2 ^ m),
          mul-mod_left (p * 2 ^ (f - m)) (2 ^ m),
        ))
  | inr h ↦
      let s : f + (m - f) ≡ m = omega arith in
      let whole : (x : ℕ) → x < 2 ^ f → (x + p * 2 ^ f) % 2 ^ m ≡ p % 2 ^ (m - f) * 2 ^ f + x =
        λ x x_lt.
          ap (λ n. (x + p * 2 ^ f) % 2 ^ n) (sym s)
          ∙ sym (mod_glue (x + p * 2 ^ f) f (m - f))
          ∙ ap₂ (λ a b. a % 2 ^ (m - f) * 2 ^ f + b)
              (add-mul-div_right x p (two_pow_pos f) ∙ omega (arith, div-eq_of_lt x_lt))
              (add-mul-mod_self_right x p (2 ^ f) ∙ mod-eq_of_lt x_lt) in
      let small : u % 2 ^ m ≡ u = mod-eq_of_lt (omega (arith, two_pow_mono f m (omega arith))) in
      let plain : 0 + p * 2 ^ f ≡ p * 2 ^ f = omega arith in
      omega (arith, small, whole u lt, whole 0 (two_pow_pos f), ap (λ x. x % 2 ^ m) plain)
]
  where
    cases : (m ≤ f) ⊎ (f < m)
    cases = omega arith

-- A number below `2 ^ E` and a multiple of `2 ^ E` share no bit, so their fields add up.
pub field-add :
    (e p E d m : ℕ)
    → e < 2 ^ E
    → field (e + p * 2 ^ E) (2 ^ d) (2 ^ m)
      ≡ field e (2 ^ d) (2 ^ m) + field (p * 2 ^ E) (2 ^ d) (2 ^ m)
field-add e p E d m lt = elim cases [
  | inl h ↦
      let s : E + (d - E) ≡ d = omega arith in
      let at : (x : ℕ)
          → x < 2 ^ E
          → field (x + p * 2 ^ E) (2 ^ d) (2 ^ m) ≡ p / 2 ^ (d - E) % 2 ^ m =
        λ x x_lt.
          ap (λ n. (x + p * 2 ^ E) / 2 ^ n % 2 ^ m) (sym s)
          ∙ ap (λ n. n % 2 ^ m) (div_above x p E (d - E) x_lt) in
      let none : field e (2 ^ d) (2 ^ m) ≡ 0 =
        ap (λ n. n % 2 ^ m) (div-eq_of_lt (omega (arith, two_pow_mono E d h)))
        ∙ mod-eq_of_lt (two_pow_pos m) in
      let plain : 0 + p * 2 ^ E ≡ p * 2 ^ E = omega arith in
      omega (arith, none, at e lt, at 0 (two_pow_pos E), ap (λ x. field x (2 ^ d) (2 ^ m)) plain)
  | inr h ↦
      let s : d + (E - d) ≡ E = omega arith in
      let at : (x : ℕ)
          → field (x + p * 2 ^ E) (2 ^ d) (2 ^ m) ≡ (x / 2 ^ d + p * 2 ^ (E - d)) % 2 ^ m =
        λ x.
          ap (λ n. (x + p * 2 ^ n) / 2 ^ d % 2 ^ m) (sym s)
          ∙ ap (λ n. n % 2 ^ m) (div_below x p d (E - d)) in
      let small : e / 2 ^ d < 2 ^ (E - d) =
        (div-lt_iff_lt-mul (two_pow_pos d)).1
          (omega (arith, lt, ap (λ n. 2 ^ n) s, two_pow_add d (E - d))) in
      let plain : 0 + p * 2 ^ E ≡ p * 2 ^ E = omega arith in
      let plain' : 0 + p * 2 ^ (E - d) ≡ p * 2 ^ (E - d) = omega arith in
      let none : 0 / 2 ^ d ≡ 0 = div-eq_of_lt (two_pow_pos d) in
      omega (
        arith,
        at e,
        mod_below (e / 2 ^ d) p (E - d) m small,
        at 0,
        ap (λ x. field x (2 ^ d) (2 ^ m)) plain,
        ap (λ x. x % 2 ^ m) plain',
        ap (λ (x : ℕ). (x + p * 2 ^ (E - d)) % 2 ^ m) none,
      )
]
  where
    cases : (E ≤ d) ⊎ (d < E)
    cases = omega arith
