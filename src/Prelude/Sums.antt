-- ===== src/Prelude/Sums.antt =====
-- Counted loops, finite sums, and the arithmetic of `u32` sums up to a multiple of 2 ^ 32.
use Prim.Native.Nat.{ℕ, zero, suc, ◌+◌, ◌*◌, ◌/◌, ◌^◌, ◌≤◌, ◌<◌}
use mathlib.Core.Path.{◌≡◌, refl, sym, ap, ap₂, ◌∙◌}
use mathlib.Core.Logic.{◌≢◌, ◌⊎◌, inl, inr}
use mathlib.Core.List.{List, [], ◌∷◌}
use native.Mathlib.Nat.{mul_comm, mul-add, add-zero, add-suc}
use native.Mathlib.Omega.{arith}
use ikpir.Prelude.Tests.{if◌then◌else◌, ◌==◌}
use ikpir.Prelude.Words.{u32, sub32}

pub eq_or_ne : (a b : ℕ) → (a ≡ b) ⊎ (a ≢ b)
eq_or_ne a b = omega arith

-- `for i in 0..n`
abbrev pub for_range {ℓ} : {S : Type ℓ} → ℕ → (ℕ → S → S) → S → S
for_range zero body s = s
for_range (suc n) body s = body n (for_range n body s)

-- `for x in xs`
abbrev pub for_each {ℓ κ} : {A : Type ℓ} {S : Type κ} → List A → (A → S → S) → S → S
for_each [] body s = s
for_each (x ∷ xs) body s = for_each xs body (body x s)

abbrev pub sum_range : ℕ → (ℕ → ℕ) → ℕ
sum_range zero f = 0
sum_range (suc n) f = sum_range n f + f n

abbrev pub sum_list {ℓ} : {A : Type ℓ} → List A → (A → ℕ) → ℕ
sum_list [] f = 0
sum_list (x ∷ xs) f = f x + sum_list xs f

pub u32_add : (a b : ℕ) → u32 (u32 a + u32 b) ≡ u32 (a + b)
u32_add a b = omega arith

pub u32_add_l : (a b : ℕ) → u32 (u32 a + b) ≡ u32 (a + b)
u32_add_l a b = omega arith

pub u32_cancel : (a b c : ℕ) → u32 (a + c) ≡ u32 (b + c) → u32 a ≡ u32 b
u32_cancel a b c h = omega arith

pub u32_small : (a : ℕ) → a < 2 ^ 32 → u32 a ≡ a
u32_small a h = omega arith

pub sub32-add : (a b : ℕ) → b < 2 ^ 32 → u32 (sub32 a b + b) ≡ u32 a
sub32-add a b h = omega arith

parts : (a : ℕ) → a ≡ u32 a + a / 2 ^ 32 * 2 ^ 32
parts a = omega arith

drop_multiple : (x y : ℕ) → u32 (x + y * 2 ^ 32) ≡ u32 x
drop_multiple x y = omega arith

regroup : (x q y m : ℕ) → (x + q * m) * y ≡ x * y + q * y * m
regroup x q y m = grind arith

pub u32_mul_l : (a b : ℕ) → u32 (u32 a * b) ≡ u32 (a * b)
u32_mul_l a b = sym (
    ap (λ x. u32 (x * b)) (parts a)
    ∙ ap u32 (regroup (u32 a) (a / 2 ^ 32) b (2 ^ 32))
    ∙ drop_multiple (u32 a * b) (a / 2 ^ 32 * b))

pub u32_mul_r : (a b : ℕ) → u32 (a * u32 b) ≡ u32 (a * b)
u32_mul_r a b = ap u32 (mul_comm a (u32 b)) ∙ u32_mul_l b a ∙ ap u32 (mul_comm b a)

pub u32_mul : (a b c d : ℕ) → u32 a ≡ u32 b → u32 c ≡ u32 d → u32 (a * c) ≡ u32 (b * d)
u32_mul a b c d h k =
    sym (u32_mul_l a c)
    ∙ sym (u32_mul_r (u32 a) c)
    ∙ ap₂ (λ x y. u32 (x * y)) h k
    ∙ u32_mul_r (u32 b) d
    ∙ u32_mul_l b d

pub sum_range_ext :
    (n : ℕ) (f g : ℕ → ℕ) → ((i : ℕ) → i < n → f i ≡ g i) → sum_range n f ≡ sum_range n g
sum_range_ext zero f g h = refl
sum_range_ext (suc n) f g h =
    ap₂ ◌+◌ (sum_range_ext n f g (λ i lt. h i (omega arith))) (h n (omega arith))

pub sum_range-add :
    (n : ℕ) (f g : ℕ → ℕ) → sum_range n (λ i. f i + g i) ≡ sum_range n f + sum_range n g
sum_range-add zero f g = refl
sum_range-add (suc n) f g = omega (arith, sum_range-add n f g)

pub sum_range-zero : (n : ℕ) → sum_range n (λ i. 0) ≡ 0
sum_range-zero zero = refl
sum_range-zero (suc n) = omega (arith, sum_range-zero n)

pub sum_range-swap :
    (m n : ℕ) (f : ℕ → ℕ → ℕ)
    → sum_range m (λ i. sum_range n (f i)) ≡ sum_range n (λ j. sum_range m (λ i. f i j))
sum_range-swap zero n f = sym (sum_range-zero n)
sum_range-swap (suc m) n f =
    ap (λ x. x + sum_range n (f m)) (sum_range-swap m n f)
    ∙ sym (sum_range-add n (λ j. sum_range m (λ i. f i j)) (f m))

pub sum_range-mul : (n k : ℕ) (f : ℕ → ℕ) → sum_range n (λ i. k * f i) ≡ k * sum_range n f
sum_range-mul zero k f = grind arith
sum_range-mul (suc n) k f = ap (λ x. x + k * f n) (sum_range-mul n k f) ∙ sym (mul-add k _ _)

pub sum_range_append :
    (m n : ℕ) (f : ℕ → ℕ) → sum_range (m + n) f ≡ sum_range m f + sum_range n (λ i. f (m + i))
sum_range_append m zero f = rw add-zero (omega arith)
sum_range_append m (suc n) f = rw add-suc (omega (arith, sum_range_append m n f))

pub sum_range_miss :
    (n c : ℕ) (f : ℕ → ℕ) → n ≤ c → sum_range n (λ i. if c == i then f i else 0) ≡ 0
sum_range_miss zero c f h = refl
sum_range_miss (suc n) c f h = ground (arith, sum_range_miss n c f (omega arith))

-- Of terms that are zero but at `c`, the sum is the one at `c`.
pub sum_range_pick :
    (n c : ℕ) (f : ℕ → ℕ) → c < n → sum_range n (λ i. if c == i then f i else 0) ≡ f c
sum_range_pick zero c f h = absurd (omega arith)
sum_range_pick (suc n) c f h = elim (eq_or_ne c n) [
  | inl p ↦ ground (arith, p, sum_range_miss n c f (omega arith))
  | inr np ↦ ground (arith, np, sum_range_pick n c f (omega arith))
]

pub sum_range_cong :
    (n : ℕ) (f g : ℕ → ℕ)
    → ((i : ℕ) → i < n → u32 (f i) ≡ u32 (g i))
    → u32 (sum_range n f) ≡ u32 (sum_range n g)
sum_range_cong zero f g h = refl
sum_range_cong (suc n) f g h =
    omega (arith, sum_range_cong n f g (λ i lt. h i (omega arith)), h n (omega arith))
