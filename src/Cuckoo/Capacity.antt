-- ===== src/Cuckoo/Capacity.antt =====
-- crates/segmented-cuckoo/src/util.rs: rounding a capacity up to a power, and the tests of powers.
-- The loops run on fuel: 64 rounds for the roundings, since every round at least doubles a `u64`,
-- and `n` rounds for the test, since every round divides `n`.
use native.Mathlib.Nat.{pow-le-pow_right, pow-suc}
use ikpir.Prelude.{
  ℕ, zero, suc, ◌+◌, ◌*◌, ◌/◌, ◌%◌, ◌^◌, ◌≤◌, ◌<◌, ◌≡◌, Bool, false, Option, none, some, ltb, leb,
  ◌==◌, if◌then◌else◌, ◌>>=◌, refl, sym, ap, ◌∙◌, ◌≢◌, ◌⊎◌, inl, inr, arith, lt→ltb, le→ltb,
  if_cases, eq_or_ne, ◌↔◌, true,
}

-- `while p < x { p *= b; }`; the product of a `u64` that overflows is a panic, as is lost fuel.
unfoldable pub grow : ℕ → ℕ → ℕ → ℕ → Option ℕ
grow zero b p x = if ltb p x then none else some p
grow (suc fuel) b p x =
    let rest = grow fuel b (p * b) x in
    if ltb p x then (if ltb (p * b) (2 ^ 64) then rest else none) else some p

unfoldable pub next_power_of_3 : ℕ → Option ℕ
next_power_of_3 x = if leb x 1 then some 1 else grow 64 3 1 x

unfoldable pub next_power_of_4 : ℕ → Option ℕ
next_power_of_4 x = if leb x 1 then some 1 else grow 64 4 1 x

-- `while v % 3 == 0 { v /= 3; }`
unfoldable pub shrink : ℕ → ℕ → Option ℕ
shrink zero v = none
shrink (suc fuel) v = let rest = shrink fuel (v / 3) in if v % 3 == 0 then rest else some v

unfoldable pub is_power_of_3 : ℕ → Option Bool
is_power_of_3 n = if n == 0 then some false else shrink n n >>= λ v. some (v == 1)

-- The smallest power of `b` that is at least `x`, as its exponent says.
pub record IsNextPower (b x p : ℕ) : Type 0 where
  pub exponent : ℕ
  pub power : p ≡ b ^ exponent
  pub enough : x ≤ p
  pub least : (s : ℕ) → s < exponent → b ^ s < x

le_or_lt : (a b : ℕ) → (a ≤ b) ⊎ (b < a)
le_or_lt a b = omega arith

stop : (b s x : ℕ) → x ≤ b ^ s → ((r : ℕ) → r < s → b ^ r < x) → IsNextPower b x (b ^ s)
stop b s x h small = record { exponent = s; power = refl; enough = h; least = small }

-- The loop from `b ^ s` on returns, for a bound `b ^ m` below 2 ^ 64 that is not passed.
grow-IsNextPower :
    (fuel b s m x : ℕ)
    → 2 ≤ b
    → x ≤ b ^ m
    → b ^ m < 2 ^ 64
    → m ≤ s + fuel
    → ((r : ℕ) → r < s → b ^ r < x)
    → (p : ℕ) × ((grow fuel b (b ^ s) x ≡ some p) × IsNextPower b x p)
unfolding grow
grow-IsNextPower zero b s m x hb hx hm hf small =
    let up : b ^ m ≤ b ^ s = pow-le-pow_right {n = b} (omega arith) (omega arith) in
    (b ^ s, (rw (le→ltb (b ^ s) x (omega (arith, up))) refl, stop b s x (omega (arith, up)) small))
grow-IsNextPower (suc fuel) b s m x hb hx hm hf small = elim (le_or_lt x (b ^ s)) [
  | inl done ↦ (b ^ s, (rw (le→ltb (b ^ s) x done) refl, stop b s x done small))
  | inr more ↦
      let below : s < m = elim (le_or_lt m s) [
        | inl h ↦
            absurd (
              let up : b ^ m ≤ b ^ s = pow-le-pow_right {n = b} (omega arith) h in
              omega (arith, up))
        | inr h ↦ h
      ] in
      let up : b ^ suc s ≤ b ^ m = pow-le-pow_right {n = b} (omega arith) below in
      let step : b ^ suc s ≡ b ^ s * b = pow-suc b s in
      let small' : (r : ℕ) → r < suc s → b ^ r < x = λ r lr. elim (le_or_lt s r) [
        | inl h ↦ omega (arith, more, ap (λ k. b ^ k) (le-antisym h lr))
        | inr h ↦ small r h
      ] in
      let (p, (e, np)) = grow-IsNextPower fuel b (suc s) m x hb hx hm (omega arith) small' in
      (
        p,
        (
          rw (lt→ltb (b ^ s) x more, lt→ltb (b ^ s * b) (2 ^ 64) (omega (arith, up, step)))
              (ap (λ q. grow fuel b q x) (sym step) ∙ e),
          np,
        ),
      )
]
  where
    le-antisym : {s r : ℕ} → s ≤ r → r < suc s → r ≡ s
    le-antisym h k = omega arith

-- For a capacity up to 3 ^ 40, the largest power of 3 that a `u64` holds, `next_power_of_3` returns,
-- without overflow and within its fuel, the smallest power of 3 that is at least the capacity.
pub next_power_of_3-IsNextPower :
    (x : ℕ) → x ≤ 3 ^ 40 → (p : ℕ) × ((next_power_of_3 x ≡ some p) × IsNextPower 3 x p)
unfolding next_power_of_3
next_power_of_3-IsNextPower x h =
    if_cases (λ o. (p : ℕ) × ((o ≡ some p) × IsNextPower 3 x p)) (leb x 1)
      (λ e. (1, (refl, stop 3 0 x (ground (arith, e)) (λ r lr. absurd (omega arith)))))
      (λ _.
        grow-IsNextPower 64 3 0 40 x (omega arith) h (omega arith) (omega arith)
          (λ r lr. absurd (omega arith)))

-- For a capacity up to 4 ^ 31, `next_power_of_4` returns, without overflow and within its fuel, the
-- smallest power of 4 that is at least the capacity.
pub next_power_of_4-IsNextPower :
    (x : ℕ) → x ≤ 4 ^ 31 → (p : ℕ) × ((next_power_of_4 x ≡ some p) × IsNextPower 4 x p)
unfolding next_power_of_4
next_power_of_4-IsNextPower x h =
    if_cases (λ o. (p : ℕ) × ((o ≡ some p) × IsNextPower 4 x p)) (leb x 1)
      (λ e. (1, (refl, stop 4 0 x (ground (arith, e)) (λ r lr. absurd (omega arith)))))
      (λ _.
        grow-IsNextPower 64 4 0 31 x (omega arith) h (omega arith) (omega arith)
          (λ r lr. absurd (omega arith)))

three_times : (a u : ℕ) → a * 3 * u ≡ 3 * (a * u)
three_times a u = grind arith

power_step : (t u : ℕ) → 3 ^ suc t * u ≡ 3 * (3 ^ t * u)
power_step t u = ap (λ k. k * u) (pow-suc 3 t) ∙ three_times (3 ^ t) u

divided : (v t u : ℕ) → v % 3 ≡ 0 → v / 3 ≡ 3 ^ t * u → v ≡ 3 ^ suc t * u
divided v t u e h = omega (arith, power_step t u, e, h)

-- The test's loop ends within its fuel, at a number that 3 does not divide, and `3 ^ t` times it
-- is the number tested.
shrink_lem :
    (fuel v : ℕ)
    → 0 < v
    → v ≤ fuel
    → (u : ℕ) × ((shrink fuel v ≡ some u) × ((u % 3 ≢ 0) × ((t : ℕ) × (v ≡ 3 ^ t * u))))
unfolding shrink
shrink_lem zero v h k = absurd (omega arith)
shrink_lem (suc fuel) v h k = elim (eq_or_ne (v % 3) 0) [
  | inl e ↦
      let (u, (eu, (nu, (t, et)))) = shrink_lem fuel (v / 3) (omega (arith, e)) (omega arith) in
      (u, (ground (arith, e, eu), (nu, (suc t, divided v t u e et))))
  | inr ne ↦ (v, (ground (arith, ne), (ne, (0, omega arith))))
]

unit_of_power : (t s u : ℕ) → 3 ^ t ≡ 3 ^ s * u → u % 3 ≢ 0 → u ≡ 1
unit_of_power zero zero u e h = omega arith
unit_of_power zero (suc s) u e h = absurd (omega (arith, power_step s u))
unit_of_power (suc t) zero u e h = absurd (h (omega (arith, pow-suc 3 t)))
unit_of_power (suc t) (suc s) u e h =
    unit_of_power t s u (omega (arith, pow-suc 3 t, power_step s u)) h

one_power : (n t u : ℕ) → n ≡ 3 ^ t * u → (u == 1) ≡ true → n ≡ 3 ^ t
one_power n t u h e = ground (arith, e, h)

one_test : (u : ℕ) → u ≡ 1 → (u == 1) ≡ true
one_test u e = ground (arith, e)

-- For a number above 0 the test of `is_power_of_3` ends within its fuel, and is true exactly of the
-- powers of 3.
pub is_power_of_3_lem :
    (n : ℕ)
    → 0 < n
    → (b : Bool) × ((is_power_of_3 n ≡ some b) × ((b ≡ true) ↔ ((t : ℕ) × (n ≡ 3 ^ t))))
unfolding is_power_of_3
is_power_of_3_lem n h =
    let (u, (eu, (nu, (t, et)))) = shrink_lem n n h (omega arith) in
    (
      u == 1,
      (
        ground (arith, eu, h),
        (
          λ e. (t, one_power n t u et e),
          λ (s, es). one_test u (unit_of_power s t u (sym es ∙ et) nu),
        ),
      ),
    )
