-- ===== src/Bits/Step.antt =====
-- The lowest binary digit of `&`, `|` and `^`: each native operation is a recursion on digits with
-- the left operand for fuel, and one section drops the fuel for all three.
use Prim.Native.Nat.{digits, bitwise, bit_and-bitwise, bit_or-bitwise, bit_xor-bitwise, differ}
use ikpir.Prelude.{
  ℕ, zero, suc, ◌+◌, ◌*◌, ◌/◌, ◌%◌, ◌≤◌, ◌<◌, min, max, bit_and, bit_or, bit_xor, ◌≡◌, refl, sym,
  ap, ◌∙◌, arith,
}

module _ (rest : ℕ → ℕ) (digit : ℕ → ℕ → ℕ) where
  without_left : (fuel b : ℕ) → digits rest digit fuel zero b ≡ rest b
  without_left zero b = refl
  without_left (suc fuel) b = refl

  -- Any fuel from the left operand on gives the same digits.
  agree :
      (a b fuel fuel' : ℕ)
      → a ≤ fuel
      → a ≤ fuel'
      → digits rest digit fuel a b ≡ digits rest digit fuel' a b
  agree zero b fuel fuel' h h' = without_left fuel b ∙ sym (without_left fuel' b)
  agree (suc a) b zero fuel' h h' = absurd (ground arith)
  agree (suc a) b (suc fuel) zero h h' = absurd (ground arith)
  agree (suc a) b (suc fuel) (suc fuel') h h' =
      ap (λ (high : ℕ). high * 2 + digit (suc a % 2) (b % 2))
        (agree (suc a / 2) (b / 2) fuel fuel' (ground arith) (ground arith))

  module _ (op : ℕ → ℕ → ℕ) (meaning : (a b : ℕ) → op a b ≡ bitwise rest digit a b)
      (tail : (b : ℕ) → rest b ≡ rest (b / 2) * 2 + digit 0 (b % 2)) where
    lowest : (a b : ℕ) → op a b ≡ op (a / 2) (b / 2) * 2 + digit (a % 2) (b % 2)
    lowest zero b =
        meaning 0 b
        ∙ tail b
        ∙ ap (λ (high : ℕ). high * 2 + digit 0 (b % 2)) (sym (meaning 0 (b / 2)))
    lowest (suc a) b =
        let half = suc a / 2 in
        meaning (suc a) b
        ∙ ap (λ (high : ℕ). high * 2 + digit (suc a % 2) (b % 2))
            (agree half (b / 2) a half (ground arith) (ground arith) ∙ sym (meaning half (b / 2)))

pub bit_and_step : (a b : ℕ) → bit_and a b ≡ bit_and (a / 2) (b / 2) * 2 + min (a % 2) (b % 2)
bit_and_step = lowest (λ _. 0) min bit_and bit_and-bitwise (λ b. omega arith)

pub bit_or_step : (a b : ℕ) → bit_or a b ≡ bit_or (a / 2) (b / 2) * 2 + max (a % 2) (b % 2)
bit_or_step = lowest (λ b. b) max bit_or bit_or-bitwise (λ b. omega arith)

differ-bits : (x y : ℕ) → x < 2 → y < 2 → differ x y ≡ (x + y) % 2
differ-bits zero y h h' = omega arith
differ-bits (suc zero) zero h h' = omega arith
differ-bits (suc zero) (suc zero) h h' = omega arith
differ-bits (suc zero) (suc (suc y)) h h' = absurd (omega arith)
differ-bits (suc (suc x)) y h h' = absurd (omega arith)

pub bit_xor_step : (a b : ℕ) → bit_xor a b ≡ bit_xor (a / 2) (b / 2) * 2 + (a % 2 + b % 2) % 2
bit_xor_step a b =
    lowest (λ b. b) differ bit_xor bit_xor-bitwise
      (λ b. omega (arith, differ-bits 0 (b % 2) (omega arith) (omega arith))) a b
    ∙ ap (λ (low : ℕ). bit_xor (a / 2) (b / 2) * 2 + low)
        (differ-bits (a % 2) (b % 2) (omega arith) (omega arith))
