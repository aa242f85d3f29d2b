-- ===== src/Cuckoo/CellStream/Number.antt =====
-- A slice of cells as one number, the first cell lowest: a cell is a field of it, and writing a
-- cell replaces that field.
use native.Mathlib.Nat.{div-div-eq-div-mul, mod-eq_of_lt, div-one, mod-one}
use ikpir.Prelude.{
  ℕ, zero, suc, ◌+◌, ◌*◌, ◌/◌, ◌%◌, ◌^◌, ◌<◌, ◌≡◌, refl, sym, ap, ◌∙◌, List, [], ◌∷◌, arith, get_or,
  set, length, get_or_ext,
}
use ikpir.Bits.{two_pow_add, two_pow_pos}
use ikpir.Bits.Field.{field, put, divmod_unique, mod-mul}

-- Every cell keeps its high bits zero.
abbrev pub Fits : ℕ → List ℕ → Type 0
Fits pb [] = Unit
Fits pb (c ∷ cs) = (c < 2 ^ pb) × Fits pb cs

unfoldable pub number : ℕ → List ℕ → ℕ
number pb [] = 0
number pb (c ∷ cs) = number pb cs * 2 ^ pb + c

-- The weight of cell `i`.
abbrev pub weight : ℕ → ℕ → ℕ
weight pb i = 2 ^ (i * pb)

weight-zero : (pb : ℕ) → weight pb 0 ≡ 1
weight-zero pb = let e : 0 * pb ≡ 0 = omega arith in rw e

weight-suc : (pb i : ℕ) → weight pb (suc i) ≡ 2 ^ pb * weight pb i
weight-suc pb i = let e : suc i * pb ≡ pb + i * pb = omega arith in rw e (two_pow_add pb (i * pb))

pub get_or-lt : (pb : ℕ) (cells : List ℕ) (i : ℕ) → Fits pb cells → get_or cells i 0 < 2 ^ pb
get_or-lt pb [] i fit = two_pow_pos pb
get_or-lt pb (c ∷ cs) zero fit = fit.0
get_or-lt pb (c ∷ cs) (suc i) fit = get_or-lt pb cs i fit.1

pub set-Fits :
    (pb : ℕ) (cells : List ℕ) (i c : ℕ) → Fits pb cells → c < 2 ^ pb → Fits pb (set cells i c)
set-Fits pb [] i c fit h = tt
set-Fits pb (x ∷ cs) zero c fit h = (h, fit.1)
set-Fits pb (x ∷ cs) (suc i) c fit h = (fit.0, set-Fits pb cs i c fit.1 h)

module _ (pb : ℕ) where
  digits :
      (c n : ℕ) → c < 2 ^ pb → ((n * 2 ^ pb + c) / 2 ^ pb ≡ n) × ((n * 2 ^ pb + c) % 2 ^ pb ≡ c)
  digits c n h = divmod_unique (2 ^ pb) n c h

  -- Cell `i` is the digit at its weight; past the end both are 0.
  pub cell-field :
      (cells : List ℕ) (i : ℕ)
      → Fits pb cells
      → field (number pb cells) (weight pb i) (2 ^ pb) ≡ get_or cells i 0
  unfolding number
  cell-field [] i fit = omega arith
  cell-field (c ∷ cs) zero fit = simp (weight-zero pb, div-one) ((digits c (number pb cs) fit.0).1)
  cell-field (c ∷ cs) (suc i) fit =
      let up : number pb (c ∷ cs) / weight pb (suc i) ≡ number pb cs / weight pb i =
        rw (weight-suc pb i, ← div-div-eq-div-mul, (digits c (number pb cs) fit.0).0) refl in
      rw up (cell-field cs i fit.1)

  pub number-set :
      (cells : List ℕ) (i c : ℕ)
      → Fits pb cells
      → c < 2 ^ pb
      → i < length cells
      → number pb (set cells i c) ≡ put (number pb cells) (weight pb i) (2 ^ pb) c
  unfolding number
  number-set [] i c fit c_lt h = absurd (omega arith)
  number-set (x ∷ cs) zero c fit c_lt h =
      simp (weight-zero pb, div-one, mod-one, (digits x (number pb cs) fit.0).0, mod-eq_of_lt c_lt)
        (omega arith)
  number-set (x ∷ cs) (suc i) c fit c_lt h =
      let high : number pb (x ∷ cs) / weight pb (suc i) ≡ number pb cs / weight pb i =
        rw (weight-suc pb i, ← div-div-eq-div-mul, (digits x (number pb cs) fit.0).0) refl in
      let low : number pb (x ∷ cs) % weight pb (suc i) ≡ number pb cs % weight pb i * 2 ^ pb + x =
        rw
          (
            weight-suc pb i,
            mod-mul _ (2 ^ pb) (weight pb i) (two_pow_pos pb) (two_pow_pos (i * pb)),
            (digits x (number pb cs) fit.0).0,
            (digits x (number pb cs) fit.0).1,
          )
          refl in
      rw (high, low, number-set cs i c fit.1 c_lt (omega arith), weight-suc pb i) (omega arith)

  -- The cells are known from the number.
  pub number-injective :
      (cells cells' : List ℕ)
      → Fits pb cells
      → Fits pb cells'
      → length cells ≡ length cells'
      → number pb cells ≡ number pb cells'
      → cells ≡ cells'
  number-injective cells cells' fit fit' len e = get_or_ext 0 cells cells' len (λ i _.
      sym (cell-field cells i fit)
      ∙ ap (λ (t : ℕ). field t (weight pb i) (2 ^ pb)) e
      ∙ cell-field cells' i fit')
