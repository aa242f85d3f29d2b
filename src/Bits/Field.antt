-- ===== src/Bits/Field.antt =====
-- A field of a number, `q` values wide at weight `p`: reading it and replacing it, over any
-- positive weights, with the laws of fields that do not overlap.
use native.Mathlib.Nat.{
  div-eq_of_lt-le, div-div-eq-div-mul, div-lt_iff_lt-mul, mod-lt, mod-eq_of_lt, div-one, mod-one,
}
use ikpir.Prelude.{ℕ, ◌+◌, ◌*◌, ◌/◌, ◌%◌, ◌<◌, ◌≡◌, refl, sym, ap, ◌∙◌, arith}

abbrev pub field : ℕ → ℕ → ℕ → ℕ
field n p q = n / p % q

abbrev pub put : ℕ → ℕ → ℕ → ℕ → ℕ
put n p q v = (n / p / q * q + v % q) * p + n % p

pub split : (p a : ℕ) → a ≡ a / p * p + a % p
split p a = ground arith

pub divmod_unique : (p q r : ℕ) → r < p → ((q * p + r) / p ≡ q) × ((q * p + r) % p ≡ r)
divmod_unique p q r h =
    let quotient : (q * p + r) / p ≡ q = div-eq_of_lt-le p (omega arith) (omega arith) in
    (quotient, omega (arith, split p (q * p + r), ap (λ (t : ℕ). t * p) quotient))

-- The remainder by a product, from the two digits that it is made of.
pub mod-mul : (a p q : ℕ) → 0 < p → 0 < q → a % (p * q) ≡ a / p % q * p + a % p
mod-mul a p q p_pos q_pos =
    let low = a / p % q * p + a % p in
    let fits : low < p * q = grind (arith, mod-lt (a / p) q_pos, mod-lt a p_pos) in
    let parts : a ≡ a / p / q * (p * q) + low =
      omega (arith, split p a, ap (λ (t : ℕ). t * p) (split q (a / p))) in
    ap (λ (t : ℕ). t % (p * q)) parts ∙ (divmod_unique (p * q) (a / p / q) low fits).1

module _ (n p q v : ℕ) (p_pos : 0 < p) (q_pos : 0 < q) where
  put-div : put n p q v / p ≡ n / p / q * q + v % q
  put-div = (divmod_unique p _ (n % p) (mod-lt n p_pos)).0

  pub put-low : put n p q v % p ≡ n % p
  put-low = (divmod_unique p _ (n % p) (mod-lt n p_pos)).1

  pub put-high : put n p q v / p / q ≡ n / p / q
  put-high = rw put-div (divmod_unique q _ (v % q) (mod-lt v q_pos)).0

  -- The field that was replaced reads back.
  pub field-put : field (put n p q v) p q ≡ v % q
  field-put = rw put-div (divmod_unique q _ (v % q) (mod-lt v q_pos)).1

  -- A field above it is unchanged.
  pub field-put_above : (r s : ℕ) → field (put n p q v) (p * q * r) s ≡ field n (p * q * r) s
  field-put_above r s = simp (← div-div-eq-div-mul) (rw put-high refl)

  -- The remainder by the end of the field.
  pub put-mod : put n p q v % (p * q) ≡ v % q * p + n % p
  put-mod = mod-mul _ p q p_pos q_pos ∙ ground (arith, put-low, field-put)

-- A field below a weight depends on the remainder by the weight only.
field-mod : (n p q r : ℕ) → 0 < p → 0 < q → 0 < r → field (n % (p * q * r)) p q ≡ field n p q
field-mod n p q r p_pos q_pos r_pos =
    let high = n / (p * q) % r in
    let parts : n % (p * q * r) ≡ (high * q + n / p % q) * p + n % p =
      mod-mul n (p * q) r grind arith r_pos ∙ omega (arith, mod-mul n p q p_pos q_pos) in
    let up : n % (p * q * r) / p ≡ high * q + n / p % q =
      rw parts (divmod_unique p _ (n % p) (mod-lt n p_pos)).0 in
    rw up (divmod_unique q high (n / p % q) (mod-lt (n / p) q_pos)).1

-- A field below the one that was replaced is unchanged.
pub field-put_below :
    (n p q r s v : ℕ)
    → 0 < p
    → 0 < q
    → 0 < r
    → 0 < s
    → field (put n (p * q * r) s v) p q ≡ field n p q
field-put_below n p q r s v p_pos q_pos r_pos s_pos =
    sym (field-mod (put n (p * q * r) s v) p q r p_pos q_pos r_pos)
    ∙ ap (λ (t : ℕ). field t p q) (put-low n (p * q * r) s v grind arith s_pos)
    ∙ field-mod n p q r p_pos q_pos r_pos

-- Two adjacent fields replaced one after the other are one field.
pub put-put :
    (n p q r v : ℕ)
    → 0 < p
    → 0 < q
    → 0 < r
    → put (put n p q v) (p * q) r (v / q) ≡ put n p (q * r) v
put-put n p q r v p_pos q_pos r_pos =
    let high : put n p q v / (p * q) ≡ n / p / q =
      sym (div-div-eq-div-mul _ p q) ∙ put-high n p q v p_pos q_pos in
    let low = put-mod n p q v p_pos q_pos in
    rw (high, low, ← div-div-eq-div-mul, mod-mul v q r q_pos r_pos) (omega arith)

inside_ring :
    (g high w lo p v x n : ℕ) (h : ℕ)
    → (g * (lo * w * h) + ((high * w + v) * lo + x)) * p + n
      ≡ ((g * h + high) * w + v) * (p * lo) + (x * p + n)
inside_ring g high w lo p v x n h = omega arith

digit-lt : (high w lo v x h : ℕ) → high < h → v < w → x < lo → (high * w + v) * lo + x < lo * w * h
digit-lt high w lo v x h p q r = let first : high * w + v < h * w = grind arith in grind arith

-- Replacing a field of a number keeps it below what it was below.
pub put-lt : (n p q r v : ℕ) → 0 < p → 0 < q → n < p * q * r → put n p q v < p * q * r
put-lt n p q r v p_pos q_pos h =
    let high : n / p / q < r =
      rw div-div-eq-div-mul ((div-lt_iff_lt-mul ground arith).1 (omega arith)) in
    digit-lt (n / p / q) q p (v % q) (n % p) r high (mod-lt v q_pos) (mod-lt n p_pos)

-- To replace a field of a digit, and then the digit, is to replace the field.
pub put-inside :
    (n p lo w h v : ℕ)
    → 0 < p
    → 0 < lo
    → 0 < w
    → 0 < h
    → put n p (lo * w * h) (put (field n p (lo * w * h)) lo w v) ≡ put n (p * lo) w v
put-inside n p lo w h v p_pos lo_pos w_pos h_pos =
    let x = n / p in
    let high = x / lo / w % h in
    let digit : x % (lo * w * h) ≡ (high * w + x / lo % w) * lo + x % lo =
      mod-mul x (lo * w) h grind arith h_pos
      ∙ ground (arith, mod-mul x lo w lo_pos w_pos, div-div-eq-div-mul x lo w) in
    let low : x % (lo * w * h) % lo ≡ x % lo =
      ap (λ (t : ℕ). t % lo) digit ∙ (divmod_unique lo _ (x % lo) (mod-lt x lo_pos)).1 in
    let middle : x % (lo * w * h) / lo ≡ high * w + x / lo % w =
      ap (λ (t : ℕ). t / lo) digit ∙ (divmod_unique lo _ (x % lo) (mod-lt x lo_pos)).0 in
    let top : x % (lo * w * h) / lo / w ≡ high =
      ap (λ (t : ℕ). t / w) middle ∙ (divmod_unique w _ _ (mod-lt (x / lo) w_pos)).0 in
    let fits : (high * w + v % w) * lo + x % lo < lo * w * h =
      digit-lt high w lo (v % w) (x % lo) h (mod-lt _ h_pos) (mod-lt v w_pos) (mod-lt x lo_pos) in
    let outer : x / (lo * w * h) ≡ x / lo / w / h =
      sym (div-div-eq-div-mul x (lo * w) h)
      ∙ ap (λ (t : ℕ). t / h) (sym (div-div-eq-div-mul x lo w)) in
    rw
      (top, low, outer, mod-eq_of_lt fits, ← div-div-eq-div-mul n p lo, mod-mul n p lo p_pos lo_pos)
      (inside_ring (x / lo / w / h) high w lo p (v % w) (x % lo) (n % p) h
        ∙ ap (λ (t : ℕ). (t * w + v % w) * (p * lo) + (x % lo * p + n % p))
            (sym (split h (x / lo / w))))

-- A field of width 0 leaves the number as it is.
pub put-nothing : (n p v : ℕ) → put n p 1 v ≡ n
put-nothing n p v = simp (div-one, mod-one) (ground (arith, split p n))

-- Putting a field back undoes its replacement.
pub put-field : (n p q v : ℕ) → 0 < p → 0 < q → put (put n p q v) p q (field n p q) ≡ n
put-field n p q v p_pos q_pos =
    rw
      (
        put-high n p q v p_pos q_pos,
        put-low n p q v p_pos q_pos,
        mod-eq_of_lt (mod-lt (n / p) q_pos),
      )
      (ap (λ (t : ℕ). t * p + n % p) (sym (split q (n / p))) ∙ sym (split p n))
