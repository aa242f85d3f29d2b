-- ===== src/Backend/Frodo/Decode.antt =====
-- Decoding an answer: the residual is the noise plus the scaled row that was asked for.
use native.Mathlib.Nat.{mul_comm, add-mul, zero-mul}
use ikpir.Bits.{two_pow_add}
use ikpir.Prelude.{
  ℕ, zero, suc, ◌+◌, ◌-◌, ◌*◌, ◌^◌, ◌≤◌, ◌<◌, ◌≡◌, ap, ◌⊎◌, List, arith, ltb, ◌==◌, if◌then◌else◌,
  if_cases, get_or, u32, add32, for_range, sum_range, sum_range_miss, sum_range_pick, ◌/◌, refl,
  sym, ap₂, ◌∙◌, Bool, true, false, [], ◌∷◌, map, length, u32_mul, sum_range_ext, sum_range-add,
  sum_range-zero, sum_range-swap, sum_range-mul, sum_range_cong,
}
use ikpir.Backend.Accumulate.{Adds, Adds-cong, Adds-for_range, set-Adds}
use ikpir.Backend.Frodo.{round_q_to_p, FrodoServerParams, sample_slot, neg32}

-- `Σ_k s_k · A_ik`, what the secret adds to cell `i` of a query.
abbrev pub masked : List ℕ → List ℕ → ℕ → ℕ → ℕ
masked a secret L i = sum_range L (λ k. get_or a (i * L + k) 0 * get_or secret k 0)

pub fold_sum :
    (n x : ℕ) (f : ℕ → ℕ)
    → u32 (for_range n (λ k acc. add32 acc (u32 (f k))) x) ≡ u32 (x + sum_range n f)
fold_sum zero x f = omega arith
fold_sum (suc n) x f = omega (arith, fold_sum n x f)

fold_word :
    (n x : ℕ) (f : ℕ → ℕ) → x < 2 ^ 32 → for_range n (λ k acc. add32 acc (u32 (f k))) x < 2 ^ 32
fold_word zero x f h = h
fold_word (suc n) x f h = omega arith

pub sample_slot-Adds :
    (p : FrodoServerParams) (a secret e : List ℕ)
    → Adds e
        (sample_slot p a secret e).b
        (λ i. if ltb i p.n_rows then masked a secret p.params.lwe_dim i else 0)
unfolding sample_slot
sample_slot-Adds p a secret e =
    let L = p.params.lwe_dim in
    Adds-cong e _ _ _
      (Adds-for_range p.n_rows _ _ e λ i b _ _.
        set-Adds b i _ (masked a secret L i)
          (fold_sum L (get_or b i 0) (λ k. get_or a (i * L + k) 0 * get_or secret k 0))
          (λ w. fold_word L (get_or b i 0) _ (w i)))
      (λ c lt. ap u32 (pick_below p.n_rows c (masked a secret L)))
  where
    pick_below :
        (n c : ℕ) (f : ℕ → ℕ)
        → sum_range n (λ i. if c == i then f i else 0) ≡ (if ltb c n then f c else 0)
    pick_below n c f =
        if_cases (λ x. sum_range n (λ i. if c == i then f i else 0) ≡ x) (ltb c n)
          (λ h. sum_range_pick n c f (ground (arith, h)))
          (λ h. sum_range_miss n c f (ground (arith, h)))

-- The noise in column `j`.
abbrev pub noise : List ℕ → List ℕ → ℕ → ℕ → ℕ → ℕ
noise e db n w j = sum_range n (λ i. get_or e i 0 * get_or db (i * w + j) 0)

rounded :
    (y t X H : ℕ)
    → X + (H + H) ≤ 2 ^ 32
    → (u32 t < H) ⊎ (2 ^ 32 - H ≤ u32 t)
    → u32 y ≡ u32 (t + X)
    → (X ≤ u32 (y + H)) × (u32 (y + H) < X + (H + H))
rounded y t X H room h e = ground (arith, h)

between : (v x D : ℕ) → x * D ≤ v → v < x * D + D → v / D ≡ x
between v x D low high = grind arith

-- Decoding rounds away a noise below half a step, on either side of zero.
pub round_q_to_p_lem :
    (y t x pb : ℕ)
    → 1 ≤ pb
    → pb ≤ 31
    → x < 2 ^ pb
    → (u32 t < 2 ^ (31 - pb)) ⊎ (2 ^ 32 - 2 ^ (31 - pb) ≤ u32 t)
    → u32 y ≡ u32 (t + x * 2 ^ (32 - pb))
    → round_q_to_p y pb ≡ x
unfolding round_q_to_p
round_q_to_p_lem y t x pb h1 h31 hx ht e =
    let D = 2 ^ (32 - pb) in
    let H = 2 ^ (31 - pb) in
    let next : 32 - pb ≡ 31 - pb + 1 = omega (arith, h31) in
    let doubled : 2 ^ (31 - pb + 1) ≡ H * 2 ^ 1 = two_pow_add (31 - pb) 1 in
    let twice : D ≡ H + H = ap (λ k. 2 ^ k) next ∙ doubled ∙ omega arith in
    let all : pb + (32 - pb) ≡ 32 = omega (arith, h31) in
    let steps : 2 ^ pb * D ≡ 2 ^ 32 = sym (two_pow_add pb (32 - pb)) ∙ ap (λ k. 2 ^ k) all in
    let room : x * D + D ≤ 2 ^ 32 = grind (arith, steps, hx) in
    let less : 32 - pb - 1 ≡ 31 - pb = omega arith in
    let half : 2 ^ (32 - pb - 1) ≡ H = ap (λ k. 2 ^ k) less in
    let (low, high) = rounded y t (x * D) H (omega (arith, room, twice)) ht e in
    ap (λ h. u32 (y + h) / D) half ∙ between (u32 (y + H)) x D low (omega (arith, high, twice))

pub get_or-map :
    (f : ℕ → ℕ) (xs : List ℕ) (i : ℕ) → i < length xs → get_or (map f xs) i 0 ≡ f (get_or xs i 0)
get_or-map f [] i h = absurd (omega arith)
get_or-map f (x ∷ xs) zero h = refl
get_or-map f (x ∷ xs) (suc i) h = get_or-map f xs i (omega arith)

pub length-map : (f : ℕ → ℕ) (xs : List ℕ) → length (map f xs) ≡ length xs
length-map f [] = refl
length-map f (x ∷ xs) = ap suc (length-map f xs)

-- A negated word and the word cancel in a product.
negated : (s h : ℕ) → s < 2 ^ 32 → u32 (neg32 s * h + s * h) ≡ 0
negated s h lt =
    ap u32 (sym (add-mul (neg32 s) s h))
    ∙ u32_mul (neg32 s + s) 0 h h (omega arith) refl
    ∙ ap u32 (zero-mul h)

pub negated_sum :
    (n : ℕ) (s h : ℕ → ℕ)
    → ((k : ℕ) → k < n → s k < 2 ^ 32)
    → u32 (sum_range n (λ k. neg32 (s k) * h k) + sum_range n (λ k. s k * h k)) ≡ 0
negated_sum n s h lt =
    ap u32 (sym (sum_range-add n _ _))
    ∙ sum_range_cong n _ (λ _. 0) (λ k lk. negated (s k) (h k) (lt k lk))
    ∙ ap u32 (sum_range-zero n)

-- The secret's part of the answer, summed by rows of the database or of the hint.
pub secret_swap :
    (a secret db : List ℕ) (n L w j : ℕ)
    → sum_range L (λ k.
      get_or secret k 0 * sum_range n (λ i. get_or a (i * L + k) 0 * get_or db (i * w + j) 0))
      ≡ sum_range n (λ i. masked a secret L i * get_or db (i * w + j) 0)
secret_swap a secret db n L w j =
    sum_range_ext L _ _ (λ k lk. sym (sum_range-mul n (get_or secret k 0) _))
    ∙ sum_range-swap L n _
    ∙ sum_range_ext n _ _ (λ i li.
      sum_range_ext L _
        (λ k. get_or db (i * w + j) 0 * (get_or a (i * L + k) 0 * get_or secret k 0))
        (λ k lk. grind arith)
      ∙ sum_range-mul L (get_or db (i * w + j) 0) _
      ∙ mul_comm (get_or db (i * w + j) 0) (masked a secret L i))

module _ (a secret e db : List ℕ) (n L w row step : ℕ) where
  -- The query adds a step at the row that is asked for.
  abbrev pub asked : ℕ → ℕ
  asked i = get_or e i 0 + masked a secret L i + (if row == i then step else 0)

  pub asked_sum :
      (j : ℕ)
      → row < n
      → sum_range n (λ i. asked i * get_or db (i * w + j) 0)
        ≡ noise e db n w j
          + sum_range n (λ i. masked a secret L i * get_or db (i * w + j) 0)
          + step * get_or db (row * w + j) 0
  asked_sum j lt =
      sum_range_ext n _
        (λ i.
          get_or e i 0 * get_or db (i * w + j) 0
          + masked a secret L i * get_or db (i * w + j) 0
          + (if row == i then step * get_or db (i * w + j) 0 else 0))
        (λ i li. spread (get_or e i 0) (masked a secret L i) (row == i) (get_or db (i * w + j) 0))
      ∙ sum_range-add n _ _
      ∙ ap₂ ◌+◌ (sum_range-add n _ _)
          (sum_range_pick n row (λ i. step * get_or db (i * w + j) 0) lt)
    where
      spread :
          (x y : ℕ) (b : Bool) (d : ℕ)
          → (x + y + (if b then step else 0)) * d ≡ x * d + y * d + (if b then step * d else 0)
      spread x y true d = grind arith
      spread x y false d = grind arith
