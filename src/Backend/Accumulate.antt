-- ===== src/Backend/Accumulate.antt =====
-- Wrapping accumulation into a buffer of `u32` cells, the step that every kernel of the back ends
-- repeats in its own order: `h[c] = h[c].wrapping_add(v)`.
use ikpir.Prelude.{
  ℕ, zero, suc, ◌+◌, ◌*◌, ◌^◌, ◌<◌, ◌≡◌, refl, sym, ap, ◌∙◌, inl, inr, List, [], ◌∷◌, arith, ◌==◌,
  if◌then◌else◌, length, get_or, set, take, drop, length-set, get_or-set_self, get_or-set_ne,
  get_or_ext, u32, add32, eq_or_ne, for_range, for_each, sum_range, sum_list, ◌≤◌, length-take,
  length-drop,
}

-- `h[c] = h[c].wrapping_add(v)`
unfoldable pub add_at : ℕ → ℕ → List ℕ → List ℕ
add_at c v h = set h c (add32 (get_or h c 0) v)

-- `&xs[from..from + n]`
abbrev pub slice {ℓ} : {A : Type ℓ} → List A → ℕ → ℕ → List A
slice xs from n = take n (drop from xs)

pub get_or-drop {ℓ} :
    {A : Type ℓ} (m i : ℕ) (xs : List A) (d : A) → get_or (drop m xs) i d ≡ get_or xs (m + i) d
get_or-drop zero i xs d = ap (λ x. get_or xs x d) (omega arith)
get_or-drop (suc m) i [] d = refl
get_or-drop (suc m) i (x ∷ xs) d = get_or-drop m i xs d ∙ ap (λ k. get_or (x ∷ xs) k d) suc_add
  where
    suc_add : suc (m + i) ≡ suc m + i
    suc_add = omega arith

pub get_or-take {ℓ} :
    {A : Type ℓ} (n i : ℕ) (xs : List A) (d : A) → i < n → get_or (take n xs) i d ≡ get_or xs i d
get_or-take zero i xs d h = absurd (omega arith)
get_or-take (suc n) i [] d h = refl
get_or-take (suc n) zero (x ∷ xs) d h = refl
get_or-take (suc n) (suc i) (x ∷ xs) d h = get_or-take n i xs d (omega arith)

pub get_or-slice {ℓ} :
    {A : Type ℓ} (from n i : ℕ) (xs : List A) (d : A)
    → i < n
    → get_or (slice xs from n) i d ≡ get_or xs (from + i) d
get_or-slice from n i xs d h = get_or-take n i (drop from xs) d h ∙ get_or-drop from i xs d

pub length-slice :
    (a : List ℕ) (n i L : ℕ) → length a ≡ n * L → i < n → length (slice a (i * L) L) ≡ L
length-slice a n i L e lt =
    let room : i * L + L ≤ n * L = grind (arith, lt) in
    length-take L (drop (i * L) a) ∙ omega (arith, length-drop (i * L) a, e, room)

-- The cells of a buffer are machine words.
abbrev pub IsWords : List ℕ → Type 0
IsWords h = (c : ℕ) → get_or h c 0 < 2 ^ 32

-- `Adds h k f`: the buffer `k` is `h` with `f c` added to each cell `c`, modulo 2 ^ 32.
pub record Adds (h k : List ℕ) (f : ℕ → ℕ) : Type 0 where
  pub length_eq : length k ≡ length h
  pub cell : (c : ℕ) → c < length h → u32 (get_or k c 0) ≡ u32 (get_or h c 0 + f c)
  pub words : IsWords h → IsWords k

pub Adds-refl : (h : List ℕ) → Adds h h (λ c. 0)
Adds-refl h = record { length_eq = refl; cell = λ c lt. omega arith; words = λ w. w }

pub Adds-trans :
    (h k l : List ℕ) (f g : ℕ → ℕ) → Adds h k f → Adds k l g → Adds h l (λ c. f c + g c)
Adds-trans h k l f g a b = record {
  length_eq = b.length_eq ∙ a.length_eq;
  cell = λ c lt. omega (arith, a.cell c lt, b.cell c (omega (arith, a.length_eq)));
  words = λ w. b.words (a.words w);
}

pub Adds-cong :
    (h k : List ℕ) (f g : ℕ → ℕ)
    → Adds h k f
    → ((c : ℕ) → c < length h → u32 (f c) ≡ u32 (g c))
    → Adds h k g
Adds-cong h k f g a e = record {
  length_eq = a.length_eq;
  cell = λ c lt. omega (arith, a.cell c lt, e c lt);
  words = a.words;
}

-- A body that adds `f i` in its round adds the sum of the rounds.
pub Adds-for_range :
    (n : ℕ) (body : ℕ → List ℕ → List ℕ) (f : ℕ → ℕ → ℕ) (h : List ℕ)
    → ((i : ℕ) (k : List ℕ) → i < n → length k ≡ length h → Adds k (body i k) (f i))
    → Adds h (for_range n body h) (λ c. sum_range n (λ i. f i c))
Adds-for_range zero body f h step = Adds-refl h
Adds-for_range (suc n) body f h step =
    let before = Adds-for_range n body f h (λ i k lt e. step i k (omega arith) e) in
    Adds-trans h (for_range n body h) _ (λ c. sum_range n (λ i. f i c)) (f n) before
      (step n (for_range n body h) (omega arith) before.length_eq)

pub Adds-for_each {ℓ} :
    {A : Type ℓ} (xs : List A) (body : A → List ℕ → List ℕ) (f : A → ℕ → ℕ) (h : List ℕ)
    → ((x : A) (k : List ℕ) → length k ≡ length h → Adds k (body x k) (f x))
    → Adds h (for_each xs body h) (λ c. sum_list xs (λ x. f x c))
Adds-for_each [] body f h step = Adds-refl h
Adds-for_each (x ∷ xs) body f h step =
    let first = step x h refl in
    Adds-trans h (body x h) _ (f x) (λ c. sum_list xs (λ y. f y c)) first
      (Adds-for_each xs body f (body x h) (λ y k e. step y k (e ∙ first.length_eq)))

pub set-IsWords : (h : List ℕ) (c v : ℕ) → v < 2 ^ 32 → IsWords h → IsWords (set h c v)
set-IsWords [] c v lt w j = w j
set-IsWords (x ∷ xs) zero v lt w zero = lt
set-IsWords (x ∷ xs) zero v lt w (suc j) = w (suc j)
set-IsWords (x ∷ xs) (suc c) v lt w zero = w 0
set-IsWords (x ∷ xs) (suc c) v lt w (suc j) = set-IsWords xs c v lt (λ k. w (suc k)) j

-- A write of one cell that adds `v` to it.
pub set-Adds :
    (h : List ℕ) (c x v : ℕ)
    → u32 x ≡ u32 (get_or h c 0 + v)
    → (IsWords h → x < 2 ^ 32)
    → Adds h (set h c x) (λ j. if j == c then v else 0)
set-Adds h c x v e lt = record {
  length_eq = length-set h c x;
  cell = λ j in_range. elim (eq_or_ne j c) [
    | inl p ↦
        ground (arith, p, get_or-set_self h c x 0 (omega (arith, p)), ap (λ k. get_or h k 0) p)
    | inr ne ↦ ground (arith, ne, get_or-set_ne h c j x 0 (λ p. ne (sym p)))
  ];
  words = λ w. set-IsWords h c x (lt w) w;
}

pub add_at-Adds : (h : List ℕ) (c v : ℕ) → Adds h (add_at c v h) (λ j. if j == c then v else 0)
unfolding add_at
add_at-Adds h c v = set-Adds h c _ v (omega arith) (λ w. omega arith)

-- Two buffers with the same cells added are the same.
pub Adds-unique :
    (h k l : List ℕ) (f g : ℕ → ℕ)
    → IsWords h
    → Adds h k f
    → Adds h l g
    → ((c : ℕ) → c < length h → u32 (f c) ≡ u32 (g c))
    → k ≡ l
Adds-unique h k l f g w a b e = get_or_ext 0 k l (a.length_eq ∙ sym b.length_eq) λ c lt.
    let lt' : c < length h = omega (arith, a.length_eq) in
    omega (arith, a.words w c, b.words w c, a.cell c lt', b.cell c lt', e c lt')
