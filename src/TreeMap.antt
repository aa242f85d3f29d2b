-- ===== src/TreeMap.antt =====
-- `BTreeMap` of the standard library, as the client and the server use it: a list of entries, with
-- the keys in ascending order.
use ikpir.Prelude.{
  ℕ, ◌≡◌, refl, Bool, true, false, ◌&&◌, ◌||◌, Option, none, some, List, [], ◌∷◌, arith, ltb, ◌==◌,
  if◌then◌else◌, sym, ap, ◌∙◌, inl, inr, Bool-cases, if_cases, ◌≢◌, ◌+◌, sum_list,
}

-- The order of the keys.
pub record Order {ℓ} (K : Type ℓ) : Type ℓ where
  pub lt : K → K → Bool
  pub eq : K → K → Bool
  pub eq_sound : (a b : K) → eq a b ≡ true → a ≡ b
  pub eq_same : (a : K) → eq a a ≡ true
  pub lt_irrefl : (a : K) → lt a a ≡ false
  pub lt_trans : (a b c : K) → lt a b ≡ true → lt b c ≡ true → lt a c ≡ true
  pub lt_total : (a b : K) → eq a b ≡ false → lt a b ≡ false → lt b a ≡ true

instance abbrev pub number_order : Order ℕ
number_order = record {
  lt = ltb;
  eq = ◌==◌;
  eq_sound = λ a b h. ground arith;
  eq_same = λ a. ground arith;
  lt_irrefl = λ a. ground arith;
  lt_trans = λ a b c h k. ground arith;
  lt_total = λ a b h k. ground arith;
}

-- Rows and offsets, compared by the row first.
instance abbrev pub cell_order : Order (ℕ × ℕ)
cell_order = record {
  lt = λ a b. ltb a.0 b.0 || ((a.0 == b.0) && ltb a.1 b.1);
  eq = λ a b. (a.0 == b.0) && (a.1 == b.1);
  eq_sound = λ a b h. ground arith;
  eq_same = λ a. ground arith;
  lt_irrefl = λ a. ground arith;
  lt_trans = λ a b c h k. ground arith;
  lt_total = λ a b h k. ground arith;
}

false-ne_true : false ≢ true
false-ne_true e = absurd cc

if_twice {ℓ} :
    {A : Type ℓ} (x y z : A) (b c : Bool)
    → b ≡ c
    → (if b then x else y) ≡ (if b then x else if c then z else y)
if_twice x y z true c e = refl
if_twice x y z false true e = absurd cc
if_twice x y z false false e = refl

if_swap {ℓ} :
    {A : Type ℓ} (x y z : A) (b c : Bool)
    → (b ≡ true → c ≡ false)
    → (if c then z else if b then x else y) ≡ (if b then x else if c then z else y)
if_swap x y z true true h = absurd (let e = h refl in cc)
if_swap x y z true false h = refl
if_swap x y z false c h = refl

if_same {ℓ} : {A : Type ℓ} (b : Bool) (x : A) → x ≡ (if b then x else x)
if_same true x = refl
if_same false x = refl

-- What a missing key counts for is 0.
abbrev pub of_value {κ} : {V : Type κ} → (V → ℕ) → Option V → ℕ
of_value f none = 0
of_value f (some v) = f v

module _ {ℓ κ} {K : Type ℓ} {V : Type κ} ⦃o : Order K⦄ where
  abbrev pub get : K → List (K × V) → Option V
  get k [] = none
  get k ((j, v) ∷ m) = let rest = get k m in if o.eq k j then some v else rest

  abbrev pub put : K → V → List (K × V) → List (K × V)
  put k v [] = (k, v) ∷ []
  put k v ((j, u) ∷ m) =
      let rest = put k v m in
      if o.eq k j then (k, v) ∷ m else if o.lt k j then (k, v) ∷ (j, u) ∷ m else (j, u) ∷ rest

  abbrev pub remove : K → List (K × V) → List (K × V)
  remove k [] = []
  remove k ((j, u) ∷ m) = let rest = remove k m in if o.eq k j then m else (j, u) ∷ rest

  -- Every key of the map comes after `k`.
  abbrev pub IsAbove : K → List (K × V) → Type 0
  IsAbove k [] = Unit
  IsAbove k ((j, _) ∷ m) = (o.lt k j ≡ true) × IsAbove k m

  abbrev pub IsSorted : List (K × V) → Type 0
  IsSorted [] = Unit
  IsSorted ((k, _) ∷ m) = IsAbove k m × IsSorted m

  pub get-put :
      (k j : K) (v : V) (m : List (K × V))
      → get j (put k v m) ≡ (if o.eq j k then some v else get j m)
  get-put k j v [] = refl
  get-put k j v ((i, u) ∷ m) =
      if_cases (λ n. get j n ≡ (if o.eq j k then some v else get j ((i, u) ∷ m))) (o.eq k i)
        (λ e. if_twice _ _ _ (o.eq j k) (o.eq j i) (ap (o.eq j) (o.eq_sound k i e)))
        (λ ne.
          if_cases (λ n. get j n ≡ (if o.eq j k then some v else get j ((i, u) ∷ m))) (o.lt k i)
            (λ _. refl)
            (λ _.
              ap (λ r. if o.eq j i then some u else r) (get-put k j v m)
              ∙ if_swap _ _ _ (o.eq j k) (o.eq j i)
                  (λ e. ap (λ x. o.eq x i) (o.eq_sound j k e) ∙ ne)))

  get_above : (k j : K) (m : List (K × V)) → o.eq j k ≡ true → IsAbove k m → get j m ≡ none
  get_above k j [] h a = refl
  get_above k j ((i, _) ∷ m) h (a, rest_above) =
      if_cases (λ n. n ≡ none) (o.eq j i)
        (λ e.
          let same : k ≡ i = sym (o.eq_sound j k h) ∙ o.eq_sound j i e in
          let below : o.lt k k ≡ true = ap (o.lt k) same ∙ a in
          absurd (false-ne_true (sym (o.lt_irrefl k) ∙ below)))
        (λ _. get_above k j m h rest_above)

  pub get-remove :
      (k j : K) (m : List (K × V))
      → IsSorted m
      → get j (remove k m) ≡ (if o.eq j k then none else get j m)
  get-remove k j [] h = if_same (o.eq j k) none
  get-remove k j ((i, u) ∷ m) (a, h) =
      if_cases (λ n. get j n ≡ (if o.eq j k then none else get j ((i, u) ∷ m))) (o.eq k i)
        (λ e.
          if_cases (λ n. get j m ≡ n) (o.eq j k)
            (λ f. get_above i j m (ap (o.eq j) (sym (o.eq_sound k i e)) ∙ f) a)
            (λ nf. sym (
              ap (λ b. if b then some u else get j m) (ap (o.eq j) (sym (o.eq_sound k i e)) ∙ nf))))
        (λ ne.
          ap (λ r. if o.eq j i then some u else r) (get-remove k j m h)
          ∙ if_swap _ _ _ (o.eq j k) (o.eq j i) (λ e. ap (λ x. o.eq x i) (o.eq_sound j k e) ∙ ne))

  IsAbove-trans : (k j : K) (m : List (K × V)) → o.lt k j ≡ true → IsAbove j m → IsAbove k m
  IsAbove-trans k j [] h a = tt
  IsAbove-trans k j ((i, _) ∷ m) h (a, rest_above) =
      (o.lt_trans k j i h a, IsAbove-trans k j m h rest_above)

  put-IsAbove :
      (i k : K) (v : V) (m : List (K × V)) → o.lt i k ≡ true → IsAbove i m → IsAbove i (put k v m)
  put-IsAbove i k v [] h a = (h, tt)
  put-IsAbove i k v ((j, u) ∷ m) h (a, rest_above) =
      let rest = put-IsAbove i k v m h rest_above in
      if_cases (IsAbove i) (o.eq k j) (λ _. (h, rest_above))
        λ _. if_cases (IsAbove i) (o.lt k j) (λ _. (h, (a, rest_above))) (λ _. (a, rest))

  pub put-IsSorted : (k : K) (v : V) (m : List (K × V)) → IsSorted m → IsSorted (put k v m)
  put-IsSorted k v [] h = (tt, tt)
  put-IsSorted k v ((j, u) ∷ m) (a, h) =
      let rest = put-IsSorted k v m h in
      if_cases IsSorted (o.eq k j) (λ e. (rw (o.eq_sound k j e) a, h))
        λ ne.
          if_cases IsSorted (o.lt k j) (λ l. ((l, IsAbove-trans k j m l a), (a, h)))
            (λ nl. (put-IsAbove j k v m (o.lt_total k j ne nl) a, rest))

  remove-IsAbove : (i k : K) (m : List (K × V)) → IsAbove i m → IsAbove i (remove k m)
  remove-IsAbove i k [] a = tt
  remove-IsAbove i k ((j, u) ∷ m) (a, rest_above) =
      let rest = remove-IsAbove i k m rest_above in
      if_cases (IsAbove i) (o.eq k j) (λ _. rest_above) (λ _. (a, rest))

  pub remove-IsSorted : (k : K) (m : List (K × V)) → IsSorted m → IsSorted (remove k m)
  remove-IsSorted k [] h = tt
  remove-IsSorted k ((j, u) ∷ m) (a, h) =
      let rest = remove-IsSorted k m h in
      if_cases IsSorted (o.eq k j) (λ _. h) (λ _. (remove-IsAbove j k m a, rest))

  -- The sum over the entries with a key is that of its value.
  sum_above :
      (i k : K) (f : V → ℕ) (m : List (K × V))
      → o.eq k i ≡ true
      → IsAbove i m
      → sum_list m (λ e. if o.eq k e.0 then f e.1 else 0) ≡ 0
  sum_above i k f [] h a = refl
  sum_above i k f ((j, u) ∷ m) h (a, rest_above) =
      if_cases (λ x. x + sum_list m (λ e. if o.eq k e.0 then f e.1 else 0) ≡ 0) (o.eq k j)
        (λ e.
          let same : i ≡ j = sym (o.eq_sound k i h) ∙ o.eq_sound k j e in
          absurd (false-ne_true (sym (o.lt_irrefl i) ∙ (ap (o.lt i) same ∙ a))))
        (λ _. omega (arith, sum_above i k f m h rest_above))

  pub sum_at_key :
      (k : K) (f : V → ℕ) (m : List (K × V))
      → IsSorted m
      → sum_list m (λ e. if o.eq k e.0 then f e.1 else 0) ≡ of_value f (get k m)
  sum_at_key k f [] h = refl
  sum_at_key k f ((j, u) ∷ m) (a, h) = elim (Bool-cases (o.eq k j)) [
    | inl e ↦ rw e (omega (arith, sum_above j k f m e a))
    | inr e ↦ rw e (omega (arith, sum_at_key k f m h))
  ]
