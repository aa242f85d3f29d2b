-- ===== src/Backend/Patch/Coalesce.antt =====
-- Coalescing the sorted edits of a row into runs keeps what the edits add to each hint column.
use ikpir.Prelude.{
  ℕ, zero, suc, ◌+◌, ◌<◌, ◌≡◌, refl, ap, ap₂, ◌∙◌, Option, none, some, List, [], ◌∷◌, ◌++◌, arith,
  ◌==◌, if◌then◌else◌, length, get_or, u32, sum_range, sum_range_ext, if_cases, add32,
  length-append, ◌≤◌,
}
use ikpir.Backend.Patch.{TouchedRuns, change_last, coalesce, run_sum, total, open_run}

-- What one run adds, from the `fed`-th delta on.
abbrev run_part : List ℕ → ℕ → ℕ → ℕ → ℕ → ℕ
run_part ds fed s l c = sum_range l (λ m. if c == s + m then get_or ds (fed + m) 0 else 0)

run_sum-append :
    (ds : List ℕ) (fed : ℕ) (rs : List (ℕ × ℕ)) (s l c : ℕ)
    → run_sum ds fed (rs ++ ((s, l) ∷ [])) c
      ≡ run_sum ds fed rs c + run_part ds (fed + total rs) s l c
run_sum-append ds fed [] s l c =
    let here : run_part ds fed s l c ≡ run_part ds (fed + 0) s l c =
      ap (λ k. run_part ds k s l c) (omega arith) in
    omega (arith, here)
run_sum-append ds fed ((s', l') ∷ rs) s l c =
    let there : run_part ds (fed + l' + total rs) s l c
        ≡ run_part ds (fed + (l' + total rs)) s l c =
      ap (λ k. run_part ds k s l c) (omega arith) in
    omega (arith, run_sum-append ds (fed + l') rs s l c, there)

-- Deltas past those that the runs name do not matter.
run_sum-agree :
    (ds es : List ℕ) (fed : ℕ) (rs : List (ℕ × ℕ)) (c : ℕ)
    → ((m : ℕ) → m < fed + total rs → get_or ds m 0 ≡ get_or es m 0)
    → run_sum ds fed rs c ≡ run_sum es fed rs c
run_sum-agree ds es fed [] c h = refl
run_sum-agree ds es fed ((s, l) ∷ rs) c h =
    ap₂ ◌+◌
      (sum_range_ext l _ _
        (λ m lt. ap (λ x. if c == s + m then x else 0) (h (fed + m) (omega arith))))
      (run_sum-agree ds es (fed + l) rs c (λ m lt. h m (omega arith)))

get_or-append : (xs ys : List ℕ) (i : ℕ) → i < length xs → get_or (xs ++ ys) i 0 ≡ get_or xs i 0
get_or-append [] ys i h = absurd (omega arith)
get_or-append (x ∷ xs) ys zero h = refl
get_or-append (x ∷ xs) ys (suc i) h = get_or-append xs ys i (omega arith)

get_or-append_end : (xs : List ℕ) (y : ℕ) → get_or (xs ++ (y ∷ [])) (length xs) 0 ≡ y
get_or-append_end [] y = refl
get_or-append_end (x ∷ xs) y = get_or-append_end xs y

change_last_append {ℓ} :
    {A : Type ℓ} (f : A → A) (xs : List A) (x : A)
    → change_last f (xs ++ (x ∷ [])) ≡ xs ++ (f x ∷ [])
change_last_append f [] x = refl
change_last_append f (y ∷ []) x = refl
change_last_append f (y ∷ z ∷ xs) x = ap (λ k. y ∷ k) (change_last_append f (z ∷ xs) x)

-- The state of the loop: nothing pushed yet, or an open run that the last delta closes.
pub data Coalesced : TouchedRuns → Option ℕ → Type 0 where
  nothing : Coalesced (record { deltas = []; runs = [] }) none
  opened :
      (ds : List ℕ) (x : ℕ) (rs : List (ℕ × ℕ)) (s len l last : ℕ)
      → total rs + l ≡ length ds
      → len ≡ suc l
      → last ≡ s + l
      → Coalesced (record { deltas = ds ++ (x ∷ []); runs = rs ++ ((s, len) ∷ []) }) (some last)

-- What all runs but the last cell of the open one add to column `c`.
abbrev base : List ℕ → List (ℕ × ℕ) → ℕ → ℕ → ℕ → ℕ
base ds rs s l c = run_sum ds 0 rs c + run_part ds (total rs) s l c

run_sum-base :
    (ds : List ℕ) (rs : List (ℕ × ℕ)) (s l c : ℕ)
    → run_sum ds 0 (rs ++ ((s, l) ∷ [])) c ≡ base ds rs s l c
run_sum-base ds rs s l c =
    run_sum-append ds 0 rs s l c ∙ ap (λ k. run_sum ds 0 rs c + run_part ds k s l c) (omega arith)

run_sum_opened :
    (ds : List ℕ) (x : ℕ) (rs : List (ℕ × ℕ)) (s l c : ℕ)
    → total rs + l ≡ length ds
    → run_sum (ds ++ (x ∷ [])) 0 (rs ++ ((s, suc l) ∷ [])) c
      ≡ base ds rs s l c + (if c == s + l then x else 0)
run_sum_opened ds x rs s l c e =
    let es = ds ++ (x ∷ []) in
    let runs : run_sum es 0 rs c ≡ run_sum ds 0 rs c =
      run_sum-agree es ds 0 rs c (λ m lt. get_or-append ds (x ∷ []) m (omega (arith, e))) in
    let part : run_part es (total rs) s l c ≡ run_part ds (total rs) s l c =
      sum_range_ext l _ _ (λ m lt.
        ap (λ y. if c == s + m then y else 0)
          (get_or-append ds (x ∷ []) (total rs + m) (omega (arith, e)))) in
    let last : get_or es (total rs + l) 0 ≡ x =
      ap (λ k. get_or es k 0) e ∙ get_or-append_end ds x in
    run_sum-base es rs s (suc l) c
    ∙ omega (arith, runs, part, ap (λ y. if c == s + l then y else 0) last)

-- A round keeps the shape of the buffer, and adds its delta to its column.
abbrev pub IsRound : ℕ → ℕ → TouchedRuns → TouchedRuns × Option ℕ → Type 0
IsRound col delta t r =
    Coalesced r.0 r.1
    × ((c : ℕ)
        → u32 (run_sum r.0.deltas 0 r.0.runs c)
          ≡ u32 (run_sum t.deltas 0 t.runs c + (if c == col then delta else 0)))

run_sum_last :
    (ds : List ℕ) (x : ℕ) (rs : List (ℕ × ℕ)) (s len l c : ℕ)
    → total rs + l ≡ length ds
    → len ≡ suc l
    → run_sum (ds ++ (x ∷ [])) 0 (rs ++ ((s, len) ∷ [])) c
      ≡ base ds rs s l c + (if c == s + l then x else 0)
run_sum_last ds x rs s len l c e el =
    ap (λ k. run_sum (ds ++ (x ∷ [])) 0 (rs ++ ((s, k) ∷ [])) c) el ∙ run_sum_opened ds x rs s l c e

total-append : (rs : List (ℕ × ℕ)) (s l : ℕ) → total (rs ++ ((s, l) ∷ [])) ≡ total rs + l
total-append [] s l = omega arith
total-append ((_, k) ∷ rs) s l = omega (arith, total-append rs s l)

module _ (col delta : ℕ) (ds : List ℕ) (x : ℕ) (rs : List (ℕ × ℕ)) (s len l last : ℕ)
    (e : total rs + l ≡ length ds) (el : len ≡ suc l) (ep : last ≡ s + l) where
  abbrev before : TouchedRuns
  before = record { deltas = ds ++ (x ∷ []); runs = rs ++ ((s, len) ∷ []) }

  pushed : total rs + len ≡ length (ds ++ (x ∷ []))
  pushed = omega (arith, length-append ds (x ∷ []), e, el)

  fold_duplicate :
      last ≡ col
      → IsRound col delta before
          (record before { deltas = change_last (λ y. add32 y delta) before.deltas }, some last)
  fold_duplicate p = rw (change_last_append (λ y. add32 y delta) ds x) (
    opened ds (add32 x delta) rs s len l last e el ep,
    λ c. ground (
      arith,
      p,
      ep,
      run_sum_last ds (add32 x delta) rs s len l c e el,
      run_sum_last ds x rs s len l c e el,
    ),
  )

  extend_run :
      last + 1 ≡ col
      → IsRound col delta before (
        record {
          deltas = before.deltas ++ (delta ∷ []);
          runs = change_last (λ r. (r.0, r.1 + 1)) before.runs;
        },
        some col,
      )
  extend_run p = rw (change_last_append (λ (r : ℕ × ℕ). (r.0, r.1 + 1)) rs (s, len)) (
    opened (ds ++ (x ∷ [])) delta rs s (len + 1) len col pushed (omega arith)
        (omega (arith, p, ep, el)),
    λ c. ground (
      arith,
      p,
      ep,
      el,
      run_sum_last (ds ++ (x ∷ [])) delta rs s (len + 1) len c pushed (omega arith),
      run_sum-base (ds ++ (x ∷ [])) rs s len c,
    ),
  )

  gap : IsRound col delta before (open_run col delta before)
  gap =
      let all = rs ++ ((s, len) ∷ []) in
      let closed : total all + 0 ≡ length (ds ++ (x ∷ [])) =
        omega (arith, total-append rs s len, pushed) in
      (
        opened (ds ++ (x ∷ [])) delta all col 1 0 col closed (omega arith) (omega arith),
        λ c. ground (arith, run_sum_last (ds ++ (x ∷ [])) delta all col 1 0 c closed (omega arith)),
      )

pub coalesce-IsRound :
    (col delta : ℕ) (t : TouchedRuns) (last : Option ℕ)
    → Coalesced t last
    → IsRound col delta t (coalesce (col, delta) (t, last))
unfolding coalesce
coalesce-IsRound col delta t last nothing =
    (opened [] delta [] col 1 0 col (omega arith) (omega arith) (omega arith), λ c. ground arith)
coalesce-IsRound col delta t last (opened ds x rs s len l last' e el ep) =
    if_cases (IsRound col delta t) (last' == col)
      (λ p. fold_duplicate col delta ds x rs s len l last' e el ep (ground (arith, p)))
      λ _.
        if_cases (IsRound col delta t) (last' + 1 == col)
          (λ p. extend_run col delta ds x rs s len l last' e el ep (ground (arith, p)))
          λ _. gap col delta ds x rs s len l last' e el ep

-- The runs end inside a row of width `w`.
abbrev pub AreRuns : ℕ → List (ℕ × ℕ) → Type 0
AreRuns w [] = Unit
AreRuns w ((s, l) ∷ rs) = (s + l ≤ w) × AreRuns w rs

AreRuns-append :
    (w s l : ℕ) (rs : List (ℕ × ℕ)) → AreRuns w rs → s + l ≤ w → AreRuns w (rs ++ ((s, l) ∷ []))
AreRuns-append w s l [] h k = (k, tt)
AreRuns-append w s l (r ∷ rs) (h, hs) k = (h, AreRuns-append w s l rs hs k)

AreRuns-front : (w s l : ℕ) (rs : List (ℕ × ℕ)) → AreRuns w (rs ++ ((s, l) ∷ [])) → AreRuns w rs
AreRuns-front w s l [] h = tt
AreRuns-front w s l (r ∷ rs) (h, hs) = (h, AreRuns-front w s l rs hs)

pub coalesce-AreRuns :
    (w col delta : ℕ) (t : TouchedRuns) (last : Option ℕ)
    → Coalesced t last
    → col < w
    → AreRuns w t.runs
    → AreRuns w (coalesce (col, delta) (t, last)).0.runs
unfolding coalesce
coalesce-AreRuns w col delta t last nothing lt h = (omega arith, tt)
coalesce-AreRuns w col delta t last (opened ds x rs s len l last' e el ep) lt h =
    if_cases (λ (r : TouchedRuns × Option ℕ). AreRuns w r.0.runs) (last' == col) (λ _. h)
      λ _.
        if_cases (λ (r : TouchedRuns × Option ℕ). AreRuns w r.0.runs) (last' + 1 == col)
          (λ p. rw (change_last_append (λ (r : ℕ × ℕ). (r.0, r.1 + 1)) rs (s, len)) (
            AreRuns-append w s (len + 1) rs (AreRuns-front w s len rs h)
              (ground (arith, p, ep, el, lt))))
          λ _. AreRuns-append w col 1 (rs ++ ((s, len) ∷ [])) h (omega arith)
