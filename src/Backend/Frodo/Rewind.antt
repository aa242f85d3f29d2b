-- ===== src/Backend/Frodo/Rewind.antt =====
-- Rewinding a response to the pinned database, and the patch of a cached `c` to a new hint.
use native.Mathlib.Nat.{mul-add}
use ikpir.Prelude.{
  ℕ, ◌+◌, ◌-◌, ◌*◌, ◌^◌, ◌<◌, ◌≡◌, refl, ap, ap₂, ◌∙◌, Bool, true, false, List, [], ◌∷◌, arith,
  ◌==◌, if◌then◌else◌, length, get_or, set, u32, sub32, mul32, sum_range, sum_list, sum_range_ext,
  sum_range-add, sum_range-zero, sum_range_pick, ℤ, u32_of_ℤ, sym, replicate, u32_mul,
  sum_range_cong,
}
use ikpir.Backend.Accumulate.{Adds, Adds-refl, Adds-trans, set-Adds, Adds-unique}
use ikpir.Backend.Deltas.{weigh}
use ikpir.Backend.Matvec.{product}
use ikpir.Backend.Matvec.Blocked.{matvec_accumulate-Adds}
use ikpir.Backend.Frodo.{server_answer}
use ikpir.Backend.Frodo.Patch.{rewind_response, length-zeros, zeros-IsWords}

-- What the pending deltas of a segment add to cell `(i, j)`.
abbrev pub pending_change : List ((ℕ × ℕ) × ℤ) → ℕ → ℕ → ℕ
pending_change deltas i j =
    sum_list deltas (λ e. if i == e.0.0 then (if j == e.0.1 then u32_of_ℤ e.1 else 0) else 0)

-- The keys lie inside an `n × w` segment.
pub data AreKeys (n w : ℕ) : List ((ℕ × ℕ) × ℤ) → Type 0 where
  no_pending : AreKeys n w []
  pending :
      {i off : ℕ} {d : ℤ} {rest : List ((ℕ × ℕ) × ℤ)}
      → i < n
      → off < w
      → AreKeys n w rest
      → AreKeys n w (((i, off), d) ∷ rest)

-- The words that the rewind subtracts from cell `j`.
abbrev rewound : List ℕ → List ((ℕ × ℕ) × ℤ) → ℕ → ℕ
rewound b deltas j =
    sum_list deltas (λ e. if j == e.0.1 then get_or b e.0.0 0 * u32_of_ℤ e.1 else 0)

weighted_pending :
    (n w : ℕ) (b : List ℕ) (deltas : List ((ℕ × ℕ) × ℤ)) (j : ℕ)
    → AreKeys n w deltas
    → sum_range n (λ i. get_or b i 0 * pending_change deltas i j) ≡ rewound b deltas j
weighted_pending n w b [] j no_pending =
    sum_range_ext n _ (λ i. 0) (λ i lt. grind arith) ∙ sum_range-zero n
weighted_pending n w b (((r, off), d) ∷ rest) j (pending lt _ h) =
    sum_range_ext n _
      (λ i.
        (if r == i then get_or b i 0 * (if j == off then u32_of_ℤ d else 0) else 0)
        + get_or b i 0 * pending_change rest i j)
      (λ i lt.
        weigh (get_or b i 0) (if j == off then u32_of_ℤ d else 0) (pending_change rest i j) i r)
    ∙ sum_range-add n _ _
    ∙ ap₂ ◌+◌
        (sum_range_pick n r (λ i. get_or b i 0 * (if j == off then u32_of_ℤ d else 0)) lt
          ∙ times_if (j == off) (get_or b r 0) (u32_of_ℤ d))
        (weighted_pending n w b rest j h)
  where
    times_if : (c : Bool) (k x : ℕ) → k * (if c then x else 0) ≡ (if c then k * x else 0)
    times_if true k x = refl
    times_if false k x = grind arith

-- Adding back what was subtracted restores the response.
rewind_response-Adds :
    (b : List ℕ) (deltas : List ((ℕ × ℕ) × ℤ)) (resp : List ℕ)
    → (f : ℕ → ℕ) × (Adds resp (rewind_response b deltas resp) f
        × ((j : ℕ) → u32 (f j + rewound b deltas j) ≡ 0))
unfolding rewind_response
rewind_response-Adds b [] resp = ((λ j. 0), (Adds-refl resp, λ j. refl))
rewind_response-Adds b (((r, off), d) ∷ rest) resp =
    let term = mul32 (get_or b r 0) (u32_of_ℤ d) in
    let next = set resp off (sub32 (get_or resp off 0) term) in
    let (f, (adds, cancels)) = rewind_response-Adds b rest next in
    (
      (λ j. (if j == off then 2 ^ 32 - term else 0) + f j),
      (
        Adds-trans resp next _ _ f
            (set-Adds resp off _ (2 ^ 32 - term) (omega arith) (λ _. omega arith)) adds,
        λ j. ground (arith, cancels j),
      ),
    )

product_change :
    (pinned head b : List ℕ) (w : ℕ) (deltas : List ((ℕ × ℕ) × ℤ)) (j : ℕ)
    → AreKeys (length b) w deltas
    → ((i : ℕ)
        → i < length b
        → u32 (get_or head (i * w + j) 0)
          ≡ u32 (get_or pinned (i * w + j) 0 + pending_change deltas i j))
    → u32 (product w head b j) ≡ u32 (product w pinned b j + rewound b deltas j)
product_change pinned head b w deltas j keys u =
    sum_range_cong (length b) _
      (λ i. get_or b i 0 * get_or pinned (i * w + j) 0 + get_or b i 0 * pending_change deltas i j)
      (λ i lt. u32_mul _ _ _ _ refl (u i lt) ∙ ap u32 (mul-add (get_or b i 0) _ _))
    ∙ ap u32 (
        sum_range-add (length b) _ _
        ∙ ap (λ x. product w pinned b j + x) (weighted_pending (length b) w b deltas j keys))

-- Rewinding the server's answer on the current database by the pending deltas gives the answer
-- on the pinned database, for the same query.
pub rewind_response-server_answer :
    (x86_64 : Bool) (pinned head b : List ℕ) (w : ℕ) (deltas : List ((ℕ × ℕ) × ℤ))
    → length pinned ≡ length b * w
    → length head ≡ length b * w
    → AreKeys (length b) w deltas
    → ((i j : ℕ)
        → i < length b
        → j < w
        → u32 (get_or head (i * w + j) 0)
          ≡ u32 (get_or pinned (i * w + j) 0 + pending_change deltas i j))
    → rewind_response b deltas (server_answer x86_64 head w b) ≡ server_answer x86_64 pinned w b
unfolding server_answer
rewind_response-server_answer x86_64 pinned head b w deltas ep eh keys u =
    let zeros : List ℕ = replicate w 0 in
    let shape : (d : List ℕ) → length d ≡ length b * w → length d ≡ length b * length zeros =
      λ d e. e ∙ ap (λ x. length b * x) (sym (length-zeros w)) in
    let (f, (adds, cancels)) = rewind_response-Adds b deltas (server_answer x86_64 head w b) in
    Adds-unique zeros _ _ _ _ (zeros-IsWords w)
      (Adds-trans zeros _ _ _ f (matvec_accumulate-Adds x86_64 zeros head b (shape head eh)) adds)
      (matvec_accumulate-Adds x86_64 zeros pinned b (shape pinned ep))
      (λ j lt.
        let width : length zeros ≡ w = length-zeros w in
        omega (
          arith,
          cancels j,
          product_change pinned head b w deltas j keys (λ i li. u i j li (omega (arith, width))),
          ap (λ k. product k head b j) width,
          ap (λ k. product k pinned b j) width,
        ))
