-- ===== src/Lb/Draws.antt =====
-- internal/lb/balancer.go, `pickWeighted` and `pickRandom` as a whole: what they return, and how
-- often each target is drawn.
use route_x_reverse_proxy.Common.{
  ℕ, ◌+◌, ◌-◌, ◌^◌, ◌≤◌, ◌<◌, ◌≡◌, refl, inl, inr, Bool, true, false, List, [], ◌∷◌, some, ok, err,
  arith, length, get_elem?, get_elem?-some, Bool-cases, All, All-get_elem?, ltb, leb, ◌==◌, nat_eq,
  subst, ap, ◌∙◌,
}
use route_x_reverse_proxy.Lb.Target.{Target}
use route_x_reverse_proxy.Lb.Algorithms.{
  no_healthy_targets, intn_panic, Picked, eligible, indices_from, weight_at, total_weight, index_at,
  draw, is_empty, pick_weighted, pick_random,
}
use route_x_reverse_proxy.Lb.Weights.{
  Passing, From-all, indices_from-Passing, indices_from-empty, count_below, count_below-ext, picks,
  draw-hits, hits-share_from, share_from-share, share, share_from, eligible_weight,
  weight_sum-eligible, weight_sum, total_weight-wraps,
}

-- A target that passes the test, or the error, where none does.
pub data Selected (p : Target → Bool) (ts : List Target) (r : Picked) : Type 0 where
  selected : (idx : ℕ) → Passing p ts idx → r ≡ ok idx → Selected p ts r
  nothing :
      ((j : ℕ) (t : Target) → get_elem? ts j ≡ some t → p t ≡ false)
      → r ≡ err no_healthy_targets
      → Selected p ts r

-- What the generator's `Intn` promises.
abbrev pub InRange : (ℕ → ℕ) → Type 0
InRange rand = (n : ℕ) → 0 < n → rand n < n

index_at-ok :
    (P : ℕ → Type 0) (idxs : List ℕ) (i : ℕ)
    → All P idxs
    → i < length idxs
    → (idx : ℕ) × P idx × (index_at idxs i ≡ ok idx)
index_at-ok P idxs i h l =
    let (idx, e) = get_elem?-some idxs i l in
    (idx, All-get_elem? P idxs i idx h e, rw (e, index_at))

draw-ok :
    (ts : List Target) (safe : Picked) (P : ℕ → Type 0) (idxs : List ℕ) (r : ℕ)
    → All P idxs
    → r < weight_sum ts idxs
    → (idx : ℕ) × P idx × (draw ts safe idxs r ≡ ok idx)
unfolding draw weight_sum
draw-ok ts safe P [] r h l = absurd (omega arith)
draw-ok ts safe P (idx ∷ idxs) r h l = elim (Bool-cases (ltb r (weight_at ts idx))) [
  | inl in_ ↦ (idx, h.0, rw in_)
  | inr out ↦
      let (j, pj, e) = draw-ok ts safe P idxs (r - weight_at ts idx) h.1 (ground arith) in
      (j, pj, rw out e)
]

Passing-eligible : (ts : List Target) (idx : ℕ) → Passing eligible ts idx → 0 < weight_at ts idx
Passing-eligible ts idx (t, e, h) = rw (e, weight_at) (ground arith)

weight_sum-pos :
    (ts : List Target) (idxs : List ℕ)
    → All (Passing eligible ts) idxs
    → is_empty idxs ≡ false
    → 0 < weight_sum ts idxs
unfolding weight_sum
weight_sum-pos ts [] h e = absurd (ground arith)
weight_sum-pos ts (idx ∷ idxs) h e = omega (arith, Passing-eligible ts idx h.0)

weight_sum-empty :
    (ts : List Target) (idxs : List ℕ) → is_empty idxs ≡ true → weight_sum ts idxs ≡ 0
unfolding weight_sum
weight_sum-empty ts [] e = refl
weight_sum-empty ts (idx ∷ idxs) e = absurd (ground arith)

-- With a positive total that is an `int` the pick is the draw.
pick_weighted-draw :
    (rand : ℕ → ℕ) (ts : List Target)
    → 0 < weight_sum ts (indices_from eligible 0 ts)
    → weight_sum ts (indices_from eligible 0 ts) < 2 ^ 63
    → pick_weighted rand ts
      ≡ draw ts
          (index_at (indices_from eligible 0 ts) 0)
          (indices_from eligible 0 ts)
          (rand (weight_sum ts (indices_from eligible 0 ts)))
unfolding pick_weighted
pick_weighted-draw rand ts h small =
    let idxs = indices_from eligible 0 ts in
    let whole : total_weight ts idxs ≡ weight_sum ts idxs =
      total_weight-wraps ts idxs ∙ (omega arith) in
    elim (Bool-cases (is_empty idxs)) [
      | inl e ↦ absurd (omega (arith, weight_sum-empty ts idxs e))
      | inr e ↦
          let z : (weight_sum ts idxs == 0) ≡ false = ground arith in
          let fits : leb (2 ^ 63) (weight_sum ts idxs) ≡ false = ground arith in
          rw (e, whole) (rw (z, fits) refl)
    ]

pub pick_weighted-Selected :
    (rand : ℕ → ℕ) (ts : List Target)
    → InRange rand
    → eligible_weight ts < 2 ^ 63
    → Selected eligible ts (pick_weighted rand ts)
pick_weighted-Selected rand ts fair small =
    let idxs = indices_from eligible 0 ts in
    let total = weight_sum-eligible ts 0 ts (From-all ts) in
    let all = indices_from-Passing eligible ts 0 ts (From-all ts) in
    elim (Bool-cases (is_empty idxs)) [
      | inl e ↦ nothing (indices_from-empty eligible 0 ts e) (unfold pick_weighted in rw e)
      | inr e ↦
          let positive = weight_sum-pos ts idxs all e in
          let (idx, h, q) =
            draw-ok ts (index_at idxs 0) (Passing eligible ts) idxs (rand (weight_sum ts idxs)) all
              (fair (weight_sum ts idxs) positive) in
          selected idx h (pick_weighted-draw rand ts positive (omega arith) ∙ q)
    ]

length-pos : (idxs : List ℕ) → is_empty idxs ≡ false → 0 < length idxs
length-pos [] e = absurd (ground arith)
length-pos (i ∷ idxs) e = omega arith

pub pick_random-Selected :
    (rand : ℕ → ℕ) (ts : List Target)
    → InRange rand
    → Selected (λ t. t.healthy) ts (pick_random rand ts)
pick_random-Selected rand ts fair =
    let up = λ (t : Target). t.healthy in
    let idxs = indices_from up 0 ts in
    elim (Bool-cases (is_empty idxs)) [
      | inl e ↦ nothing (indices_from-empty up 0 ts e) (unfold pick_random in rw e)
      | inr e ↦
          let (idx, h, q) =
            index_at-ok (Passing up ts) idxs (rand (length idxs))
              (indices_from-Passing up ts 0 ts (From-all ts))
              (fair (length idxs) (length-pos idxs e)) in
          selected idx h (unfold pick_random in rw e q)
    ]

-- While the weights of the eligible targets add up to less than 2^63: over the equally likely draws
-- below their sum, each target is picked as often as its
-- weight says, and a target that is down or has no positive weight is never picked.
pub pick_weighted-share :
    (ts : List Target) (i : ℕ)
    → eligible_weight ts < 2 ^ 63
    → count_below (eligible_weight ts) (λ r. picks i (pick_weighted (λ n. r) ts)) ≡ share ts i
pick_weighted-share ts i small =
    let idxs = indices_from eligible 0 ts in
    let total : weight_sum ts idxs ≡ eligible_weight ts =
      weight_sum-eligible ts 0 ts (From-all ts) in
    let to_draw = λ (r : ℕ) (l : r < weight_sum ts idxs).
      ap (picks i) (pick_weighted-draw (λ n. r) ts (omega arith) (omega arith)) in
    rw (← total) (
      count_below-ext (weight_sum ts idxs) (λ r. picks i (pick_weighted (λ n. r) ts))
        (λ r. picks i (draw ts (index_at idxs 0) idxs r)) to_draw
      ∙ draw-hits ts (index_at idxs 0) i idxs
      ∙ hits-share_from ts 0 ts i (From-all ts)
      ∙ from_zero)
  where
    from_zero : share_from 0 ts i ≡ share ts i
    from_zero =
        let e : 0 + i ≡ i = omega arith in
        subst (λ x. share_from 0 ts x ≡ share ts i) e (share_from-share 0 ts i)

-- Where the weights of the eligible targets add up to 2^63 or more, but to less than 2^64, the
-- `int` sum is negative and `Intn` panics, whatever the generator.
pub pick_weighted-overflow :
    (rand : ℕ → ℕ) (ts : List Target)
    → 2 ^ 63 ≤ eligible_weight ts
    → eligible_weight ts < 2 ^ 64
    → pick_weighted rand ts ≡ err intn_panic
unfolding pick_weighted
pick_weighted-overflow rand ts large small =
    let idxs = indices_from eligible 0 ts in
    let total = weight_sum-eligible ts 0 ts (From-all ts) in
    let whole : total_weight ts idxs ≡ weight_sum ts idxs =
      total_weight-wraps ts idxs ∙ (omega arith) in
    elim (Bool-cases (is_empty idxs)) [
      | inl e ↦ absurd (omega (arith, weight_sum-empty ts idxs e))
      | inr e ↦
          let z : (weight_sum ts idxs == 0) ≡ false = ground arith in
          let over : leb (2 ^ 63) (weight_sum ts idxs) ≡ true = ground arith in
          rw (e, whole) (rw (z, over) refl)
    ]
