-- ===== src/Lb/Weights.antt =====
-- internal/lb/balancer.go, `pickWeighted` and `pickRandom`: which index a draw selects.
use route_x_reverse_proxy.Common.{
  ℕ, zero, suc, ◌+◌, ◌-◌, ◌%◌, ◌^◌, ◌<◌, ◌≡◌, refl, inl, inr, Bool, true, false, List, [], ◌∷◌,
  none, some, ok, err, arith, get_elem?, Bool-cases, All, ltb, lt→ltb, if◌then◌else◌, ◌==◌, nat_eq,
  subst, ap, ◌∙◌,
}
use route_x_reverse_proxy.Common.Int.{pos_part}
use route_x_reverse_proxy.Lb.Target.{Target}
use route_x_reverse_proxy.Lb.Algorithms.{
  Picked, eligible, indices_from, weight_at, total_weight, draw, is_empty,
}

-- An index of a target that passes a test.
abbrev pub Passing : (Target → Bool) → List Target → ℕ → Type 0
Passing p ts idx = (t : Target) × (get_elem? ts idx ≡ some t) × (p t ≡ true)

-- The list `suf` stands in `ts` from index `i` on.
abbrev pub From : List Target → ℕ → List Target → Type 0
From ts i suf = (j : ℕ) → get_elem? ts (i + j) ≡ get_elem? suf j

From-here :
    (ts : List Target) (i : ℕ) (t : Target) (suf : List Target)
    → From ts i (t ∷ suf)
    → get_elem? ts i ≡ some t
From-here ts i t suf h =
    let e : i + 0 ≡ i = omega arith in subst (λ x. get_elem? ts x ≡ some t) e (h 0)

From-tail :
    (ts : List Target) (i : ℕ) (t : Target) (suf : List Target)
    → From ts i (t ∷ suf)
    → From ts (suc i) suf
From-tail ts i t suf h j =
    let e : i + suc j ≡ suc i + j = omega arith in
    subst (λ x. get_elem? ts x ≡ get_elem? suf j) e (h (suc j))

pub From-all : (ts : List Target) → From ts 0 ts
From-all ts j =
    let e : j ≡ 0 + j = omega arith in subst (λ x. get_elem? ts x ≡ get_elem? ts j) e refl

pub indices_from-Passing :
    (p : Target → Bool) (ts : List Target) (i : ℕ) (suf : List Target)
    → From ts i suf
    → All (Passing p ts) (indices_from p i suf)
unfolding indices_from
indices_from-Passing p ts i [] h = tt
indices_from-Passing p ts i (t ∷ suf) h = elim (Bool-cases (p t)) [
  | inl up ↦ rw up (
    (t, From-here ts i t suf h, up),
    indices_from-Passing p ts (suc i) suf (From-tail ts i t suf h),
  )
  | inr down ↦ rw down (indices_from-Passing p ts (suc i) suf (From-tail ts i t suf h))
]

-- No index passes only if no target does.
pub indices_from-empty :
    (p : Target → Bool) (i : ℕ) (suf : List Target)
    → is_empty (indices_from p i suf) ≡ true
    → (j : ℕ) (t : Target) → get_elem? suf j ≡ some t
    → p t ≡ false
unfolding indices_from
indices_from-empty p i [] h j t e = absurd (ground arith)
indices_from-empty p i (u ∷ suf) h zero t e = elim (Bool-cases (p u)) [
  | inl up ↦ absurd (ground arith)
  | inr down ↦ let q : u ≡ t = ground arith in subst (λ x. p x ≡ false) q down
]
indices_from-empty p i (u ∷ suf) h (suc j) t e = elim (Bool-cases (p u)) [
  | inl up ↦ absurd (ground arith)
  | inr down ↦ indices_from-empty p (suc i) suf (rw down at h) j t e
]

-- How many numbers below `n` pass a test.
abbrev pub count_below : ℕ → (ℕ → Bool) → ℕ
count_below zero p = 0
count_below (suc n) p = (if p n then 1 else 0) + count_below n p

pub count_below-ext :
    (n : ℕ) (p q : ℕ → Bool) → ((r : ℕ) → r < n → p r ≡ q r) → count_below n p ≡ count_below n q
count_below-ext zero p q h = refl
count_below-ext (suc n) p q h =
    let e = h n (omega arith) in
    let ih = count_below-ext n p q (λ r l. h r (omega arith)) in ground arith

count_below-const : (n : ℕ) (b : Bool) → count_below n (λ r. b) ≡ (if b then n else 0)
count_below-const zero true = refl
count_below-const zero false = refl
count_below-const (suc n) true = omega (arith, count_below-const n true)
count_below-const (suc n) false = omega (arith, count_below-const n false)

count_below-add :
    (m w : ℕ) (p : ℕ → Bool)
    → count_below (m + w) p ≡ count_below w p + count_below m (λ r. p (w + r))
count_below-add zero w p = let e : zero + w ≡ w = omega arith in rw e (omega arith)
count_below-add (suc m) w p =
    let e : suc m + w ≡ suc (m + w) = omega arith in
    let c : w + m ≡ m + w = omega arith in rw (e, c) (omega (arith, count_below-add m w p))

-- Whether a pick is the target of index `i`.
abbrev pub picks : ℕ → Picked → Bool
picks i (ok idx) = idx == i
picks i (err e) = false

-- The weight that a list of indices gives to `i`.
unfoldable pub hits : List Target → ℕ → List ℕ → ℕ
hits ts i [] = 0
hits ts i (idx ∷ idxs) = (if idx == i then weight_at ts idx else 0) + hits ts i idxs

draw_first :
    (ts : List Target) (safe : Picked) (idx : ℕ) (idxs : List ℕ) (r : ℕ)
    → r < weight_at ts idx
    → draw ts safe (idx ∷ idxs) r ≡ ok idx
unfolding draw
draw_first ts safe idx idxs r l = rw (lt→ltb r (weight_at ts idx) l)

draw_later :
    (ts : List Target) (safe : Picked) (idx : ℕ) (idxs : List ℕ) (r : ℕ)
    → draw ts safe (idx ∷ idxs) (weight_at ts idx + r) ≡ draw ts safe idxs r
unfolding draw
draw_later ts safe idx idxs r = go (weight_at ts idx)
  where
    go :
        (w : ℕ)
        → (if ltb (w + r) w then ok idx else draw ts safe idxs (w + r - w)) ≡ draw ts safe idxs r
    go w =
        let e : w + r - w ≡ r = omega arith in
        let f : ltb (w + r) w ≡ false = ground arith in rw (e, f)

draws_first :
    (ts : List Target) (safe : Picked) (i idx : ℕ) (idxs : List ℕ)
    → count_below (weight_at ts idx) (λ r. picks i (draw ts safe (idx ∷ idxs) r))
      ≡ (if idx == i then weight_at ts idx else 0)
draws_first ts safe i idx idxs =
    count_below-ext (weight_at ts idx) (λ r. picks i (draw ts safe (idx ∷ idxs) r)) (λ r. idx == i)
      (λ r l. ap (picks i) (draw_first ts safe idx idxs r l))
    ∙ count_below-const (weight_at ts idx) (idx == i)

draws_later :
    (ts : List Target) (safe : Picked) (i idx : ℕ) (idxs : List ℕ) (n : ℕ)
    → count_below n (λ r. picks i (draw ts safe (idx ∷ idxs) (weight_at ts idx + r)))
      ≡ count_below n (λ r. picks i (draw ts safe idxs r))
draws_later ts safe i idx idxs n =
    count_below-ext n (λ r. picks i (draw ts safe (idx ∷ idxs) (weight_at ts idx + r)))
      (λ r. picks i (draw ts safe idxs r)) (λ r l. ap (picks i) (draw_later ts safe idx idxs r))

-- The sum of the weights, as it is before it wraps.
unfoldable pub weight_sum : List Target → List ℕ → ℕ
weight_sum ts [] = 0
weight_sum ts (idx ∷ idxs) = weight_at ts idx + weight_sum ts idxs

pub total_weight-wraps :
    (ts : List Target) (idxs : List ℕ) → total_weight ts idxs ≡ weight_sum ts idxs % 2 ^ 64
unfolding total_weight weight_sum
total_weight-wraps ts [] = refl
total_weight-wraps ts (idx ∷ idxs) =
    rw (total_weight-wraps ts idxs) (ends (weight_at ts idx) (weight_sum ts idxs))
  where
    ends : (a b : ℕ) → (a + b % 2 ^ 64) % 2 ^ 64 ≡ (a + b) % 2 ^ 64
    ends a b = omega arith

-- Of the draws below the total, as many select `i` as the list gives it weight.
pub draw-hits :
    (ts : List Target) (safe : Picked) (i : ℕ) (idxs : List ℕ)
    → count_below (weight_sum ts idxs) (λ r. picks i (draw ts safe idxs r)) ≡ hits ts i idxs
unfolding weight_sum hits
draw-hits ts safe i [] = refl
draw-hits ts safe i (idx ∷ idxs) = rw (comm (weight_at ts idx) (weight_sum ts idxs)) (
    count_below-add (weight_sum ts idxs) (weight_at ts idx)
      (λ r. picks i (draw ts safe (idx ∷ idxs) r))
    ∙ rw (
      draws_first ts safe i idx idxs,
      draws_later ts safe i idx idxs (weight_sum ts idxs),
      draw-hits ts safe i idxs,
    ))
  where
    comm : (a b : ℕ) → a + b ≡ b + a
    comm a b = omega arith

-- The weight of an eligible target, 0 for any other index.
abbrev pub share : List Target → ℕ → ℕ
share ts i = elim (get_elem? ts i) [
  | none ↦ 0
  | some t ↦ if eligible t then pos_part t.weight else 0
]

-- The sum of the weights of the eligible targets.
abbrev pub eligible_weight : List Target → ℕ
eligible_weight [] = 0
eligible_weight (t ∷ ts) = (if eligible t then pos_part t.weight else 0) + eligible_weight ts

abbrev pub share_from : ℕ → List Target → ℕ → ℕ
share_from i [] k = 0
share_from i (t ∷ ts) k =
    (if i == k then (if eligible t then pos_part t.weight else 0) else 0) + share_from (suc i) ts k

share_from-below : (i : ℕ) (ts : List Target) (k : ℕ) → k < i → share_from i ts k ≡ 0
share_from-below i [] k l = refl
share_from-below i (t ∷ ts) k l = ground (arith, share_from-below (suc i) ts k)

pub share_from-share : (i : ℕ) (ts : List Target) (j : ℕ) → share_from i ts (i + j) ≡ share ts j
share_from-share i [] j = refl
share_from-share i (t ∷ ts) zero =
    let e : i + zero ≡ i = omega arith in rw e (ground (arith, share_from-below (suc i) ts i))
share_from-share i (t ∷ ts) (suc j) =
    let e : i + suc j ≡ suc i + j = omega arith in
    let other : (i == (suc i + j)) ≡ false = ground arith in
    rw (e, other) (omega (arith, share_from-share (suc i) ts j))

pub hits-share_from :
    (ts : List Target) (i : ℕ) (suf : List Target) (k : ℕ)
    → From ts i suf
    → hits ts k (indices_from eligible i suf) ≡ share_from i suf k
unfolding hits indices_from
hits-share_from ts i [] k h = refl
hits-share_from ts i (t ∷ suf) k h =
    let w : weight_at ts i ≡ pos_part t.weight = rw (From-here ts i t suf h, weight_at) in
    let ih = hits-share_from ts (suc i) suf k (From-tail ts i t suf h) in
    elim (Bool-cases (eligible t)) [
      | inl up ↦ rw (up, w, ih)
      | inr down ↦ rw (down, ih) (ground arith)
    ]

pub weight_sum-eligible :
    (ts : List Target) (i : ℕ) (suf : List Target)
    → From ts i suf
    → weight_sum ts (indices_from eligible i suf) ≡ eligible_weight suf
unfolding weight_sum indices_from
weight_sum-eligible ts i [] h = refl
weight_sum-eligible ts i (t ∷ suf) h =
    let w : weight_at ts i ≡ pos_part t.weight = rw (From-here ts i t suf h, weight_at) in
    let ih = weight_sum-eligible ts (suc i) suf (From-tail ts i t suf h) in
    elim (Bool-cases (eligible t)) [
      | inl up ↦ rw (up, w, ih)
      | inr down ↦ rw (down, ih) (omega arith)
    ]
