-- ===== src/Lb/Rotation.antt =====
-- internal/lb/balancer.go, `pickRoundRobin` over consecutive picks, and at the cursor's far end;
-- `pickWeighted` where no weight is positive.
use native.Mathlib.Nat.{mod-eq_of_lt, mod-lt, add-mod_right}
use route_x_reverse_proxy.Common.{
  ℕ, zero, suc, ◌+◌, ◌-◌, ◌%◌, ◌^◌, ◌≤◌, ◌<◌, ◌≡◌, ◌≢◌, refl, Bool, true, List, [], ◌∷◌, some, ok,
  err, arith, length, get_elem?, if◌then◌else◌, ◌==◌, nat_eq, ltb, ap, ◌∙◌,
}
use route_x_reverse_proxy.Common.Int.{pos, negsuc, ◌+ℤ◌, sub_ℕ, mod_ℤ, ◌≤ℤ◌}
use route_x_reverse_proxy.Lb.Target.{Target}
use route_x_reverse_proxy.Lb.Algorithms.{
  no_healthy_targets, index_out_of_range, scan, pick_round_robin, to_int64, eligible, pick_weighted,
}
use route_x_reverse_proxy.Lb.Scanning.{healthy_at, Next, found, exhausted, pick_round_robin-Next}
use route_x_reverse_proxy.Lb.Weights.{count_below, count_below-ext, picks, eligible_weight}
use route_x_reverse_proxy.Lb.Draws.{Selected, selected, nothing, InRange, pick_weighted-Selected}

-- With every target up the pick is the one at the cursor.
round_robin_all_up :
    (ts : List Target) (c : ℕ)
    → 0 < length ts
    → c < 2 ^ 63
    → ((i : ℕ) → i < length ts → healthy_at ts i ≡ true)
    → (pick_round_robin ts c).1 ≡ ok (c % length ts)
round_robin_all_up ts c n h up = go (pick_round_robin-Next ts c n h).0
  where
    here : c + 0 ≡ c
    here = omega arith

    go : Next ts c (pick_round_robin ts c).1 → (pick_round_robin ts c).1 ≡ ok (c % length ts)
    go (found zero l q before e) = rw here at e
    go (found (suc d) l q before e) =
        let down = before zero (omega arith) in
        let here_up = up ((c + 0) % length ts) (mod-lt (c + 0) n) in absurd (ground arith)
    go (exhausted down e) =
        let here_up = up (c % length ts) (mod-lt c n) in
        let here_down = down (c % length ts) in absurd (ground arith)

-- Counting over `n` consecutive numbers does not depend on where they start.
count_below_front :
    (n : ℕ) (p : ℕ → Bool)
    → count_below (suc n) p ≡ (if p 0 then 1 else 0) + count_below n (λ k. p (suc k))
count_below_front zero p = refl
count_below_front (suc n) p = let ih = count_below_front n p in omega (arith, ih)

count_below_rotate :
    (n : ℕ) (p : ℕ → Bool) → p n ≡ p 0 → count_below n (λ k. p (suc k)) ≡ count_below n p
count_below_rotate n p e =
    let f = count_below_front n p in
    let q : count_below (suc n) p ≡ (if p 0 then 1 else 0) + count_below n p =
      ap (λ b. (if b then 1 else 0) + count_below n p) e in
    omega (arith, f, q)

window_count : (n j c : ℕ) → count_below n (λ k. (c + k) % n == j) ≡ count_below n (λ k. k % n == j)
window_count n j zero =
    count_below-ext n (λ k. (zero + k) % n == j) (λ k. k % n == j)
      (λ r l. let e : zero + r ≡ r = omega arith in rw e)
window_count n j (suc c) =
    count_below-ext n (λ k. (suc c + k) % n == j) (λ k. (c + suc k) % n == j)
      (λ r l. let e : suc c + r ≡ c + suc r = omega arith in rw e)
    ∙ count_below_rotate n (λ k. (c + k) % n == j) round
    ∙ window_count n j c
  where
    round : ((c + n) % n == j) ≡ ((c + 0) % n == j)
    round = let e : c + 0 ≡ c = omega arith in rw (e, add-mod_right c n)

count_one : (m j : ℕ) → count_below m (λ k. k == j) ≡ (if ltb j m then 1 else 0)
count_one zero j = ground arith
count_one (suc m) j = ground (arith, count_one m j)

-- The cursor that a number of picks, one after another, leave.
abbrev pub cursor_after : List Target → ℕ → ℕ → ℕ
cursor_after ts zero c = c
cursor_after ts (suc k) c = (pick_round_robin ts (cursor_after ts k c)).0

cursor_after-add :
    (ts : List Target) (k c : ℕ) → 0 < length ts → c + k ≤ 2 ^ 63 → cursor_after ts k c ≡ c + k
cursor_after-add ts zero c n h = omega arith
cursor_after-add ts (suc k) c n h =
    let ih = cursor_after-add ts k c n (omega arith) in
    (pick_round_robin-Next ts (cursor_after ts k c) n (omega arith)).1 ∙ (omega arith)

-- With every target up and stable, as many picks as there are targets, each at the cursor that the
-- one before left, choose each target exactly once, while the cursor stays within 2^63.
pub round_robin_each_once :
    (ts : List Target) (c j : ℕ)
    → c + length ts ≤ 2 ^ 63
    → ((i : ℕ) → i < length ts → healthy_at ts i ≡ true)
    → j < length ts
    → count_below (length ts) (λ k. picks j (pick_round_robin ts (cursor_after ts k c)).1) ≡ 1
round_robin_each_once ts c j bound up l =
    count_below-ext n (λ k. picks j (pick_round_robin ts (cursor_after ts k c)).1)
      (λ k. (c + k) % n == j)
      (λ r lt.
        ap (λ x. picks j (pick_round_robin ts x).1)
          (cursor_after-add ts r c (omega arith) (omega arith))
        ∙ ap (picks j) (round_robin_all_up ts (c + r) (omega arith) (omega arith) up))
    ∙ window_count n j c
    ∙ count_below-ext n (λ k. k % n == j) (λ k. k == j) (λ r lt. rw (mod-eq_of_lt lt))
    ∙ count_one n j
    ∙ (ground arith)
  where
    n : ℕ
    n = length ts

-- The start index at a cursor past 2^63.
negative_start :
    (c n : ℕ)
    → 2 ^ 63 ≤ c
    → c < 2 ^ 64
    → (2 ^ 64 - c) % n ≢ 0
    → mod_ℤ (to_int64 (((c + 1) % 2 ^ 64 + 2 ^ 64 - 1) % 2 ^ 64)) n ≡ negsuc ((2 ^ 64 - c) % n - 1)
negative_start c n lo hi odd =
    let e : ((c + 1) % 2 ^ 64 + 2 ^ 64 - 1) % 2 ^ 64 ≡ c = omega arith in
    let f : to_int64 c ≡ negsuc (2 ^ 64 - c - 1) = ground arith in
    let g : suc (2 ^ 64 - c - 1) ≡ 2 ^ 64 - c = omega arith in
    let h : sub_ℕ 0 ((2 ^ 64 - c) % n) ≡ negsuc ((2 ^ 64 - c) % n - 1) = ground arith in
    rw (e, f) (rw g h)

negative_index : (m n : ℕ) → 0 < m → m < n → mod_ℤ (negsuc (m - 1) +ℤ pos 0) n ≡ negsuc (m - 1)
negative_index m n pos_m l =
    let e : negsuc (m - 1) +ℤ pos 0 ≡ negsuc (m - 1) = ground arith in
    let f : suc (m - 1) ≡ m = omega arith in
    let g : sub_ℕ 0 m ≡ negsuc (m - 1) = ground arith in rw e (rw (f, mod-eq_of_lt l) g)

-- From 2^63 on, `int(cursor)` is negative, and so is its remainder: unless the number of targets
-- divides it, the index is out of range, whatever the targets' health.
pub round_robin_overflow :
    (t : Target) (ts : List Target) (c : ℕ)
    → 2 ^ 63 ≤ c
    → c < 2 ^ 64
    → (2 ^ 64 - c) % length (t ∷ ts) ≢ 0
    → (pick_round_robin (t ∷ ts) c).1 ≡ err index_out_of_range
unfolding pick_round_robin scan
round_robin_overflow t ts c lo hi odd =
    let n = suc (length ts) in
    let m = (2 ^ 64 - c) % n in
    rw (
      negative_start c n lo hi odd,
      negative_index m n (omega arith) (mod-lt (2 ^ 64 - c) (omega arith)),
    )

weightless_sum :
    (ts : List Target)
    → ((i : ℕ) (t : Target) → get_elem? ts i ≡ some t → t.weight ≤ℤ pos 0)
    → eligible_weight ts ≡ 0
weightless_sum [] light = refl
weightless_sum (t ∷ ts) light =
    let here = light zero t refl in
    let ih = weightless_sum ts (λ i u e. light (suc i) u e) in ground arith

-- If no healthy target has a positive weight the weighted algorithm fails, also where healthy
-- targets remain.
pub weighted_without_weights :
    (rand : ℕ → ℕ) (ts : List Target)
    → InRange rand
    → ((i : ℕ) (t : Target) → get_elem? ts i ≡ some t → t.weight ≤ℤ pos 0)
    → pick_weighted rand ts ≡ err no_healthy_targets
weighted_without_weights rand ts fair light =
    let none_eligible = weightless_sum ts light in
    go (pick_weighted-Selected rand ts fair (omega arith))
  where
    go :
        Selected eligible ts (pick_weighted rand ts)
        → pick_weighted rand ts ≡ err no_healthy_targets
    go (selected idx (t, e, h) r) = let l = light idx t e in absurd (ground arith)
    go (nothing down r) = r
