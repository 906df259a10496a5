-- ===== src/Lb/Scanning.antt =====
-- internal/lb/balancer.go, `pickRoundRobin` and `pickIPHash`: the walk from a start index to the
-- next healthy target.
use native.Mathlib.Nat.{mod-add-mod, mod-lt, mod-eq_of_lt, add-mod_right}
use native.Mathlib.Decide.{dec_lt, dec_le}
use route_x_reverse_proxy.Common.{
  ℕ, zero, suc, ◌+◌, ◌-◌, ◌%◌, ◌^◌, ◌≤◌, ◌<◌, ◌≡◌, refl, inl, inr, Bool, true, false, List, [], ◌∷◌,
  none, some, ok, err, arith, length, get_elem?, get_elem?-some, Bool-cases, ap, lt→ltb, sym, ◌∙◌,
  subst,
}
use route_x_reverse_proxy.Common.Int.{pos, mod_ℤ}
use route_x_reverse_proxy.Lb.Target.{Target}
use route_x_reverse_proxy.Lb.Algorithms.{
  no_healthy_targets, Picked, scan, pick_round_robin, to_int64,
}

-- The target at an index is there and is healthy.
abbrev pub healthy_at : List Target → ℕ → Bool
healthy_at ts i = elim (get_elem? ts i) [ none ↦ false | some t ↦ t.healthy ]

-- The first healthy index on the way round from `s`, or the error, where every target is down.
pub data Next (ts : List Target) (s : ℕ) (r : Picked) : Type 0 where
  found :
      (d : ℕ)
      → d < length ts
      → healthy_at ts ((s + d) % length ts) ≡ true
      → ((e : ℕ) → e < d → healthy_at ts ((s + e) % length ts) ≡ false)
      → r ≡ ok ((s + d) % length ts)
      → Next ts s r
  exhausted : ((i : ℕ) → healthy_at ts i ≡ false) → r ≡ err no_healthy_targets → Next ts s r

healthy_at-lt : (ts : List Target) (i : ℕ) → healthy_at ts i ≡ true → i < length ts
healthy_at-lt [] i h = ground arith
healthy_at-lt (t ∷ ts) zero h = omega arith
healthy_at-lt (t ∷ ts) (suc i) h = omega (arith, healthy_at-lt ts i h)

scan_hit :
    (ts : List Target) (s k i : ℕ)
    → 0 < length ts
    → healthy_at ts ((s + i) % length ts) ≡ true
    → scan ts (pos s) (suc k) i ≡ ok ((s + i) % length ts)
unfolding scan
scan_hit ts s k i n h = ground arith

scan_miss :
    (ts : List Target) (s k i : ℕ)
    → 0 < length ts
    → healthy_at ts ((s + i) % length ts) ≡ false
    → scan ts (pos s) (suc k) i ≡ scan ts (pos s) k (suc i)
unfolding scan
scan_miss ts s k i n h =
    let (t, e) = get_elem?-some ts ((s + i) % length ts) (mod-lt _ n) in ground arith

-- What the rounds from `i` to `i + k - 1` of the loop find.
data Rounds (ts : List Target) (s k i : ℕ) (r : Picked) : Type 0 where
  hit :
      (d : ℕ)
      → i ≤ d
      → d < i + k
      → healthy_at ts ((s + d) % length ts) ≡ true
      → ((e : ℕ) → i ≤ e → e < d → healthy_at ts ((s + e) % length ts) ≡ false)
      → r ≡ ok ((s + d) % length ts)
      → Rounds ts s k i r
  missed :
      ((e : ℕ) → i ≤ e → e < i + k → healthy_at ts ((s + e) % length ts) ≡ false)
      → r ≡ err no_healthy_targets
      → Rounds ts s k i r

-- A fact at `i` and from `i + 1` on holds from `i` on.
from_suc :
    (p : ℕ → Bool) (i m : ℕ)
    → p i ≡ false
    → ((e : ℕ) → suc i ≤ e → e < m → p e ≡ false)
    → (e : ℕ) → i ≤ e
    → e < m
    → p e ≡ false
from_suc p i m h rest e l u = elim (dec_lt i e) [
  | yes above ↦ rest e above u
  | no here ↦ let q : i ≡ e = omega arith in subst (λ x. p x ≡ false) q h
]

scan-Rounds : (ts : List Target) (s k i : ℕ) → 0 < length ts → Rounds ts s k i (scan ts (pos s) k i)
scan-Rounds ts s zero i n = missed (λ e l u. absurd (omega arith)) (unfold scan in refl)
scan-Rounds ts s (suc k) i n = elim (Bool-cases (healthy_at ts ((s + i) % length ts))) [
  | inl up ↦
      hit i (omega arith) (omega arith) up (λ e l u. absurd (omega arith)) (scan_hit ts s k i n up)
  | inr down ↦ rw (scan_miss ts s k i n down) (step down (scan-Rounds ts s k (suc i) n))
]
  where
    step :
        healthy_at ts ((s + i) % length ts) ≡ false
        → Rounds ts s k (suc i) (scan ts (pos s) k (suc i))
        → Rounds ts s (suc k) i (scan ts (pos s) k (suc i))
    step down (hit d l u h before e) =
        hit d (omega arith) (omega arith) h
          (from_suc (λ j. healthy_at ts ((s + j) % length ts)) i d down before) e
    step down (missed none_up e) =
        missed
          (from_suc (λ j. healthy_at ts ((s + j) % length ts)) i (i + suc k) down
            (λ e' l u. none_up e' l (omega arith)))
          e

-- Every index is met on the way round.
round_trip : (s i n : ℕ) → i < n → (d : ℕ) × (d < n) × ((s + d) % n ≡ i)
round_trip s i n h = elim (dec_le (s % n) i) [
  | yes le ↦ (
    i - s % n,
    omega arith,
    sym (mod-add-mod s n (i - s % n)) ∙ ap (λ x. x % n) (back le) ∙ mod-eq_of_lt h,
  )
  | no gt ↦ (
    i + n - s % n,
    omega (arith, mod-lt s (pos_n h)),
    sym (mod-add-mod s n (i + n - s % n))
        ∙ ap (λ x. x % n) (around gt)
        ∙ add-mod_right i n
        ∙ mod-eq_of_lt h,
  )
]
  where
    pos_n : i < n → 0 < n
    pos_n lt = omega arith

    back : s % n ≤ i → s % n + (i - s % n) ≡ i
    back le = omega arith

    around : ¬ (s % n ≤ i) → s % n + (i + n - s % n) ≡ i + n
    around gt = omega (arith, mod-lt s (pos_n h))

-- The whole walk.
pub scan-Next :
    (ts : List Target) (s : ℕ) → 0 < length ts → Next ts s (scan ts (pos s) (length ts) 0)
scan-Next ts s n = whole (scan-Rounds ts s (length ts) 0 n)
  where
    all_down :
        ((e : ℕ) → 0 ≤ e → e < 0 + length ts → healthy_at ts ((s + e) % length ts) ≡ false)
        → (i : ℕ) → healthy_at ts i ≡ false
    all_down none_up i = elim (Bool-cases (healthy_at ts i)) [
      | inr down ↦ down
      | inl up ↦
          let (d, l, e) = round_trip s i (length ts) (healthy_at-lt ts i up) in
          rw e at (none_up d (omega arith) (omega arith))
    ]

    whole :
        Rounds ts s (length ts) 0 (scan ts (pos s) (length ts) 0)
        → Next ts s (scan ts (pos s) (length ts) 0)
    whole (hit d l u h before e) = found d (omega arith) h (λ e' lt. before e' (omega arith) lt) e
    whole (missed none_up e) = exhausted (all_down none_up) e

start_of :
    (c n : ℕ)
    → c < 2 ^ 63
    → mod_ℤ (to_int64 (((c + 1) % 2 ^ 64 + 2 ^ 64 - 1) % 2 ^ 64)) n ≡ pos (c % n)
start_of c n h =
    let e : ((c + 1) % 2 ^ 64 + 2 ^ 64 - 1) % 2 ^ 64 ≡ c = omega arith in
    rw (e, lt→ltb c (2 ^ 63) h)

-- Starting the walk at `c % n` or at `c` is the same.
Next-mod : (ts : List Target) (c : ℕ) (r : Picked) → Next ts (c % length ts) r → Next ts c r
Next-mod ts c r (found d l h before e) =
    found d l (rw (mod-add-mod c (length ts) d) at h)
      (λ e' lt. rw (mod-add-mod c (length ts) e') at (before e' lt))
      (e ∙ ap ok (mod-add-mod c (length ts) d))
Next-mod ts c r (exhausted down e) = exhausted down e

-- While the cursor has not passed 2^63, the pick is the next healthy target from the cursor on.
pub pick_round_robin-Next :
    (ts : List Target) (c : ℕ)
    → 0 < length ts
    → c < 2 ^ 63
    → Next ts c (pick_round_robin ts c).1 × ((pick_round_robin ts c).0 ≡ c + 1)
unfolding pick_round_robin
pick_round_robin-Next ts c n h =
    (rw (start_of c (length ts) h) (Next-mod ts c _ (scan-Next ts (c % length ts) n)), omega arith)

pub Next-healthy :
    (ts : List Target) (s i : ℕ) (r : Picked) → Next ts s r → r ≡ ok i → healthy_at ts i ≡ true
Next-healthy ts s i r (found d l h before e) q = ground arith
Next-healthy ts s i r (exhausted down e) q = ground arith
