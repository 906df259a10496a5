-- ===== src/Lb/Least.antt =====
-- internal/lb/balancer.go, `pickLeastConn`: the fewest connections, ties to the first.
use route_x_reverse_proxy.Common.{
  ℕ, zero, suc, ◌+◌, ◌≤◌, ◌<◌, ◌≡◌, refl, ◌⊎◌, inl, inr, true, false, List, [], ◌∷◌, Option, none,
  some, ok, err, arith, get_elem?, Bool-cases, subst, sym, ap, if◌then◌else◌, ◌&&◌,
}
use route_x_reverse_proxy.Common.Int.{ℤ, ◌≤ℤ◌, ◌<ℤ◌}
use route_x_reverse_proxy.Lb.Target.{Target}
use route_x_reverse_proxy.Lb.Algorithms.{
  no_healthy_targets, Picked, beats, least_from, pick_least_conn,
}
use route_x_reverse_proxy.Lb.Scanning.{healthy_at}

-- A healthy target with no more connections than any healthy one, and fewer than those before it.
pub data Least (ts : List Target) (r : Picked) : Type 0 where
  least :
      (k : ℕ) (t : Target)
      → get_elem? ts k ≡ some t
      → t.healthy ≡ true
      → ((j : ℕ) (u : Target)
          → get_elem? ts j ≡ some u
          → u.healthy ≡ true
          → (t.active_conns ≤ℤ u.active_conns) × (j < k → t.active_conns <ℤ u.active_conns))
      → r ≡ ok k
      → Least ts r
  all_down : ((i : ℕ) → healthy_at ts i ≡ false) → r ≡ err no_healthy_targets → Least ts r

-- The best so far has at most `c` connections.
abbrev AtMost : Option (ℕ × ℤ) → ℤ → Type 0
AtMost none c = ⊥
AtMost (some (k, b)) c = b ≤ℤ c

-- The best so far stands before index `i`.
abbrev Before : Option (ℕ × ℤ) → ℕ → Type 0
Before none i = Unit {0}
Before (some (k, b)) i = k < i

-- The best so far, if it stands before index `k`, has more than `c` connections.
abbrev Worse : Option (ℕ × ℤ) → ℕ → ℤ → Type 0
Worse none k c = Unit {0}
Worse (some (j, b)) k c = j < k → c <ℤ b

abbrev next_best : ℕ → Target → Option (ℕ × ℤ) → Option (ℕ × ℤ)
next_best i t best =
    if t.healthy && beats t.active_conns best then some (i, t.active_conns) else best

next_best-AtMost :
    (i : ℕ) (t : Target) (best : Option (ℕ × ℤ)) (c : ℤ)
    → AtMost best c
    → AtMost (next_best i t best) c
next_best-AtMost i t none c h = absurd h
next_best-AtMost i t (some (k, b)) c h = ground arith

next_best_self :
    (i : ℕ) (t : Target) (best : Option (ℕ × ℤ))
    → t.healthy ≡ true
    → AtMost (next_best i t best) t.active_conns
next_best_self i t none h = rw h (omega arith)
next_best_self i t (some (k, b)) h = ground arith

next_best-Before :
    (i : ℕ) (t : Target) (best : Option (ℕ × ℤ))
    → Before best i
    → Before (next_best i t best) (suc i)
next_best-Before i t none h = ground arith
next_best-Before i t (some (k, b)) h = ground arith

-- What is worse than the new best and the old one.
next_best-Worse :
    (i : ℕ) (t : Target) (best : Option (ℕ × ℤ)) (k : ℕ) (c : ℤ)
    → Before best i
    → i < k
    → Worse (next_best i t best) k c
    → Worse best k c × (t.healthy ≡ true → c <ℤ t.active_conns)
next_best-Worse i t none k c b l w = ground arith
next_best-Worse i t (some (j, d)) k c b l w = ground arith

least_from-AtMost :
    (i : ℕ) (ts : List Target) (best : Option (ℕ × ℤ)) (c : ℤ)
    → AtMost best c
    → AtMost (least_from i ts best) c
unfolding least_from
least_from-AtMost i [] best c h = h
least_from-AtMost i (t ∷ ts) best c h =
    least_from-AtMost (suc i) ts (next_best i t best) c (next_best-AtMost i t best c h)

-- No healthy target has fewer connections than the result.
least_from-le :
    (i : ℕ) (ts : List Target) (best : Option (ℕ × ℤ)) (j : ℕ) (u : Target)
    → get_elem? ts j ≡ some u
    → u.healthy ≡ true
    → AtMost (least_from i ts best) u.active_conns
unfolding least_from
least_from-le i [] best j u e h = absurd (ground arith)
least_from-le i (t ∷ ts) best zero u e h =
    let q : t ≡ u = ground arith in
    least_from-AtMost (suc i) ts (next_best i t best) u.active_conns (
      subst (λ (x : Target). AtMost (next_best i t best) x.active_conns) q
        (next_best_self i t best (subst (λ (x : Target). x.healthy ≡ true) (sym q) h)))
least_from-le i (t ∷ ts) best (suc j) u e h = least_from-le (suc i) ts (next_best i t best) j u e h

-- The result is the best found earlier, or a healthy target of the list with its connections.
abbrev Source : ℕ → List Target → ℕ → ℤ → Type 0
Source i ts k c =
    (j : ℕ) × (t : Target) × (get_elem? ts j ≡ some t)
    × (t.healthy ≡ true)
    × (k ≡ i + j)
    × (t.active_conns ≡ c)

least_from-Source :
    (i : ℕ) (ts : List Target) (best : Option (ℕ × ℤ)) (k : ℕ) (c : ℤ)
    → least_from i ts best ≡ some (k, c)
    → (best ≡ some (k, c)) ⊎ Source i ts k c
unfolding least_from
least_from-Source i [] best k c e = inl e
least_from-Source i (t ∷ ts) best k c e =
    elim (least_from-Source (suc i) ts (next_best i t best) k c e) [
      | inr (j, u, q, h, p, a) ↦ inr (suc j, u, q, h, omega arith, a)
      | inl q ↦ first (Bool-cases (t.healthy && beats t.active_conns best)) q
    ]
  where
    first :
        (((t.healthy && beats t.active_conns best) ≡ true)
          ⊎ ((t.healthy && beats t.active_conns best) ≡ false))
        → next_best i t best ≡ some (k, c)
        → (best ≡ some (k, c)) ⊎ Source i (t ∷ ts) k c
    first (inl yes_) q = inr (zero, t, refl, ground arith, ground arith, ground arith)
    first (inr no_) q = inl (rw no_ at q)

Source-le : (i : ℕ) (ts : List Target) (k : ℕ) (c : ℤ) → Source i ts k c → i ≤ k
Source-le i ts k c (j, t, e, h, p, a) = omega arith

next_best-Worse_back :
    (i : ℕ) (t : Target) (best : Option (ℕ × ℤ)) (k : ℕ) (c : ℤ)
    → Before best i
    → (next_best i t best ≡ some (k, c)) ⊎ (i < k)
    → Worse (next_best i t best) k c
    → Worse best k c
next_best-Worse_back i t none k c b s w = tt
next_best-Worse_back i t (some (j, d)) k c b s w = ground arith

least_from-Worse :
    (i : ℕ) (ts : List Target) (best : Option (ℕ × ℤ)) (k : ℕ) (c : ℤ)
    → Before best i
    → least_from i ts best ≡ some (k, c)
    → Worse best k c
unfolding least_from
least_from-Worse i [] none k c b e = tt
least_from-Worse i [] (some (j, d)) k c b e = λ l. absurd (ground arith)
least_from-Worse i (t ∷ ts) best k c b e =
    next_best-Worse_back i t best k c b
      (later (least_from-Source (suc i) ts (next_best i t best) k c e))
      (least_from-Worse (suc i) ts (next_best i t best) k c (next_best-Before i t best b) e)
  where
    later :
        (next_best i t best ≡ some (k, c)) ⊎ Source (suc i) ts k c
        → (next_best i t best ≡ some (k, c)) ⊎ (i < k)
    later (inl q) = inl q
    later (inr s) = inr (Source-le (suc i) ts k c s)

-- Healthy targets before the result have more connections.
least_from-lt :
    (i : ℕ) (ts : List Target) (best : Option (ℕ × ℤ)) (k : ℕ) (c : ℤ) (j : ℕ) (u : Target)
    → Before best i
    → least_from i ts best ≡ some (k, c)
    → get_elem? ts j ≡ some u
    → u.healthy ≡ true
    → i + j < k
    → c <ℤ u.active_conns
unfolding least_from
least_from-lt i [] best k c j u b e q h l = absurd (ground arith)
least_from-lt i (t ∷ ts) best k c zero u b e q h l =
    let same : t ≡ u = ground arith in
    let up : t.healthy ≡ true = subst (λ (x : Target). x.healthy ≡ true) (sym same) h in
    subst (λ (x : Target). c <ℤ x.active_conns) same
      ((next_best-Worse i t best k c b (omega arith)
          (least_from-Worse (suc i) ts (next_best i t best) k c (next_best-Before i t best b) e)).1
        up)
least_from-lt i (t ∷ ts) best k c (suc j) u b e q h l =
    least_from-lt (suc i) ts (next_best i t best) k c j u (next_best-Before i t best b) e q h
      (omega arith)

least_from-none :
    (ts : List Target) → least_from 0 ts none ≡ none → (i : ℕ) → healthy_at ts i ≡ false
least_from-none ts e i = go (get_elem? ts i) refl
  where
    go : (o : Option Target) → get_elem? ts i ≡ o → healthy_at ts i ≡ false
    go none q = rw (q, healthy_at)
    go (some u) q = elim (Bool-cases u.healthy) [
      | inr down ↦ rw (q, healthy_at) down
      | inl up ↦ absurd (
          subst (λ (o : Option (ℕ × ℤ)). AtMost o u.active_conns) e
            (least_from-le 0 ts none i u q up))
    ]

pub pick_least_conn-Least : (ts : List Target) → Least ts (pick_least_conn ts)
unfolding pick_least_conn
pick_least_conn-Least ts = go (least_from 0 ts none) refl
  where
    go : (o : Option (ℕ × ℤ)) → least_from 0 ts none ≡ o → Least ts (pick_least_conn ts)
    go none e = all_down (least_from-none ts e) (rw (e, pick_least_conn))
    go (some (k, c)) e = elim (least_from-Source 0 ts none k c e) [
      | inl q ↦ absurd (ground arith)
      | inr (j, t, q, h, p, a) ↦
          least j t q h
            (λ j' u q' h'. (
              rw a (
                  subst (λ (o : Option (ℕ × ℤ)). AtMost o u.active_conns) e
                    (least_from-le 0 ts none j' u q' h')),
              λ l. rw a (least_from-lt 0 ts none k c j' u tt e q' h' (omega arith)),
            ))
            (rw (e, pick_least_conn) (ap ok (omega arith)))
    ]
