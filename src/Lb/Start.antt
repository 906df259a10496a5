-- ===== src/Lb/Start.antt =====
-- internal/lb/balancer.go, `New`, and the health marks.
use route_x_reverse_proxy.Common.{
  ℕ, suc, ◌≡◌, refl, inl, inr, Bool, true, false, List, [], ◌∷◌, Option, none, some, String, Result,
  ok, err, arith, Bool-cases, nat_eq, subst, ◌≢◌,
}
use route_x_reverse_proxy.Common.Int.{ℤ}
use route_x_reverse_proxy.Net.{is_nil}
use route_x_reverse_proxy.Lb.Target.{Target}
use route_x_reverse_proxy.Lb.Algorithms.{Algorithm}
use route_x_reverse_proxy.Lb.Balancer.{Balancer, NewError, parse_algorithm, seed_targets, new}

-- The targets of a new balancer: those given, each one marked healthy.
abbrev pub Seeded : List (Option Target) → List Target → Type 0
Seeded [] [] = Unit {0}
Seeded [] (t ∷ ts) = ⊥
Seeded (o ∷ os) [] = ⊥
Seeded (o ∷ os) (t ∷ ts) =
    ((u : Target) × (o ≡ some u) × (is_nil u.ip ≡ false) × (t ≡ record u { healthy = true }))
    × Seeded os ts

seed_targets-Seeded :
    (i : ℕ) (os : List (Option Target)) (ts : List Target)
    → seed_targets i os ≡ ok ts
    → Seeded os ts
unfolding seed_targets
seed_targets-Seeded i [] [] e = tt
seed_targets-Seeded i [] (t ∷ ts) e = absurd (ground arith)
seed_targets-Seeded i (none ∷ os) ts e = absurd (ground arith)
seed_targets-Seeded i (some u ∷ os) ts e = elim (Bool-cases (is_nil u.ip)) [
  | inl nil ↦ absurd (ground arith)
  | inr given ↦ go given (seed_targets (suc i) os) refl (seed_targets-Seeded (suc i) os)
]
  where
    tail_of :
        (us vs : List Target)
        → ◌≡◌ {A = Result NewError (List Target)} (ok (record u { healthy = true } ∷ us)) (ok vs)
        → Seeded os us
        → is_nil u.ip ≡ false
        → Seeded (some u ∷ os) vs
    tail_of us [] q h given = absurd (ground arith)
    tail_of us (v ∷ vs) q h given =
        let same : us ≡ vs = ground arith in
        ((u, refl, given, ground arith), subst (Seeded os) same h)

    go :
        is_nil u.ip ≡ false
        → (r : Result NewError (List Target)) → seed_targets (suc i) os ≡ r
        → ((us : List Target) → seed_targets (suc i) os ≡ ok us → Seeded os us)
        → Seeded (some u ∷ os) ts
    go given (err x) q ih = absurd (ground arith)
    go given (ok us) q ih = tail_of us ts (ground arith) (ih us q) given

-- A balancer that `New` returns holds the given targets, none of them nil or without an address,
-- all marked healthy, also those that the caller had marked unhealthy; its cursor is 0.
pub new-Seeded :
    (algorithm : String) (os : List (Option Target)) (sticky : Bool) (ttl : ℤ) (b : Balancer)
    → new algorithm os sticky ttl ≡ ok b
    → Seeded os b.targets
      × (parse_algorithm algorithm ≡ some b.algorithm)
      × (b.rr_cursor ≡ 0)
      × (os ≢ [])
unfolding new
new-Seeded algorithm [] sticky ttl b e = absurd (ground arith)
new-Seeded algorithm (o ∷ os) sticky ttl b e = go (parse_algorithm algorithm) refl
  where
    seeded :
        (alg : Algorithm)
        → parse_algorithm algorithm ≡ some alg
        → (r : Result NewError (List Target)) → seed_targets 0 (o ∷ os) ≡ r
        → Seeded (o ∷ os) b.targets
          × (parse_algorithm algorithm ≡ some b.algorithm)
          × (b.rr_cursor ≡ 0)
          × ((o ∷ os) ≢ [])
    seeded alg p (err x) q = absurd (ground arith)
    seeded alg p (ok ts) q =
        let same : ts ≡ b.targets = ground arith in
        (
          subst (Seeded (o ∷ os)) same (seed_targets-Seeded 0 (o ∷ os) ts q),
          ground arith,
          ground arith,
          λ c. cc,
        )

    go :
        (a : Option Algorithm)
        → parse_algorithm algorithm ≡ a
        → Seeded (o ∷ os) b.targets
          × (parse_algorithm algorithm ≡ some b.algorithm)
          × (b.rr_cursor ≡ 0)
          × ((o ∷ os) ≢ [])
    go none p = absurd (ground arith)
    go (some alg) p = seeded alg p (seed_targets 0 (o ∷ os)) refl
