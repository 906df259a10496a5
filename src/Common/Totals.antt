-- ===== src/Common/Totals.antt =====
-- The sum of a weight over the values of a map, and what a write and a deletion do to it.
use Prim.Native.Nat.{ℕ, ◌+◌}
use mathlib.Core.Path.{◌≡◌, refl, ap, subst}
use mathlib.Core.Logic.{inl, inr}
use mathlib.Core.List.{[], ◌∷◌}
use mathlib.Core.Option.{none, some}
use native.Mathlib.Omega.{arith}
use route_x_reverse_proxy.Common.Tests.{Eq, ◌==◌, Bool-cases}
use route_x_reverse_proxy.Common.Assoc.{Assoc, lookup, insert, delete, Distinct, delete-Misses}

module _ {ℓ κ} {K : Type ℓ} {V : Type κ} ⦃e : Eq K⦄ (weight : V → ℕ) where
  abbrev pub total : Assoc K V → ℕ
  total [] = 0
  total (kv ∷ m) = weight kv.1 + total m

  -- A new key adds its weight.
  pub total-insert_new :
      (k : K) (v : V) (m : Assoc K V)
      → lookup k m ≡ none
      → total (insert k v m) ≡ weight v + total m
  unfolding lookup insert
  total-insert_new k v [] h = refl
  total-insert_new k v ((j, w) ∷ m) h = elim (Bool-cases (j == k)) [
    | inl here ↦ absurd (ground (arith, here, h))
    | inr later ↦
        let rest = total-insert_new k v m (rw later at h) in rw later (omega (arith, rest))
  ]

  -- An overwritten key exchanges its weight.
  pub total-insert :
      (k : K) (old new : V) (m : Assoc K V)
      → lookup k m ≡ some old
      → total (insert k new m) + weight old ≡ total m + weight new
  unfolding lookup insert
  total-insert k old new [] h = absurd (ground (arith, h))
  total-insert k old new ((j, w) ∷ m) h = elim (Bool-cases (j == k)) [
    | inl here ↦
        let same : w ≡ old = ap (λ o. elim o [ none ↦ w | some x ↦ x ]) (rw here at h) in
        rw here (rw same (omega arith))
    | inr later ↦
        let rest = total-insert k old new m (rw later at h) in rw later (omega (arith, rest))
  ]

  -- A deleted key takes its weight with it.
  pub total-delete :
      (k : K) (old : V) (m : Assoc K V)
      → Distinct m
      → lookup k m ≡ some old
      → total m ≡ weight old + total (delete k m)
  unfolding lookup delete
  total-delete k old [] d h = absurd (ground (arith, h))
  total-delete k old ((j, w) ∷ m) d h = elim (Bool-cases (j == k)) [
    | inl here ↦
        let same : w ≡ old = ap (λ o. elim o [ none ↦ w | some x ↦ x ]) (rw here at h) in
        let key : j ≡ k = (e.reflects j k).0 here in
        let gone : delete k m ≡ m = subst (λ x. delete x m ≡ m) key (delete-Misses j m d.0) in
        let rest : total (delete k m) ≡ total m = ap total gone in
        let first : weight w ≡ weight old = ap weight same in rw here (omega (arith, rest, first))
    | inr later ↦
        let rest = total-delete k old m d.1 (rw later at h) in rw later (omega (arith, rest))
  ]
