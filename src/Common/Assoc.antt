-- ===== src/Common/Assoc.antt =====
-- Go's maps as association lists with distinct keys. `insert` overwrites in place.
use Prim.Native.Nat.{suc}
use mathlib.Core.Path.{◌≡◌, refl, ap, subst}
use mathlib.Core.Logic.{inl, inr}
use mathlib.Core.Bool.{Bool, false}
use mathlib.Core.List.{List, [], ◌∷◌}
use mathlib.Core.Option.{Option, none, some}
use native.Mathlib.Omega.{arith}
use route_x_reverse_proxy.Common.Tests.{Eq, ◌==◌, same_refl, Bool-cases, if◌then◌else◌}
use route_x_reverse_proxy.Common.Lists.{length, retain, All}

abbrev pub Assoc {ℓ κ} : Type ℓ → Type κ → Type (ℓ ⊔ κ)
Assoc K V = List (K × V)

module _ {ℓ κ} {K : Type ℓ} {V : Type κ} ⦃e : Eq K⦄ where
  unfoldable pub lookup : K → Assoc K V → Option V
  lookup k [] = none
  lookup k (kv ∷ m) = let later = lookup k m in if kv.0 == k then some kv.1 else later

  unfoldable pub insert : K → V → Assoc K V → Assoc K V
  insert k v [] = (k, v) ∷ []
  insert k v (kv ∷ m) = let later = kv ∷ insert k v m in if kv.0 == k then (k, v) ∷ m else later

  unfoldable pub delete : K → Assoc K V → Assoc K V
  delete k [] = []
  delete k ((j, w) ∷ m) = let rest = delete k m in if j == k then rest else (j, w) ∷ rest

  abbrev pub Misses : K → Assoc K V → Type 0
  Misses k m = All (λ (kv : K × V). (kv.0 == k) ≡ false) m

  -- No key occurs twice, as in a Go map.
  abbrev pub Distinct : Assoc K V → Type 0
  Distinct [] = Unit
  Distinct ((k, v) ∷ m) = Misses k m × Distinct m

  -- A read after a write: the written key reads the written value.
  pub lookup-insert :
      (written read : K) (value : V) (m : Assoc K V)
      → lookup read (insert written value m)
        ≡ (if written == read then some value else lookup read m)
  unfolding lookup insert
  lookup-insert written read value [] = refl
  lookup-insert written read value ((first, old) ∷ m) = ground (
    arith,
    lookup-insert written read value m,
    e.reflects first written,
    e.reflects first read,
    e.reflects written read,
  )

  pub lookup-delete :
      (k j : K) (m : Assoc K V) → lookup j (delete k m) ≡ (if k == j then none else lookup j m)
  unfolding lookup delete
  lookup-delete k j [] = ground arith
  lookup-delete k j ((i, w) ∷ m) =
      ground (arith, e.reflects k j, e.reflects i k, e.reflects i j, lookup-delete k j m)

  pub lookup-insert_self : (k : K) (v : V) (m : Assoc K V) → lookup k (insert k v m) ≡ some v
  lookup-insert_self k v m = rw (lookup-insert k k v m, same_refl k)

  pub lookup-Misses : (k : K) (m : Assoc K V) → Misses k m → lookup k m ≡ none
  unfolding lookup
  lookup-Misses k [] h = refl
  lookup-Misses k ((j, w) ∷ m) h = rw (h.0) (lookup-Misses k m h.1)

  pub Misses-retain :
      (k : K) (p : K × V → Bool) (m : Assoc K V) → Misses k m → Misses k (retain p m)
  Misses-retain k p [] h = h
  Misses-retain k p (kv ∷ m) h = ground (arith, Misses-retain k p m h.1)

  pub Distinct-retain : (p : K × V → Bool) (m : Assoc K V) → Distinct m → Distinct (retain p m)
  Distinct-retain p [] h = h
  Distinct-retain p ((j, w) ∷ m) h =
      ground (arith, Distinct-retain p m h.1, Misses-retain j p m h.0)

  -- With distinct keys, filtering entries filters what a lookup finds.
  pub lookup-retain :
      (k : K) (p : K × V → Bool) (m : Assoc K V)
      → Distinct m
      → lookup k (retain p m)
        ≡ elim (lookup k m) [ none ↦ none | some v ↦ if p (k, v) then some v else none ]
  unfolding lookup
  lookup-retain k p [] h = refl
  lookup-retain k p ((j, w) ∷ m) h = ground (
    arith,
    e.reflects j k,
    lookup-retain k p m h.1,
    lookup-Misses j (retain p m) (Misses-retain j p m h.0),
  )

  pub Misses-insert :
      (i k : K) (v : V) (m : Assoc K V) → (k == i) ≡ false → Misses i m → Misses i (insert k v m)
  unfolding insert
  Misses-insert i k v [] n h = (n, tt)
  Misses-insert i k v ((j, w) ∷ m) n h = ground (arith, Misses-insert i k v m n h.1)

  pub Distinct-insert : (k : K) (v : V) (m : Assoc K V) → Distinct m → Distinct (insert k v m)
  unfolding insert
  Distinct-insert k v [] h = (tt, tt)
  Distinct-insert k v ((j, w) ∷ m) h = elim (Bool-cases (j == k)) [
    | inl same ↦ rw same (subst (λ x. Misses x m) ((e.reflects j k).0 same) h.0, h.1)
    | inr other ↦ rw other (
      Misses-insert j k v m (ground (arith, e.reflects k j, e.reflects j k)) h.0,
      Distinct-insert k v m h.1,
    )
  ]

  pub Misses-delete : (i k : K) (m : Assoc K V) → Misses i m → Misses i (delete k m)
  unfolding delete
  Misses-delete i k [] h = h
  Misses-delete i k ((j, w) ∷ m) h = ground (arith, Misses-delete i k m h.1)

  pub Distinct-delete : (k : K) (m : Assoc K V) → Distinct m → Distinct (delete k m)
  unfolding delete
  Distinct-delete k [] h = h
  Distinct-delete k ((j, w) ∷ m) h =
      ground (arith, Distinct-delete k m h.1, Misses-delete j k m h.0)

  pub delete-Misses : (k : K) (m : Assoc K V) → Misses k m → delete k m ≡ m
  unfolding delete
  delete-Misses k [] h = refl
  delete-Misses k ((j, w) ∷ m) h = rw (h.0) (ap (◌∷◌ (j, w)) (delete-Misses k m h.1))

  -- The size of the map after an insertion and after a deletion.
  pub length-insert :
      (k : K) (v : V) (m : Assoc K V)
      → length (insert k v m) ≡ elim (lookup k m) [ none ↦ suc (length m) | some _ ↦ length m ]
  unfolding insert lookup
  length-insert k v [] = refl
  length-insert k v ((j, w) ∷ m) = ground (arith, length-insert k v m)

  pub length-delete :
      (k : K) (m : Assoc K V)
      → Distinct m
      → length m
        ≡ elim (lookup k m) [ none ↦ length (delete k m) | some _ ↦ suc (length (delete k m)) ]
  unfolding delete lookup
  length-delete k [] h = refl
  length-delete k ((j, w) ∷ m) h =
      ground (arith, e.reflects j k, length-delete k m h.1, delete-Misses j m h.0)
