-- ===== src/Proxy/Portmap.antt =====
-- internal/proxy/portmap.go: origin port to destination ports.
use route_x_reverse_proxy.Common.{
  ℕ, zero, suc, ◌≡◌, ◌≢◌, refl, inl, inr, Bool, true, false, List, [], ◌∷◌, Option, none, some,
  Result, ok, err, arith, if◌then◌else◌, ◌==◌, nat_eq, length, get_elem?, All, Bool-cases, subst,
  ◌∙◌,
}
use route_x_reverse_proxy.Common.Assoc.{Assoc, lookup, insert, lookup-insert}

pub data PortError : Type 0 where
  no_origin_ports no_dest_ports nil_resolver : PortError
  unequal_ranges : ℕ → ℕ → PortError
  not_mapped : ℕ → PortError

pub record Resolver : Type 0 where
  pub one_to_one : Bool
  pub pairs : Assoc ℕ ℕ
  pub fan_out : List ℕ

-- `for i, op := range originPorts { r.pairs[op] = destPorts[i] }`; the lengths are equal there.
unfoldable pub add_pairs : List ℕ → List ℕ → Assoc ℕ ℕ → Assoc ℕ ℕ
add_pairs (o ∷ os) (d ∷ ds) m = add_pairs os ds (insert o d m)
add_pairs _ _ m = m

unfoldable pub new_resolver : List ℕ → List ℕ → Bool → Result PortError Resolver
unfolding add_pairs
new_resolver [] dest one_to_one = err no_origin_ports
new_resolver (o ∷ os) [] one_to_one = err no_dest_ports
new_resolver (o ∷ os) (d ∷ ds) true =
    if length (o ∷ os) == length (d ∷ ds)
    then ok (record { one_to_one = true; pairs = add_pairs (o ∷ os) (d ∷ ds) []; fan_out = [] })
    else err (unequal_ranges (length (o ∷ os)) (length (d ∷ ds)))
new_resolver (o ∷ os) (d ∷ ds) false =
    ok (record { one_to_one = false; pairs = []; fan_out = d ∷ ds })

-- `none` is the nil resolver.
unfoldable pub dest_ports_for : Option Resolver → ℕ → Result PortError (List ℕ)
dest_ports_for none origin = err nil_resolver
dest_ports_for (some r) origin =
    if r.one_to_one
    then elim (lookup origin r.pairs) [ none ↦ err (not_mapped origin) | some d ↦ ok (d ∷ []) ]
    else ok r.fan_out

unfoldable pub is_one_to_one : Option Resolver → Bool
is_one_to_one none = false
is_one_to_one (some r) = r.one_to_one

-- A port that does not stand in a list.
abbrev pub Absent : ℕ → List ℕ → Type 0
Absent p = All (λ q. p ≢ q)

abbrev pub AllDifferent : List ℕ → Type 0
AllDifferent [] = Unit {0}
AllDifferent (p ∷ ps) = Absent p ps × AllDifferent ps

add_pairs-other :
    (os ds : List ℕ) (m : Assoc ℕ ℕ) (p : ℕ)
    → Absent p os
    → lookup p (add_pairs os ds m) ≡ lookup p m
unfolding add_pairs
add_pairs-other [] ds m p h = refl
add_pairs-other (o ∷ os) [] m p h = refl
add_pairs-other (o ∷ os) (d ∷ ds) m p h =
    let miss : (o == p) ≡ false = ground (arith, h.0) in
    add_pairs-other os ds (insert o d m) p h.1 ∙ lookup-insert o p d m ∙ (rw miss)

add_pairs-at :
    (os ds : List ℕ) (m : Assoc ℕ ℕ) (i o d : ℕ)
    → AllDifferent os
    → get_elem? os i ≡ some o
    → get_elem? ds i ≡ some d
    → lookup o (add_pairs os ds m) ≡ some d
unfolding add_pairs
add_pairs-at [] ds m i o d h a b = absurd (ground arith)
add_pairs-at (x ∷ os) [] m i o d h a b = absurd (ground arith)
add_pairs-at (x ∷ os) (y ∷ ds) m zero o d h a b =
    let same : x ≡ o = ground arith in
    let value : some y ≡ some d = b in
    let hit : (x == o) ≡ true = ground arith in
    add_pairs-other os ds (insert x y m) o (subst (λ p. Absent p os) same h.0)
    ∙ lookup-insert x o y m
    ∙ (rw hit b)
add_pairs-at (x ∷ os) (y ∷ ds) m (suc i) o d h a b = add_pairs-at os ds (insert x y m) i o d h.1 a b

-- One to one: with different origin ports, a resolver that is built resolves each origin port to
-- the destination port at its own position, and to no other.
pub one_to_one_positional :
    (os ds : List ℕ) (r : Resolver) (i o d : ℕ)
    → new_resolver os ds true ≡ ok r
    → AllDifferent os
    → get_elem? os i ≡ some o
    → get_elem? ds i ≡ some d
    → dest_ports_for (some r) o ≡ ok (d ∷ [])
unfolding new_resolver dest_ports_for
one_to_one_positional [] ds r i o d e h a b = absurd (ground arith)
one_to_one_positional (x ∷ os) [] r i o d e h a b = absurd (ground arith)
one_to_one_positional (x ∷ os) (y ∷ ds) r i o d e h a b =
    elim (Bool-cases (length (x ∷ os) == length (y ∷ ds))) [
      | inr unequal ↦ absurd (ground arith)
      | inl equal ↦
          let mode : r.one_to_one ≡ true = ground arith in
          let table : r.pairs ≡ add_pairs (x ∷ os) (y ∷ ds) [] = ground arith in
          rw mode (rw table (rw (add_pairs-at (x ∷ os) (y ∷ ds) [] i o d h a b)))
    ]

add_pairs-outside : (os ds : List ℕ) (p : ℕ) → Absent p os → lookup p (add_pairs os ds []) ≡ none
add_pairs-outside os ds p h = add_pairs-other os ds [] p h ∙ unfold lookup in refl

-- A port outside the origin ports is refused.
pub one_to_one_outside :
    (os ds : List ℕ) (r : Resolver) (p : ℕ)
    → new_resolver os ds true ≡ ok r
    → Absent p os
    → dest_ports_for (some r) p ≡ err (not_mapped p)
unfolding new_resolver dest_ports_for
one_to_one_outside [] ds r p e h = absurd (ground arith)
one_to_one_outside (x ∷ os) [] r p e h = absurd (ground arith)
one_to_one_outside (x ∷ os) (y ∷ ds) r p e h =
    elim (Bool-cases (length (x ∷ os) == length (y ∷ ds))) [
      | inr unequal ↦ absurd (ground arith)
      | inl equal ↦
          let mode : r.one_to_one ≡ true = ground arith in
          let table : r.pairs ≡ add_pairs (x ∷ os) (y ∷ ds) [] = ground arith in
          rw mode (rw table (rw (add_pairs-outside (x ∷ os) (y ∷ ds) p h)))
    ]
