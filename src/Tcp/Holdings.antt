-- ===== src/Tcp/Holdings.antt =====
-- internal/proxy/tcp.go: the targets that the runs of handleConn hold.
use route_x_reverse_proxy.Common.{
  ℕ, ◌+◌, ◌≡◌, refl, ap, sym, ◌∙◌, List, [], ◌∷◌, Option, none, some, arith, if◌then◌else◌, ◌==◌,
  nat_eq,
}
use route_x_reverse_proxy.Common.Assoc.{Assoc, lookup, insert, delete, Distinct}
use route_x_reverse_proxy.Common.Totals.{total, total-insert, total-insert_new, total-delete}
use route_x_reverse_proxy.Lb.Target.{Target}
use route_x_reverse_proxy.Lb.Ledger.{count, IsExact, IsExact-counts, dec-IsExact}
use route_x_reverse_proxy.Lb.Balancer.{Balancer, release}
use route_x_reverse_proxy.Tcp.Connections.{Handler}

-- What a handler adds to the count of a target.
abbrev pub share : ℕ → Option ℕ → ℕ
share i none = 0
share i (some idx) = if idx == i then 1 else 0

abbrev pub held_by : ℕ → Handler → ℕ
held_by i h = share i h.target

abbrev with_target : Option ℕ → List ℕ → List ℕ
with_target none held = held
with_target (some idx) held = idx ∷ held

-- The targets held, one for each handler that holds one.
abbrev pub holdings : Assoc ℕ Handler → List ℕ
holdings [] = []
holdings (kv ∷ hs) = with_target kv.1.target (holdings hs)

count-with_target :
    (i : ℕ) (o : Option ℕ) (held : List ℕ) → count i (with_target o held) ≡ share i o + count i held
count-with_target i none held = omega arith
count-with_target i (some idx) held = refl

count-holdings : (i : ℕ) (hs : Assoc ℕ Handler) → count i (holdings hs) ≡ total (held_by i) hs
count-holdings i [] = refl
count-holdings i (kv ∷ hs) =
    count-with_target i kv.1.target (holdings hs)
    ∙ ap (◌+◌ (share i kv.1.target)) (count-holdings i hs)

module _ (ts : List Target) (hs : Assoc ℕ Handler) (k : ℕ) where
  -- A new handler holds nothing.
  pub launched-IsExact :
      (h : Handler)
      → lookup k hs ≡ none
      → h.target ≡ none
      → IsExact ts (holdings hs)
      → IsExact ts (holdings (insert k h hs))
  launched-IsExact h new empty = IsExact-counts ts (holdings hs) (holdings (insert k h hs)) λ i.
      let grown = total-insert_new (held_by i) k h hs new in
      let nothing : held_by i h ≡ 0 = ap (share i) empty in
      count-holdings i hs ∙ omega (arith, grown, nothing) ∙ sym (count-holdings i (insert k h hs))

  -- A handler that keeps its target.
  pub kept-IsExact :
      (old new : Handler)
      → lookup k hs ≡ some old
      → new.target ≡ old.target
      → IsExact ts (holdings hs)
      → IsExact ts (holdings (insert k new hs))
  kept-IsExact old new here same = IsExact-counts ts (holdings hs) (holdings (insert k new hs)) λ i.
      let changed = total-insert (held_by i) k old new hs here in
      let equal : held_by i new ≡ held_by i old = ap (share i) same in
      count-holdings i hs ∙ omega (arith, changed, equal) ∙ sym (count-holdings i (insert k new hs))

  -- A handler that takes the target which a pick has counted.
  pub taken-IsExact :
      (old new : Handler) (idx : ℕ)
      → lookup k hs ≡ some old
      → old.target ≡ none
      → new.target ≡ some idx
      → IsExact ts (idx ∷ holdings hs)
      → IsExact ts (holdings (insert k new hs))
  taken-IsExact old new idx here free takes =
      IsExact-counts ts (idx ∷ holdings hs) (holdings (insert k new hs)) λ i.
        let changed = total-insert (held_by i) k old new hs here in
        let before : held_by i old ≡ 0 = ap (share i) free in
        let after : held_by i new ≡ share i (some idx) = ap (share i) takes in
        ap (◌+◌ (share i (some idx))) (count-holdings i hs)
        ∙ omega (arith, changed, before, after)
        ∙ sym (count-holdings i (insert k new hs))

-- A handler that leaves gives its target back.
pub left-IsExact :
    (b : Balancer) (hs : Assoc ℕ Handler) (k : ℕ) (h : Handler)
    → Distinct hs
    → lookup k hs ≡ some h
    → IsExact b.targets (holdings hs)
    → IsExact (release b h.target).targets (holdings (delete k hs))
left-IsExact b hs k h d here exact = given h.target refl
  where
    less : (i : ℕ) → count i (holdings hs) ≡ held_by i h + count i (holdings (delete k hs))
    less i =
        let shrunk = total-delete (held_by i) k h hs d here in
        let before = count-holdings i hs in
        let after = count-holdings i (delete k hs) in omega (arith, shrunk, before, after)

    given : (o : Option ℕ) → h.target ≡ o → IsExact (release b o).targets (holdings (delete k hs))
    given none e =
        unfold release in
        IsExact-counts b.targets (holdings hs) (holdings (delete k hs))
          (λ i. let nothing : held_by i h ≡ 0 = ap (share i) e in omega (arith, less i, nothing))
          exact
    given (some idx) e =
        unfold release in
        dec-IsExact b.targets (holdings hs) (holdings (delete k hs)) idx
          (λ i.
            let one : held_by i h ≡ share i (some idx) = ap (share i) e in
            less i ∙ omega (arith, one))
          exact
