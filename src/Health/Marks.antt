-- ===== src/Health/Marks.antt =====
-- internal/health/checker.go with internal/lb/balancer.go, as internal/proxy/manager.go joins
-- them: the checker probes the balancer's targets and reports its changes to `SetHealth`.
use route_x_reverse_proxy.Common.{
  modify-cases, ℕ, zero, suc, ◌≡◌, ◌≢◌, refl, ◌⊎◌, inl, inr, Bool, true, false, ◌&&◌, List, [], ◌∷◌,
  map, Option, none, some, arith, Bool-cases, ◌∙◌, ap, sym, subst, length, get_elem?, modify, ◌==◌,
  nat_eq, same_refl,
}
use route_x_reverse_proxy.Net.{Ip, ip_equal, bytes_equal}
use route_x_reverse_proxy.Lb.Target.{Target, health_mark}
use route_x_reverse_proxy.Lb.Balancer.{Balancer, set_health_in, set_health}
use route_x_reverse_proxy.Health.Checker.{
  Upstream, Slot, Checker, Change, changed, probe_slot, probe_once,
}

-- The checker's targets are the balancer's.
unfoldable pub upstream_of : Target → Upstream
upstream_of t = record { ip = t.ip; port = t.port }

abbrev pub upstreams_of : List Target → List Upstream
upstreams_of = map upstream_of

-- `onChange` is the balancer's `SetHealth`.
unfoldable pub deliver : Option Change → Balancer → Balancer
deliver none b = b
deliver (some c) b = set_health c.ip c.port c.healthy b

pub record Watched : Type 0 where
  pub checker : Checker
  pub balancer : Balancer

unfoldable pub probe : Watched → ℕ × Bool → Watched
probe w (idx, up) =
    let (c, change) = probe_once w.checker idx up in
    record { checker = c; balancer = deliver change w.balancer }

-- Probes that finish one after the other, of any targets.
unfoldable pub probes : Watched → List (ℕ × Bool) → Watched
probes w [] = w
probes w (p ∷ ps) = probes (probe w p) ps

abbrev pub matches : Ip → ℕ → Target → Bool
matches ip port t = ip_equal t.ip ip && t.port == port

-- No two upstreams have one address and port.
abbrev pub HasDistinctEndpoints : List Upstream → Type 0
HasDistinctEndpoints us =
    (i j : ℕ) (u v : Upstream)
    → get_elem? us i ≡ some u
    → get_elem? us j ≡ some v
    → (ip_equal v.ip u.ip && v.port == u.port) ≡ true
    → j ≡ i

-- Each target of the balancer carries the mark that the checker has announced.
pub record IsInStep (ts : List Target) (us : List Upstream) (ss : List Slot) : Type 0 where
  pub same_targets : us ≡ upstreams_of ts
  pub marked :
      (i : ℕ) (t : Target) (s : Slot)
      → get_elem? ts i ≡ some t
      → get_elem? ss i ≡ some s
      → t.healthy ≡ s.healthy_sn

bytes_equal_refl : (bs : List ℕ) → bytes_equal bs bs ≡ true
unfolding bytes_equal
bytes_equal_refl [] = refl
bytes_equal_refl (b ∷ bs) = rw (same_refl b, bytes_equal_refl bs)

ip_equal_refl : (ip : Ip) → ip_equal ip ip ≡ true
unfolding ip_equal
ip_equal_refl ip = rw (same_refl (length ip), bytes_equal_refl ip)

abbrev mark : Bool → Target → Target
mark h t = record t { healthy = h }

-- If the target at `idx` is the first that matches, it is the one that is marked.
set_health_in-modify :
    (ip : Ip) (port : ℕ) (h : Bool) (ts : List Target) (idx : ℕ) (t : Target)
    → get_elem? ts idx ≡ some t
    → matches ip port t ≡ true
    → ((j : ℕ) (u : Target) → get_elem? ts j ≡ some u → matches ip port u ≡ true → j ≡ idx)
    → set_health_in ip port h ts ≡ modify idx (mark h) ts
unfolding set_health_in health_mark
set_health_in-modify ip port h [] idx t e q only = refl
set_health_in-modify ip port h (x ∷ ts) zero t e q only =
    let hit : matches ip port x ≡ true =
      let same : t ≡ x = ground arith in subst (λ y. matches ip port y ≡ true) same q in
    rw hit
set_health_in-modify ip port h (x ∷ ts) (suc idx) t e q only =
    elim (Bool-cases (matches ip port x)) [
      | inl hit ↦ let z = only zero x refl hit in absurd (omega arith)
      | inr miss ↦ rw miss (
          ap (◌∷◌ x) (
            set_health_in-modify ip port h ts idx t e q
              (λ j u a b. let n = only (suc j) u a b in omega arith)))
    ]

upstreams_of-mark :
    (idx : ℕ) (h : Bool) (ts : List Target)
    → upstreams_of (modify idx (mark h) ts) ≡ upstreams_of ts
unfolding upstream_of
upstreams_of-mark idx h [] = refl
upstreams_of-mark zero h (t ∷ ts) = refl
upstreams_of-mark (suc idx) h (t ∷ ts) = ap (◌∷◌ (upstream_of t)) (upstreams_of-mark idx h ts)

get_elem?-upstreams_of :
    (ts : List Target) (i : ℕ) (u : Upstream)
    → get_elem? (upstreams_of ts) i ≡ some u
    → (t : Target) × (get_elem? ts i ≡ some t) × (u ≡ upstream_of t)
get_elem?-upstreams_of [] i u e = absurd (ground arith)
get_elem?-upstreams_of (t ∷ ts) zero u e = (t, refl, ground arith)
get_elem?-upstreams_of (t ∷ ts) (suc i) u e = get_elem?-upstreams_of ts i u e

get_elem?-upstream :
    (ts : List Target) (i : ℕ) (t : Target)
    → get_elem? ts i ≡ some t
    → get_elem? (upstreams_of ts) i ≡ some (upstream_of t)
get_elem?-upstream [] i t e = absurd (ground arith)
get_elem?-upstream (x ∷ ts) zero t e =
    let same : x ≡ t = ground arith in ap (λ y. some (upstream_of y)) same
get_elem?-upstream (x ∷ ts) (suc i) t e = get_elem?-upstream ts i t e

-- With distinct endpoints `SetHealth` marks the target of that index.
set_health_in-endpoint :
    (h : Bool) (ts : List Target) (us : List Upstream) (idx : ℕ) (u : Upstream)
    → us ≡ upstreams_of ts
    → HasDistinctEndpoints us
    → get_elem? us idx ≡ some u
    → set_health_in u.ip u.port h ts ≡ modify idx (mark h) ts
unfolding upstream_of
set_health_in-endpoint h ts us idx u same distinct e =
    let (t, q, r) =
      get_elem?-upstreams_of ts idx u (subst (λ x. get_elem? x idx ≡ some u) same e) in
    let own : matches u.ip u.port t ≡ true =
      subst (λ (x : Upstream). matches x.ip x.port t ≡ true) (sym r)
        (rw (ip_equal_refl t.ip, same_refl t.port)) in
    set_health_in-modify u.ip u.port h ts idx t q own (λ j v a b.
      distinct idx j u (upstream_of v) e
        (subst (λ x. get_elem? x j ≡ some (upstream_of v)) (sym same) (get_elem?-upstream ts j v a))
        b)

-- Slot and mark change together.
marked_together :
    (f : Slot → Slot) (h : Bool) (ts : List Target) (us : List Upstream) (ss : List Slot) (idx : ℕ)
    (s : Slot)
    → IsInStep ts us ss
    → get_elem? ss idx ≡ some s
    → (f s).healthy_sn ≡ h
    → IsInStep (modify idx (mark h) ts) us (modify idx f ss)
marked_together f h ts us ss idx s v e q = record {
  same_targets = v.same_targets ∙ sym (upstreams_of-mark idx h ts);
  marked = λ i t s' a b.
      together i t s' (modify-cases (mark h) ts idx i t a) (modify-cases f ss idx i s' b);
}
  where
    together :
        (i : ℕ) (t : Target) (s' : Slot)
        → ((idx ≡ i) × (x : Target) × (get_elem? ts i ≡ some x) × (t ≡ mark h x))
          ⊎ ((idx ≢ i) × (get_elem? ts i ≡ some t))
        → ((idx ≡ i) × (x : Slot) × (get_elem? ss i ≡ some x) × (s' ≡ f x))
          ⊎ ((idx ≢ i) × (get_elem? ss i ≡ some s'))
        → t.healthy ≡ s'.healthy_sn
    together i t s' (inl (same, x, c, d)) (inl (_, y, c', d')) =
        let at_ : get_elem? ss i ≡ some s = subst (λ k. get_elem? ss k ≡ some s) same e in
        let own : y ≡ s = ground arith in
        ap (λ (z : Target). z.healthy) d ∙ sym (ap (λ (z : Slot). z.healthy_sn) (d' ∙ ap f own) ∙ q)
    together i t s' (inl p) (inr r) = absurd (r.0 p.0)
    together i t s' (inr r) (inl p) = absurd (r.0 p.0)
    together i t s' (inr (_, x)) (inr (_, y)) = v.marked i t s' x y

-- A slot whose announced state stays leaves the marks in step.
marks_kept :
    (f : Slot → Slot) (ts : List Target) (us : List Upstream) (ss : List Slot) (idx : ℕ) (s : Slot)
    → IsInStep ts us ss
    → get_elem? ss idx ≡ some s
    → (f s).healthy_sn ≡ s.healthy_sn
    → IsInStep ts us (modify idx f ss)
marks_kept f ts us ss idx s v e q = record {
  same_targets = v.same_targets;
  marked = λ i t s' a b. kept i t s' a (modify-cases f ss idx i s' b);
}
  where
    kept :
        (i : ℕ) (t : Target) (s' : Slot)
        → get_elem? ts i ≡ some t
        → ((idx ≡ i) × (x : Slot) × (get_elem? ss i ≡ some x) × (s' ≡ f x))
          ⊎ ((idx ≢ i) × (get_elem? ss i ≡ some s'))
        → t.healthy ≡ s'.healthy_sn
    kept i t s' a (inl (same, y, c', d')) =
        let at_ : get_elem? ss i ≡ some s = subst (λ k. get_elem? ss k ≡ some s) same e in
        let own : y ≡ s = ground arith in
        v.marked i t s a at_ ∙ sym q ∙ sym (ap (λ (z : Slot). z.healthy_sn) (d' ∙ ap f own))
    kept i t s' a (inr (_, y)) = v.marked i t s' a y

abbrev pub InStep : Watched → Type 0
InStep w = IsInStep w.balancer.targets w.checker.targets w.checker.slots

changed_cases : (a b : Bool) → (changed a b ≡ true) ⊎ ((changed a b ≡ false) × (b ≡ a))
changed_cases true true = inr (refl, refl)
changed_cases true false = inl refl
changed_cases false true = inl refl
changed_cases false false = inr (refl, refl)

probe_unknown :
    (w : Watched) (idx : ℕ) (up : Bool)
    → (get_elem? w.checker.targets idx ≡ none) ⊎ (get_elem? w.checker.slots idx ≡ none)
    → probe w (idx, up) ≡ w
unfolding probe probe_once deliver
probe_unknown w idx up e = ground arith

probe_stays :
    (w : Watched) (idx : ℕ) (up : Bool) (u : Upstream) (s : Slot)
    → get_elem? w.checker.targets idx ≡ some u
    → get_elem? w.checker.slots idx ≡ some s
    → changed s.healthy_sn (probe_slot w.checker.cfg up s).healthy_sn ≡ false
    → probe w (idx, up) ≡ record w {
      checker = record (w.checker) {
        slots = modify idx (probe_slot w.checker.cfg up) w.checker.slots;
      };
    }
unfolding probe probe_once deliver
probe_stays w idx up u s e q c = ground arith

probe_turns :
    (w : Watched) (idx : ℕ) (up : Bool) (u : Upstream) (s : Slot)
    → get_elem? w.checker.targets idx ≡ some u
    → get_elem? w.checker.slots idx ≡ some s
    → changed s.healthy_sn (probe_slot w.checker.cfg up s).healthy_sn ≡ true
    → probe w (idx, up) ≡ record {
      checker = record (w.checker) {
        slots = modify idx (probe_slot w.checker.cfg up) w.checker.slots;
      };
      balancer = set_health u.ip u.port (probe_slot w.checker.cfg up s).healthy_sn w.balancer;
    }
unfolding probe probe_once deliver
probe_turns w idx up u s e q c = ground arith

probe-InStep :
    (w : Watched) (idx : ℕ) (up : Bool)
    → HasDistinctEndpoints w.checker.targets
    → InStep w
    → InStep (probe w (idx, up)) × ((probe w (idx, up)).checker.targets ≡ w.checker.targets)
unfolding set_health
probe-InStep w idx up distinct v =
    go (get_elem? w.checker.targets idx) refl (get_elem? w.checker.slots idx) refl
  where
    after : Slot → Slot
    after = probe_slot w.checker.cfg up

    go :
        (o : Option Upstream)
        → get_elem? w.checker.targets idx ≡ o
        → (p : Option Slot) → get_elem? w.checker.slots idx ≡ p
        → InStep (probe w (idx, up)) × ((probe w (idx, up)).checker.targets ≡ w.checker.targets)
    go none e p q = rw (probe_unknown w idx up (inl e)) (v, refl)
    go (some u) e none q = rw (probe_unknown w idx up (inr q)) (v, refl)
    go (some u) e (some s) q = elim (changed_cases s.healthy_sn (after s).healthy_sn) [
      | inr (stays, same) ↦ rw (probe_stays w idx up u s e q stays) (
        marks_kept after w.balancer.targets w.checker.targets w.checker.slots idx s v q same,
        refl,
      )
      | inl turns ↦ rw (probe_turns w idx up u s e q turns) (
        rw
            (set_health_in-endpoint (after s).healthy_sn w.balancer.targets w.checker.targets idx u
              v.same_targets distinct e)
            (marked_together after (after s).healthy_sn w.balancer.targets w.checker.targets
              w.checker.slots idx s v q refl),
        refl,
      )
    ]

-- If no two upstreams have one address and port, then from a balancer in step with its checker
-- on, after any probes in any order every target carries the mark that the checker has announced.
pub probes-InStep :
    (w : Watched) (ps : List (ℕ × Bool))
    → HasDistinctEndpoints w.checker.targets
    → InStep w
    → InStep (probes w ps)
unfolding probes
probes-InStep w [] distinct v = v
probes-InStep w ((idx, up) ∷ ps) distinct v =
    let (v', same) = probe-InStep w idx up distinct v in
    probes-InStep (probe w (idx, up)) ps (subst HasDistinctEndpoints (sym same) distinct) v'
