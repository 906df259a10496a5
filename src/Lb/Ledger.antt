-- ===== src/Lb/Ledger.antt =====
-- internal/lb/balancer.go: the active-connection counters over any history of picks, releases and
-- health changes, against the connections that the callers hold.
use route_x_reverse_proxy.Common.{
  modify-cases, ℕ, zero, suc, ◌+◌, ◌≡◌, refl, inl, inr, Bool, true, false, ◌&&◌, List, [], ◌∷◌,
  Option, none, some, String, ok, err, arith, get_elem?, modify, Bool-cases, Option-cases,
  if◌then◌else◌, ◌==◌, nat_eq, ap, ◌∙◌,
}
use route_x_reverse_proxy.Common.Int.{pos}
use route_x_reverse_proxy.Net.{Ip, ip_equal}
use route_x_reverse_proxy.Lb.Target.{
  Target, inc_active, dec_active, health_mark, inc_active-suc, dec_active-clamps,
}
use route_x_reverse_proxy.Lb.Algorithms.{Picked, pick_alg}
use route_x_reverse_proxy.Lb.Picks.{pick_hit, pick_missed, pick_failed}
use route_x_reverse_proxy.Lb.Balancer.{
  Balancer, sticky_hit, pick, release, set_health_in, set_health, prune_sticky_table,
}

-- What callers do with a balancer: `gives_back k` releases the connection that stands at place `k`
-- among those held.
pub data Event : Type 0 where
  picks : Ip → ℕ → ℕ → Event
  gives_back : ℕ → Event
  marks : Ip → ℕ → Bool → Event
  prunes : ℕ → Event

pub record Ledger : Type 0 where
  pub balancer : Balancer
  pub held : List ℕ

abbrev remove_at : ℕ → List ℕ → List ℕ
remove_at k [] = []
remove_at zero (x ∷ xs) = xs
remove_at (suc k) (x ∷ xs) = x ∷ remove_at k xs

abbrev pub count : ℕ → List ℕ → ℕ
count i [] = 0
count i (x ∷ xs) = (if x == i then 1 else 0) + count i xs

abbrev pub taken : Picked → List ℕ → List ℕ
taken (ok idx) held = idx ∷ held
taken (err e) held = held

unfoldable pub give_back : Balancer → List ℕ → ℕ → Option ℕ → Ledger
give_back b held k none = record { balancer = b; held = held }
give_back b held k (some idx) = record { balancer = release b (some idx); held = remove_at k held }

module _ (ip_string : Ip → String) (rand : ℕ → ℕ) where
  unfoldable pub step : Ledger → Event → Ledger
  unfolding give_back
  step l (picks src now later) =
      let (b, r) = pick ip_string rand l.balancer src now later in
      record { balancer = b; held = taken r l.held }
  step l (gives_back k) = give_back l.balancer l.held k (get_elem? l.held k)
  step l (marks ip port healthy) = record l { balancer = set_health ip port healthy l.balancer }
  step l (prunes now) = record l { balancer = prune_sticky_table l.balancer now }

  unfoldable pub run : Ledger → List Event → Ledger
  run l [] = l
  run l (e ∷ es) = run (step l e) es

-- Each target counts exactly the connections held on it.
abbrev pub IsExact : List Target → List ℕ → Type 0
IsExact ts held =
    (i : ℕ) (t : Target) → get_elem? ts i ≡ some t → t.active_conns ≡ pos (count i held)

inc-IsExact :
    (ts : List Target) (held : List ℕ) (idx : ℕ)
    → IsExact ts held
    → IsExact (modify idx inc_active ts) (idx ∷ held)
inc-IsExact ts held idx v i t e = elim (modify-cases inc_active ts idx i t e) [
  | inr (other, q) ↦
      let h = v i t q in
      let miss : (idx == i) ≡ false = ground arith in rw miss (h ∙ ap pos (omega arith))
  | inl (same, u, q, f) ↦
      let h = v i u q in
      let hit : (idx == i) ≡ true = ground arith in
      rw hit (
        ap (λ (x : Target). x.active_conns) f
        ∙ inc_active-suc u (count i held) h
        ∙ ap pos (omega arith))
]

count-remove_at :
    (i k x : ℕ) (held : List ℕ)
    → get_elem? held k ≡ some x
    → count i held ≡ (if x == i then 1 else 0) + count i (remove_at k held)
count-remove_at i k x [] e = absurd (ground arith)
count-remove_at i zero x (y ∷ held) e = ground arith
count-remove_at i (suc k) x (y ∷ held) e = omega (arith, count-remove_at i k x held e)

-- One connection less on a target.
pub dec-IsExact :
    (ts : List Target) (held left : List ℕ) (idx : ℕ)
    → ((i : ℕ) → count i held ≡ (if idx == i then 1 else 0) + count i left)
    → IsExact ts held
    → IsExact (modify idx dec_active ts) left
dec-IsExact ts held left idx less v i t e = elim (modify-cases dec_active ts idx i t e) [
  | inr (other, q) ↦
      let h = v i t q in
      let miss : (idx == i) ≡ false = ground arith in
      let c : count i held ≡ (if false then 1 else 0) + count i left = rw miss at (less i) in
      h ∙ ap pos (omega arith)
  | inl (same, u, q, f) ↦
      let h = v i u q in
      let hit : (idx == i) ≡ true = ground arith in
      let c : count i held ≡ (if true then 1 else 0) + count i left = rw hit at (less i) in
      ap (λ (x : Target). x.active_conns) f
      ∙ dec_active-clamps u (count i held) h
      ∙ ap pos (omega arith)
]

-- Only the counts matter.
pub IsExact-counts :
    (ts : List Target) (held left : List ℕ)
    → ((i : ℕ) → count i held ≡ count i left)
    → IsExact ts held
    → IsExact ts left
IsExact-counts ts held left same v i t e = v i t e ∙ ap pos (same i)

pub set_health_in-active :
    (ip : Ip) (port : ℕ) (healthy : Bool) (ts : List Target) (i : ℕ) (t : Target)
    → get_elem? (set_health_in ip port healthy ts) i ≡ some t
    → (u : Target) × (get_elem? ts i ≡ some u) × (t.active_conns ≡ u.active_conns)
unfolding set_health_in health_mark
set_health_in-active ip port healthy [] i t e = absurd (ground arith)
set_health_in-active ip port healthy (x ∷ ts) zero t e = (x, refl, ground arith)
set_health_in-active ip port healthy (x ∷ ts) (suc i) t e =
    elim (Bool-cases (ip_equal x.ip ip && x.port == port)) [
      | inl here ↦ (t, rw here at e, refl)
      | inr later ↦ set_health_in-active ip port healthy ts i t (rw later at e)
    ]

module _ (ip_string : Ip → String) (rand : ℕ → ℕ) where
  -- A pick counts the target that it returns, and an error counts nothing.
  pub pick_counts :
      (b : Balancer) (src : Ip) (now later : ℕ) (held : List ℕ)
      → IsExact b.targets held
      → IsExact
          (pick ip_string rand b src now later).0.targets
          (taken (pick ip_string rand b src now later).1 held)
  pick_counts b src now later held v = elim (Option-cases (sticky_hit ip_string b src now)) [
    | inr (idx, e) ↦
        rw (pick_hit ip_string rand b src now later idx e) (inc-IsExact b.targets held idx v)
    | inl e ↦ slow (pick_alg rand b.algorithm b.targets b.rr_cursor src).1 refl e
  ]
    where
      slow :
          (r : Picked)
          → (pick_alg rand b.algorithm b.targets b.rr_cursor src).1 ≡ r
          → sticky_hit ip_string b src now ≡ none
          → IsExact
              (pick ip_string rand b src now later).0.targets
              (taken (pick ip_string rand b src now later).1 held)
      slow (ok idx) q e =
          rw (pick_missed ip_string rand b src now later idx e q) (inc-IsExact b.targets held idx v)
      slow (err x) q e = rw (pick_failed ip_string rand b src now later x e q) v

  give_back-IsExact :
      (b : Balancer) (held : List ℕ) (k : ℕ) (o : Option ℕ)
      → get_elem? held k ≡ o
      → IsExact b.targets held
      → IsExact (give_back b held k o).balancer.targets (give_back b held k o).held
  unfolding give_back release
  give_back-IsExact b held k none e v = v
  give_back-IsExact b held k (some idx) e v =
      dec-IsExact b.targets held (remove_at k held) idx (λ i. count-remove_at i k idx held e) v

  step-IsExact :
      (l : Ledger) (e : Event)
      → IsExact l.balancer.targets l.held
      → IsExact (step ip_string rand l e).balancer.targets (step ip_string rand l e).held
  unfolding step
  step-IsExact l (picks src now later) v = pick_counts l.balancer src now later l.held v
  step-IsExact l (gives_back k) v =
      give_back-IsExact l.balancer l.held k (get_elem? l.held k) refl v
  step-IsExact l (marks ip port healthy) v =
      unfold set_health in
      λ i t e.
        let (u, q, a) = set_health_in-active ip port healthy l.balancer.targets i t e in a ∙ v i u q
  step-IsExact l (prunes now) v = unfold prune_sticky_table in v

  -- From exact counters on, every history of picks, releases of held connections, health changes
  -- and prunings keeps each target's counter equal to the number of connections held on it.
  pub run-IsExact :
      (l : Ledger) (es : List Event)
      → IsExact l.balancer.targets l.held
      → IsExact (run ip_string rand l es).balancer.targets (run ip_string rand l es).held
  unfolding run
  run-IsExact l [] v = v
  run-IsExact l (e ∷ es) v = run-IsExact (step ip_string rand l e) es (step-IsExact l e v)
