-- ===== src/Lb/Affinity.antt =====
-- internal/lb/balancer.go, the sticky table over a history of picks, releases, health changes and
-- prunings: an address keeps its target.
use route_x_reverse_proxy.Common.{
  ℕ, ◌+◌, ◌%◌, ◌^◌, ◌≤◌, ◌<◌, ◌≡◌, refl, inl, inr, Bool, true, false, not, List, [], ◌∷◌, Option,
  none, some, String, ok, err, arith, leb, All, get_elem?, Bool-cases, Option-cases, same_refl,
  string_eq, ◌==◌, ap, ◌∙◌,
}
use route_x_reverse_proxy.Common.Assoc.{Distinct, Distinct-insert, Distinct-retain}
use route_x_reverse_proxy.Net.{Ip, is_nil}
use route_x_reverse_proxy.Lb.Sticky.{StickyTable, lapsed, get, put, prune, get-put, get-prune}
use route_x_reverse_proxy.Lb.Algorithms.{Picked, pick_alg}
use route_x_reverse_proxy.Lb.Balancer.{
  Balancer, sticky_hit, remember, pick, release, set_health, prune_sticky_table,
}
use route_x_reverse_proxy.Lb.Scanning.{healthy_at}
use route_x_reverse_proxy.Lb.Picks.{pick_hit, pick_missed, pick_failed, healthy_at-healthy_target}
use route_x_reverse_proxy.Lb.Ledger.{
  Event, picks, gives_back, marks, prunes, Ledger, step, run, give_back,
}

-- A table that gives the index to the key at a time.
pub record Maps (key : String) (time idx : ℕ) (o : Option StickyTable) : Type 0 where
  pub table : StickyTable
  pub here : o ≡ some table
  pub distinct : Distinct table.entries
  pub found : get table key time ≡ some idx

put-Distinct :
    (s : StickyTable) (key : String) (idx now : ℕ)
    → Distinct s.entries
    → Distinct (put s key idx now).entries
unfolding put
put-Distinct s key idx now d = Distinct-insert key _ s.entries d

prune-Distinct : (s : StickyTable) (now : ℕ) → Distinct s.entries → Distinct (prune s now).entries
unfolding prune
prune-Distinct s now d = Distinct-retain _ s.entries d

module _ (ip_string : Ip → String) (src : Ip) (time : ℕ) where
  -- A pick for an address with another text, a pruning that is not later than the time, and
  -- everything that is neither.
  abbrev pub spares : Event → Bool
  spares (picks other now later) = not (ip_string other == ip_string src)
  spares (gives_back k) = true
  spares (marks ip port healthy) = true
  spares (prunes now) = leb now time

module _ (ip_string : Ip → String) (rand : ℕ → ℕ) (src : Ip) (time idx : ℕ) where
  abbrev Keeps : Balancer → Type 0
  Keeps b = Maps (ip_string src) time idx b.sticky

  remember-Maps :
      (other : Ip) (i later : ℕ) (o : Option StickyTable)
      → (ip_string other == ip_string src) ≡ false
      → Maps (ip_string src) time idx o
      → Maps (ip_string src) time idx (remember ip_string other i later o)
  unfolding remember
  remember-Maps other i later none differs m = absurd (ground (arith, m.here))
  remember-Maps other i later (some s) differs m = elim (Bool-cases (is_nil other)) [
    | inl nil ↦ rw nil m
    | inr given ↦ rw given (record {
      table = put m.table (ip_string other) i later;
      here =
          ap (λ o. elim o [ none ↦ some s | some x ↦ some (put x (ip_string other) i later) ])
            m.here;
      distinct = put-Distinct m.table (ip_string other) i later m.distinct;
      found = get-put m.table (ip_string other) (ip_string src) i later time ∙ rw differs m.found;
    })
  ]

  pick-Keeps :
      (b : Balancer) (other : Ip) (now later : ℕ)
      → (ip_string other == ip_string src) ≡ false
      → Keeps b
      → Keeps (pick ip_string rand b other now later).0
  pick-Keeps b other now later differs m = elim (Option-cases (sticky_hit ip_string b other now)) [
    | inr (i, e) ↦ rw (pick_hit ip_string rand b other now later i e) m
    | inl e ↦ slow (pick_alg rand b.algorithm b.targets b.rr_cursor other).1 refl e
  ]
    where
      slow :
          (r : Picked)
          → (pick_alg rand b.algorithm b.targets b.rr_cursor other).1 ≡ r
          → sticky_hit ip_string b other now ≡ none
          → Keeps (pick ip_string rand b other now later).0
      slow (ok i) q e =
          rw (pick_missed ip_string rand b other now later i e q)
            (remember-Maps other i later b.sticky differs m)
      slow (err x) q e = rw (pick_failed ip_string rand b other now later x e q) m

  give_back-Keeps :
      (b : Balancer) (held : List ℕ) (k : ℕ) (o : Option ℕ)
      → Keeps b
      → Keeps (give_back b held k o).balancer
  unfolding give_back release
  give_back-Keeps b held k none m = m
  give_back-Keeps b held k (some i) m = m

  prune-Keeps : (b : Balancer) (now : ℕ) → now ≤ time → Keeps b → Keeps (prune_sticky_table b now)
  unfolding prune_sticky_table
  prune-Keeps b now early m = record {
    table = prune m.table now;
    here = ap (λ o. elim o [ none ↦ none | some s ↦ some (prune s now) ]) m.here;
    distinct = prune-Distinct m.table now m.distinct;
    found = get-prune m.table (ip_string src) now time m.distinct early ∙ m.found;
  }

  step-Keeps :
      (l : Ledger) (e : Event)
      → spares ip_string src time e ≡ true
      → Keeps l.balancer
      → Keeps (step ip_string rand l e).balancer
  unfolding step
  step-Keeps l (picks other now later) other_key m =
      pick-Keeps l.balancer other now later (ground (arith, other_key)) m
  step-Keeps l (gives_back k) h m = give_back-Keeps l.balancer l.held k (get_elem? l.held k) m
  step-Keeps l (marks ip port healthy) h m = unfold set_health in m
  step-Keeps l (prunes now) early m = prune-Keeps l.balancer now (ground (arith, early)) m

  run-Keeps :
      (l : Ledger) (es : List Event)
      → All (λ e. spares ip_string src time e ≡ true) es
      → Keeps l.balancer
      → Keeps (run ip_string rand l es).balancer
  unfolding run
  run-Keeps l [] h m = m
  run-Keeps l (e ∷ es) h m = run-Keeps (step ip_string rand l e) es h.1 (step-Keeps l e h.0 m)

  kept_hit :
      (b : Balancer)
      → is_nil src ≡ false
      → healthy_at b.targets idx ≡ true
      → Keeps b
      → sticky_hit ip_string b src time ≡ some idx
  unfolding sticky_hit
  kept_hit b given up m =
      rw (m.here, sticky_hit)
        (rw (given, sticky_hit)
          (rw (m.found, sticky_hit) (healthy_at-healthy_target b.targets idx up)))

module _ (ip_string : Ip → String) (rand : ℕ → ℕ) where
  stored :
      (b : Balancer) (s : StickyTable) (src : Ip) (now later idx : ℕ)
      → b.sticky ≡ some s
      → sticky_hit ip_string b src now ≡ none
      → (pick ip_string rand b src now later).1 ≡ ok idx
      → (pick ip_string rand b src now later).0.sticky ≡ remember ip_string src idx later (some s)
  stored b s src now later idx e miss r =
      go (pick_alg rand b.algorithm b.targets b.rr_cursor src).1 refl
    where
      go :
          (x : Picked)
          → (pick_alg rand b.algorithm b.targets b.rr_cursor src).1 ≡ x
          → (pick ip_string rand b src now later).0.sticky
            ≡ remember ip_string src idx later (some s)
      go (err x) q =
          absurd
            (ground (arith, r, ap (λ p. p.1) (pick_failed ip_string rand b src now later x miss q)))
      go (ok i) q =
          let p = pick_missed ip_string rand b src now later i miss q in
          let same : i ≡ idx = ground (arith, r, ap (λ p. p.1) p) in
          ap (λ p. p.0.sticky) p
          ∙ ap (λ o. remember ip_string src i later o) e
          ∙ ap (λ j. remember ip_string src j later (some s)) same

  put-Maps :
      (s : StickyTable) (src : Ip) (later idx time : ℕ)
      → is_nil src ≡ false
      → Distinct s.entries
      → later + s.ttl < 2 ^ 63
      → time < later + s.ttl
      → Maps (ip_string src) time idx (remember ip_string src idx later (some s))
  unfolding remember
  put-Maps s src later idx time given d fits early =
      let same = same_refl (ip_string src) in
      let live : lapsed ((later + s.ttl) % 2 ^ 64) time ≡ false = ground arith in
      rw given (record {
        table = put s (ip_string src) idx later;
        here = refl;
        distinct = put-Distinct s (ip_string src) idx later d;
        found = get-put s (ip_string src) (ip_string src) idx later time ∙ rw same (rw live refl);
      })

  -- Affinity: where the table has one entry for a key and an algorithm chose a target for an address,
  -- every history of picks for addresses with another text, releases, health changes and prunings not
  -- later than `time` leaves the address its target: asked at `time`, before the mapping's expiry,
  -- which is within an `int64`, a pick for it returns the same target if that is then healthy.
  pub pick_again :
      (l : Ledger) (es : List Event) (s : StickyTable) (src : Ip) (now later idx time after : ℕ)
      → l.balancer.sticky ≡ some s
      → Distinct s.entries
      → is_nil src ≡ false
      → sticky_hit ip_string l.balancer src now ≡ none
      → (pick ip_string rand l.balancer src now later).1 ≡ ok idx
      → later + s.ttl < 2 ^ 63
      → time < later + s.ttl
      → All (λ e. spares ip_string src time e ≡ true) es
      → healthy_at (run ip_string rand l (picks src now later ∷ es)).balancer.targets idx ≡ true
      → (pick ip_string rand
          (run ip_string rand l (picks src now later ∷ es)).balancer
          src
          time
          after).1
        ≡ ok idx
  unfolding run step
  pick_again l es s src now later idx time after e d given miss r fits early spared up =
      let m =
        rw (← (stored l.balancer s src now later idx e miss r)) at
          (put-Maps s src later idx time given d fits early) in
      let first = step ip_string rand l (picks src now later) in
      let kept = run-Keeps ip_string rand src time idx first es spared m in
      ap (λ p. p.1)
        (pick_hit ip_string rand (run ip_string rand first es).balancer src time after idx (
          kept_hit ip_string rand src time idx (run ip_string rand first es).balancer given up
            kept))
