-- ===== src/Lb/Picks.antt =====
-- internal/lb/balancer.go, `Pick`: what the caller gets, whatever the algorithm, and what the
-- balancer becomes.
use route_x_reverse_proxy.Common.{
  ℕ, ◌+◌, ◌%◌, ◌^◌, ◌<◌, ◌≡◌, refl, inl, inr, Bool, true, false, List, Option, none, some, String,
  ok, err, arith, length, get_elem?, modify, Bool-cases, Option-cases, string_eq, subst,
  if◌then◌else◌,
}
use route_x_reverse_proxy.Net.{Ip, is_nil}
use route_x_reverse_proxy.Lb.Target.{Target, inc_active}
use route_x_reverse_proxy.Lb.Sticky.{StickyTable, get}
use route_x_reverse_proxy.Lb.Algorithms.{
  Algorithm, round_robin, least_conn, ip_hash, weighted, random, PickError, no_healthy_targets,
  Picked, eligible, pick_ip_hash, pick_alg, fnv32a,
}
use route_x_reverse_proxy.Lb.Balancer.{Balancer, healthy_target, sticky_hit, remember, pick}
use route_x_reverse_proxy.Lb.Scanning.{
  healthy_at, Next, found, exhausted, scan-Next, pick_round_robin-Next,
}
use route_x_reverse_proxy.Lb.Least.{Least, least, all_down, pick_least_conn-Least}
use route_x_reverse_proxy.Lb.Weights.{Passing, eligible_weight}
use route_x_reverse_proxy.Lb.Draws.{
  Selected, selected, nothing, InRange, pick_weighted-Selected, pick_random-Selected,
}

abbrev is_up : Target → Bool
is_up t = t.healthy

-- The targets that an algorithm may choose.
abbrev pub candidate : Algorithm → Target → Bool
candidate round_robin t = t.healthy
candidate least_conn t = t.healthy
candidate ip_hash t = t.healthy
candidate weighted t = eligible t
candidate random t = t.healthy

healthy_at-Passing : (ts : List Target) (i : ℕ) → healthy_at ts i ≡ true → Passing is_up ts i
healthy_at-Passing ts i h = go (get_elem? ts i) refl h
  where
    go : (o : Option Target) → get_elem? ts i ≡ o → healthy_at ts i ≡ true → Passing is_up ts i
    go none e q = absurd (ground arith)
    go (some t) e q = (t, e, rw (e, healthy_at) at q)

all_down-at :
    (ts : List Target)
    → ((i : ℕ) → healthy_at ts i ≡ false)
    → (j : ℕ) (t : Target) → get_elem? ts j ≡ some t
    → t.healthy ≡ false
all_down-at ts h j t e = rw (e, healthy_at) at (h j)

Next-Selected : (ts : List Target) (s : ℕ) (r : Picked) → Next ts s r → Selected is_up ts r
Next-Selected ts s r (found d l h before e) = selected _ (healthy_at-Passing ts _ h) e
Next-Selected ts s r (exhausted down e) = nothing (all_down-at ts down) e

Least-Selected : (ts : List Target) (r : Picked) → Least ts r → Selected is_up ts r
Least-Selected ts r (least k t e h fewest q) = selected k (t, e, h) q
Least-Selected ts r (all_down down e) = nothing (all_down-at ts down) e

-- How far a pick by an algorithm moves the cursor.
abbrev pub turns : Algorithm → Ip → ℕ
turns round_robin src = 1
turns least_conn src = 0
turns ip_hash src = if is_nil src then 1 else 0
turns weighted src = 0
turns random src = 0

pick_ip_hash-Selected :
    (ts : List Target) (cursor : ℕ) (src : Ip)
    → 0 < length ts
    → cursor < 2 ^ 63
    → Selected is_up ts (pick_ip_hash ts cursor src).1
      × ((pick_ip_hash ts cursor src).0 ≡ cursor + turns ip_hash src)
unfolding pick_ip_hash
pick_ip_hash-Selected ts cursor src n h = elim (Bool-cases (is_nil src)) [
  | inl nil ↦
      let p = pick_round_robin-Next ts cursor n h in
      rw nil (Next-Selected ts cursor _ p.0, omega arith)
  | inr given ↦ rw given (
    Next-Selected ts (fnv32a 2166136261 src % length ts) _
        (scan-Next ts (fnv32a 2166136261 src % length ts) n),
    omega arith,
  )
]

-- Every algorithm chooses a candidate of its own, and fails only where there is none.
pub pick_alg-Selected :
    (rand : ℕ → ℕ) (alg : Algorithm) (ts : List Target) (cursor : ℕ) (src : Ip)
    → InRange rand
    → 0 < length ts
    → cursor < 2 ^ 63
    → eligible_weight ts < 2 ^ 63
    → Selected (candidate alg) ts (pick_alg rand alg ts cursor src).1
      × ((pick_alg rand alg ts cursor src).0 ≡ cursor + turns alg src)
unfolding pick_alg
pick_alg-Selected rand round_robin ts cursor src fair n h small =
    let p = pick_round_robin-Next ts cursor n h in (Next-Selected ts cursor _ p.0, omega arith)
pick_alg-Selected rand least_conn ts cursor src fair n h small =
    (Least-Selected ts _ (pick_least_conn-Least ts), omega arith)
pick_alg-Selected rand ip_hash ts cursor src fair n h small =
    pick_ip_hash-Selected ts cursor src n h
pick_alg-Selected rand weighted ts cursor src fair n h small =
    (pick_weighted-Selected rand ts fair small, omega arith)
pick_alg-Selected rand random ts cursor src fair n h small =
    (pick_random-Selected rand ts fair, omega arith)

-- What `Pick` does: it counts one connection on a healthy target and returns that target, or it
-- fails and leaves every target and the sticky table as they were.
pub data Outcome (b : Balancer) (p : Balancer × Picked) : Type 0 where
  chosen :
      (idx : ℕ) (t : Target)
      → get_elem? b.targets idx ≡ some t
      → t.healthy ≡ true
      → p.0.targets ≡ modify idx inc_active b.targets
      → p.1 ≡ ok idx
      → Outcome b p
  refused :
      ((j : ℕ) (t : Target) → get_elem? b.targets j ≡ some t → candidate b.algorithm t ≡ false)
      → p.0.targets ≡ b.targets
      → p.0.sticky ≡ b.sticky
      → p.1 ≡ err no_healthy_targets
      → Outcome b p

candidate-healthy : (alg : Algorithm) (t : Target) → candidate alg t ≡ true → t.healthy ≡ true
candidate-healthy round_robin t h = h
candidate-healthy least_conn t h = h
candidate-healthy ip_hash t h = h
candidate-healthy weighted t h = ground arith
candidate-healthy random t h = h

healthy_target-some :
    (ts : List Target) (i idx : ℕ)
    → healthy_target ts i ≡ some idx
    → (t : Target) × (get_elem? ts idx ≡ some t) × (t.healthy ≡ true)
healthy_target-some ts i idx e = go (get_elem? ts i) refl e
  where
    go :
        (o : Option Target)
        → get_elem? ts i ≡ o
        → healthy_target ts i ≡ some idx
        → (t : Target) × (get_elem? ts idx ≡ some t) × (t.healthy ≡ true)
    go none q h = absurd (ground arith)
    go (some t) q h = elim (Bool-cases t.healthy) [
      | inl up ↦
          let same : i ≡ idx = ground (arith, rw (q, healthy_target) at h) in
          (t, subst (λ x. get_elem? ts x ≡ some t) same q, up)
      | inr down ↦ absurd (ground arith)
    ]

pub healthy_at-healthy_target :
    (ts : List Target) (i : ℕ) → healthy_at ts i ≡ true → healthy_target ts i ≡ some i
healthy_at-healthy_target ts i h = ground arith

module _ (ip_string : Ip → String) where
  sticky_hit-healthy :
      (b : Balancer) (src : Ip) (now idx : ℕ)
      → sticky_hit ip_string b src now ≡ some idx
      → (t : Target) × (get_elem? b.targets idx ≡ some t) × (t.healthy ≡ true)
  unfolding sticky_hit
  sticky_hit-healthy b src now idx e = go b.sticky refl
    where
      entry :
          (s : StickyTable)
          → b.sticky ≡ some s
          → (o : Option ℕ) → get s (ip_string src) now ≡ o
          → (t : Target) × (get_elem? b.targets idx ≡ some t) × (t.healthy ≡ true)
      entry s q none g = absurd (ground arith)
      entry s q (some i) g = healthy_target-some b.targets i idx (ground arith)

      go :
          (o : Option StickyTable)
          → b.sticky ≡ o
          → (t : Target) × (get_elem? b.targets idx ≡ some t) × (t.healthy ≡ true)
      go none q = absurd (ground arith)
      go (some s) q = entry s q (get s (ip_string src) now) refl

module _ (ip_string : Ip → String) (rand : ℕ → ℕ) where
  pub pick_hit :
      (b : Balancer) (src : Ip) (now later idx : ℕ)
      → sticky_hit ip_string b src now ≡ some idx
      → pick ip_string rand b src now later
        ≡ (record b { targets = modify idx inc_active b.targets }, ok idx)
  unfolding pick
  pick_hit b src now later idx e = rw (e, pick)

  pub pick_missed :
      (b : Balancer) (src : Ip) (now later idx : ℕ)
      → sticky_hit ip_string b src now ≡ none
      → (pick_alg rand b.algorithm b.targets b.rr_cursor src).1 ≡ ok idx
      → pick ip_string rand b src now later ≡ (
        record b {
          targets = modify idx inc_active b.targets;
          rr_cursor = (pick_alg rand b.algorithm b.targets b.rr_cursor src).0;
          sticky = remember ip_string src idx later b.sticky;
        },
        ok idx,
      )
  unfolding pick
  pick_missed b src now later idx e q = rw (e, pick) (rw (q, pick))

  pub pick_failed :
      (b : Balancer) (src : Ip) (now later : ℕ) (x : PickError)
      → sticky_hit ip_string b src now ≡ none
      → (pick_alg rand b.algorithm b.targets b.rr_cursor src).1 ≡ err x
      → pick ip_string rand b src now later
        ≡ (record b { rr_cursor = (pick_alg rand b.algorithm b.targets b.rr_cursor src).0 }, err x)
  unfolding pick
  pick_failed b src now later x e q = rw (e, pick) (rw (q, pick))

  -- How far a pick moves the cursor: a sticky hit leaves it.
  abbrev pub advance : Balancer → Ip → ℕ → ℕ
  advance b src now = elim (sticky_hit ip_string b src now) [
    | none ↦ turns b.algorithm src
    | some idx ↦ 0
  ]

  -- While the cursor is below 2^63, the weights of the eligible targets add up to less than 2^63,
  -- there is a target and the generator's answers are in range, whatever the algorithm and the
  -- table: a healthy target is counted and returned, or no target is a candidate and nothing is
  -- counted. The cursor moves by one where round robin chose, and not at all otherwise.
  pub pick-Outcome :
      (b : Balancer) (src : Ip) (now later : ℕ)
      → InRange rand
      → 0 < length b.targets
      → b.rr_cursor < 2 ^ 63
      → eligible_weight b.targets < 2 ^ 63
      → Outcome b (pick ip_string rand b src now later)
        × ((pick ip_string rand b src now later).0.rr_cursor ≡ b.rr_cursor + advance b src now)
  pick-Outcome b src now later fair n h small =
      elim (Option-cases (sticky_hit ip_string b src now)) [
        | inr (idx, e) ↦
            let (t, q, up) = sticky_hit-healthy ip_string b src now idx e in
            rw (pick_hit b src now later idx e)
              (chosen idx t q up refl refl, rw (e, advance) (omega arith))
        | inl e ↦
            let p = pick_alg-Selected rand b.algorithm b.targets b.rr_cursor src fair n h small in
            slow e p.1 p.0
      ]
    where
      slow :
          sticky_hit ip_string b src now ≡ none
          → (pick_alg rand b.algorithm b.targets b.rr_cursor src).0
            ≡ b.rr_cursor + turns b.algorithm src
          → Selected
              (candidate b.algorithm)
              b.targets
              (pick_alg rand b.algorithm b.targets b.rr_cursor src).1
          → Outcome b (pick ip_string rand b src now later)
            × ((pick ip_string rand b src now later).0.rr_cursor ≡ b.rr_cursor + advance b src now)
      slow e l (selected idx (t, q, c) r) =
          rw (pick_missed b src now later idx e r)
            (chosen idx t q (candidate-healthy b.algorithm t c) refl refl, rw (e, advance) l)
      slow e l (nothing down r) =
          rw (pick_failed b src now later no_healthy_targets e r)
            (refused down refl refl refl, rw (e, advance) l)
