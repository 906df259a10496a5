-- ===== src/Health/Streaks.antt =====
-- internal/health/checker.go, `probeOnce` over a history of probes of one target.
use Prim.Native.Nat.{max}
use route_x_reverse_proxy.Common.{
  ℕ, zero, suc, ◌+◌, ◌<◌, ◌≤◌, ◌≡◌, inl, inr, Bool, true, false, not, ◌&&◌, ◌||◌, List, [], ◌∷◌,
  arith, if◌then◌else◌, replicate, ltb, leb, Bool-cases, ◌∙◌, ap,
}
use route_x_reverse_proxy.Common.Int.{ℤ, pos, negsuc, leb_ℤ}
use route_x_reverse_proxy.Health.Checker.{Config, Slot, probe_slot}

-- The slot after probes, the first one first.
unfoldable pub after : Config → Slot → List Bool → Slot
after cfg s [] = s
after cfg s (up ∷ ups) = after cfg (probe_slot cfg up s) ups

-- The threshold in probes: a threshold that is not positive acts as 1.
abbrev pub at_least_one : ℤ → ℕ
at_least_one (pos zero) = 1
at_least_one (pos (suc n)) = suc n
at_least_one (negsuc n) = 1

abbrev pub fails : Config → ℕ
fails cfg = at_least_one cfg.failures_before_eject

abbrev pub passes : Config → ℕ
passes cfg = at_least_one cfg.passes_before_readmit

reached : (z : ℤ) (n : ℕ) → leb_ℤ z (pos (n + 1)) ≡ leb (at_least_one z) (n + 1)
reached (pos zero) n = ground arith
reached (pos (suc k)) n = ground arith
reached (negsuc k) n = ground arith

fail_slot :
    (cfg : Config) (s : Slot)
    → ((probe_slot cfg false s).fail ≡ s.fail + 1)
      × ((probe_slot cfg false s).healthy_sn ≡ (s.healthy_sn && not (leb (fails cfg) (s.fail + 1))))
unfolding probe_slot
fail_slot cfg s = ground (arith, reached cfg.failures_before_eject s.fail)

pass_slot :
    (cfg : Config) (s : Slot)
    → ((probe_slot cfg true s).pass ≡ s.pass + 1)
      × ((probe_slot cfg true s).fail ≡ 0)
      × ((probe_slot cfg true s).healthy_sn
          ≡ (if s.healthy_sn then true else leb (passes cfg) (s.pass + 1)))
unfolding probe_slot
pass_slot cfg s = ground (arith, reached cfg.passes_before_readmit s.pass)

fail_resets : (cfg : Config) (s : Slot) → (probe_slot cfg false s).pass ≡ 0
unfolding probe_slot
fail_resets cfg s = ground arith

one-le : (z : ℤ) → 0 < at_least_one z
one-le (pos zero) = omega arith
one-le (pos (suc n)) = omega arith
one-le (negsuc n) = omega arith

-- A target that is down stays down while its probes fail.
down_stays :
    (cfg : Config) (n : ℕ) (s : Slot)
    → s.healthy_sn ≡ false
    → (after cfg s (replicate n false)).healthy_sn ≡ false
unfolding after
down_stays cfg zero s h = h
down_stays cfg (suc n) s h =
    down_stays cfg n (probe_slot cfg false s) (ground (arith, (fail_slot cfg s).1))

up_stays :
    (cfg : Config) (n : ℕ) (s : Slot)
    → s.healthy_sn ≡ true
    → (after cfg s (replicate n true)).healthy_sn ≡ true
unfolding after
up_stays cfg zero s h = h
up_stays cfg (suc n) s h =
    up_stays cfg n (probe_slot cfg true s) (ground (arith, (pass_slot cfg s).2))

-- A healthy target whose probes fail n times in a row is announced healthy exactly while its
-- count of failures, those before included, is below the threshold.
after-more_failures :
    (cfg : Config) (n : ℕ) (s : Slot)
    → s.healthy_sn ≡ true
    → s.fail < fails cfg
    → (after cfg s (replicate n false)).healthy_sn ≡ ltb (s.fail + n) (fails cfg)
unfolding after
after-more_failures cfg zero s h l = ground arith
after-more_failures cfg (suc n) s h l =
    let (counted, announced) = fail_slot cfg s in
    elim (Bool-cases (leb (fails cfg) (s.fail + 1))) [
      | inl over ↦
          let down : (probe_slot cfg false s).healthy_sn ≡ false = ground arith in
          down_stays cfg n (probe_slot cfg false s) down ∙ (ground arith)
      | inr under ↦
          let up : (probe_slot cfg false s).healthy_sn ≡ true = ground arith in
          let below : (probe_slot cfg false s).fail < fails cfg = ground arith in
          let e : (probe_slot cfg false s).fail + n ≡ s.fail + suc n = omega arith in
          after-more_failures cfg n (probe_slot cfg false s) up below
          ∙ ap (λ x. ltb x (fails cfg)) e
    ]

-- An ejected target whose probes pass n times in a row is announced healthy again exactly from
-- the probe on with which its count of passes, those before included, reaches the threshold.
after-more_passes :
    (cfg : Config) (n : ℕ) (s : Slot)
    → s.healthy_sn ≡ false
    → s.pass < passes cfg
    → (after cfg s (replicate n true)).healthy_sn ≡ leb (passes cfg) (s.pass + n)
unfolding after
after-more_passes cfg zero s h l = ground arith
after-more_passes cfg (suc n) s h l =
    let (counted, none_failed, announced) = pass_slot cfg s in
    elim (Bool-cases (leb (passes cfg) (s.pass + 1))) [
      | inl over ↦
          let up : (probe_slot cfg true s).healthy_sn ≡ true = ground arith in
          up_stays cfg n (probe_slot cfg true s) up ∙ (ground arith)
      | inr under ↦
          let down : (probe_slot cfg true s).healthy_sn ≡ false = ground arith in
          let below : (probe_slot cfg true s).pass < passes cfg = ground arith in
          let e : (probe_slot cfg true s).pass + n ≡ s.pass + suc n = omega arith in
          after-more_passes cfg n (probe_slot cfg true s) down below ∙ ap (leb (passes cfg)) e
    ]

-- The announced state after a pass and n failures in a row, whatever the slot before: the target is
-- announced healthy exactly if it was so after the pass and n is below the threshold for ejection.
pub after-failures_in_row :
    (cfg : Config) (n : ℕ) (s : Slot)
    → (after cfg s (true ∷ replicate n false)).healthy_sn
      ≡ ((after cfg s (true ∷ [])).healthy_sn && ltb n (fails cfg))
unfolding after
after-failures_in_row cfg n s =
    let t = probe_slot cfg true s in
    let (counted, none_failed, announced) = pass_slot cfg s in
    let positive = one-le (cfg.failures_before_eject) in
    elim (Bool-cases t.healthy_sn) [
      | inr down ↦ down_stays cfg n t down ∙ (ground (arith, down))
      | inl up ↦
          after-more_failures cfg n t up (omega (arith, none_failed, positive))
          ∙ ap (λ x. ltb (x + n) (fails cfg)) none_failed
          ∙ (ground (arith, up))
    ]

-- The announced state after a failure and n passes in a row, whatever the slot before: the target is
-- announced healthy exactly if it was so after the failure or n reaches the threshold for
-- readmission.
pub after-passes_in_row :
    (cfg : Config) (n : ℕ) (s : Slot)
    → (after cfg s (false ∷ replicate n true)).healthy_sn
      ≡ ((after cfg s (false ∷ [])).healthy_sn || leb (passes cfg) n)
unfolding after
after-passes_in_row cfg n s =
    let t = probe_slot cfg false s in
    let none_passed : t.pass ≡ 0 = fail_resets cfg s in
    let positive = one-le (cfg.passes_before_readmit) in
    elim (Bool-cases t.healthy_sn) [
      | inl up ↦ up_stays cfg n t up ∙ (ground (arith, up))
      | inr down ↦
          after-more_passes cfg n t down (omega (arith, none_passed, positive))
          ∙ ap (λ x. leb (passes cfg) (x + n)) none_passed
          ∙ (ground (arith, down))
    ]

-- The longest run of failures in a history, behind `cur` failures in a row.
abbrev pub worst_run : ℕ → List Bool → ℕ
worst_run cur [] = cur
worst_run cur (false ∷ ups) = worst_run (suc cur) ups
worst_run cur (true ∷ ups) = max cur (worst_run 0 ups)

worst_run-le : (cur : ℕ) (ups : List Bool) → cur ≤ worst_run cur ups
worst_run-le cur [] = omega arith
worst_run-le cur (false ∷ ups) = omega (arith, worst_run-le (suc cur) ups)
worst_run-le cur (true ∷ ups) = omega arith

-- A healthy target is found ejected only if, counting the failures before, as many failures in a
-- row as the threshold asks for stand in its history.
pub ejected_needs_failures :
    (cfg : Config) (ups : List Bool) (s : Slot)
    → s.healthy_sn ≡ true
    → (after cfg s ups).healthy_sn ≡ false
    → fails cfg ≤ worst_run s.fail ups
unfolding after
ejected_needs_failures cfg [] s h e = absurd (ground arith)
ejected_needs_failures cfg (true ∷ ups) s h e =
    let (counted, none_failed, announced) = pass_slot cfg s in
    let ih = ejected_needs_failures cfg ups (probe_slot cfg true s) (ground arith) e in
    let same : worst_run (probe_slot cfg true s).fail ups ≡ worst_run 0 ups =
      ap (λ x. worst_run x ups) none_failed in
    omega arith
ejected_needs_failures cfg (false ∷ ups) s h e =
    let (counted, announced) = fail_slot cfg s in
    let one : s.fail + 1 ≡ suc s.fail = omega arith in
    let same : worst_run (probe_slot cfg false s).fail ups ≡ worst_run (suc s.fail) ups =
      ap (λ x. worst_run x ups) (counted ∙ one) in
    elim (Bool-cases (leb (fails cfg) (s.fail + 1))) [
      | inl over ↦
          let le : fails cfg ≤ s.fail + 1 = ground arith in
          omega (arith, worst_run-le (suc s.fail) ups)
      | inr under ↦
          let ih = ejected_needs_failures cfg ups (probe_slot cfg false s) (ground arith) e in
          omega arith
    ]
