-- ===== src/Health/Examples.antt =====
-- internal/health: the theorems at a concrete checker.
use mathlib.Core.Option.{some-injective}
use mathlib.Core.Bool.{false≢true}
use route_x_reverse_proxy.Common.{
  ℕ, zero, suc, ◌≡◌, refl, Bool, true, false, List, [], ◌∷◌, none, some, arith, replicate,
  get_elem?, ◌&&◌, ◌||◌, subst, sym, ◌==◌, nat_eq,
}
use route_x_reverse_proxy.Common.Int.{pos}
use route_x_reverse_proxy.Net.{Ip, ip_equal}
use route_x_reverse_proxy.Lb.Target.{Target, new_target, health_mark}
use route_x_reverse_proxy.Lb.Algorithms.{round_robin}
use route_x_reverse_proxy.Lb.Balancer.{set_health, set_health_in}
use route_x_reverse_proxy.Health.Checker.{Config, Upstream, Slot, fresh, probe_slot, probe_once}
use route_x_reverse_proxy.Health.Streaks.{after, after-failures_in_row, after-passes_in_row}
use route_x_reverse_proxy.Health.Marks.{
  upstream_of, HasDistinctEndpoints, InStep, Watched, deliver, probe, probes, probes-InStep,
}

abbrev config : Config
config = record {
  interval = pos 5000;
  timeout = pos 1000;
  failures_before_eject = pos 3;
  passes_before_readmit = pos 2;
}

-- A healthy target with two failures, and an ejected one with a pass.
abbrev shaken : Slot
shaken = record { fail = 2; pass = 0; healthy_sn = true }

abbrev recovering : Slot
recovering = record { fail = 0; pass = 1; healthy_sn = false }

after-failures_in_row_example :
    (after config shaken (true ∷ replicate 2 false)).healthy_sn
    ≡ ((after config shaken (true ∷ [])).healthy_sn && true)
after-failures_in_row_example = after-failures_in_row config 2 shaken

after-passes_in_row_example :
    (after config recovering (false ∷ replicate 1 true)).healthy_sn
    ≡ ((after config recovering (false ∷ [])).healthy_sn || false)
after-passes_in_row_example = after-passes_in_row config 1 recovering

abbrev history : List Bool
history = false ∷ true ∷ false ∷ false ∷ false ∷ []

history_ejects : (after config fresh history).healthy_sn ≡ false
unfolding after probe_slot
history_ejects = refl

abbrev ip : ℕ → Ip
ip n = 10 ∷ 0 ∷ 0 ∷ n ∷ []

abbrev upstreams : List Upstream
upstreams = record { ip = ip 1; port = 80 } ∷ record { ip = ip 2; port = 80 } ∷ []

abbrev watched : Watched
watched = record {
  checker = record {
    cfg = config;
    targets = upstreams;
    slots = fresh ∷ fresh ∷ [];
    running = true;
  };
  balancer = record {
    algorithm = round_robin;
    targets = new_target (ip 1) 80 (pos 1) true ∷ new_target (ip 2) 80 (pos 1) true ∷ [];
    rr_cursor = 0;
    sticky = none;
  };
}

-- The test on two given upstreams, through the names that the statement gives them.
endpoints :
    {x y u v : Upstream}
    → some x ≡ some u
    → some y ≡ some v
    → (ip_equal v.ip u.ip && v.port == u.port) ≡ true
    → (ip_equal y.ip x.ip && y.port == x.port) ≡ true
endpoints {x} {y} {u} {v} a b m =
    subst (λ (w : Upstream). (ip_equal y.ip w.ip && y.port == w.port) ≡ true)
      (sym (some-injective _ _ a))
      (subst (λ (w : Upstream). (ip_equal w.ip u.ip && w.port == u.port) ≡ true)
        (sym (some-injective _ _ b)) m)

upstreams_distinct : HasDistinctEndpoints upstreams
unfolding ip_equal
upstreams_distinct zero zero u v a b m = refl
upstreams_distinct zero (suc zero) u v a b m = absurd (false≢true (endpoints a b m))
upstreams_distinct zero (suc (suc j)) u v a b m = absurd (ground arith)
upstreams_distinct (suc zero) zero u v a b m = absurd (false≢true (endpoints a b m))
upstreams_distinct (suc zero) (suc zero) u v a b m = refl
upstreams_distinct (suc zero) (suc (suc j)) u v a b m = absurd (ground arith)
upstreams_distinct (suc (suc i)) j u v a b m = absurd (ground arith)

marks_of_watched :
    (i : ℕ) (t : Target) (s : Slot)
    → get_elem? watched.balancer.targets i ≡ some t
    → get_elem? watched.checker.slots i ≡ some s
    → t.healthy ≡ s.healthy_sn
unfolding new_target
marks_of_watched zero t s a b = ground arith
marks_of_watched (suc zero) t s a b = ground arith
marks_of_watched (suc (suc i)) t s a b = absurd (ground arith)

watched-InStep : InStep watched
unfolding upstream_of new_target
watched-InStep = record { same_targets = refl; marked = marks_of_watched }

abbrev outage : List (ℕ × Bool)
outage = (1, false) ∷ (0, true) ∷ (1, false) ∷ (1, false) ∷ []

outage_marks :
    (i : ℕ) (t : Target)
    → get_elem? (probes watched outage).balancer.targets i ≡ some t
    → t.healthy ≡ (i == 0)
unfolding probes probe probe_once probe_slot deliver set_health set_health_in ip_equal new_target
    health_mark
outage_marks zero t e = ground arith
outage_marks (suc zero) t e = ground arith
outage_marks (suc (suc i)) t e = absurd (ground arith)

probes-InStep_example : InStep (probes watched outage)
probes-InStep_example = probes-InStep watched outage upstreams_distinct watched-InStep
