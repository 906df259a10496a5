-- ===== src/Lb/Examples.antt =====
-- internal/lb: the theorems at concrete balancers, and tests of the definitions.
use route_x_reverse_proxy.Common.{
  ℕ, zero, suc, ◌+◌, ◌*◌, ◌^◌, ◌<◌, ◌≡◌, refl, Bool, true, false, List, [], ◌∷◌, Option, none, some,
  String, ok, err, arith, length, get_elem?, string_eq, nat_eq, ◌==◌, if◌then◌else◌,
}
use route_x_reverse_proxy.Common.Int.{ℤ, pos, ◌≤ℤ◌}
use route_x_reverse_proxy.Common.Assoc.{Distinct-insert, insert, lookup}
use route_x_reverse_proxy.Net.{Ip, contains, ip_equal}
use route_x_reverse_proxy.Lb.Target.{Target, health_mark, inc_active}
use route_x_reverse_proxy.Lb.Sticky.{StickyTable, StickyEntry, get, put, prune, get-prune}
use route_x_reverse_proxy.Lb.Algorithms.{
  round_robin, least_conn, random, index_out_of_range, intn_panic, scan, pick_round_robin,
  least_from, pick_least_conn, pick_weighted, pick_alg, indices_from, total_weight, draw, fnv32a,
}
use route_x_reverse_proxy.Lb.Balancer.{
  Balancer, new, parse_algorithm, seed_targets, pick, sticky_hit, remember, set_health,
  set_health_in, prune_sticky_table,
}
use route_x_reverse_proxy.Lb.Scanning.{healthy_at, Next, pick_round_robin-Next}
use route_x_reverse_proxy.Lb.Least.{Least, pick_least_conn-Least}
use route_x_reverse_proxy.Lb.Weights.{count_below, picks, eligible_weight}
use route_x_reverse_proxy.Lb.Draws.{InRange, pick_weighted-share, pick_weighted-overflow}
use route_x_reverse_proxy.Lb.Picks.{Outcome, advance, pick-Outcome}
use route_x_reverse_proxy.Lb.Affinity.{pick_again}
use route_x_reverse_proxy.Lb.Rotation.{cursor_after, round_robin_each_once, round_robin_overflow}
use route_x_reverse_proxy.Lb.Ledger.{Event, gives_back, Ledger, IsExact, step, run, run-IsExact}
use route_x_reverse_proxy.Lb.Race.{idle, decrements, settle, concurrent_releases}

abbrev ip_a : Ip
ip_a = 10 ∷ 0 ∷ 0 ∷ 1 ∷ []

abbrev ip_b : Ip
ip_b = 10 ∷ 0 ∷ 0 ∷ 2 ∷ []

abbrev target : Ip → ℤ → Bool → ℤ → Target
target ip weight healthy active = record {
  ip = ip;
  port = 25565;
  weight = weight;
  healthy = healthy;
  active_conns = active;
  total_conns = 0;
  fail_count = 0;
}

-- Loads 4, 2, down, 2; weights 1, 3, 5, 0.
abbrev pool : List Target
pool =
    target ip_a (pos 1) true (pos 4)
    ∷ target ip_b (pos 3) true (pos 2)
    ∷ target ip_a (pos 5) false (pos 0)
    ∷ target ip_b (pos 0) true (pos 2)
    ∷ []

abbrev pair : List Target
pair = target ip_a (pos 1) true (pos 0) ∷ target ip_b (pos 1) true (pos 0) ∷ []

abbrev trio : List Target
trio = target ip_a (pos 1) true (pos 0) ∷ pair

-- Any function will do for `IP.String` and the generator.
abbrev ip_string : Ip → String
ip_string ip = elim (get_elem? ip 3) [
  | none ↦ ""
  | some n ↦ if n == 1 then "10.0.0.1" else "10.0.0.2"
]

abbrev first : ℕ → ℕ
first n = 0

first-InRange : InRange first
first-InRange n h = h

round_robin_from_2 : pick_round_robin pool 2 ≡ (3, ok 3)
unfolding pick_round_robin scan
round_robin_from_2 = refl

least_conn_of_pool : pick_least_conn pool ≡ ok 1
unfolding pick_least_conn least_from
least_conn_of_pool = refl

weighted_draws : pick_weighted (λ n. 1) pool ≡ ok 1
unfolding pick_weighted indices_from total_weight draw
weighted_draws = refl

-- The published test value of FNV-1a for "a".
fnv_of_a : fnv32a 2166136261 (97 ∷ []) ≡ 0xe40c292c
unfolding fnv32a
fnv_of_a = refl

abbrev table : StickyTable
table = record { ttl = 100; entries = [] }

abbrev sticky_pool : Balancer
sticky_pool = record { algorithm = least_conn; targets = pool; rr_cursor = 0; sticky = some table }

miss : sticky_hit ip_string sticky_pool ip_a 5 ≡ none
unfolding sticky_hit get lookup
miss = refl

pick_1 : (pick ip_string first sticky_pool ip_a 5 6).1 ≡ ok 1
unfolding pick sticky_hit get lookup pick_alg pick_least_conn least_from
pick_1 = refl

pick-Outcome_example :
    Outcome sticky_pool (pick ip_string first sticky_pool ip_a 5 6)
    × ((pick ip_string first sticky_pool ip_a 5 6).0.rr_cursor
        ≡ 0 + advance ip_string first sticky_pool ip_a 5)
pick-Outcome_example =
    pick-Outcome ip_string first sticky_pool ip_a 5 6 first-InRange (omega arith) (omega arith)
      (omega arith)

abbrev sticky_ledger : Ledger
sticky_ledger = record { balancer = sticky_pool; held = [] }

abbrev between : List Event
between =
    Event.picks ip_b 20 21
    ∷ Event.marks ip_b 25565 false
    ∷ Event.marks ip_b 25565 true
    ∷ Event.prunes 80
    ∷ []

still_up :
    healthy_at
      (run ip_string first sticky_ledger (Event.picks ip_a 5 6 ∷ between)).balancer.targets
      1
    ≡ true
unfolding run step pick sticky_hit get put remember lookup insert pick_alg pick_least_conn
    least_from set_health set_health_in health_mark prune_sticky_table prune inc_active ip_equal
still_up = refl

pick_again_example :
    (pick ip_string first
      (run ip_string first sticky_ledger (Event.picks ip_a 5 6 ∷ between)).balancer
      ip_a
      90
      91).1
    ≡ ok 1
pick_again_example =
    pick_again ip_string first sticky_ledger between table ip_a 5 6 1 90 91 refl tt refl miss pick_1
      (omega arith) (omega arith) (refl, (refl, (refl, (refl, tt)))) still_up

pick_round_robin-Next_example :
    Next pool 2 (pick_round_robin pool 2).1 × ((pick_round_robin pool 2).0 ≡ 3)
pick_round_robin-Next_example = pick_round_robin-Next pool 2 (omega arith) (omega arith)

all_up : (i : ℕ) → i < length trio → healthy_at trio i ≡ true
all_up zero h = refl
all_up (suc zero) h = refl
all_up (suc (suc zero)) h = refl
all_up (suc (suc (suc i))) h = absurd (omega arith)

round_robin_each_once_example :
    count_below 3 (λ k. picks 1 (pick_round_robin trio (cursor_after trio k 7)).1) ≡ 1
round_robin_each_once_example = round_robin_each_once trio 7 1 (omega arith) all_up (omega arith)

pick_weighted-share_example :
    count_below (eligible_weight pool) (λ r. picks 1 (pick_weighted (λ n. r) pool)) ≡ 3
pick_weighted-share_example = pick_weighted-share pool 1 (omega arith)

pick_least_conn-Least_example : Least pool (pick_least_conn pool)
pick_least_conn-Least_example = pick_least_conn-Least pool

abbrev open_ledger : Ledger
open_ledger = record {
  balancer = record { algorithm = round_robin; targets = pair; rr_cursor = 0; sticky = none };
  held = [];
}

abbrev history : List Event
history =
    Event.picks ip_a 1 2
    ∷ Event.picks ip_b 3 4
    ∷ Event.marks ip_a 25565 false
    ∷ gives_back 1
    ∷ Event.picks ip_a 5 6
    ∷ []

open_ledger-IsExact : IsExact pair []
open_ledger-IsExact zero t e = ground arith
open_ledger-IsExact (suc zero) t e = ground arith
open_ledger-IsExact (suc (suc i)) t e = absurd (ground arith)

run-IsExact_example :
    IsExact
      (run ip_string first open_ledger history).balancer.targets
      (run ip_string first open_ledger history).held
run-IsExact_example = run-IsExact ip_string first open_ledger history open_ledger-IsExact

concurrent_releases_example :
    (k : ℕ) × (settle (decrements 3 idle).pending (decrements 3 idle).active_conns ≡ pos k)
    × (2 * k + 3 ≡ 9)
concurrent_releases_example = concurrent_releases 3

abbrev given : List (Option Target)
given = some (target ip_a (pos 1) false (pos 0)) ∷ []

abbrev started : Balancer
started = record {
  algorithm = random;
  targets = target ip_a (pos 1) true (pos 0) ∷ [];
  rr_cursor = 0;
  sticky = none;
}

new_runs : new "random" given false (pos 0) ≡ ok started
unfolding new parse_algorithm seed_targets
new_runs = refl

round_robin_overflow_example : (pick_round_robin pair (2 ^ 63 + 1)).1 ≡ err index_out_of_range
round_robin_overflow_example =
    round_robin_overflow (target ip_a (pos 1) true (pos 0)) (target ip_b (pos 1) true (pos 0) ∷ [])
      (2 ^ 63 + 1) (omega arith) (omega arith) (omega arith)

abbrev weightless : List Target
weightless = target ip_a (pos 0) true (pos 0) ∷ []

no_weights : (i : ℕ) (t : Target) → get_elem? weightless i ≡ some t → t.weight ≤ℤ pos 0
no_weights zero t e = ground arith
no_weights (suc i) t e = absurd (ground arith)

abbrev busy_table : StickyTable
busy_table = record { ttl = 100; entries = insert "k" (record { target_idx = 2; expiry = 50 }) [] }

get-prune_example : get (prune busy_table 40) "k" 45 ≡ get busy_table "k" 45
get-prune_example =
    get-prune busy_table "k" 40 45
      (Distinct-insert {V = StickyEntry} "k" (record { target_idx = 2; expiry = 50 }) [] tt)
      (omega arith)

-- An IPv4 network holds an address in either form.
contains_runs :
    contains
      (record { ip = 10 ∷ 0 ∷ 0 ∷ 0 ∷ []; mask = 255 ∷ 0 ∷ 0 ∷ 0 ∷ [] })
      (0 ∷ 0 ∷ 0 ∷ 0 ∷ 0 ∷ 0 ∷ 0 ∷ 0 ∷ 0 ∷ 0 ∷ 255 ∷ 255 ∷ 10 ∷ 7 ∷ 7 ∷ 7 ∷ [])
    ≡ true
unfolding contains
contains_runs = refl

abbrev heavy : List Target
heavy = target ip_a (pos (2 ^ 62)) true (pos 0) ∷ target ip_b (pos (2 ^ 62)) true (pos 0) ∷ []

pick_weighted-overflow_example : pick_weighted first heavy ≡ err intn_panic
pick_weighted-overflow_example = pick_weighted-overflow first heavy (omega arith) (omega arith)
