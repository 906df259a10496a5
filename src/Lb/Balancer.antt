-- ===== src/Lb/Balancer.antt =====
-- internal/lb/balancer.go and picker.go, `Balancer`. A target's pointer is its index, and
-- `ip_string` stands for `IP.String`, the key of the sticky table.
use route_x_reverse_proxy.Common.{
  ℕ, suc, Bool, true, ◌&&◌, List, [], ◌∷◌, map, Option, none, some, String, Result, ok, err, ◌>>=◌,
  if◌then◌else◌, ◌==◌, nat_eq, string_eq, get_elem?, modify,
}
use route_x_reverse_proxy.Common.Int.{ℤ}
use route_x_reverse_proxy.Net.{Ip, is_nil, ip_equal}
use route_x_reverse_proxy.Lb.Target.{Target, inc_active, dec_active, health_mark, reset_fail}
use route_x_reverse_proxy.Lb.Sticky.{StickyTable, new_sticky_table, get, put, prune, size}
use route_x_reverse_proxy.Lb.Algorithms.{
  Algorithm, round_robin, least_conn, ip_hash, weighted, random, Picked, pick_alg,
}

pub record Balancer : Type 0 where
  pub algorithm : Algorithm
  pub targets : List Target
  pub rr_cursor : ℕ
  pub sticky : Option StickyTable

pub data NewError : Type 0 where
  no_targets : NewError
  unsupported_algorithm : String → NewError
  nil_target : ℕ → NewError

unfoldable pub parse_algorithm : String → Option Algorithm
parse_algorithm s =
    if s == "round-robin"
    then some round_robin
    else if s == "least-conn"
    then some least_conn
    else if s == "ip-hash"
    then some ip_hash
    else if s == "weighted"
    then some weighted
    else if s == "random"
    then some random
    else none

-- A nil pointer, or a target whose address is nil.
abbrev pub usable : Option Target → Option Target
usable none = none
usable (some t) = if is_nil t.ip then none else some t

-- The loop of `New`: each target is marked healthy, whatever its mark was.
unfoldable pub seed_targets : ℕ → List (Option Target) → Result NewError (List Target)
seed_targets i [] = ok []
seed_targets i (o ∷ os) = elim (usable o) [
  | none ↦ err (nil_target i)
  | some t ↦ seed_targets (suc i) os >>= λ ts. ok (record t { healthy = true } ∷ ts)
]

unfoldable pub new : String → List (Option Target) → Bool → ℤ → Result NewError Balancer
unfolding parse_algorithm seed_targets
new algorithm [] sticky sticky_ttl = err no_targets
new algorithm (o ∷ os) sticky sticky_ttl = elim (parse_algorithm algorithm) [
  | none ↦ err (unsupported_algorithm algorithm)
  | some alg ↦ seed_targets 0 (o ∷ os) >>= λ ts. ok (record {
    algorithm = alg;
    targets = ts;
    rr_cursor = 0;
    sticky = if sticky then some (new_sticky_table sticky_ttl) else none;
  })
]

unfoldable pub targets_of : Balancer → List Target
targets_of b = b.targets

abbrev pub healthy_target : List Target → ℕ → Option ℕ
healthy_target ts idx = elim (get_elem? ts idx) [
  | none ↦ none
  | some t ↦ if t.healthy then some idx else none
]

module _ (ip_string : Ip → String) where
  -- The fast path: the index of a live mapping to a healthy target.
  unfoldable pub sticky_hit : Balancer → Ip → ℕ → Option ℕ
  sticky_hit b src now = elim b.sticky [
    | none ↦ none
    | some s ↦ if is_nil src then none else elim (get s (ip_string src) now) [
      | none ↦ none
      | some idx ↦ healthy_target b.targets idx
    ]
  ]

  unfoldable pub remember : Ip → ℕ → ℕ → Option StickyTable → Option StickyTable
  remember src idx now none = none
  remember src idx now (some s) = some (if is_nil src then s else put s (ip_string src) idx now)

module _ (ip_string : Ip → String) (rand : ℕ → ℕ) where
  -- `now` and `later` are the two readings of the clock.
  unfoldable pub pick : Balancer → Ip → ℕ → ℕ → Balancer × Picked
  unfolding sticky_hit remember
  pick b src now later = elim (sticky_hit ip_string b src now) [
    | some idx ↦ (record b { targets = modify idx inc_active b.targets }, ok idx)
    | none ↦
        let (cursor, r) = pick_alg rand b.algorithm b.targets b.rr_cursor src in
        elim r [
          | err e ↦ (record b { rr_cursor = cursor }, err e)
          | ok idx ↦ (
            record b {
              targets = modify idx inc_active b.targets;
              rr_cursor = cursor;
              sticky = remember ip_string src idx later b.sticky;
            },
            ok idx,
          )
        ]
  ]

-- `none` is a nil pointer.
unfoldable pub release : Balancer → Option ℕ → Balancer
release b none = b
release b (some idx) = record b { targets = modify idx dec_active b.targets }

-- The first target of that address and port.
unfoldable pub set_health_in : Ip → ℕ → Bool → List Target → List Target
set_health_in ip port healthy [] = []
set_health_in ip port healthy (t ∷ ts) =
    if ip_equal t.ip ip && t.port == port
    then (health_mark healthy t).0 ∷ ts
    else t ∷ set_health_in ip port healthy ts

unfoldable pub set_health : Ip → ℕ → Bool → Balancer → Balancer
unfolding set_health_in
set_health ip port healthy b = record b { targets = set_health_in ip port healthy b.targets }

unfoldable pub mark_all_healthy : Balancer → Balancer
mark_all_healthy b = record b {
  targets = map (λ t. reset_fail (record t { healthy = true })) b.targets;
}

unfoldable pub prune_sticky_table : Balancer → ℕ → Balancer
prune_sticky_table b now = record b {
  sticky = elim b.sticky [ none ↦ none | some s ↦ some (prune s now) ];
}

unfoldable pub sticky_size : Balancer → ℕ
sticky_size b = elim b.sticky [ none ↦ 0 | some s ↦ size s ]

pub record Stats : Type 0 where
  pub ip : Ip
  pub port : ℕ
  pub weight : ℤ
  pub healthy : Bool
  pub active_conns : ℤ
  pub total_conns : ℕ
  pub fail_count : ℕ

unfoldable pub stats_of : Target → Stats
stats_of t = record {
  ip = t.ip;
  port = t.port;
  weight = t.weight;
  healthy = t.healthy;
  active_conns = t.active_conns;
  total_conns = t.total_conns;
  fail_count = t.fail_count;
}

unfoldable pub snapshot : Balancer → List Stats
unfolding stats_of
snapshot b = map stats_of b.targets
