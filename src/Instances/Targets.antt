-- ===== src/Instances/Targets.antt =====
-- internal/proxy/manager.go, `buildInstance`: the targets of the balancer.
use route_x_reverse_proxy.Common.{
  ℕ, zero, suc, ◌+◌, ◌*◌, ◌≡◌, refl, ap, sym, ◌∙◌, true, List, [], ◌∷◌, ◌++◌, map, Option, none,
  some, String, ok, arith, length, get_elem?,
}
use route_x_reverse_proxy.Common.Int.{ℤ, pos}
use route_x_reverse_proxy.Common.Assoc.{Assoc, lookup}
use route_x_reverse_proxy.Common.{string_eq}
use route_x_reverse_proxy.Net.{Ip}
use route_x_reverse_proxy.Text.Edit.{Text}
use route_x_reverse_proxy.Lb.Target.{Target, new_target}
use route_x_reverse_proxy.Lb.Start.{Seeded, new-Seeded}
use route_x_reverse_proxy.L7.Bucket.{Floats}
use route_x_reverse_proxy.Config.Ports.{parse_port_range}
use route_x_reverse_proxy.Instances.Settings.{ProxyConfig, resolve_ips}
use route_x_reverse_proxy.Instances.Build.{
  bad_dest_ip, Plan, targets_of, weight_of, all_targets, parse_ips, plan,
}
use route_x_reverse_proxy.Instances.Table.{ok_value}
use route_x_reverse_proxy.Instances.Ports.{plan-IsPlanned, resolved_ports}

length-targets_of : (ip : Ip) (w : ℤ) (ds : List ℕ) → length (targets_of ip w ds) ≡ length ds
unfolding targets_of
length-targets_of ip w [] = refl
length-targets_of ip w (d ∷ ds) = ap suc (length-targets_of ip w ds)

targets_of-at :
    (ip : Ip) (w : ℤ) (ds : List ℕ) (j d : ℕ)
    → get_elem? ds j ≡ some d
    → get_elem? (targets_of ip w ds) j ≡ some (new_target ip d w true)
unfolding targets_of
targets_of-at ip w [] j d h = absurd (ground (arith, h))
targets_of-at ip w (x ∷ ds) zero d h =
    ap
      (λ o. elim o [
        | none ↦ some (new_target ip x w true)
        | some y ↦ some (new_target ip y w true)
      ])
      h
targets_of-at ip w (x ∷ ds) (suc j) d h = targets_of-at ip w ds j d h

-- A place in the first of two lists, and one in the second.
in_first {ℓ} :
    {A : Type ℓ} (xs ys : List A) (i : ℕ) (x : A)
    → get_elem? xs i ≡ some x
    → get_elem? (xs ++ ys) i ≡ some x
in_first [] ys i x h = absurd (ground (arith, h))
in_first (a ∷ xs) ys zero x h = h
in_first (a ∷ xs) ys (suc i) x h = in_first xs ys i x h

in_second {ℓ} :
    {A : Type ℓ} (xs ys : List A) (i : ℕ) → get_elem? (xs ++ ys) (length xs + i) ≡ get_elem? ys i
in_second [] ys i = ap (get_elem? ys) (omega arith)
in_second (a ∷ xs) ys i =
    let step : length (a ∷ xs) + i ≡ suc (length xs + i) = omega arith in
    ap (get_elem? ((a ∷ xs) ++ ys)) step ∙ in_second xs ys i

module _ (ip_string : Ip → String) (weights : Assoc String ℤ) where
  all_targets-at :
      (ds : List ℕ) (ips : List Ip) (i j d : ℕ) (ip : Ip)
      → get_elem? ips i ≡ some ip
      → get_elem? ds j ≡ some d
      → get_elem? (all_targets ip_string weights ds ips) (i * length ds + j)
        ≡ some (new_target ip d (weight_of (lookup (ip_string ip) weights)) true)
  unfolding all_targets
  all_targets-at ds [] i j d ip h k = absurd (ground (arith, h))
  all_targets-at ds (a ∷ ips) zero j d ip h k =
      let at_j : zero * length ds + j ≡ j = omega arith in
      let one : a ≡ ip = ap (λ o. elim o [ none ↦ a | some x ↦ x ]) h in
      let w = weight_of (lookup (ip_string a) weights) in
      ap (get_elem? (targets_of a w ds ++ all_targets ip_string weights ds ips)) at_j
      ∙ in_first (targets_of a w ds) (all_targets ip_string weights ds ips) j _
          (targets_of-at a w ds j d k)
      ∙ ap (λ x. some (new_target x d (weight_of (lookup (ip_string x) weights)) true)) one
  all_targets-at ds (a ∷ ips) (suc i) j d ip h k =
      let w = weight_of (lookup (ip_string a) weights) in
      let size = length-targets_of a w ds in
      let place : suc i * length ds + j ≡ length (targets_of a w ds) + (i * length ds + j) =
        omega (arith, size) in
      ap (get_elem? (targets_of a w ds ++ all_targets ip_string weights ds ips)) place
      ∙ in_second (targets_of a w ds) (all_targets ip_string weights ds ips) (i * length ds + j)
      ∙ all_targets-at ds ips i j d ip h k

weight_or_one : (o : Option ℤ) → weight_of o ≡ elim o [ none ↦ pos 1 | some w ↦ w ]
weight_or_one none = refl
weight_or_one (some w) = refl

-- A balancer keeps a healthy target as it was given.
Seeded-at :
    (ts us : List Target) (i : ℕ) (t : Target)
    → Seeded (map some ts) us
    → get_elem? ts i ≡ some t
    → t.healthy ≡ true
    → get_elem? us i ≡ some t
Seeded-at [] us i t v h up = absurd (ground (arith, h))
Seeded-at (x ∷ ts) [] i t v h up = absurd v
Seeded-at (x ∷ ts) (u ∷ us) zero t ((w, given, named, marked), rest) h up =
    let same : w ≡ t = ap (λ o. elim o [ none ↦ w | some y ↦ y ]) (sym given ∙ h) in
    ap some (
      marked
      ∙ ap (λ (y : Target). record y { healthy = true }) same
      ∙ ap (λ b. record t { healthy = b }) (sym up))
Seeded-at (x ∷ ts) (u ∷ us) (suc i) t (first, rest) h up = Seeded-at ts us i t rest h up

module _ {F : Floats} (parse_ip : Text → Option Ip) (ip_string : Ip → String) where
  -- The targets of an instance are all pairs of a destination address and a destination port: where a
  -- plan is made, the pair of the address at place i with the port at place j is the target at place
  -- i * n + j, for n ports, healthy, with no connections and no failures counted, and with the weight
  -- that the text of its address has in the configuration, or 1.
  pub plan-targets :
      (cfg : ProxyConfig F) (pl : Plan) (ips : List Ip) (ds : List ℕ) (i j d : ℕ) (ip : Ip)
      → plan parse_ip ip_string cfg ≡ ok pl
      → parse_ips parse_ip bad_dest_ip (resolve_ips parse_ip cfg.dest_ip) ≡ ok ips
      → parse_port_range cfg.dest_port ≡ ok ds
      → get_elem? ips i ≡ some ip
      → get_elem? ds j ≡ some d
      → get_elem? pl.balancer.targets (i * length ds + j)
        ≡ some (record {
          ip = ip;
          port = d;
          weight = elim (lookup (ip_string ip) cfg.upstream_weights) [ none ↦ pos 1 | some w ↦ w ];
          healthy = true;
          active_conns = pos 0;
          total_conns = 0;
          fail_count = 0;
        })
  unfolding new_target
  plan-targets cfg pl ips ds i j d ip run parsed ports at_ip at_port =
      let v = plan-IsPlanned parse_ip ip_string cfg pl run in
      let same : v.dest_ips ≡ ips = ok_value v.dest_ips ips (sym v.parsed ∙ parsed) in
      let built = rw same at (rw (resolved_ports cfg.dest_port ds ports) at v.balanced) in
      Seeded-at (all_targets ip_string cfg.upstream_weights ds ips) pl.balancer.targets
        (i * length ds + j) _
        (new-Seeded cfg.algorithm _ cfg.sticky_sessions cfg.sticky_ttl pl.balancer built).0
        (all_targets-at ip_string cfg.upstream_weights ds ips i j d ip at_ip at_port) refl
      ∙ ap (λ w. some (new_target ip d w true))
          (weight_or_one (lookup (ip_string ip) cfg.upstream_weights))
