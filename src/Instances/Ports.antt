-- ===== src/Instances/Ports.antt =====
-- internal/proxy/manager.go, `buildInstance`: what an instance is made of.
use route_x_reverse_proxy.Common.{
  ℕ, ◌≡◌, refl, ap, ◌∙◌, true, ◌||◌, List, [], ◌∷◌, map, Option, some, String, Result, ok, err,
  arith, get_elem?, Bool-cases, Result-cases, inl, inr,
}
use route_x_reverse_proxy.Net.{Ip}
use route_x_reverse_proxy.Text.Edit.{Text}
use route_x_reverse_proxy.Lb.Balancer.{Balancer}
use route_x_reverse_proxy.Lb.Balancer as Lb
use route_x_reverse_proxy.L7.Bucket.{Floats}
use route_x_reverse_proxy.Proxy.Portmap.{new_resolver, dest_ports_for, one_to_one_positional}
use route_x_reverse_proxy.Config.Ports.{parse_port_range}
use route_x_reverse_proxy.Config.PortBounds.{parse_port_range-IsPortList}
use route_x_reverse_proxy.Instances.Settings.{ProxyConfig, resolve_ips, resolve_ports, no_ips}
use route_x_reverse_proxy.Instances.Build.{
  bad_origin_ip, bad_dest_ip, bad_resolver, bad_balancer, Plan, no_ports, map_err, all_targets,
  parse_ips, plan,
}
use route_x_reverse_proxy.Instances.Table.{ok_value}

map_err-ok {ℓ} :
    {A : Type ℓ} {E D : Type 0} (f : E → D) (r : Result E A) (a : A) → map_err f r ≡ ok a → r ≡ ok a
map_err-ok f (ok b) a h = ap ok (ok_value b a h)
map_err-ok f (err e) a h = absurd (ground (arith, h))

-- What a plan that is made rests on.
pub record IsPlanned {F : Floats} (parse_ip : Text → Option Ip) (ip_string : Ip → String)
    (cfg : ProxyConfig F) (pl : Plan) : Type 0 where
  pub dest_ips : List Ip
  pub parsed : parse_ips parse_ip bad_dest_ip (resolve_ips parse_ip cfg.dest_ip) ≡ ok dest_ips
  pub resolved :
      new_resolver (resolve_ports cfg.origin_port) (resolve_ports cfg.dest_port) cfg.one_to_one
      ≡ ok pl.resolver
  pub balanced :
      Lb.new cfg.algorithm
        (map some
          (all_targets ip_string cfg.upstream_weights (resolve_ports cfg.dest_port) dest_ips))
        cfg.sticky_sessions
        cfg.sticky_ttl
      ≡ ok pl.balancer

pub resolved_ports :
    (spec : Text) (ports : List ℕ) → parse_port_range spec ≡ ok ports → resolve_ports spec ≡ ports
unfolding resolve_ports
resolved_ports spec ports h = rw (h, resolve_ports) refl

module _ {F : Floats} (parse_ip : Text → Option Ip) (ip_string : Ip → String) where
  pub plan-IsPlanned :
      (cfg : ProxyConfig F) (pl : Plan)
      → plan parse_ip ip_string cfg ≡ ok pl
      → IsPlanned parse_ip ip_string cfg pl
  unfolding plan
  plan-IsPlanned cfg pl run =
      let origins = resolve_ips parse_ip cfg.origin_ip in
      let dests = resolve_ips parse_ip cfg.dest_ip in
      let os = resolve_ports cfg.origin_port in
      let ds = resolve_ports cfg.dest_port in
      let made = map_err bad_resolver (new_resolver os ds cfg.one_to_one) in
      elim (Bool-cases (no_ips origins || no_ips dests)) [
        | inl missing ↦ absurd (ground (arith, rw missing at run))
        | inr ips ↦ elim (Bool-cases (no_ports os || no_ports ds)) [
          | inl missing ↦ absurd (ground (arith, rw missing at (rw ips at run)))
          | inr ports ↦
              let given = rw ports at (rw ips at run) in
              elim (Result-cases (parse_ips parse_ip bad_origin_ip origins)) [
                | inr (e, bad) ↦ absurd (ground (arith, rw bad at given))
                | inl (origin_ips, first) ↦
                    elim (Result-cases (parse_ips parse_ip bad_dest_ip dests)) [
                      | inr (e, bad) ↦ absurd (ground (arith, rw bad at (rw first at given)))
                      | inl (dest_ips, second) ↦
                          let parsed = rw second at (rw first at given) in
                          elim (Result-cases made) [
                            | inr (e, bad) ↦ absurd (ground (arith, rw bad at parsed))
                            | inl (resolver, third) ↦
                                let targets =
                                  all_targets ip_string cfg.upstream_weights ds dest_ips in
                                elim (Result-cases (
                                  map_err bad_balancer (
                                    Lb.new cfg.algorithm (map some targets) cfg.sticky_sessions
                                      cfg.sticky_ttl))) [
                                        | inr (e, bad) ↦
                                            absurd (ground (arith, rw bad at (rw third at parsed)))
                                        | inl (balancer, fourth) ↦
                                            let same =
                                              ok_value _ pl (rw fourth at (rw third at parsed)) in
                                            record {
                                              dest_ips = dest_ips;
                                              parsed = second;
                                              resolved =
                                                  map_err-ok bad_resolver
                                                    (new_resolver os ds cfg.one_to_one) resolver
                                                    third
                                                  ∙ ap (λ (x : Plan). ok x.resolver) same;
                                              balanced =
                                                  map_err-ok bad_balancer
                                                    (Lb.new cfg.algorithm (map some targets)
                                                      cfg.sticky_sessions cfg.sticky_ttl)
                                                    balancer fourth
                                                  ∙ ap (λ (x : Plan). ok x.balancer) same;
                                            }
                                      ]
                          ]
                    ]
              ]
        ]
      ]

  -- One to one, from the texts of a configuration on: where a plan is made, the port at each place of
  -- the origin specification goes to the port at the same place of the destination specification, and
  -- to no other.
  pub plan-one_to_one :
      (cfg : ProxyConfig F) (pl : Plan) (os ds : List ℕ) (i o d : ℕ)
      → plan parse_ip ip_string cfg ≡ ok pl
      → cfg.one_to_one ≡ true
      → parse_port_range cfg.origin_port ≡ ok os
      → parse_port_range cfg.dest_port ≡ ok ds
      → get_elem? os i ≡ some o
      → get_elem? ds i ≡ some d
      → dest_ports_for (some pl.resolver) o ≡ ok (d ∷ [])
  plan-one_to_one cfg pl os ds i o d run paired origin dest at_o at_d =
      let v = plan-IsPlanned cfg pl run in
      let valid = parse_port_range-IsPortList cfg.origin_port os origin in
      let built : new_resolver os ds true ≡ ok pl.resolver = rw paired at (
        rw (resolved_ports cfg.dest_port ds dest) at
          (rw (resolved_ports cfg.origin_port os origin) at v.resolved)) in
      one_to_one_positional os ds pl.resolver i o d built valid.0.different at_o at_d
