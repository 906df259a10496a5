-- ===== src/Iptables/Examples.antt =====
-- The theorems on ports and on rate limits at concrete inputs.
use route_x_reverse_proxy.Common.{
  ℕ, ◌≡◌, refl, true, String, List, [], ◌∷◌, arith, ok, string_eq, nat_eq, length, ◌≤◌,
}
use route_x_reverse_proxy.Common.Int.{pos}
use route_x_reverse_proxy.Text.Edit.{trim_space, trim_left, trim_right, split, cut, is_space}
use route_x_reverse_proxy.Text.Number.{atoi, unsigned, is_digit, digits_value}
use route_x_reverse_proxy.Config.Ports.{
  parse_port_range, parse_parts, parse_part, parse_trimmed, parse_pair, parse_single, add_port,
  add_range,
}
use route_x_reverse_proxy.Config.PortBounds.{IsPortList, parse_port_range-IsPortList}
use route_x_reverse_proxy.Config.RateLimits as Config
use route_x_reverse_proxy.Config.RateLimits.{RateLimits}
use route_x_reverse_proxy.Iptables.PortList.{port_list}
use route_x_reverse_proxy.Iptables.RoundTrip.{parse_port_range-port_list}
use route_x_reverse_proxy.Iptables.Rules.{build_rules}
use route_x_reverse_proxy.Iptables.Scope.{count_for, build_rules-counted}
use route_x_reverse_proxy.Iptables.Validator as Iptables
use route_x_reverse_proxy.Iptables.Agreement.{IsBounded, is_ok, validate_rate_limits-agree}

abbrev limits : RateLimits
limits = record {
  tcp_pps_per_ip = pos 100;
  udp_pps_per_ip = pos 0;
  new_conns_per_sec_per_ip = pos 20;
  new_conns_per_sec_global = pos 0;
  max_simultaneous_conns_per_ip = pos 50;
  max_total_conns = pos 0;
  drop_fragmented_packets = true;
  min_ttl = pos 5;
  max_ttl = pos 200;
  min_packet_size = pos 20;
  max_packet_size = pos 1500;
  tcp_syn_rate_per_ip = pos 10;
  tcp_invalid_state_drop = true;
  tcp_rst_rate_per_ip = pos 0;
  udp_max_payload = pos 0;
  udp_min_payload = pos 0;
}

limits-IsBounded : IsBounded limits
limits-IsBounded = record {
  min_ttl = refl;
  max_ttl = refl;
  min_packet = refl;
  max_packet = refl;
  min_payload = refl;
  max_payload = refl;
  apart = λ same. refl;
}

validate_rate_limits-agree_example :
    (Iptables.validate_rate_limits true (λ name. true) limits "tcp").valid
    ≡ is_ok (Config.validate_rate_limits limits)
validate_rate_limits-agree_example =
    validate_rate_limits-agree (λ name. true) limits "tcp" limits-IsBounded

-- "80,8000:8002"
abbrev spec : List ℕ
spec = 56 ∷ 48 ∷ 44 ∷ 56 ∷ 48 ∷ 48 ∷ 48 ∷ 58 ∷ 56 ∷ 48 ∷ 48 ∷ 50 ∷ []

abbrev ports : List ℕ
ports = 80 ∷ 8000 ∷ 8001 ∷ 8002 ∷ []

parsed : parse_port_range spec ≡ ok ports
unfolding parse_port_range parse_parts parse_part parse_trimmed parse_pair parse_single add_port
    add_range trim_space trim_left trim_right split cut is_space atoi unsigned is_digit digits_value
parsed = refl

parse_port_range-IsPortList_example : IsPortList ports × (1 ≤ length ports)
parse_port_range-IsPortList_example = parse_port_range-IsPortList spec ports parsed

parse_port_range-port_list_example : parse_port_range (port_list ports) ≡ ok ports
parse_port_range-port_list_example =
    parse_port_range-port_list ports (parse_port_range-IsPortList spec ports parsed).0 (omega arith)

abbrev shown : List ℕ → String
shown text = "80"

build_rules-counted_example :
    (count_for "udp" (build_rules shown "RouteX" ports "web" limits "udp") ≡ 1)
    × (count_for "tcp" (build_rules shown "RouteX" ports "web" limits "udp") ≡ 2)
    × (count_for "udp" (build_rules shown "RouteX" ports "web" limits "tcp-udp") ≡ 0)
    × (count_for "udp" (build_rules shown "RouteX" ports "web" limits "tcp") ≡ 0)
    × (count_for "tcp" (build_rules shown "RouteX" ports "web" limits "tcp") ≡ 6)
    × (count_for "tcp" (build_rules shown "RouteX" ports "web" limits "tcp-udp") ≡ 6)
build_rules-counted_example = build_rules-counted shown "RouteX" ports "web" limits
