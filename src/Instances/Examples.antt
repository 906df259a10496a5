-- ===== src/Instances/Examples.antt =====
-- internal/proxy/manager.go: the theorems at a concrete configuration. An address is its text.
use route_x_reverse_proxy.Common.{
  ℕ, ◌+◌, ◌-◌, ◌*◌, ◌/◌, ◌≡◌, ◌⊎◌, refl, Bool, true, false, List, [], ◌∷◌, Option, none, some,
  String, ok, err, string_eq, nat_eq, ltb, leb, length, get_elem?,
}
use route_x_reverse_proxy.Common.Int.{pos}
use route_x_reverse_proxy.Common.Assoc.{lookup, insert}
use route_x_reverse_proxy.Net.{Ip}
use route_x_reverse_proxy.Text.Edit.{Text, trim_space, trim_left, trim_right, split, cut, is_space}
use route_x_reverse_proxy.Text.Number.{atoi, unsigned, is_digit, digits_value}
use route_x_reverse_proxy.Lb.Target.{new_target}
use route_x_reverse_proxy.Lb.Balancer.{parse_algorithm, seed_targets}
use route_x_reverse_proxy.Lb.Balancer as Lb
use route_x_reverse_proxy.Lb.Algorithms.{round_robin}
use route_x_reverse_proxy.L7.Bucket.{Floats}
use route_x_reverse_proxy.L7.Engine as Protection
use route_x_reverse_proxy.Proxy.Portmap.{new_resolver, add_pairs, dest_ports_for}
use route_x_reverse_proxy.Config.Ports.{
  parse_port_range, parse_parts, parse_part, parse_trimmed, parse_pair, parse_single, add_port,
  add_range,
}
use route_x_reverse_proxy.Instances.Settings.{
  Timeouts, ProxyConfig, Defaults, split_ips, split_parts, take_ip, resolve_ips, resolve_ports,
}
use route_x_reverse_proxy.Instances.Build.{
  Instance, BuildError, no_listener, bad_dest_ip, Plan, targets_of, all_targets, parse_ips, plan,
  finish, open_all, open_ports, open_port,
}
use route_x_reverse_proxy.Instances.Manager.{Manager, new_manager, start}
use route_x_reverse_proxy.Instances.Outcome.{IsLive, start-outcome}
use route_x_reverse_proxy.Instances.History.{starts, stops, calls, AllLive, calls-AllLive}
use route_x_reverse_proxy.Instances.Ports.{plan-one_to_one}
use route_x_reverse_proxy.Instances.Targets.{plan-targets}
use route_x_reverse_proxy.Instances.Leftovers.{start-leftover}

-- Whole numbers in place of float64.
abbrev numbers : Floats
numbers = record {
  Number = ℕ;
  add = λ a b. a + b;
  sub = λ a b. a - b;
  mul = λ a b. a * b;
  le = leb;
  lt = ltb;
  of_int = λ n. n;
  near_full = 1;
  seconds = λ n. n / 1000000000;
}

abbrev parse_ip : Text → Option Ip
parse_ip t = some t

abbrev ip_string : Ip → String
ip_string ip = "10.0.0.2"

abbrev unset : Timeouts
unset = record {
  upstream_connect = pos 0;
  upstream_read = pos 0;
  upstream_write = pos 0;
  client_read = pos 0;
  client_write = pos 0;
  udp_session_timeout = pos 0;
}

abbrev defaults : Defaults
defaults = record {
  timeouts = record unset { upstream_connect = pos 5000000000 };
  health_check = record {
    interval = pos 10000000000;
    timeout = pos 2000000000;
    failures_before_eject = pos 3;
    passes_before_readmit = pos 2;
  };
}

-- The ports 80:81 of one address, one to one on 90:91 of two.
abbrev config : ProxyConfig numbers
config = record {
  name = "web";
  config_path = "proxies/web.yml";
  protocol = "tcp";
  origin_ip = 49 ∷ [];
  dest_ip = 50 ∷ 44 ∷ 51 ∷ [];
  origin_port = 56 ∷ 48 ∷ 58 ∷ 56 ∷ 49 ∷ [];
  dest_port = 57 ∷ 48 ∷ 58 ∷ 57 ∷ 49 ∷ [];
  one_to_one = true;
  algorithm = "round-robin";
  sticky_sessions = false;
  sticky_ttl = pos 0;
  upstream_weights = ("10.0.0.2", pos 4) ∷ [];
  health_check = record {
    interval = pos 0;
    timeout = pos 0;
    failures_before_eject = pos 0;
    passes_before_readmit = pos 0;
  };
  timeouts = unset;
  bandwidth_enabled = true;
  quota = record { hourly = pos 1000000; daily = pos 0; weekly = pos 0; monthly = pos 0 };
  l7_protection = record {
    enabled = true;
    rate_enabled = true;
    max_bytes_per_sec_per_ip = pos 100;
    burst_multiplier = 2;
    cycling_enabled = true;
    window = 1000;
    max_conns_in_window = pos 5;
    inspection = record { enabled = true; mode = "none"; custom_rules = [] };
    scoring = record {
      enabled = true;
      ban_threshold = pos 50;
      ban_duration = 60;
      score_rules = [];
    };
  };
}

abbrev free : String → Ip → ℕ → Bool
free kind ip port = true

abbrev taken : String → Ip → ℕ → Bool
taken kind ip port = false

calls-AllLive_example : AllLive (
    calls {F = numbers} parse_ip ip_string
      (new_manager defaults)
      (starts config free ∷ starts config taken ∷ stops "web" ∷ starts config free ∷ []))
calls-AllLive_example =
    calls-AllLive {F = numbers} parse_ip ip_string defaults
      (starts config free ∷ starts config taken ∷ stops "web" ∷ starts config free ∷ [])

abbrev fresh_manager : Manager numbers
fresh_manager = new_manager defaults

start-outcome_example :
    (((start parse_ip ip_string free config fresh_manager).1 ≡ ok tt)
      × (inst : Instance numbers) × (lookup "web"
            (start parse_ip ip_string free config fresh_manager).0.instances
          ≡ some inst)
      × (inst.config ≡ config)
      × IsLive "web" (start parse_ip ip_string free config fresh_manager).0 inst)
    ⊎ ((e : BuildError) × ((start parse_ip ip_string free config fresh_manager).1 ≡ err e)
        × (lookup "web" (start parse_ip ip_string free config fresh_manager).0.instances ≡ none))
start-outcome_example = start-outcome parse_ip ip_string free config fresh_manager

origin_parsed : parse_port_range config.origin_port ≡ ok (80 ∷ 81 ∷ [])
unfolding parse_port_range parse_parts parse_part parse_trimmed parse_pair parse_single add_port
    add_range trim_space trim_left trim_right split cut is_space atoi unsigned is_digit digits_value
origin_parsed = refl

dest_parsed : parse_port_range config.dest_port ≡ ok (90 ∷ 91 ∷ [])
unfolding parse_port_range parse_parts parse_part parse_trimmed parse_pair parse_single add_port
    add_range trim_space trim_left trim_right split cut is_space atoi unsigned is_digit digits_value
dest_parsed = refl

addresses_parsed :
    parse_ips parse_ip bad_dest_ip (resolve_ips parse_ip config.dest_ip)
    ≡ ok ((50 ∷ []) ∷ (51 ∷ []) ∷ [])
unfolding parse_ips resolve_ips split_ips split_parts take_ip trim_space trim_left trim_right split
    is_space
addresses_parsed = refl

abbrev planned : Plan
planned = record {
  origin_ips = (49 ∷ []) ∷ [];
  origin_ports = 80 ∷ 81 ∷ [];
  resolver = record { one_to_one = true; pairs = (80, 90) ∷ (81, 91) ∷ []; fan_out = [] };
  targets =
      all_targets ip_string config.upstream_weights (90 ∷ 91 ∷ []) ((50 ∷ []) ∷ (51 ∷ []) ∷ []);
  balancer = record {
    algorithm = round_robin;
    targets =
        all_targets ip_string config.upstream_weights (90 ∷ 91 ∷ []) ((50 ∷ []) ∷ (51 ∷ []) ∷ []);
    rr_cursor = 0;
    sticky = none;
  };
}

plan_made : plan parse_ip ip_string config ≡ ok planned
unfolding plan parse_ips resolve_ips resolve_ports split_ips split_parts take_ip parse_port_range
    parse_parts parse_part parse_trimmed parse_pair parse_single add_port add_range trim_space
    trim_left trim_right split cut is_space atoi unsigned is_digit digits_value new_resolver
    add_pairs Lb.new parse_algorithm seed_targets all_targets targets_of new_target lookup insert
plan_made = refl

plan-one_to_one_example : dest_ports_for (some planned.resolver) 81 ≡ ok (91 ∷ [])
plan-one_to_one_example =
    plan-one_to_one parse_ip ip_string config planned (80 ∷ 81 ∷ []) (90 ∷ 91 ∷ []) 1 81 91
      plan_made refl origin_parsed dest_parsed refl refl

abbrev dest_ports : List ℕ
dest_ports = 90 ∷ 91 ∷ []

plan-targets_example :
    get_elem? planned.balancer.targets (1 * length dest_ports + 0)
    ≡ some (record {
      ip = 51 ∷ [];
      port = 90;
      weight = elim (lookup (ip_string (51 ∷ [])) config.upstream_weights) [
        | none ↦ pos 1
        | some w ↦ w
      ];
      healthy = true;
      active_conns = pos 0;
      total_conns = 0;
      fail_count = 0;
    })
plan-targets_example =
    plan-targets parse_ip ip_string config planned ((50 ∷ []) ∷ (51 ∷ []) ∷ []) dest_ports 1 0 90
      (51 ∷ []) plan_made addresses_parsed dest_parsed refl refl

not_listening :
    finish parse_ip ip_string taken fresh_manager.defaults config planned
    ≡ err (no_listener "tcp" 80)
unfolding finish open_all open_ports open_port
not_listening = refl

start-leftover_example :
    ((start parse_ip ip_string taken config fresh_manager).1 ≡ err (no_listener "tcp" 80))
    × (lookup "web" (start parse_ip ip_string taken config fresh_manager).0.instances ≡ none)
    × (lookup "web" (start parse_ip ip_string taken config fresh_manager).0.l7_engines
        ≡ some (Protection.new_engine numbers ip_string config.l7_protection))
start-leftover_example =
    start-leftover parse_ip ip_string taken config fresh_manager planned (no_listener "tcp" 80) refl
      plan_made not_listening
