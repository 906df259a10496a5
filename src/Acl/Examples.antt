-- ===== src/Acl/Examples.antt =====
-- internal/acl: the theorems at a concrete engine.
use route_x_reverse_proxy.Common.{
  ◌≡◌, refl, true, false, [], ◌∷◌, Option, none, some, String, ok, ◌==◌, string_eq, arith,
  if◌then◌else◌, not, ◌&&◌,
}
use route_x_reverse_proxy.Net.{Ip, IpNet, contains}
use route_x_reverse_proxy.Acl.Engine.{
  Rule, Engine, host_net, net_of, compile, new_engine, add_rule, matches, check,
}
use route_x_reverse_proxy.Acl.Decisions.{check-first, checks, Counted, checks-Counted}
use route_x_reverse_proxy.Acl.Compose.{check_composed, denies, check_composed-denies}

abbrev lan : IpNet
lan = record { ip = 10 ∷ 0 ∷ 0 ∷ 0 ∷ []; mask = 255 ∷ 0 ∷ 0 ∷ 0 ∷ [] }

abbrev host : Ip
host = 10 ∷ 1 ∷ 2 ∷ 3 ∷ []

abbrev other : Ip
other = 192 ∷ 168 ∷ 0 ∷ 1 ∷ []

-- A parser of two texts, in place of the one of Go's library.
abbrev parse_cidr : String → Option IpNet
parse_cidr text = if text == "10.0.0.0/8" then some lan else none

abbrev parse_ip : String → Option Ip
parse_ip text = if text == "192.168.0.1" then some other else none

abbrev deny_lan : Rule
deny_lan = record { action = "deny"; cidr = "10.0.0.0/8"; comment = ""; cidr_net = some lan }

abbrev allow_other : Rule
allow_other = record {
  action = "allow";
  cidr = "192.168.0.1";
  comment = "";
  cidr_net = some (host_net other);
}

abbrev engine : Engine
engine = record {
  default_action = "allow";
  rules = allow_other ∷ deny_lan ∷ [];
  name = "global";
  enabled = true;
  allowed = 0;
  denied = 0;
}

allow_misses : matches host allow_other ≡ false
unfolding matches contains host_net
allow_misses = refl

deny_matches : matches host deny_lan ≡ true
unfolding matches contains
deny_matches = refl

check-first_example : (check (some engine) host).1 ≡ "deny"
check-first_example =
    check-first engine host (allow_other ∷ []) [] deny_lan refl (allow_misses, tt) deny_matches refl
      refl

checks-Counted_example :
    Counted engine
      (checks (some engine) (host ∷ other ∷ [])).1
      (checks (some engine) (host ∷ other ∷ [])).0
checks-Counted_example =
    checks-Counted engine (host ∷ other ∷ []) refl (omega arith, omega arith) (refl, (refl, tt))

abbrev lan_only : Engine
lan_only = record engine { rules = deny_lan ∷ [] }

other_parses : net_of parse_cidr parse_ip "192.168.0.1" ≡ some (host_net other)
unfolding net_of
other_parses = refl

abbrev grown : Engine
grown = record engine { rules = deny_lan ∷ allow_other ∷ [] }

other_added : add_rule parse_cidr parse_ip "allow" "192.168.0.1" "" lan_only ≡ ok grown
unfolding add_rule net_of
other_added = refl

made_ok :
    new_engine parse_cidr parse_ip "global" "allow" (allow_other ∷ deny_lan ∷ []) true ≡ ok engine
unfolding new_engine compile net_of
made_ok = refl

check_composed-denies_example :
    not (denies (check_composed (some engine) (some lan_only) host).1)
    ≡ (not (denies (check (some engine) host).1) && not (denies (check (some lan_only) host).1))
check_composed-denies_example = check_composed-denies (some engine) (some lan_only) host
