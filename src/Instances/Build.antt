-- ===== src/Instances/Build.antt =====
-- internal/proxy/manager.go, `buildInstance`. Whether a socket can be listened on is an argument; a
-- proxy of a port is its address and its port. The goroutine that prunes the sticky table is left
-- out: the balancer's pruning is a step of its own.
use route_x_reverse_proxy.Common.{
  ℕ, Bool, true, false, not, ◌&&◌, ◌||◌, List, [], ◌∷◌, ◌++◌, map, Option, none, some, String,
  Result, ok, err, ◌>>=◌, ◌>>◌, fail_if, or_fail, if◌then◌else◌, ◌==◌, string_eq,
}
use route_x_reverse_proxy.Common.Int.{ℤ, pos}
use route_x_reverse_proxy.Common.Assoc.{Assoc, lookup}
use route_x_reverse_proxy.Net.{Ip}
use route_x_reverse_proxy.Text.Edit.{Text}
use route_x_reverse_proxy.Lb.Target.{Target, new_target}
use route_x_reverse_proxy.Lb.Balancer.{Balancer}
use route_x_reverse_proxy.Lb.Balancer as Lb
use route_x_reverse_proxy.Health.Checker as Health
use route_x_reverse_proxy.Bandwidth.Tracker.{Tracker, new_tracker}
use route_x_reverse_proxy.L7.Bucket.{Floats}
use route_x_reverse_proxy.L7.Engine as Protection
use route_x_reverse_proxy.Proxy.Portmap.{PortError, Resolver, new_resolver}
use route_x_reverse_proxy.Proxy.Conn.{ConnTracker, new_conn_tracker}
use route_x_reverse_proxy.Instances.Settings.{
  Timeouts, ProxyConfig, Defaults, resolve_timeouts, health_config, quota_is_zero, resolve_ips,
  resolve_ports, no_ips,
}

pub data BuildError : Type 0 where
  no_ips_resolved no_ports_resolved : BuildError
  bad_origin_ip bad_dest_ip : Text → BuildError
  bad_resolver : PortError → BuildError
  bad_balancer : Lb.NewError → BuildError
  no_listener : String → ℕ → BuildError
  bad_checker : Health.NewError → BuildError

-- An address and a port that is listened on.
pub record Listener : Type 0 where
  pub ip : Ip
  pub port : ℕ

pub record Instance (F : Floats) : Type 0 where
  pub name : String
  pub config : ProxyConfig F
  pub running : Bool
  pub tcp : List Listener
  pub udp : List Listener
  pub resolver : Resolver
  pub timeouts : Timeouts
  pub balancer : Balancer
  pub tracker : ConnTracker
  pub checker : Option Health.Checker
  pub bw_tracker : Option Tracker
  pub l7_engine : Option (Protection.Engine F)

abbrev pub no_ports : List ℕ → Bool
no_ports [] = true
no_ports (p ∷ ps) = false

abbrev pub map_err {ℓ} : {A : Type ℓ} {E D : Type 0} → (E → D) → Result E A → Result D A
map_err f (ok a) = ok a
map_err f (err e) = err (f e)

-- What the loops and constructors before the tables give.
pub record Plan : Type 0 where
  pub origin_ips : List Ip
  pub origin_ports : List ℕ
  pub resolver : Resolver
  pub targets : List Target
  pub balancer : Balancer

-- `for _, dport := range destPorts`, for one address.
unfoldable pub targets_of : Ip → ℤ → List ℕ → List Target
targets_of dip w [] = []
targets_of dip w (dport ∷ dports) = new_target dip dport w true ∷ targets_of dip w dports

abbrev pub weight_of : Option ℤ → ℤ
weight_of none = pos 1
weight_of (some w) = w

unfoldable pub all_targets : (Ip → String) → Assoc String ℤ → List ℕ → List Ip → List Target
all_targets ip_string weights dports [] = []
all_targets ip_string weights dports (dip ∷ dips) =
    targets_of dip (weight_of (lookup (ip_string dip) weights)) dports
    ++ all_targets ip_string weights dports dips

unfoldable pub parse_ips :
    (Text → Option Ip) → (Text → BuildError) → List Text → Result BuildError (List Ip)
parse_ips parse_ip bad [] = ok []
parse_ips parse_ip bad (s ∷ ss) =
    let later = parse_ips parse_ip bad ss in
    or_fail (parse_ip s) (bad s) >>= λ ip. later >>= λ ips. ok (ip ∷ ips)

abbrev pub listens_tcp : String → Bool
listens_tcp protocol = protocol == "tcp" || protocol == "tcp-udp"

abbrev pub listens_udp : String → Bool
listens_udp protocol = protocol == "udp" || protocol == "tcp-udp"

-- The proxies of one kind and of both, in the order in which they are opened.
pub record Opened : Type 0 where
  pub tcp : List Listener
  pub udp : List Listener

-- The body of the two loops.
unfoldable pub open_port :
    (String → Ip → ℕ → Bool) → String → Ip → Opened → ℕ → Result BuildError Opened
open_port can_listen protocol ip o port =
    let l : Listener = record { ip = ip; port = port } in
    let o' = if listens_tcp protocol then record o { tcp = o.tcp ++ l ∷ [] } else o in
    let o'' = if listens_udp protocol then record o' { udp = o'.udp ++ l ∷ [] } else o' in
    fail_if (listens_tcp protocol && not (can_listen "tcp" ip port)) (no_listener "tcp" port)
    >> fail_if (listens_udp protocol && not (can_listen "udp" ip port)) (no_listener "udp" port)
    >> ok o''

unfoldable pub open_ports :
    (String → Ip → ℕ → Bool) → String → Ip → Opened → List ℕ → Result BuildError Opened
open_ports can_listen protocol ip o [] = ok o
open_ports can_listen protocol ip o (port ∷ ports) =
    open_port can_listen protocol ip o port >>= λ more. open_ports can_listen protocol ip more ports

unfoldable pub open_all :
    (String → Ip → ℕ → Bool) → String → List ℕ → Opened → List Ip → Result BuildError Opened
open_all can_listen protocol ports o [] = ok o
open_all can_listen protocol ports o (ip ∷ ips) =
    open_ports can_listen protocol ip o ports >>= λ more.
    open_all can_listen protocol ports more ips

unfoldable pub new_checker :
    String → Health.Config → List Target → Result BuildError (Option Health.Checker)
new_checker protocol cfg targets =
    let upstreams : List Health.Upstream =
      map {B = Health.Upstream} (λ (t : Target). record { ip = t.ip; port = t.port }) targets in
    if protocol == "udp"
    then ok none
    else map_err bad_checker (Health.new cfg upstreams) >>= λ c. ok (some c)

module _ {F : Floats} (parse_ip : Text → Option Ip) (ip_string : Ip → String) where
  unfoldable pub plan : ProxyConfig F → Result BuildError Plan
  plan cfg =
      let origin_texts = resolve_ips parse_ip cfg.origin_ip in
      let dest_texts = resolve_ips parse_ip cfg.dest_ip in
      let origin_ports = resolve_ports cfg.origin_port in
      let dest_ports = resolve_ports cfg.dest_port in
      fail_if (no_ips origin_texts || no_ips dest_texts) no_ips_resolved
      >> fail_if (no_ports origin_ports || no_ports dest_ports) no_ports_resolved
      >> (parse_ips parse_ip bad_origin_ip origin_texts >>= λ origin_ips.
          parse_ips parse_ip bad_dest_ip dest_texts >>= λ dest_ips.
          map_err bad_resolver (new_resolver origin_ports dest_ports cfg.one_to_one) >>= λ resolver.
          map_err bad_balancer (
            Lb.new cfg.algorithm
              (map some (all_targets ip_string cfg.upstream_weights dest_ports dest_ips))
              cfg.sticky_sessions cfg.sticky_ttl)
          >>= λ balancer. ok (record {
            origin_ips = origin_ips;
            origin_ports = origin_ports;
            resolver = resolver;
            targets = all_targets ip_string cfg.upstream_weights dest_ports dest_ips;
            balancer = balancer;
          }))

  unfoldable pub tracker_of : ProxyConfig F → Option Tracker
  tracker_of cfg =
      if cfg.bandwidth_enabled && not (quota_is_zero cfg.quota)
      then some (new_tracker cfg.name cfg.quota)
      else none

  unfoldable pub engine_of : ProxyConfig F → Option (Protection.Engine F)
  engine_of cfg =
      if cfg.l7_protection.enabled
      then some (Protection.new_engine F ip_string cfg.l7_protection)
      else none

  abbrev pub assemble :
      Defaults → ProxyConfig F → Plan → Opened → Option Health.Checker → Instance F
  assemble gd cfg pl opened checker = record {
    name = cfg.name;
    config = cfg;
    running = false;
    tcp = opened.tcp;
    udp = opened.udp;
    resolver = pl.resolver;
    timeouts = resolve_timeouts gd cfg.timeouts;
    balancer = pl.balancer;
    tracker = new_conn_tracker;
    checker = checker;
    bw_tracker = tracker_of cfg;
    l7_engine = engine_of cfg;
  }

  -- From the listeners on.
  unfoldable pub finish :
      (String → Ip → ℕ → Bool) → Defaults → ProxyConfig F → Plan → Result BuildError (Instance F)
  finish can_listen gd cfg pl =
      open_all can_listen cfg.protocol pl.origin_ports (record { tcp = []; udp = [] }) pl.origin_ips
      >>= λ opened.
          new_checker cfg.protocol (health_config gd cfg.health_check) pl.targets >>= λ checker.
          ok (assemble gd cfg pl opened checker)
