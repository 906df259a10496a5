-- ===== src/Tcp/Connections.antt =====
-- internal/proxy/tcp.go: the loop of Start, handleConn and its copies. A connection goes by the
-- count of connections when it was accepted. It moves by stages, each a stretch of handleConn
-- between two waits, so that the stretches of several connections mix in any order. What the network
-- does is an argument. Addresses are parsed, and deadlines and socket options are left out.
use route_x_reverse_proxy.Common.{
  ℕ, ◌+◌, Bool, true, false, List, [], ◌∷◌, Option, none, some, String, ok, err, if◌then◌else◌,
  ◌==◌, nat_eq, get_elem?,
}
use route_x_reverse_proxy.Common.Int.{ℤ, pos, negsuc, ◌+ℤ◌}
use route_x_reverse_proxy.Common.Assoc.{Assoc, lookup, insert, delete}
use route_x_reverse_proxy.Net.{Ip}
use route_x_reverse_proxy.Lb.Target.{Target}
use route_x_reverse_proxy.Lb.Balancer.{Balancer, release}
use route_x_reverse_proxy.Acl.Engine.{Engine}
use route_x_reverse_proxy.Bandwidth.Tracker.{Tracker}
use route_x_reverse_proxy.L7.Bucket.{Floats}
use route_x_reverse_proxy.L7.Engine as Protection
use route_x_reverse_proxy.Proxy.Portmap.{Resolver, is_one_to_one, dest_ports_for}
use route_x_reverse_proxy.Proxy.Conn.{ConnInfo, ConnTracker, register, forget}
use route_x_reverse_proxy.Udp.Sessions.{first_port}
use route_x_reverse_proxy.Tcp.Drainer.{Drainer, new_drainer, track, done}

-- Before the pick; before the dial's answer; before the first payload; while the copies run; before
-- the deferred calls.
pub data Stage : Type 0 where
  accepted dialling reading copying leaving : Stage

-- The target and the registered connection that the deferred calls give back.
pub record Handler : Type 0 where
  pub src : Ip
  pub port : ℕ
  pub stage : Stage
  pub target : Option ℕ
  pub conn : Option ℕ

-- `handlers` holds the runs of handleConn; `inbound` and `outbound` hold the copies that run.
pub record TcpProxy (F : Floats) : Type 0 where
  pub proxy_name : String
  pub origin_port : ℕ
  pub resolver : Option Resolver
  pub balancer : Balancer
  pub tracker : ConnTracker
  pub drainer : Drainer
  pub global_acl : Option Engine
  pub proxy_acl : Option Engine
  pub protection : Option (Protection.Engine F)
  pub recorder : Option Tracker
  pub active_conns : ℤ
  pub total_conns : ℕ
  pub bytes_in : ℕ
  pub bytes_out : ℕ
  pub handlers : Assoc ℕ Handler
  pub inbound : List ℕ
  pub outbound : List ℕ

abbrev pub runs_copy : ℕ → List ℕ → Bool
runs_copy k [] = false
runs_copy k (j ∷ js) = let later = runs_copy k js in if j == k then true else later

-- The destination port: the resolver's in one-to-one mode, and the target's own otherwise.
unfoldable pub dest_port : Option Resolver → ℕ → Target → Option ℕ
dest_port resolver origin t =
    if is_one_to_one resolver
    then elim (dest_ports_for resolver origin) [ err e ↦ none | ok ports ↦ first_port ports ]
    else some t.port

-- `connInfo.bytesIn` of a connection that is still registered.
unfoldable pub credit_in : Option ℕ → ℕ → ConnTracker → ConnTracker
credit_in none n t = t
credit_in (some id) n t = elim (lookup id t.conns) [
  | none ↦ t
  | some c ↦ record t { conns = insert id (record c { bytes_in = c.bytes_in + n }) t.conns }
]

unfoldable pub credit_out : Option ℕ → ℕ → ConnTracker → ConnTracker
credit_out none n t = t
credit_out (some id) n t = elim (lookup id t.conns) [
  | none ↦ t
  | some c ↦ record t { conns = insert id (record c { bytes_out = c.bytes_out + n }) t.conns }
]

abbrev pub conn_of : Option Handler → Option ℕ
conn_of none = none
conn_of (some h) = h.conn

module _ {F : Floats} where
  unfoldable pub set_handler : ℕ → Handler → TcpProxy F → TcpProxy F
  set_handler k h p = record p { handlers = insert k h p.handlers }

  unfoldable pub to_stage : Stage → ℕ → Handler → TcpProxy F → TcpProxy F
  to_stage stage k h p = set_handler k (record h { stage = stage }) p

  unfoldable pub start_copies : ℕ → Handler → TcpProxy F → TcpProxy F
  start_copies k h p = record (to_stage copying k h p) {
    inbound = k ∷ p.inbound;
    outbound = k ∷ p.outbound;
  }

  -- An accepted connection: the counts and the new run of handleConn.
  unfoldable pub launch : Ip → ℕ → TcpProxy F → TcpProxy F
  launch src port p = record p {
    drainer = track p.drainer;
    active_conns = p.active_conns +ℤ pos 1;
    total_conns = p.total_conns + 1;
    handlers =
        insert (p.total_conns + 1)
          (record { src = src; port = port; stage = accepted; target = none; conn = none })
          p.handlers;
  }

  -- From the destination port to the dial.
  unfoldable pub enter : ℕ → Handler → ℕ → Target → ℕ → ℕ → TcpProxy F → TcpProxy F
  enter k h idx t upstream now p =
      let info : ConnInfo = record {
        id = 0;
        proxy_name = p.proxy_name;
        protocol = "tcp";
        src_ip = h.src;
        src_port = h.port;
        upstream_ip = t.ip;
        upstream_port = upstream;
        started_at = now;
        bytes_in = 0;
        bytes_out = 0;
        closed = false;
      } in
      set_handler k
        (record h { stage = dialling; target = some idx; conn = some (p.tracker.next + 1) })
        (record p { tracker = (register info p.tracker).0 })

  -- The target that was picked, with the port to dial.
  unfoldable pub destination : ℕ → TcpProxy F → Option (Target × ℕ)
  destination idx p = elim (get_elem? p.balancer.targets idx) [
    | none ↦ none
    | some t ↦ elim (dest_port p.resolver p.origin_port t) [ none ↦ none | some d ↦ some (t, d) ]
  ]

  unfoldable pub set_out : ℕ → Handler → ℕ → ℕ → TcpProxy F → TcpProxy F
  set_out k h idx now p = elim (destination idx p) [
    | none ↦ set_handler k (record h { stage = leaving; target = some idx }) p
    | some to ↦ enter k h idx to.0 to.1 now p
  ]

  -- The deferred calls, the last one first.
  unfoldable pub leave : ℕ → Handler → TcpProxy F → TcpProxy F
  leave k h p = record p {
    tracker = elim h.conn [ none ↦ p.tracker | some id ↦ forget id p.tracker ];
    balancer = release p.balancer h.target;
    active_conns = p.active_conns +ℤ negsuc 0;
    drainer = done p.drainer;
    handlers = delete k p.handlers;
  }

-- `NewTCPProxy`, once it listens; the guards that SetL7 and the manager set stand among its
-- arguments.
unfoldable pub new_tcp_proxy :
    {F : Floats}
    → String
    → ℕ
    → Option Resolver
    → Balancer
    → ConnTracker
    → Option Engine × Option Engine
    → Option (Protection.Engine F)
    → Option Tracker
    → TcpProxy F
new_tcp_proxy name port resolver balancer tracker rules protection recorder = record {
  proxy_name = name;
  origin_port = port;
  resolver = resolver;
  balancer = balancer;
  tracker = tracker;
  drainer = new_drainer (pos 30000000000);
  global_acl = rules.0;
  proxy_acl = rules.1;
  protection = protection;
  recorder = recorder;
  active_conns = pos 0;
  total_conns = 0;
  bytes_in = 0;
  bytes_out = 0;
  handlers = [];
  inbound = [];
  outbound = [];
}
