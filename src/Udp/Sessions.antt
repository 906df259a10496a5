-- ===== src/Udp/Sessions.antt =====
-- internal/proxy/udp.go, getOrCreateSession, the cleanup of readUpstream and reapSessions. A session
-- goes by the identifier of its connection; its reader runs from its creation until it ends, at any
-- time. The outcome of each dial is an argument, and the clock is read once in each step.
use route_x_reverse_proxy.Common.{
  ℕ, ◌+◌, ◌-◌, Bool, true, false, not, ◌&&◌, List, [], ◌∷◌, map, Option, none, some, String, ok,
  err, ltb, if◌then◌else◌, ◌==◌, string_eq, nat_eq, get_elem?, retain,
}
use route_x_reverse_proxy.Common.Int.{ℤ, pos, negsuc, ◌+ℤ◌}
use route_x_reverse_proxy.Common.Assoc.{Assoc, lookup, insert, delete}
use route_x_reverse_proxy.Net.{Ip}
use route_x_reverse_proxy.Lb.Target.{Target}
use route_x_reverse_proxy.Lb.Balancer.{Balancer, pick, release}
use route_x_reverse_proxy.Proxy.Portmap.{Resolver, is_one_to_one, dest_ports_for}
use route_x_reverse_proxy.Proxy.Conn.{ConnInfo, ConnTracker, register, forget}

pub record Session : Type 0 where
  pub key : String
  pub target : ℕ
  pub cancelled : Bool
  pub last_activity : ℕ

-- `sessions` is the table; `readers` holds the sessions whose reader runs.
pub record UdpProxy : Type 0 where
  pub proxy_name : String
  pub origin_port : ℕ
  pub session_timeout : ℕ
  pub resolver : Option Resolver
  pub balancer : Balancer
  pub tracker : ConnTracker
  pub sessions : Assoc String ℕ
  pub readers : Assoc ℕ Session
  pub active_conns : ℤ
  pub total_conns : ℕ

-- `lastActivity.Store`.
unfoldable pub touch : ℕ → ℕ → UdpProxy → UdpProxy
touch id now p = elim (lookup id p.readers) [
  | none ↦ p
  | some s ↦ record p { readers = insert id (record s { last_activity = now }) p.readers }
]

abbrev pub first_port : List ℕ → Option ℕ
first_port [] = none
first_port (d ∷ ds) = some d

-- The destination port: the resolver's in one-to-one mode, and the target's own otherwise.
unfoldable pub dest_port : UdpProxy → Target → Option ℕ
dest_port p t =
    if is_one_to_one p.resolver
    then elim (dest_ports_for p.resolver p.origin_port) [
      | err e ↦ none
      | ok ports ↦ first_port ports
    ]
    else some t.port

-- The session that is made once its upstream is dialled; its identifier is the one that Register
-- gives to the connection.
unfoldable pub open_session : String → Ip → ℕ → ℕ → Target → ℕ → ℕ → UdpProxy → UdpProxy × ℕ
open_session key src port idx t upstream now p =
    let info : ConnInfo = record {
      id = 0;
      proxy_name = p.proxy_name;
      protocol = "udp";
      src_ip = src;
      src_port = port;
      upstream_ip = t.ip;
      upstream_port = upstream;
      started_at = now;
      bytes_in = 0;
      bytes_out = 0;
      closed = false;
    } in
    let id = p.tracker.next + 1 in
    let s : Session = record { key = key; target = idx; cancelled = false; last_activity = now } in
    (
      record p {
        tracker = (register info p.tracker).0;
        sessions = insert key id p.sessions;
        readers = insert id s p.readers;
        active_conns = p.active_conns +ℤ pos 1;
        total_conns = p.total_conns + 1;
      },
      id,
    )

-- From the chosen target on; each failure gives the target back.
unfoldable pub connect : String → Ip → ℕ → Bool → ℕ → ℕ → UdpProxy → UdpProxy × Option ℕ
connect key src port dialled now idx p =
    let failed : UdpProxy × Option ℕ =
      (record p { balancer = release p.balancer (some idx) }, none) in
    elim (get_elem? p.balancer.targets idx) [
      | none ↦ (p, none)
      | some t ↦ elim (dest_port p t) [
        | none ↦ failed
        | some upstream ↦
            let opened = open_session key src port idx t upstream now p in
            if dialled then (opened.0, some opened.1) else failed
      ]
    ]

module _ (ip_string : Ip → String) (rand : ℕ → ℕ) where
  unfoldable pub get_or_create_session : String → Ip → ℕ → Bool → ℕ → UdpProxy → UdpProxy × Option ℕ
  get_or_create_session key src port dialled now p = elim (lookup key p.sessions) [
    | some id ↦ (touch id now p, some id)
    | none ↦
        let (b, picked) = pick ip_string rand p.balancer src now now in
        elim picked [
          | err e ↦ (record p { balancer = b }, none)
          | ok idx ↦ connect key src port dialled now idx (record p { balancer = b })
        ]
  ]

-- The deferred calls of readUpstream.
unfoldable pub end_reader : ℕ → UdpProxy → UdpProxy
end_reader id p = elim (lookup id p.readers) [
  | none ↦ p
  | some s ↦ record p {
    balancer = release p.balancer (some s.target);
    tracker = forget id p.tracker;
    sessions = delete s.key p.sessions;
    readers = delete id p.readers;
    active_conns = p.active_conns +ℤ negsuc 0;
  }
]

abbrev pub idle : ℕ → UdpProxy → ℕ → Bool
idle now p id = elim (lookup id p.readers) [
  | none ↦ false
  | some s ↦ ltb p.session_timeout (now - s.last_activity)
]

-- Whether a session stands in the table.
abbrev pub listed : UdpProxy → ℕ × Session → Bool
listed p kv = elim (lookup kv.1.key p.sessions) [ none ↦ false | some id ↦ id == kv.0 ]

abbrev pub cancel_idle : ℕ → UdpProxy → ℕ × Session → Session
cancel_idle now p kv =
    if listed p kv && idle now p kv.0 then record kv.1 { cancelled = true } else kv.1

-- One turn of the loop of reapSessions.
unfoldable pub reap_sessions : ℕ → UdpProxy → UdpProxy
reap_sessions now p = record p {
  sessions = retain (λ kv. not (idle now p kv.1)) p.sessions;
  readers = map {B = ℕ × Session} (λ kv. (kv.0, cancel_idle now p kv)) p.readers;
}
