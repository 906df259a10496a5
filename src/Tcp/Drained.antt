-- ===== src/Tcp/Drained.antt =====
-- internal/proxy/tcp.go and draining.go: a proxy from its start to the end of its connections.
use route_x_reverse_proxy.Common.{
  ℕ, ◌≡◌, refl, ap, ◌∙◌, true, false, nat_eq, ◌≢◌, subst, List, [], ◌∷◌, Option, some, String,
  arith, length, get_elem?,
}
use route_x_reverse_proxy.Common.Int.{pos}
use route_x_reverse_proxy.Common.Assoc.{Assoc, lookup}
use route_x_reverse_proxy.Net.{Ip}
use route_x_reverse_proxy.Lb.Target.{Target}
use route_x_reverse_proxy.Lb.Balancer.{Balancer}
use route_x_reverse_proxy.Lb.Ledger.{IsExact, count}
use route_x_reverse_proxy.Acl.Engine.{Engine}
use route_x_reverse_proxy.Bandwidth.Tracker.{Tracker, Calendar}
use route_x_reverse_proxy.L7.Bucket.{Floats}
use route_x_reverse_proxy.L7.Engine as Protection
use route_x_reverse_proxy.Proxy.Portmap.{Resolver}
use route_x_reverse_proxy.Proxy.Conn.{ConnInfo, ConnTracker, new_conn_tracker}
use route_x_reverse_proxy.Tcp.Drainer.{Drainer, new_drainer, wait_over}
use route_x_reverse_proxy.Tcp.Connections.{TcpProxy, Handler, new_tcp_proxy}
use route_x_reverse_proxy.Tcp.Events.{Event, steps}
use route_x_reverse_proxy.Tcp.Holdings.{holdings}
use route_x_reverse_proxy.Tcp.Registry.{Owned}
use route_x_reverse_proxy.Tcp.Runs.{Sound}
use route_x_reverse_proxy.Tcp.History.{steps_from-Sound}

-- A registry whose connections belong to nobody is empty.
first_found : (id : ℕ) (c : ConnInfo) (m : Assoc ℕ ConnInfo) → lookup id ((id, c) ∷ m) ≡ some c
unfolding lookup
first_found id c m = rw ((nat_eq.reflects id id).1 refl) refl

nobody : (k : ℕ) (h : Handler) (hs : Assoc ℕ Handler) → hs ≡ [] → lookup k hs ≢ some h
unfolding lookup
nobody k h [] e there = ground (arith, there)
nobody k h (kv ∷ hs) e there = ground (arith, e)

empty_registry :
    (hs : Assoc ℕ Handler) (t : ConnTracker) (m : Assoc ℕ ConnInfo)
    → hs ≡ []
    → t.conns ≡ m
    → Owned hs t
    → m ≡ []
empty_registry hs t [] none_left e owned = refl
empty_registry hs t ((id, c) ∷ m) none_left e owned =
    let (k, h, at_k, has) = owned id c (ap (lookup id) e ∙ first_found id c m) in
    absurd (nobody k h hs none_left at_k)

over : (d : Drainer) → d.live ≡ pos 0 → wait_over d 0 false ≡ true
unfolding wait_over
over d h = ground (arith, h)

module _ (F : Floats) (ip_string : Ip → String) (rand : ℕ → ℕ) (cal : Calendar) where
  -- A new proxy, with a registry of its own and a balancer whose targets have no connections, after
  -- any events in any order, also where a pick, a dial, a read or a write fails: the active count and
  -- the drainer's count are the number of the running handlers, each target counts exactly the
  -- handlers that hold it, no two registered connections share an identifier, and each registered
  -- connection belongs to a running handler.
  pub steps-Sound :
      (name : String) (port : ℕ) (resolver : Option Resolver) (b : Balancer)
      (rules : Option Engine × Option Engine) (protection : Option (Protection.Engine F))
      (recorder : Option Tracker) (es : List Event)
      → IsExact b.targets []
      → Sound (
          steps F ip_string rand cal
            (new_tcp_proxy name port resolver b new_conn_tracker rules protection recorder)
            es)
  unfolding new_tcp_proxy new_drainer
  steps-Sound name port resolver b rules protection recorder es idle =
      steps_from-Sound F ip_string rand cal
        (new_tcp_proxy name port resolver b new_conn_tracker rules protection recorder) es
        (record {
          keys = tt;
          known = λ k h e. absurd (unfold lookup in ground (arith, e));
          fresh = λ k h e s. absurd (unfold lookup in ground (arith, e));
          counted = refl;
          draining = refl;
          exact = idle;
          consistent = record { counted = refl; distinct = tt; ids = tt };
          owned = λ id c e. absurd (unfold lookup in ground (arith, e));
        })

  -- Once the last handler of such a proxy has left, nothing is left over: its registry is empty, its
  -- active count is 0, no target counts a connection, and a wait of its drainer is over at once.
  pub steps-drained :
      (name : String) (port : ℕ) (resolver : Option Resolver) (b : Balancer)
      (rules : Option Engine × Option Engine) (protection : Option (Protection.Engine F))
      (recorder : Option Tracker) (es : List Event) (p : TcpProxy F)
      → IsExact b.targets []
      → steps F ip_string rand cal
          (new_tcp_proxy name port resolver b new_conn_tracker rules protection recorder)
          es
        ≡ p
      → p.handlers ≡ []
      → (p.tracker.conns ≡ [])
        × (p.active_conns ≡ pos 0)
        × ((i : ℕ) (t : Target) → get_elem? p.balancer.targets i ≡ some t → t.active_conns ≡ pos 0)
        × (wait_over p.drainer 0 false ≡ true)
  steps-drained name port resolver b rules protection recorder es p idle run left =
      let v : Sound p =
        subst (λ (q : TcpProxy F). Sound q) run
          (steps-Sound name port resolver b rules protection recorder es idle) in
      let none_left : length p.handlers ≡ 0 = ap length left in
      (
        empty_registry p.handlers p.tracker p.tracker.conns left refl v.owned,
        v.counted ∙ ap pos none_left,
        λ i t e. v.exact i t e ∙ ap (λ hs. pos (count i (holdings hs))) left,
        over p.drainer (v.draining ∙ ap pos none_left),
      )
