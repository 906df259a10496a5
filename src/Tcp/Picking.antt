-- ===== src/Tcp/Picking.antt =====
-- internal/proxy/tcp.go: what a run of handleConn holds after its pick.
use route_x_reverse_proxy.Common.{
  ℕ, ◌+◌, ◌≡◌, refl, ap, sym, ◌∙◌, false, List, ◌∷◌, none, some, ok, err, arith, nat_eq,
  Option-cases, inl, inr,
}
use route_x_reverse_proxy.Common.Int.{ℤ}
use route_x_reverse_proxy.Common.Assoc.{Assoc, lookup}
use route_x_reverse_proxy.Lb.Target.{Target}
use route_x_reverse_proxy.Lb.Balancer.{Balancer}
use route_x_reverse_proxy.Lb.Algorithms.{Picked}
use route_x_reverse_proxy.Lb.Ledger.{IsExact, taken}
use route_x_reverse_proxy.L7.Bucket.{Floats}
use route_x_reverse_proxy.Proxy.Conn.{
  ConnInfo, ConnTracker, IsConsistent, register, register-IsConsistent,
}
use route_x_reverse_proxy.Tcp.Connections.{
  dialling, leaving, Handler, TcpProxy, set_handler, enter, destination, set_out,
}
use route_x_reverse_proxy.Tcp.Events.{picked}
use route_x_reverse_proxy.Tcp.Holdings.{holdings, taken-IsExact}
use route_x_reverse_proxy.Tcp.Registry.{Owned, same_value, kept-Owned, registered-Owned}
use route_x_reverse_proxy.Tcp.Sound.{IsSound, moved-IsSound}
use route_x_reverse_proxy.Tcp.Runs.{Sound, to_stage-Sound}

pub credited-IsSound :
    (hs : Assoc ℕ Handler) (n : ℕ) (ts ts' : List Target) (t t' : ConnTracker) (active live : ℤ)
    → IsSound hs n ts t active live
    → IsExact ts' (holdings hs)
    → IsConsistent t' × Owned hs t'
    → IsSound hs n ts' t' active live
credited-IsSound hs n ts ts' t t' active live v exact registry = record {
  keys = v.keys;
  known = v.known;
  fresh = v.fresh;
  counted = v.counted;
  draining = v.draining;
  exact = exact;
  consistent = registry.0;
  owned = registry.1;
}

-- A pick of a target for a run, from a balancer that has counted it.
module _ {F : Floats} (k : ℕ) (h : Handler) (p : TcpProxy F)
    (here : lookup k p.handlers ≡ some h) where
  enter-Sound :
      (idx : ℕ) (t : Target) (upstream now : ℕ) (b : Balancer)
      → (h.target ≡ none) × (h.conn ≡ none)
      → IsExact b.targets (idx ∷ holdings p.handlers)
      → Sound p
      → Sound (enter k h idx t upstream now (record p { balancer = b }))
  unfolding enter set_handler
  enter-Sound idx t upstream now b free exact v =
      let info : ConnInfo = record {
        id = 0;
        proxy_name = p.proxy_name;
        protocol = "tcp";
        src_ip = h.src;
        src_port = h.port;
        upstream_ip = t.ip;
        upstream_port = upstream;
        started_at = now;
        bytes_in = 0;
        bytes_out = 0;
        closed = false;
      } in
      let new = record h {
        stage = dialling;
        target = some idx;
        conn = some (p.tracker.next + 1);
      } in
      moved-IsSound p.handlers p.total_conns p.balancer.targets p.tracker p.active_conns
        p.drainer.live k h new b.targets (register info p.tracker).0 here
        (λ same. ground (arith, same))
        (taken-IsExact b.targets p.handlers k h new idx here free.0 refl exact)
        (register-IsConsistent info p.tracker v.consistent)
        (registered-Owned p.handlers p.tracker k h new info here free.1 refl v.owned) v

  stranded-Sound :
      (idx : ℕ) (b : Balancer)
      → (h.target ≡ none) × (h.conn ≡ none)
      → IsExact b.targets (idx ∷ holdings p.handlers)
      → Sound p
      → Sound (
          set_handler k
            (record h { stage = leaving; target = some idx })
            (record p { balancer = b }))
  unfolding set_handler
  stranded-Sound idx b free exact v =
      let new = record h { stage = leaving; target = some idx } in
      moved-IsSound p.handlers p.total_conns p.balancer.targets p.tracker p.active_conns
        p.drainer.live k h new b.targets p.tracker here (λ same. ground (arith, same))
        (taken-IsExact b.targets p.handlers k h new idx here free.0 refl exact) v.consistent
        (kept-Owned p.handlers p.tracker k new
          (λ old id there has.
            ap (λ (x : Handler). x.conn) (same_value h old (sym here ∙ there)) ∙ has)
          v.owned)
        v

  set_out-Sound :
      (idx now : ℕ) (b : Balancer)
      → (h.target ≡ none) × (h.conn ≡ none)
      → IsExact b.targets (idx ∷ holdings p.handlers)
      → Sound p
      → Sound (set_out k h idx now (record p { balancer = b }))
  unfolding set_out
  set_out-Sound idx now b free exact v =
      elim (Option-cases (destination idx (record p { balancer = b }))) [
        | inl nowhere ↦ rw (nowhere, set_out) (stranded-Sound idx b free exact v)
        | inr (to, found) ↦ rw (found, set_out) (enter-Sound idx to.0 to.1 now b free exact v)
      ]

  pub picked-Sound :
      (now : ℕ) (b : Balancer) (r : Picked)
      → (h.target ≡ none) × (h.conn ≡ none)
      → IsExact b.targets (taken r (holdings p.handlers))
      → Sound p
      → Sound (picked k h now (record p { balancer = b }) r)
  unfolding picked
  picked-Sound now b (ok idx) free exact v = set_out-Sound idx now b free exact v
  picked-Sound now b (err e) free exact v =
      to_stage-Sound k h (record p { balancer = b }) here leaving (λ same. ground (arith, same))
        (credited-IsSound p.handlers p.total_conns p.balancer.targets b.targets p.tracker p.tracker
          p.active_conns p.drainer.live v exact (v.consistent, v.owned))
