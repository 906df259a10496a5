-- ===== src/Tcp/Copies.antt =====
-- internal/proxy/tcp.go: no copy of a connection runs before its first payload is read, over the
-- events of a proxy.
use route_x_reverse_proxy.Common.{
  ℕ, ◌≤◌, ◌<◌, ◌≡◌, refl, subst, Bool, true, false, not, List, [], ◌∷◌, Option, none, some, String,
  ok, err, arith, Bool-cases, inl, inr, nat_eq, if◌then◌else◌, length,
}
use route_x_reverse_proxy.Common.Assoc.{lookup}
use route_x_reverse_proxy.Net.{Ip}
use route_x_reverse_proxy.Lb.Target.{Target}
use route_x_reverse_proxy.Lb.Algorithms.{Picked}
use route_x_reverse_proxy.Lb.Balancer.{Balancer, pick}
use route_x_reverse_proxy.Acl.Engine.{Engine}
use route_x_reverse_proxy.Acl.Compose.{check_composed, denies}
use route_x_reverse_proxy.Bandwidth.Tracker.{Calendar, Tracker}
use route_x_reverse_proxy.L7.Bucket.{Floats}
use route_x_reverse_proxy.L7.Engine as Protection
use route_x_reverse_proxy.Proxy.Conn.{ConnTracker}
use route_x_reverse_proxy.Proxy.Portmap.{Resolver}
use route_x_reverse_proxy.Udp.Datagrams.{is_suspended}
use route_x_reverse_proxy.Tcp.Connections.{
  Stage, accepted, dialling, reading, copying, leaving, Handler, TcpProxy, runs_copy, set_handler,
  to_stage, start_copies, launch, destination, enter, set_out, leave, new_tcp_proxy,
}
use route_x_reverse_proxy.Tcp.Events.{
  Event, accepts, picks, dials, reads, copies_in, copies_out, leaves, marks, rank, at_stage, picked,
  stop_copying, on_handler, welcome, accept, choose, needs_first, dialled, count_in, count_out,
  inspect_first, first_read, copied_in, copied_out, step, steps,
}
use route_x_reverse_proxy.Tcp.Lookups.{at_stage-lookup, at_stage-rank}
use route_x_reverse_proxy.Tcp.Late.{
  LateProxy, put-Late, start-Late, grow-Late, delete-Late, less-Late, ended,
}

module _ (F : Floats) (ip_string : Ip → String) (rand : ℕ → ℕ) (cal : Calendar) where
  -- No copy of a connection runs.
  abbrev Quiet : ℕ → TcpProxy F → Type 0
  Quiet k p = (runs_copy k p.inbound ≡ false) × (runs_copy k p.outbound ≡ false)

  to_stage-Late :
      (stage : Stage) (k : ℕ) (h : Handler) (p : TcpProxy F)
      → k ≤ p.total_conns
      → (rank stage < 3 → Quiet k p)
      → LateProxy p
      → LateProxy (to_stage stage k h p)
  unfolding to_stage set_handler
  to_stage-Late stage k h p given quiet v =
      put-Late k (record h { stage = stage }) p.handlers p.inbound p.outbound p.total_conns given
        quiet v

  leaving-Late :
      (k : ℕ) (h : Handler) (p : TcpProxy F)
      → k ≤ p.total_conns
      → LateProxy p
      → LateProxy (to_stage leaving k h p)
  leaving-Late k h p given v = to_stage-Late leaving k h p given (λ waits. absurd (omega arith)) v

  start_copies-Late :
      (k : ℕ) (h : Handler) (p : TcpProxy F)
      → k ≤ p.total_conns
      → LateProxy p
      → LateProxy (start_copies k h p)
  unfolding start_copies to_stage set_handler
  start_copies-Late k h p given v =
      start-Late k (record h { stage = copying }) p.handlers p.inbound p.outbound p.total_conns
        given refl v

  set_out-Late :
      (k : ℕ) (h : Handler) (idx n : ℕ) (p : TcpProxy F)
      → k ≤ p.total_conns
      → Quiet k p
      → LateProxy p
      → LateProxy (set_out k h idx n p)
  unfolding set_out enter set_handler
  set_out-Late k h idx n p given quiet v = go (destination idx p) refl
    where
      go : (o : Option (Target × ℕ)) → destination idx p ≡ o → LateProxy (set_out k h idx n p)
      go none q =
          rw (q, set_out)
            (put-Late k _ p.handlers p.inbound p.outbound p.total_conns given (λ waits. quiet) v)
      go (some to) q =
          rw (q, set_out)
            (put-Late k _ p.handlers p.inbound p.outbound p.total_conns given (λ waits. quiet) v)

  picked-Late :
      (k : ℕ) (h : Handler) (n : ℕ) (p : TcpProxy F) (r : Picked)
      → k ≤ p.total_conns
      → Quiet k p
      → LateProxy p
      → LateProxy (picked k h n p r)
  unfolding picked
  picked-Late k h n p (err x) given quiet v = leaving-Late k h p given v
  picked-Late k h n p (ok idx) given quiet v = set_out-Late k h idx n p given quiet v

  dialled-Late :
      (k : ℕ) (h : Handler) (up : Bool) (p : TcpProxy F)
      → k ≤ p.total_conns
      → Quiet k p
      → LateProxy p
      → LateProxy (dialled F ip_string rand cal k h up p)
  unfolding dialled
  dialled-Late k h false p given quiet v = leaving-Late k h p given v
  dialled-Late k h true p given quiet v =
      elim (Bool-cases (needs_first F ip_string rand cal p.protection)) [
        | inl wants ↦ rw wants (to_stage-Late reading k h p given (λ waits. quiet) v)
        | inr free ↦ rw free (start_copies-Late k h p given v)
      ]

  first_read-Late :
      (k : ℕ) (h : Handler) (payload : List ℕ) (failed written : Bool) (n : ℕ) (p : TcpProxy F)
      → k ≤ p.total_conns
      → LateProxy p
      → LateProxy (first_read F ip_string rand cal k h payload failed written n p)
  unfolding first_read count_in
  first_read-Late k h [] true written n p given v = leaving-Late k h p given v
  first_read-Late k h [] false written n p given v = start_copies-Late k h p given v
  first_read-Late k h (b ∷ bs) failed written n p given v =
      elim (Bool-cases (inspect_first F ip_string rand cal p.protection h.src (b ∷ bs) n).1) [
        | inr stopped ↦ rw stopped (leaving-Late k h _ given v)
        | inl passed ↦ rw passed (go written failed)
      ]
    where
      seen : TcpProxy F
      seen = record p {
        protection = (inspect_first F ip_string rand cal p.protection h.src (b ∷ bs) n).0;
      }

      counted : TcpProxy F
      counted = count_in F ip_string rand cal h.conn (length (b ∷ bs)) n seen

      go :
          (written failed : Bool)
          → LateProxy (
              if not written
              then to_stage leaving k h seen
              else if failed
              then to_stage leaving k h counted
              else start_copies k h counted)
      go false failed = leaving-Late k h seen given v
      go true true = leaving-Late k h counted given v
      go true false = start_copies-Late k h counted given v

  stop_copying-Late : (k : ℕ) (p : TcpProxy F) → LateProxy p → LateProxy (stop_copying k p)
  unfolding stop_copying
  stop_copying-Late k p v = go (at_stage copying k p) refl
    where
      go : (o : Option Handler) → at_stage copying k p ≡ o → LateProxy (stop_copying k p)
      go none q = rw (q, stop_copying) v
      go (some h) q =
          rw (q, stop_copying) (leaving-Late k h p (v.keys k h (at_stage-lookup copying k h p q)) v)

  copied_in-Late :
      (k m n : ℕ) (p : TcpProxy F)
      → LateProxy p
      → LateProxy (copied_in F ip_string rand cal k m n p)
  unfolding copied_in count_in
  copied_in-Late k m n p v = elim (Bool-cases (runs_copy k p.inbound)) [
    | inr idle ↦ rw idle v
    | inl runs ↦ rw runs (
        stop_copying-Late k _ (
          less-Late p.handlers p.inbound p.outbound _ p.outbound p.total_conns
            (λ j. ended j k p.inbound) (λ j r. r) v))
  ]

  copied_out-Late :
      (k m n : ℕ) (p : TcpProxy F)
      → LateProxy p
      → LateProxy (copied_out F ip_string rand cal k m n p)
  unfolding copied_out count_out
  copied_out-Late k m n p v = elim (Bool-cases (runs_copy k p.outbound)) [
    | inr idle ↦ rw idle v
    | inl runs ↦ rw runs (
        stop_copying-Late k _ (
          less-Late p.handlers p.inbound p.outbound p.inbound _ p.total_conns (λ j r. r)
            (λ j. ended j k p.outbound) v))
  ]

  accept-Late :
      (src : Ip) (port n : ℕ) (p : TcpProxy F)
      → LateProxy p
      → LateProxy (accept F ip_string rand cal src port n p)
  unfolding accept launch
  accept-Late src port n p v = elim (Bool-cases (is_suspended p.recorder)) [
    | inl stopped ↦ rw stopped v
    | inr running ↦ elim (Bool-cases (denies (check_composed p.global_acl p.proxy_acl src).1)) [
      | inl denied ↦ rw running (rw denied v)
      | inr ruled ↦ elim (Bool-cases (welcome F ip_string rand cal p.protection src n).1) [
        | inr sent_off ↦ rw running (rw ruled (rw sent_off v))
        | inl let_in ↦
            rw running
              (rw ruled (rw let_in (grow-Late _ p.handlers p.inbound p.outbound p.total_conns v)))
      ]
    ]
  ]

  with_handler :
      (stage : Stage) (k : ℕ) (p : TcpProxy F) (go : Handler → TcpProxy F)
      → LateProxy p
      → ((h : Handler) → k ≤ p.total_conns → (rank stage < 3 → Quiet k p) → LateProxy (go h))
      → LateProxy (on_handler (at_stage stage k p) p go)
  with_handler stage k p go v each = case (at_stage stage k p) refl
    where
      case : (o : Option Handler) → at_stage stage k p ≡ o → LateProxy (on_handler o p go)
      case none q = v
      case (some h) q =
          let here = at_stage-lookup stage k h p q in
          each h (v.keys k h here)
            λ waits. v.early k h here (subst (λ r. r < 3) (at_stage-rank stage k h p q) waits)

  step-Late : (p : TcpProxy F) (e : Event) → LateProxy p → LateProxy (step F ip_string rand cal p e)
  unfolding step choose leave
  step-Late p (accepts src port n) v = accept-Late src port n p v
  step-Late p (picks k n) v = with_handler accepted k p _ v λ x given quiet.
      picked-Late k x n _ (pick ip_string rand p.balancer x.src n n).1 given (quiet (omega arith)) v
  step-Late p (dials k up) v =
      with_handler dialling k p _ v
        λ x given quiet. dialled-Late k x up p given (quiet (omega arith)) v
  step-Late p (reads k payload failed written n) v =
      with_handler reading k p _ v
        λ x given quiet. first_read-Late k x payload failed written n p given v
  step-Late p (copies_in k m n) v = copied_in-Late k m n p v
  step-Late p (copies_out k m n) v = copied_out-Late k m n p v
  step-Late p (leaves k) v =
      with_handler leaving k p _ v
        λ x given quiet. delete-Late k p.handlers p.inbound p.outbound p.total_conns v
  step-Late p (marks ip port healthy) v = v

  steps_from-Late :
      (p : TcpProxy F) (es : List Event) → LateProxy p → LateProxy (steps F ip_string rand cal p es)
  unfolding steps
  steps_from-Late p [] v = v
  steps_from-Late p (e ∷ es) v =
      steps_from-Late (step F ip_string rand cal p e) es (step-Late p e v)

  -- After any events in any order, no copy of a new proxy, in either direction, runs for a connection
  -- that still waits for its pick, for the answer of its dial or for its first payload.
  pub steps-Late :
      (name : String) (port : ℕ) (resolver : Option Resolver) (balancer : Balancer)
      (tracker : ConnTracker) (rules : Option Engine × Option Engine)
      (protection : Option (Protection.Engine F)) (recorder : Option Tracker) (es : List Event)
      → LateProxy (
          steps F ip_string rand cal
            (new_tcp_proxy name port resolver balancer tracker rules protection recorder)
            es)
  unfolding new_tcp_proxy lookup
  steps-Late name port resolver balancer tracker rules protection recorder es =
      steps_from-Late _ es fresh
    where
      fresh :
          LateProxy (new_tcp_proxy name port resolver balancer tracker rules protection recorder)
      fresh = record {
        early = λ k h here waits. (refl, refl);
        keys = λ k h here. absurd (ground (arith, here));
        started = λ k runs. absurd (ground (arith, runs));
      }
