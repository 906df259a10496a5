-- ===== src/Tcp/History.antt =====
-- internal/proxy/tcp.go: a proxy after any events, in any order.
use route_x_reverse_proxy.Common.{
  ℕ, ◌≡◌, refl, sym, ◌∙◌, Bool, true, false, List, [], ◌∷◌, Option, none, some, String, arith,
  nat_eq, length, Bool-cases, Option-cases, inl, inr,
}
use route_x_reverse_proxy.Common.Assoc.{lookup}
use route_x_reverse_proxy.Net.{Ip}
use route_x_reverse_proxy.Lb.Balancer.{pick, set_health}
use route_x_reverse_proxy.Lb.Ledger.{pick_counts, set_health_in-active}
use route_x_reverse_proxy.L7.Bucket.{Floats}
use route_x_reverse_proxy.Acl.Compose.{check_composed, denies}
use route_x_reverse_proxy.Bandwidth.Tracker.{Calendar}
use route_x_reverse_proxy.Udp.Datagrams.{is_suspended}
use route_x_reverse_proxy.Tcp.Drainer.{track}
use route_x_reverse_proxy.Tcp.Connections.{
  accepted, dialling, reading, copying, leaving, Handler, TcpProxy, runs_copy, launch, conn_of,
}
use route_x_reverse_proxy.Tcp.Events.{
  Event, accepts, picks, dials, reads, copies_in, copies_out, leaves, marks, at_stage, welcome,
  accept, choose, needs_first, dialled, count_in, count_out, inspect_first, first_read,
  stop_copying, copied_in, copied_out, on_handler, step, steps,
}
use route_x_reverse_proxy.Tcp.Holdings.{holdings}
use route_x_reverse_proxy.Tcp.Credits.{credit_in-keeps, credit_out-keeps}
use route_x_reverse_proxy.Tcp.Sound.{launched-IsSound}
use route_x_reverse_proxy.Tcp.Runs.{
  Sound, at_stage-found, to_stage-Sound, start_copies-Sound, leave-Sound,
}
use route_x_reverse_proxy.Tcp.Picking.{credited-IsSound, picked-Sound}

module _ (F : Floats) (ip_string : Ip → String) (rand : ℕ → ℕ) (cal : Calendar) where
  choose-Sound :
      (k : ℕ) (h : Handler) (now : ℕ) (p : TcpProxy F)
      → at_stage accepted k p ≡ some h
      → Sound p
      → Sound (choose F ip_string rand cal k h now p)
  unfolding choose
  choose-Sound k h now p found v =
      let (here, stage) = at_stage-found accepted k p h found in
      let asked = pick ip_string rand p.balancer h.src now now in
      picked-Sound k h p here now asked.0 asked.1 (v.fresh k h here (sym stage))
        (pick_counts ip_string rand p.balancer h.src now now (holdings p.handlers) v.exact) v

  dialled-Sound :
      (k : ℕ) (h : Handler) (up : Bool) (p : TcpProxy F)
      → lookup k p.handlers ≡ some h
      → Sound p
      → Sound (dialled F ip_string rand cal k h up p)
  unfolding dialled
  dialled-Sound k h false p here v =
      to_stage-Sound k h p here leaving (λ same. ground (arith, same)) v
  dialled-Sound k h true p here v =
      elim (Bool-cases (needs_first F ip_string rand cal p.protection)) [
        | inl first ↦ rw first (to_stage-Sound k h p here reading (λ same. ground (arith, same)) v)
        | inr direct ↦ rw direct (start_copies-Sound k h p here v)
      ]

  count_in-Sound :
      (o : Option ℕ) (n now : ℕ) (p : TcpProxy F)
      → Sound p
      → Sound (count_in F ip_string rand cal o n now p)
  unfolding count_in
  count_in-Sound o n now p v =
      credited-IsSound p.handlers p.total_conns p.balancer.targets p.balancer.targets p.tracker _
        p.active_conns p.drainer.live v v.exact
        (credit_in-keeps p.handlers n p.tracker o (v.consistent, v.owned))

  count_out-Sound :
      (o : Option ℕ) (n now : ℕ) (p : TcpProxy F)
      → Sound p
      → Sound (count_out F ip_string rand cal o n now p)
  unfolding count_out
  count_out-Sound o n now p v =
      credited-IsSound p.handlers p.total_conns p.balancer.targets p.balancer.targets p.tracker _
        p.active_conns p.drainer.live v v.exact
        (credit_out-keeps p.handlers n p.tracker o (v.consistent, v.owned))

  first_read-Sound :
      (k : ℕ) (h : Handler) (payload : List ℕ) (failed written : Bool) (now : ℕ) (p : TcpProxy F)
      → lookup k p.handlers ≡ some h
      → Sound p
      → Sound (first_read F ip_string rand cal k h payload failed written now p)
  unfolding first_read count_in
  first_read-Sound k h [] failed written now p here v = elim (Bool-cases failed) [
    | inl broken ↦ rw broken (to_stage-Sound k h p here leaving (λ same. ground (arith, same)) v)
    | inr fine ↦ rw fine (start_copies-Sound k h p here v)
  ]
  first_read-Sound k h (b ∷ bs) failed written now p here v =
      let seen = inspect_first F ip_string rand cal p.protection h.src (b ∷ bs) now in
      let inspected = record p { protection = seen.0 } in
      let counted = count_in F ip_string rand cal h.conn (length (b ∷ bs)) now inspected in
      let left = to_stage-Sound k h inspected here leaving (λ same. ground (arith, same)) v in
      let sound = count_in-Sound h.conn (length (b ∷ bs)) now inspected v in
      elim (Bool-cases seen.1) [
        | inr refused ↦ rw refused left
        | inl passed ↦ elim (Bool-cases written) [
          | inr unwritten ↦ rw passed (rw unwritten left)
          | inl sent ↦ elim (Bool-cases failed) [
            | inl broken ↦ rw passed (
                rw sent (
                  rw broken
                    (to_stage-Sound k h counted here leaving (λ same. ground (arith, same)) sound)))
            | inr fine ↦ rw passed (rw sent (rw fine (start_copies-Sound k h counted here sound)))
          ]
        ]
      ]

  stop_copying-Sound : (k : ℕ) (p : TcpProxy F) → Sound p → Sound (stop_copying k p)
  unfolding stop_copying
  stop_copying-Sound k p v = elim (Option-cases (at_stage copying k p)) [
    | inl absent ↦ rw (absent, stop_copying) v
    | inr (h, found) ↦
        rw (found, stop_copying)
          (to_stage-Sound k h p (at_stage-found copying k p h found).0 leaving
            (λ same. ground (arith, same)) v)
  ]

  copied_in-Sound :
      (k n now : ℕ) (p : TcpProxy F) → Sound p → Sound (copied_in F ip_string rand cal k n now p)
  unfolding copied_in
  copied_in-Sound k n now p v = elim (Bool-cases (runs_copy k p.inbound)) [
    | inr idle ↦ rw idle v
    | inl runs ↦
        rw runs (stop_copying-Sound k _ (count_in-Sound (conn_of (lookup k p.handlers)) n now p v))
  ]

  copied_out-Sound :
      (k n now : ℕ) (p : TcpProxy F) → Sound p → Sound (copied_out F ip_string rand cal k n now p)
  unfolding copied_out
  copied_out-Sound k n now p v = elim (Bool-cases (runs_copy k p.outbound)) [
    | inr idle ↦ rw idle v
    | inl runs ↦
        rw runs (stop_copying-Sound k _ (count_out-Sound (conn_of (lookup k p.handlers)) n now p v))
  ]

  launch-Sound : (src : Ip) (port : ℕ) (p : TcpProxy F) → Sound p → Sound (launch src port p)
  unfolding launch track
  launch-Sound src port p v =
      launched-IsSound p.handlers p.total_conns p.balancer.targets p.tracker p.active_conns
        p.drainer.live
        (record { src = src; port = port; stage = accepted; target = none; conn = none }) refl refl
        v

  accept-Sound :
      (src : Ip) (port now : ℕ) (p : TcpProxy F)
      → Sound p
      → Sound (accept F ip_string rand cal src port now p)
  unfolding accept
  accept-Sound src port now p v =
      let checked = check_composed p.global_acl p.proxy_acl src in
      let ruled = record p { global_acl = checked.0.0; proxy_acl = checked.0.1 } in
      let seen = welcome F ip_string rand cal p.protection src now in
      elim (Bool-cases (is_suspended p.recorder)) [
        | inl stopped ↦ rw stopped v
        | inr running ↦ elim (Bool-cases (denies checked.1)) [
          | inl denied ↦ rw running (rw denied v)
          | inr allowed ↦ elim (Bool-cases seen.1) [
            | inr refused ↦ rw running (rw allowed (rw refused v))
            | inl passed ↦ rw running (
                rw allowed
                  (rw passed (launch-Sound src port (record ruled { protection = seen.0 }) v)))
          ]
        ]
      ]

  marked-Sound :
      (ip : Ip) (port : ℕ) (healthy : Bool) (p : TcpProxy F)
      → Sound p
      → Sound (record p { balancer = set_health ip port healthy p.balancer })
  unfolding set_health
  marked-Sound ip port healthy p v =
      credited-IsSound p.handlers p.total_conns p.balancer.targets _ p.tracker p.tracker
        p.active_conns p.drainer.live v
        (λ i t e.
          let (u, q, a) = set_health_in-active ip port healthy p.balancer.targets i t e in
          a ∙ v.exact i u q)
        (v.consistent, v.owned)

  on_handler-Sound :
      (o : Option Handler) (p : TcpProxy F) (go : Handler → TcpProxy F)
      → ((h : Handler) → o ≡ some h → Sound (go h))
      → Sound p
      → Sound (on_handler o p go)
  on_handler-Sound none p go keeps v = v
  on_handler-Sound (some h) p go keeps v = keeps h refl

  pub step-Sound : (p : TcpProxy F) (e : Event) → Sound p → Sound (step F ip_string rand cal p e)
  unfolding step
  step-Sound p (accepts src port now) v = accept-Sound src port now p v
  step-Sound p (picks k now) v =
      on_handler-Sound (at_stage accepted k p) p _ (λ h found. choose-Sound k h now p found v) v
  step-Sound p (dials k up) v =
      on_handler-Sound (at_stage dialling k p) p _
        (λ h found. dialled-Sound k h up p (at_stage-found dialling k p h found).0 v) v
  step-Sound p (reads k payload failed written now) v =
      on_handler-Sound (at_stage reading k p) p _
        (λ h found.
          first_read-Sound k h payload failed written now p (at_stage-found reading k p h found).0
            v)
        v
  step-Sound p (copies_in k n now) v = copied_in-Sound k n now p v
  step-Sound p (copies_out k n now) v = copied_out-Sound k n now p v
  step-Sound p (leaves k) v =
      on_handler-Sound (at_stage leaving k p) p _
        (λ h found. leave-Sound k h p (at_stage-found leaving k p h found).0 v) v
  step-Sound p (marks ip port healthy) v = marked-Sound ip port healthy p v

  -- Any events keep a sound proxy sound.
  pub steps_from-Sound :
      (p : TcpProxy F) (es : List Event) → Sound p → Sound (steps F ip_string rand cal p es)
  unfolding steps
  steps_from-Sound p [] v = v
  steps_from-Sound p (e ∷ es) v =
      steps_from-Sound (step F ip_string rand cal p e) es (step-Sound p e v)
