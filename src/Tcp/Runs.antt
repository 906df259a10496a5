-- ===== src/Tcp/Runs.antt =====
-- internal/proxy/tcp.go: each event of a run of handleConn keeps the proxy sound.
use route_x_reverse_proxy.Common.{
  ℕ, zero, suc, ◌≡◌, ◌≢◌, refl, ap, sym, ◌∙◌, true, some, arith, ◌==◌, nat_eq, Bool-cases,
  Option-cases, inl, inr,
}
use route_x_reverse_proxy.Common.Assoc.{lookup}
use route_x_reverse_proxy.L7.Bucket.{Floats}
use route_x_reverse_proxy.Tcp.Drainer.{done}
use route_x_reverse_proxy.Tcp.Connections.{
  Stage, accepted, dialling, reading, copying, leaving, Handler, TcpProxy, to_stage, start_copies,
  set_handler, leave,
}
use route_x_reverse_proxy.Tcp.Events.{rank, at_stage}
use route_x_reverse_proxy.Tcp.Holdings.{kept-IsExact}
use route_x_reverse_proxy.Tcp.Registry.{same_value, kept-Owned}
use route_x_reverse_proxy.Tcp.Sound.{IsSound, moved-IsSound, left-IsSound}

abbrev pub Sound : {F : Floats} → TcpProxy F → Type 0
Sound p =
    IsSound p.handlers p.total_conns p.balancer.targets p.tracker p.active_conns p.drainer.live

abbrev stage_at : ℕ → Stage
stage_at zero = accepted
stage_at (suc zero) = dialling
stage_at (suc (suc zero)) = reading
stage_at (suc (suc (suc zero))) = copying
stage_at (suc (suc (suc (suc n)))) = leaving

stage_at-rank : (s : Stage) → stage_at (rank s) ≡ s
stage_at-rank accepted = refl
stage_at-rank dialling = refl
stage_at-rank reading = refl
stage_at-rank copying = refl
stage_at-rank leaving = refl

rank-same : (a b : Stage) → (rank a == rank b) ≡ true → a ≡ b
rank-same a b h =
    sym (stage_at-rank a) ∙ ap stage_at ((nat_eq.reflects (rank a) (rank b)).0 h) ∙ stage_at-rank b

pub at_stage-found :
    {F : Floats} (stage : Stage) (k : ℕ) (p : TcpProxy F) (h : Handler)
    → at_stage stage k p ≡ some h
    → (lookup k p.handlers ≡ some h) × (stage ≡ h.stage)
unfolding at_stage
at_stage-found stage k p h e = elim (Option-cases (lookup k p.handlers)) [
  | inl absent ↦ absurd (ground (arith, e, absent))
  | inr (g, there) ↦ elim (Bool-cases (rank stage == rank g.stage)) [
    | inr other ↦ absurd (ground (arith, e, there, other))
    | inl same ↦
        let one : g ≡ h = same_value g h (rw same at (rw (there, at_stage) at e)) in
        (there ∙ ap some one, rank-same stage g.stage same ∙ ap (λ (x : Handler). x.stage) one)
  ]
]

module _ {F : Floats} (k : ℕ) (h : Handler) (p : TcpProxy F)
    (here : lookup k p.handlers ≡ some h) where
  pub to_stage-Sound : (stage : Stage) → stage ≢ accepted → Sound p → Sound (to_stage stage k h p)
  unfolding to_stage set_handler
  to_stage-Sound stage later v =
      let new = record h { stage = stage } in
      moved-IsSound p.handlers p.total_conns p.balancer.targets p.tracker p.active_conns
        p.drainer.live k h new p.balancer.targets p.tracker here later
        (kept-IsExact p.balancer.targets p.handlers k h new here refl v.exact) v.consistent
        (kept-Owned p.handlers p.tracker k new
          (λ old id there has.
            ap (λ (x : Handler). x.conn) (same_value h old (sym here ∙ there)) ∙ has)
          v.owned)
        v

  pub start_copies-Sound : Sound p → Sound (start_copies k h p)
  unfolding start_copies
  start_copies-Sound v = to_stage-Sound copying (λ same. ground (arith, same)) v

  pub leave-Sound : Sound p → Sound (leave k h p)
  unfolding leave done
  leave-Sound v =
      left-IsSound p.handlers p.total_conns p.balancer p.tracker p.active_conns p.drainer.live k h
        here v
