-- ===== src/Instances/History.antt =====
-- internal/proxy/manager.go: the manager after any calls of Start, Stop, StopAll and SetProxyACL.
use route_x_reverse_proxy.Common.{
  ℕ, ◌≡◌, refl, ap, sym, ◌∙◌, subst, Bool, false, List, [], ◌∷◌, Option, none, some, String, Result,
  ok, err, ◌==◌, string_eq, arith, Bool-cases, inl, inr,
}
use route_x_reverse_proxy.Common.Assoc.{lookup, lookup-insert}
use route_x_reverse_proxy.Net.{Ip}
use route_x_reverse_proxy.Text.Edit.{Text}
use route_x_reverse_proxy.Acl.Engine.{Engine}
use route_x_reverse_proxy.L7.Bucket.{Floats}
use route_x_reverse_proxy.Instances.Settings.{ProxyConfig, Defaults}
use route_x_reverse_proxy.Instances.Build.{BuildError, Instance}
use route_x_reverse_proxy.Instances.Manager.{
  Manager, new_manager, set_proxy_acl, start_instance, stop, stop_all, build_instance, installed,
  start,
}
use route_x_reverse_proxy.Instances.Table.{stop-gone, stop-others}
use route_x_reverse_proxy.Instances.Outcome.{IsLive, build_instance-beside, start-outcome}

-- A call of the manager; whether sockets can be listened on is that of the moment.
pub data Call (F : Floats) : Type 0 where
  starts : ProxyConfig F → (String → Ip → ℕ → Bool) → Call F
  stops : String → Call F
  stops_all : Call F
  sets_acl : String → Engine → Call F

-- Each instance of the table runs under its own name, with its engine and tracker in the tables.
abbrev pub AllLive : {F : Floats} → Manager F → Type 0
AllLive {F} m =
    (name : String) (inst : Instance F) → lookup name m.instances ≡ some inst → IsLive name m inst

IsLive-moved :
    {F : Floats} (name : String) (m m' : Manager F) (inst : Instance F)
    → lookup name m'.l7_engines ≡ lookup name m.l7_engines
    → lookup name m'.bandwidth_trackers ≡ lookup name m.bandwidth_trackers
    → IsLive name m inst
    → IsLive name m' inst
IsLive-moved name m m' inst engines trackers v = record {
  named = v.named;
  running = v.running;
  engine = λ e has. engines ∙ v.engine e has;
  tracker = λ t has. trackers ∙ v.tracker t has;
}

stop-AllLive : {F : Floats} (name : String) (m : Manager F) → AllLive m → AllLive (stop name m).0
stop-AllLive name m v other inst here = elim (Bool-cases (name == other)) [
  | inl same ↦
      let one : name ≡ other = (string_eq.reflects name other).0 same in
      let gone = ap (λ x. lookup x (stop name m).0.instances) (sym one) ∙ stop-gone name m in
      absurd (ground (arith, here, gone))
  | inr apart ↦
      let (instances, engines, trackers) = stop-others name m other apart in
      IsLive-moved other m (stop name m).0 inst engines trackers
        (v other inst (sym instances ∙ here))
]

module _ {F : Floats} (parse_ip : Text → Option Ip) (ip_string : Ip → String) where
  -- The instances of the other names are not touched by a start.
  pub start-others :
      (can_listen : String → Ip → ℕ → Bool) (cfg : ProxyConfig F) (m : Manager F) (other : String)
      → (cfg.name == other) ≡ false
      → (lookup other (start parse_ip ip_string can_listen cfg m).0.instances
          ≡ lookup other m.instances)
        × (lookup other (start parse_ip ip_string can_listen cfg m).0.l7_engines
            ≡ lookup other m.l7_engines)
        × (lookup other (start parse_ip ip_string can_listen cfg m).0.bandwidth_trackers
            ≡ lookup other m.bandwidth_trackers)
  unfolding start
  start-others can_listen cfg m other apart =
      let cleared = stop-others cfg.name m other apart in
      let built =
        build_instance-beside parse_ip ip_string can_listen cfg (stop cfg.name m).0 other apart in
      let (instances, engines, trackers) =
        beside (build_instance parse_ip ip_string can_listen cfg (stop cfg.name m).0) in
      (
        instances ∙ ap (lookup other) built.0 ∙ cleared.0,
        engines ∙ built.1 ∙ cleared.1,
        trackers ∙ built.2 ∙ cleared.2,
      )
    where
      beside :
          (r : Manager F × Result BuildError (Instance F))
          → (lookup other (installed parse_ip ip_string can_listen cfg.name r).0.instances
              ≡ lookup other r.0.instances)
            × (lookup other (installed parse_ip ip_string can_listen cfg.name r).0.l7_engines
                ≡ lookup other r.0.l7_engines)
            × (lookup other
                  (installed parse_ip ip_string can_listen cfg.name r).0.bandwidth_trackers
                ≡ lookup other r.0.bandwidth_trackers)
      beside (m', err e) = (refl, refl, refl)
      beside (m', ok inst) = (
        lookup-insert cfg.name other (start_instance inst) m'.instances ∙ (rw apart refl),
        refl,
        refl,
      )

  start-AllLive :
      (can_listen : String → Ip → ℕ → Bool) (cfg : ProxyConfig F) (m : Manager F)
      → AllLive m
      → AllLive (start parse_ip ip_string can_listen cfg m).0
  start-AllLive can_listen cfg m v other inst here = elim (Bool-cases (cfg.name == other)) [
    | inr apart ↦
        let (instances, engines, trackers) = start-others can_listen cfg m other apart in
        IsLive-moved other m (start parse_ip ip_string can_listen cfg m).0 inst engines trackers
          (v other inst (sym instances ∙ here))
    | inl same ↦ elim (start-outcome parse_ip ip_string can_listen cfg m) [
      | inr (e, failed, absent) ↦
          let one : cfg.name ≡ other = (string_eq.reflects cfg.name other).0 same in
          let gone =
            ap (λ x. lookup x (start parse_ip ip_string can_listen cfg m).0.instances) (sym one)
            ∙ absent in
          absurd (ground (arith, here, gone))
      | inl (done, made, there, configured, live) ↦
          let one : cfg.name ≡ other = (string_eq.reflects cfg.name other).0 same in
          let found =
            sym there
            ∙ ap (λ x. lookup x (start parse_ip ip_string can_listen cfg m).0.instances) one
            ∙ here in
          subst (λ i. IsLive other (start parse_ip ip_string can_listen cfg m).0 i)
            (ap (λ o. elim o [ none ↦ made | some x ↦ x ]) found)
            (subst (λ x. IsLive x (start parse_ip ip_string can_listen cfg m).0 made) one live)
    ]
  ]

  unfoldable pub call : Manager F → Call F → Manager F
  call m (starts cfg can_listen) = (start parse_ip ip_string can_listen cfg m).0
  call m (stops name) = (stop name m).0
  call m stops_all = (stop_all m).0
  call m (sets_acl name acl) = set_proxy_acl name acl m

  unfoldable pub calls : Manager F → List (Call F) → Manager F
  calls m [] = m
  calls m (c ∷ cs) = calls (call m c) cs

  call-AllLive : (m : Manager F) (c : Call F) → AllLive m → AllLive (call m c)
  unfolding call stop_all set_proxy_acl
  call-AllLive m (starts cfg can_listen) v = start-AllLive can_listen cfg m v
  call-AllLive m (stops name) v = stop-AllLive name m v
  call-AllLive m stops_all v = λ name inst here. absurd (unfold lookup in ground (arith, here))
  call-AllLive m (sets_acl name acl) v =
      λ name' inst here. IsLive-moved name' m _ inst refl refl (v name' inst here)

  calls_from-AllLive : (m : Manager F) (cs : List (Call F)) → AllLive m → AllLive (calls m cs)
  unfolding calls
  calls_from-AllLive m [] v = v
  calls_from-AllLive m (c ∷ cs) v = calls_from-AllLive (call m c) cs (call-AllLive m c v)

  -- After any calls of Start, Stop, StopAll and SetProxyACL on a new manager, also where a start fails,
  -- each instance of its table runs, bears the name that it stands under, and finds its protection
  -- engine and its tracker, if it has one, under that name in the tables.
  pub calls-AllLive : (gd : Defaults) (cs : List (Call F)) → AllLive (calls (new_manager gd) cs)
  unfolding new_manager
  calls-AllLive gd cs =
      calls_from-AllLive (new_manager gd) cs
        (λ name inst here. absurd (unfold lookup in ground (arith, here)))
