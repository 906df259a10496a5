-- ===== src/Instances/Leftovers.antt =====
-- internal/proxy/manager.go: what a failed start leaves.
use route_x_reverse_proxy.Common.{
  ℕ, ◌≡◌, refl, Bool, true, Option, none, some, String, ok, err, Option-cases, inl, inr,
}
use route_x_reverse_proxy.Common.Assoc.{lookup, lookup-insert_self}
use route_x_reverse_proxy.Common.{string_eq}
use route_x_reverse_proxy.Net.{Ip}
use route_x_reverse_proxy.Text.Edit.{Text}
use route_x_reverse_proxy.L7.Bucket.{Floats}
use route_x_reverse_proxy.L7.Engine as Protection
use route_x_reverse_proxy.Instances.Settings.{ProxyConfig}
use route_x_reverse_proxy.Instances.Build.{BuildError, Plan, plan, engine_of, finish}
use route_x_reverse_proxy.Instances.Manager.{Manager, stop, build_instance, start}
use route_x_reverse_proxy.Instances.Table.{stop-gone}

stop-defaults : {F : Floats} (name : String) (m : Manager F) → (stop name m).0.defaults ≡ m.defaults
unfolding stop
stop-defaults name m = elim (Option-cases (lookup name m.instances)) [
  | inl absent ↦ rw (absent, stop) refl
  | inr (inst, here) ↦ rw (here, stop) refl
]

module _ {F : Floats} (parse_ip : Text → Option Ip) (ip_string : Ip → String)
    (can_listen : String → Ip → ℕ → Bool) where
  -- A start that fails after its plan, as a port cannot be listened on or the checker refuses its
  -- configuration, leaves the protection engine of the proxy in the table of engines, under a name
  -- that no instance has.
  pub start-leftover :
      (cfg : ProxyConfig F) (m : Manager F) (pl : Plan) (e : BuildError)
      → cfg.l7_protection.enabled ≡ true
      → plan parse_ip ip_string cfg ≡ ok pl
      → finish parse_ip ip_string can_listen m.defaults cfg pl ≡ err e
      → ((start parse_ip ip_string can_listen cfg m).1 ≡ err e)
        × (lookup cfg.name (start parse_ip ip_string can_listen cfg m).0.instances ≡ none)
        × (lookup cfg.name (start parse_ip ip_string can_listen cfg m).0.l7_engines
            ≡ some (Protection.new_engine F ip_string cfg.l7_protection))
  unfolding start build_instance engine_of
  start-leftover cfg m pl e protected planned failed =
      let cleared = (stop cfg.name m).0 in
      let broken : finish parse_ip ip_string can_listen cleared.defaults cfg pl ≡ err e =
        rw (stop-defaults cfg.name m) failed in
      rw (planned, build_instance)
        (rw broken (
          refl,
          stop-gone cfg.name m,
          rw protected (lookup-insert_self cfg.name _ cleared.l7_engines),
        ))
