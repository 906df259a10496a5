-- ===== src/Instances/Manager.antt =====
-- internal/proxy/manager.go, `Manager` and the life of an instance. The hooks of `SetHooks` are left
-- out: what they set is set by steps of its own. Calls do not overlap: `start` is one step here,
-- where the source takes the manager's lock for Stop, for each table and for the insertion apart. `Instance.Start` cannot fail, as the checker's Start
-- returns no error.
use route_x_reverse_proxy.Common.{
  ℕ, Bool, true, false, List, [], ◌∷◌, map, Option, none, some, String, Result, ok, err,
  if◌then◌else◌, ◌==◌, string_eq,
}
use route_x_reverse_proxy.Common.Assoc.{Assoc, lookup, insert, delete}
use route_x_reverse_proxy.Net.{Ip}
use route_x_reverse_proxy.Text.Edit.{Text}
use route_x_reverse_proxy.Health.Checker as Health
use route_x_reverse_proxy.Bandwidth.Tracker.{Tracker}
use route_x_reverse_proxy.Acl.Engine.{Engine}
use route_x_reverse_proxy.L7.Bucket.{Floats}
use route_x_reverse_proxy.L7.Engine as Protection
use route_x_reverse_proxy.Instances.Settings.{ProxyConfig, Defaults}
use route_x_reverse_proxy.Instances.Build.{
  BuildError, Instance, plan, tracker_of, engine_of, finish,
}

pub record Manager (F : Floats) : Type 0 where
  pub defaults : Defaults
  pub instances : Assoc String (Instance F)
  pub global_acl : Option Engine
  pub proxy_acls : Assoc String Engine
  pub bandwidth_trackers : Assoc String Tracker
  pub l7_engines : Assoc String (Protection.Engine F)

unfoldable pub new_manager : {F : Floats} → Defaults → Manager F
new_manager gd = record {
  defaults = gd;
  instances = [];
  global_acl = none;
  proxy_acls = [];
  bandwidth_trackers = [];
  l7_engines = [];
}

unfoldable pub set_proxy_acl : {F : Floats} → String → Engine → Manager F → Manager F
set_proxy_acl name acl m = record m { proxy_acls = insert name acl m.proxy_acls }

unfoldable pub set_global_acl : {F : Floats} → Option Engine → Manager F → Manager F
set_global_acl acl m = record m { global_acl = acl }

abbrev start_checker : Option Health.Checker → Option Health.Checker
start_checker none = none
start_checker (some c) = some (Health.start c).0

abbrev stop_checker : Option Health.Checker → Option Health.Checker
stop_checker none = none
stop_checker (some c) = some (Health.stop c)

unfoldable pub start_instance : {F : Floats} → Instance F → Instance F
start_instance inst =
    if inst.running
    then inst
    else record inst { running = true; checker = start_checker inst.checker }

unfoldable pub stop_instance : {F : Floats} → Instance F → Instance F
stop_instance inst =
    if inst.running
    then record inst { running = false; checker = stop_checker inst.checker }
    else inst

abbrev pub stored {ℓ} : {V : Type ℓ} → String → Option V → Assoc String V → Assoc String V
stored name none m = m
stored name (some v) m = insert name v m

module _ {F : Floats} where
  abbrev removed : String → Manager F → Manager F
  removed name m = record m {
    instances = delete name m.instances;
    l7_engines = delete name m.l7_engines;
    bandwidth_trackers = delete name m.bandwidth_trackers;
    proxy_acls = delete name m.proxy_acls;
  }

  -- The instance that is stopped, if there is one.
  unfoldable pub stop : String → Manager F → Manager F × Option (Instance F)
  stop name m = elim (lookup name m.instances) [
    | none ↦ (m, none)
    | some inst ↦ (removed name m, some (stop_instance inst))
  ]

  unfoldable pub stop_all : Manager F → Manager F × List (Instance F)
  stop_all m = (
    record m { instances = []; l7_engines = []; bandwidth_trackers = []; proxy_acls = [] },
    map (λ (kv : String × Instance F). stop_instance kv.1) m.instances,
  )

  -- `none` where the source returns the empty name. The order of the table stands for Go's.
  unfoldable pub name_by_config_path : String → Assoc String (Instance F) → Option String
  name_by_config_path path [] = none
  name_by_config_path path (kv ∷ kvs) =
      let later = name_by_config_path path kvs in
      if kv.1.config.config_path == path then some kv.0 else later

module _ {F : Floats} (parse_ip : Text → Option Ip) (ip_string : Ip → String)
    (can_listen : String → Ip → ℕ → Bool) where
  -- The tables are written before the listeners are opened.
  unfoldable pub build_instance :
      ProxyConfig F → Manager F → Manager F × Result BuildError (Instance F)
  build_instance cfg m = elim (plan parse_ip ip_string cfg) [
    | err e ↦ (m, err e)
    | ok pl ↦ (
      record m {
        bandwidth_trackers =
            stored cfg.name (tracker_of parse_ip ip_string cfg) m.bandwidth_trackers;
        l7_engines = stored cfg.name (engine_of parse_ip ip_string cfg) m.l7_engines;
      },
      finish parse_ip ip_string can_listen m.defaults cfg pl,
    )
  ]

  abbrev pub installed :
      String → Manager F × Result BuildError (Instance F) → Manager F × Result BuildError (Unit {0})
  installed name (m, err e) = (m, err e)
  installed name (m, ok inst) =
      (record m { instances = insert name (start_instance inst) m.instances }, ok tt)

  -- An instance of the same name is stopped first; without one, Stop does nothing.
  unfoldable pub start : ProxyConfig F → Manager F → Manager F × Result BuildError (Unit {0})
  start cfg m = installed cfg.name (build_instance cfg (stop cfg.name m).0)
