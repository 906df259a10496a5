-- ===== src/Instances/Outcome.antt =====
-- internal/proxy/manager.go: what a call of Start leaves.
use route_x_reverse_proxy.Common.{
  ℕ, ◌≡◌, ◌⊎◌, refl, ap, sym, ◌∙◌, Bool, true, false, Option, none, some, String, Result, ok, err,
  ◌==◌, string_eq, arith, Bool-cases, Result-cases, inl, inr,
}
use route_x_reverse_proxy.Common.Assoc.{Assoc, lookup, insert, lookup-insert_self}
use route_x_reverse_proxy.Net.{Ip}
use route_x_reverse_proxy.Text.Edit.{Text}
use route_x_reverse_proxy.Bandwidth.Tracker.{Tracker}
use route_x_reverse_proxy.L7.Bucket.{Floats}
use route_x_reverse_proxy.L7.Engine as Protection
use route_x_reverse_proxy.Instances.Settings.{ProxyConfig}
use route_x_reverse_proxy.Instances.Build.{BuildError, Instance, plan, tracker_of, engine_of}
use route_x_reverse_proxy.Instances.Manager.{
  Manager, start_instance, stored, stop, build_instance, installed, start,
}
use route_x_reverse_proxy.Instances.Table.{beside-stored, stop-gone, IsBuilt, finish-IsBuilt}

-- A running instance of a configuration, whose tracker and engine stand in the manager's tables.
pub record IsLive {F : Floats} (name : String) (m : Manager F) (inst : Instance F) : Type 0 where
  pub named : inst.name ≡ name
  pub running : inst.running ≡ true
  pub engine :
      (e : Protection.Engine F) → inst.l7_engine ≡ some e → lookup name m.l7_engines ≡ some e
  pub tracker : (t : Tracker) → inst.bw_tracker ≡ some t → lookup name m.bandwidth_trackers ≡ some t

stored-found {ℓ} :
    {V : Type ℓ} (k : String) (o : Option V) (m : Assoc String V) (v : V)
    → o ≡ some v
    → lookup k (stored k o m) ≡ some v
stored-found k none m v e = absurd (ground (arith, e))
stored-found k (some w) m v e = lookup-insert_self k w m ∙ e

started :
    {F : Floats} (inst : Instance F)
    → ((start_instance inst).name ≡ inst.name)
      × ((start_instance inst).running ≡ true)
      × ((start_instance inst).l7_engine ≡ inst.l7_engine)
      × ((start_instance inst).bw_tracker ≡ inst.bw_tracker)
      × ((start_instance inst).config ≡ inst.config)
unfolding start_instance
started inst = elim (Bool-cases inst.running) [
  | inl runs ↦ (ground arith, ground (arith, runs), ground arith, ground arith, ground arith)
  | inr rests ↦ (ground arith, ground (arith, rests), ground arith, ground arith, ground arith)
]

module _ {F : Floats} (parse_ip : Text → Option Ip) (ip_string : Ip → String)
    (can_listen : String → Ip → ℕ → Bool) where
  pub build_instance-beside :
      (cfg : ProxyConfig F) (m : Manager F) (other : String)
      → (cfg.name == other) ≡ false
      → ((build_instance parse_ip ip_string can_listen cfg m).0.instances ≡ m.instances)
        × (lookup other (build_instance parse_ip ip_string can_listen cfg m).0.l7_engines
            ≡ lookup other m.l7_engines)
        × (lookup other (build_instance parse_ip ip_string can_listen cfg m).0.bandwidth_trackers
            ≡ lookup other m.bandwidth_trackers)
  unfolding build_instance
  build_instance-beside cfg m other apart = elim (Result-cases (plan parse_ip ip_string cfg)) [
    | inr (e, bad) ↦ rw (bad, build_instance) (refl, refl, refl)
    | inl (pl, planned) ↦
        rw (planned, build_instance)
          (
            refl,
            beside-stored cfg.name other (engine_of parse_ip ip_string cfg) m.l7_engines apart,
            beside-stored cfg.name other (tracker_of parse_ip ip_string cfg) m.bandwidth_trackers
                apart,
          )
  ]

  build_instance-instances :
      (cfg : ProxyConfig F) (m : Manager F)
      → (build_instance parse_ip ip_string can_listen cfg m).0.instances ≡ m.instances
  unfolding build_instance
  build_instance-instances cfg m = elim (Result-cases (plan parse_ip ip_string cfg)) [
    | inr (e, bad) ↦ rw (bad, build_instance) refl
    | inl (pl, planned) ↦ rw (planned, build_instance) refl
  ]

  IsBuilt-IsLive :
      (cfg : ProxyConfig F) (m m' : Manager F) (inst : Instance F)
      → build_instance parse_ip ip_string can_listen cfg m ≡ (m', ok inst)
      → IsBuilt parse_ip ip_string cfg inst
        × IsLive cfg.name
            (record m' { instances = insert cfg.name (start_instance inst) m'.instances })
            (start_instance inst)
  unfolding build_instance
  IsBuilt-IsLive cfg m m' inst run = elim (Result-cases (plan parse_ip ip_string cfg)) [
    | inr (e, bad) ↦ absurd (ground (arith, rw (bad, build_instance) at run))
    | inl (pl, planned) ↦
        let done = rw (planned, build_instance) at run in
        let built =
          finish-IsBuilt parse_ip ip_string can_listen m.defaults cfg pl inst
            (ap (λ r. r.1) done) in
        let engines = ap (λ r. r.0.l7_engines) done in
        let trackers = ap (λ r. r.0.bandwidth_trackers) done in
        let same = started inst in
        (
          built,
          record {
            named = same.0 ∙ built.name;
            running = same.1;
            engine = λ e has.
                sym (ap (lookup cfg.name) engines)
                ∙ stored-found cfg.name (engine_of parse_ip ip_string cfg) m.l7_engines e
                    (sym built.engine ∙ sym same.2 ∙ has);
            tracker = λ t has.
                sym (ap (lookup cfg.name) trackers)
                ∙ stored-found cfg.name (tracker_of parse_ip ip_string cfg) m.bandwidth_trackers t
                    (sym built.tracker ∙ sym same.3 ∙ has);
          },
        )
  ]

  -- Start succeeds, and an instance of the configuration then runs under its name, with its engine and
  -- its tracker in the tables; or it fails, and no instance has the name, also if one had it before.
  pub start-outcome :
      (cfg : ProxyConfig F) (m : Manager F)
      → (((start parse_ip ip_string can_listen cfg m).1 ≡ ok tt)
          × (inst : Instance F) × (lookup cfg.name
                (start parse_ip ip_string can_listen cfg m).0.instances
              ≡ some inst)
          × (inst.config ≡ cfg)
          × IsLive cfg.name (start parse_ip ip_string can_listen cfg m).0 inst)
        ⊎ ((e : BuildError) × ((start parse_ip ip_string can_listen cfg m).1 ≡ err e)
            × (lookup cfg.name (start parse_ip ip_string can_listen cfg m).0.instances ≡ none))
  unfolding start
  start-outcome cfg m =
      outcome (build_instance parse_ip ip_string can_listen cfg (stop cfg.name m).0) refl
    where
      outcome :
          (r : Manager F × Result BuildError (Instance F))
          → build_instance parse_ip ip_string can_listen cfg (stop cfg.name m).0 ≡ r
          → (((installed parse_ip ip_string can_listen cfg.name r).1 ≡ ok tt)
              × (inst : Instance F) × (lookup cfg.name
                    (installed parse_ip ip_string can_listen cfg.name r).0.instances
                  ≡ some inst)
              × (inst.config ≡ cfg)
              × IsLive cfg.name (installed parse_ip ip_string can_listen cfg.name r).0 inst)
            ⊎ ((e : BuildError) × ((installed parse_ip ip_string can_listen cfg.name r).1 ≡ err e)
                × (lookup cfg.name (installed parse_ip ip_string can_listen cfg.name r).0.instances
                    ≡ none))
      outcome (m', err e) run = inr (
        e,
        refl,
        ap (lookup cfg.name)
              (sym (ap (λ r. r.0.instances) run) ∙ build_instance-instances cfg (stop cfg.name m).0)
            ∙ stop-gone cfg.name m,
      )
      outcome (m', ok inst) run =
          let (built, live) = IsBuilt-IsLive cfg (stop cfg.name m).0 m' inst run in
          inl (
            refl,
            start_instance inst,
            lookup-insert_self cfg.name (start_instance inst) m'.instances,
            (started inst).4 ∙ built.config,
            live,
          )
