-- ===== src/Instances/Table.antt =====
-- internal/proxy/manager.go: the tables of the manager over any calls of Start, Stop and StopAll.
use route_x_reverse_proxy.Common.{
  ℕ, ◌≡◌, refl, ap, sym, ◌∙◌, Bool, false, [], Option, none, some, String, Result, ok, err, ◌==◌,
  string_eq, same_refl, arith, Option-cases, Result-cases, inl, inr,
}
use route_x_reverse_proxy.Common.Assoc.{Assoc, lookup, delete, lookup-insert, lookup-delete}
use route_x_reverse_proxy.Net.{Ip}
use route_x_reverse_proxy.Text.Edit.{Text}
use route_x_reverse_proxy.L7.Bucket.{Floats}
use route_x_reverse_proxy.Instances.Settings.{ProxyConfig, Defaults, health_config}
use route_x_reverse_proxy.Instances.Build.{
  Instance, Plan, plan, tracker_of, engine_of, Opened, open_all, new_checker, assemble, finish,
}
use route_x_reverse_proxy.Instances.Manager.{Manager, stored, stop, build_instance}

-- What a look-up finds beside a deleted key and beside a written one.
pub beside-delete {ℓ} :
    {V : Type ℓ} (k j : String) (m : Assoc String V)
    → (k == j) ≡ false
    → lookup j (delete k m) ≡ lookup j m
beside-delete k j m other = lookup-delete k j m ∙ (rw other refl)

pub beside-stored {ℓ} :
    {V : Type ℓ} (k j : String) (o : Option V) (m : Assoc String V)
    → (k == j) ≡ false
    → lookup j (stored k o m) ≡ lookup j m
beside-stored k j none m other = refl
beside-stored k j (some v) m other = lookup-insert k j v m ∙ (rw other refl)

gone {ℓ} : {V : Type ℓ} (k : String) (m : Assoc String V) → lookup k (delete k m) ≡ none
gone k m = lookup-delete k k m ∙ (rw (same_refl k) refl)

-- The instances after a stop.
module _ {F : Floats} (name : String) (m : Manager F) where
  pub stop-gone : lookup name (stop name m).0.instances ≡ none
  unfolding stop
  stop-gone = elim (Option-cases (lookup name m.instances)) [
    | inl absent ↦ rw (absent, stop) absent
    | inr (inst, here) ↦ rw (here, stop) (gone name m.instances)
  ]

  pub stop-others :
      (other : String)
      → (name == other) ≡ false
      → (lookup other (stop name m).0.instances ≡ lookup other m.instances)
        × (lookup other (stop name m).0.l7_engines ≡ lookup other m.l7_engines)
        × (lookup other (stop name m).0.bandwidth_trackers ≡ lookup other m.bandwidth_trackers)
  unfolding stop
  stop-others other apart = elim (Option-cases (lookup name m.instances)) [
    | inl absent ↦ rw (absent, stop) (refl, refl, refl)
    | inr (inst, here) ↦
        rw (here, stop)
          (
            beside-delete name other m.instances apart,
            beside-delete name other m.l7_engines apart,
            beside-delete name other m.bandwidth_trackers apart,
          )
  ]

pub ok_value {ℓ} : {A : Type ℓ} {E : Type 0} (a b : A) → ◌≡◌ {A = Result E A} (ok a) (ok b) → a ≡ b
ok_value a b h = ap (λ r. elim r [ ok x ↦ x | err e ↦ a ]) h

-- An instance that is built.
pub record IsBuilt {F : Floats} (parse_ip : Text → Option Ip) (ip_string : Ip → String)
    (cfg : ProxyConfig F) (inst : Instance F) : Type 0 where
  pub name : inst.name ≡ cfg.name
  pub config : inst.config ≡ cfg
  pub stopped : inst.running ≡ false
  pub engine : inst.l7_engine ≡ engine_of parse_ip ip_string cfg
  pub tracker : inst.bw_tracker ≡ tracker_of parse_ip ip_string cfg

module _ {F : Floats} (parse_ip : Text → Option Ip) (ip_string : Ip → String)
    (can_listen : String → Ip → ℕ → Bool) where
  pub finish-IsBuilt :
      (gd : Defaults) (cfg : ProxyConfig F) (pl : Plan) (inst : Instance F)
      → finish parse_ip ip_string can_listen gd cfg pl ≡ ok inst
      → IsBuilt parse_ip ip_string cfg inst
  unfolding finish
  finish-IsBuilt gd cfg pl inst run =
      let start_with : Opened = record { tcp = []; udp = [] } in
      elim (Result-cases
        (open_all can_listen cfg.protocol pl.origin_ports start_with pl.origin_ips)) [
          | inr (e, shut) ↦ absurd (ground (arith, run, shut))
          | inl (opened, listening) ↦
              elim (Result-cases
                (new_checker cfg.protocol (health_config gd cfg.health_check) pl.targets)) [
                  | inr (e, bad) ↦ absurd (ground (arith, run, listening, bad))
                  | inl (checker, good) ↦
                      let same : assemble parse_ip ip_string gd cfg pl opened checker ≡ inst =
                        ok_value _ inst (rw good at (rw listening at run)) in
                      record {
                        name = sym (ap (λ (x : Instance F). x.name) same);
                        config = sym (ap (λ (x : Instance F). x.config) same);
                        stopped = sym (ap (λ (x : Instance F). x.running) same);
                        engine = sym (ap (λ (x : Instance F). x.l7_engine) same);
                        tracker = sym (ap (λ (x : Instance F). x.bw_tracker) same);
                      }
                ]
        ]

  -- The tables that a build leaves.
  pub build_instance-tables :
      (cfg : ProxyConfig F) (m : Manager F) (pl : Plan)
      → plan parse_ip ip_string cfg ≡ ok pl
      → ((build_instance parse_ip ip_string can_listen cfg m).0.instances ≡ m.instances)
        × ((build_instance parse_ip ip_string can_listen cfg m).1
            ≡ finish parse_ip ip_string can_listen m.defaults cfg pl)
  unfolding build_instance
  build_instance-tables cfg m pl planned = rw (planned, build_instance) (refl, refl)
