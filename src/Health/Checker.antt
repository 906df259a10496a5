-- ===== src/Health/Checker.antt =====
-- internal/health/checker.go. The outcome of a dial is an argument; durations are integers of
-- nanoseconds. The slices `fail`, `pass` and `healthySn` are one list of slots.
use route_x_reverse_proxy.Common.{
  ℕ, suc, ◌+◌, ◌*◌, ◌/◌, Bool, true, false, not, ◌&&◌, ◌||◌, List, [], ◌∷◌, map, Option, none, some,
  Result, ok, err, if◌then◌else◌, ◌==◌, nat_eq, get_elem?, modify, ltb, leb,
}
use route_x_reverse_proxy.Common.Int.{ℤ, pos, leb_ℤ, ltb_ℤ}
use route_x_reverse_proxy.Net.{Ip, ip_equal}

pub record Config : Type 0 where
  pub interval : ℤ
  pub timeout : ℤ
  pub failures_before_eject : ℤ
  pub passes_before_readmit : ℤ

pub record Upstream : Type 0 where
  pub ip : Ip
  pub port : ℕ

pub record Slot : Type 0 where
  pub fail : ℕ
  pub pass : ℕ
  pub healthy_sn : Bool

pub record Checker : Type 0 where
  pub cfg : Config
  pub targets : List Upstream
  pub slots : List Slot
  pub running : Bool

pub data NewError : Type 0 where
  bad_interval bad_timeout no_targets : NewError

abbrev pub fresh : Slot
fresh = record { fail = 0; pass = 0; healthy_sn = true }

abbrev is_none_given : List Upstream → Bool
is_none_given [] = true
is_none_given (t ∷ ts) = false

unfoldable pub new : Config → List Upstream → Result NewError Checker
new cfg targets =
    if leb_ℤ cfg.interval (pos 0)
    then err bad_interval
    else if leb_ℤ cfg.timeout (pos 0) || ltb_ℤ cfg.interval cfg.timeout
    then err bad_timeout
    else if is_none_given targets
    then err no_targets
    else ok
        (record { cfg = cfg; targets = targets; slots = map (λ t. fresh) targets; running = false })

-- The indices whose probe loops are started.
unfoldable pub indices : ℕ → List Upstream → List ℕ
indices i [] = []
indices i (t ∷ ts) = i ∷ indices (suc i) ts

unfoldable pub start : Checker → Checker × List ℕ
unfolding indices
start c = if c.running then (c, []) else (record c { running = true }, indices 0 c.targets)

unfoldable pub stop : Checker → Checker
stop c = record c { running = false }

unfoldable pub healthy_in : Ip → ℕ → List Upstream → List Slot → Bool
healthy_in ip port (t ∷ ts) (s ∷ ss) =
    let rest = healthy_in ip port ts ss in
    if ip_equal t.ip ip && t.port == port then s.healthy_sn else rest
healthy_in ip port _ _ = true

unfoldable pub healthy : Checker → Ip → ℕ → Bool
unfolding healthy_in
healthy c ip port = healthy_in ip port c.targets c.slots

-- The delay before the first probe of a target.
unfoldable pub stagger : ℕ → ℕ → ℕ → ℕ
stagger interval n idx =
    let n' = if ltb n 1 then 1 else n in
    let d = idx * (interval / n') in if leb interval d then 0 else d

-- The counters and the announced state after one probe.
unfoldable pub probe_slot : Config → Bool → Slot → Slot
probe_slot cfg true s =
    let s' = record s { pass = s.pass + 1; fail = 0 } in
    if not s.healthy_sn && leb_ℤ cfg.passes_before_readmit (pos (s.pass + 1))
    then record s' { healthy_sn = true }
    else s'
probe_slot cfg false s =
    let s' = record s { fail = s.fail + 1; pass = 0 } in
    if s.healthy_sn && leb_ℤ cfg.failures_before_eject (pos (s.fail + 1))
    then record s' { healthy_sn = false }
    else s'

abbrev pub changed : Bool → Bool → Bool
changed true after = not after
changed false after = after

-- What `onChange` is called with.
pub record Change : Type 0 where
  pub ip : Ip
  pub port : ℕ
  pub healthy : Bool

-- A probe of a target whose dial succeeded or failed: the new state, and the call made.
unfoldable pub probe_once : Checker → ℕ → Bool → Checker × Option Change
probe_once c idx up = elim (get_elem? c.targets idx) [
  | none ↦ (c, none)
  | some t ↦ elim (get_elem? c.slots idx) [
    | none ↦ (c, none)
    | some s ↦
        let s' = probe_slot c.cfg up s in
        (
          record c { slots = modify idx (probe_slot c.cfg up) c.slots },
          if changed s.healthy_sn s'.healthy_sn
              then some (record { ip = t.ip; port = t.port; healthy = s'.healthy_sn })
              else none,
        )
  ]
]
