-- ===== src/Tcp/Events.antt =====
-- internal/proxy/tcp.go: what can happen to a TCP proxy, and what it does then.
use route_x_reverse_proxy.Common.{
  ℕ, ◌+◌, ◌/◌, Bool, true, false, not, List, [], ◌∷◌, Option, none, some, String, ok, err,
  if◌then◌else◌, ◌==◌, nat_eq, length, retain,
}
use route_x_reverse_proxy.Common.Assoc.{lookup}
use route_x_reverse_proxy.Net.{Ip}
use route_x_reverse_proxy.Lb.Balancer.{pick, set_health}
use route_x_reverse_proxy.Lb.Algorithms.{Picked}
use route_x_reverse_proxy.Acl.Compose.{check_composed, denies}
use route_x_reverse_proxy.Bandwidth.Tracker.{Tracker, Calendar, record_in, record_out}
use route_x_reverse_proxy.L7.Bucket.{Floats}
use route_x_reverse_proxy.L7.Engine as Protection
use route_x_reverse_proxy.Udp.Datagrams.{is_suspended}
use route_x_reverse_proxy.Tcp.Connections.{
  Stage, accepted, dialling, reading, copying, leaving, Handler, TcpProxy, runs_copy, to_stage,
  start_copies, launch, set_out, credit_in, credit_out, conn_of, leave,
}

-- Each with its connection, or with the address of a new one, and its time: a connection that
-- Accept returns; the pick; the dial's answer; the first payload, whether its read failed, and
-- whether its write succeeded; the end of a copy with its bytes; the deferred calls; a health mark.
pub data Event : Type 0 where
  accepts : Ip → ℕ → ℕ → Event
  picks : ℕ → ℕ → Event
  dials : ℕ → Bool → Event
  reads : ℕ → List ℕ → Bool → Bool → ℕ → Event
  copies_in copies_out : ℕ → ℕ → ℕ → Event
  leaves : ℕ → Event
  marks : Ip → ℕ → Bool → Event

abbrev pub rank : Stage → ℕ
rank accepted = 0
rank dialling = 1
rank reading = 2
rank copying = 3
rank leaving = 4

-- The run of handleConn that stands at a stage.
unfoldable pub at_stage : {F : Floats} → Stage → ℕ → TcpProxy F → Option Handler
at_stage stage k p = elim (lookup k p.handlers) [
  | none ↦ none
  | some h ↦ if rank stage == rank h.stage then some h else none
]

module _ {F : Floats} where
  unfoldable pub picked : ℕ → Handler → ℕ → TcpProxy F → Picked → TcpProxy F
  picked k h now p (err e) = to_stage leaving k h p
  picked k h now p (ok idx) = set_out k h idx now p

  -- The end of a copy stops the other one and lets handleConn go on to its end.
  unfoldable pub stop_copying : ℕ → TcpProxy F → TcpProxy F
  stop_copying k p = elim (at_stage copying k p) [ none ↦ p | some h ↦ to_stage leaving k h p ]

  abbrev pub on_handler : Option Handler → TcpProxy F → (Handler → TcpProxy F) → TcpProxy F
  on_handler none p go = p
  on_handler (some h) p go = go h

module _ (F : Floats) (ip_string : Ip → String) (rand : ℕ → ℕ) (cal : Calendar) where
  -- `p.l7 == nil || p.l7.OnAccept(srcAddr)`.
  unfoldable pub welcome :
      Option (Protection.Engine F) → Ip → ℕ → Option (Protection.Engine F) × Bool
  welcome none src now = (none, true)
  welcome (some e) src now =
      let asked = Protection.on_accept F ip_string src now e in (some asked.0, asked.1)

  unfoldable pub accept : Ip → ℕ → ℕ → TcpProxy F → TcpProxy F
  accept src port now p =
      let checked = check_composed p.global_acl p.proxy_acl src in
      let ruled = record p { global_acl = checked.0.0; proxy_acl = checked.0.1 } in
      let seen = welcome p.protection src now in
      let passed = record ruled { protection = seen.0 } in
      if is_suspended p.recorder
      then p
      else if denies checked.1
      then ruled
      else if not seen.1
      then passed
      else launch src port passed

  unfoldable pub choose : ℕ → Handler → ℕ → TcpProxy F → TcpProxy F
  choose k h now p =
      let (b, chosen) = pick ip_string rand p.balancer h.src now now in
      picked k h now (record p { balancer = b }) chosen

  unfoldable pub needs_first : Option (Protection.Engine F) → Bool
  needs_first none = false
  needs_first (some e) = Protection.needs_first_payload F ip_string e

  unfoldable pub dialled : ℕ → Handler → Bool → TcpProxy F → TcpProxy F
  dialled k h up p =
      if not up
      then to_stage leaving k h p
      else if needs_first p.protection
      then to_stage reading k h p
      else start_copies k h p

  abbrev pub recorded_in : ℕ → ℕ → Option Tracker → Option Tracker
  recorded_in n now none = none
  recorded_in n now (some t) = some (record_in cal n (now / 1000000000) t)

  abbrev pub recorded_out : ℕ → ℕ → Option Tracker → Option Tracker
  recorded_out n now none = none
  recorded_out n now (some t) = some (record_out cal n (now / 1000000000) t)

  unfoldable pub count_in : Option ℕ → ℕ → ℕ → TcpProxy F → TcpProxy F
  count_in conn n now p = record p {
    bytes_in = p.bytes_in + n;
    tracker = credit_in conn n p.tracker;
    recorder = recorded_in n now p.recorder;
  }

  unfoldable pub count_out : Option ℕ → ℕ → ℕ → TcpProxy F → TcpProxy F
  count_out conn n now p = record p {
    bytes_out = p.bytes_out + n;
    tracker = credit_out conn n p.tracker;
    recorder = recorded_out n now p.recorder;
  }

  unfoldable pub inspect_first :
      Option (Protection.Engine F) → Ip → List ℕ → ℕ → Option (Protection.Engine F) × Bool
  inspect_first none src payload now = (none, true)
  inspect_first (some e) src payload now =
      let seen = Protection.on_data F ip_string src payload false now e in (some seen.0.0, seen.1)

  -- A read of the first payload; a read of nothing is not inspected.
  unfoldable pub first_read : ℕ → Handler → List ℕ → Bool → Bool → ℕ → TcpProxy F → TcpProxy F
  first_read k h [] failed written now p =
      if failed then to_stage leaving k h p else start_copies k h p
  first_read k h (b ∷ bs) failed written now p =
      let seen = inspect_first p.protection h.src (b ∷ bs) now in
      let inspected = record p { protection = seen.0 } in
      let counted = count_in h.conn (length (b ∷ bs)) now inspected in
      if not seen.1
      then to_stage leaving k h inspected
      else if not written
      then to_stage leaving k h inspected
      else if failed
      then to_stage leaving k h counted
      else start_copies k h counted

  unfoldable pub copied_in : ℕ → ℕ → ℕ → TcpProxy F → TcpProxy F
  copied_in k n now p =
      let counted = count_in (conn_of (lookup k p.handlers)) n now p in
      let ended = record counted { inbound = retain (λ j. not (j == k)) p.inbound } in
      if runs_copy k p.inbound then stop_copying k ended else p

  unfoldable pub copied_out : ℕ → ℕ → ℕ → TcpProxy F → TcpProxy F
  copied_out k n now p =
      let counted = count_out (conn_of (lookup k p.handlers)) n now p in
      let ended = record counted { outbound = retain (λ j. not (j == k)) p.outbound } in
      if runs_copy k p.outbound then stop_copying k ended else p

  unfoldable pub step : TcpProxy F → Event → TcpProxy F
  step p (accepts src port now) = accept src port now p
  step p (picks k now) = on_handler (at_stage accepted k p) p (λ h. choose k h now p)
  step p (dials k up) = on_handler (at_stage dialling k p) p (λ h. dialled k h up p)
  step p (reads k payload failed written now) =
      on_handler (at_stage reading k p) p (λ h. first_read k h payload failed written now p)
  step p (copies_in k n now) = copied_in k n now p
  step p (copies_out k n now) = copied_out k n now p
  step p (leaves k) = on_handler (at_stage leaving k p) p (λ h. leave k h p)
  step p (marks ip port healthy) = record p { balancer = set_health ip port healthy p.balancer }

  unfoldable pub steps : TcpProxy F → List Event → TcpProxy F
  steps p [] = p
  steps p (e ∷ es) = steps (step p e) es
