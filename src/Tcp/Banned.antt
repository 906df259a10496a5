-- ===== src/Tcp/Banned.antt =====
-- internal/proxy/tcp.go: an address that is banned, over the events of a proxy.
use route_x_reverse_proxy.Common.{ℕ, ◌≡◌, Bool, true, not, ◌&&◌, some, String, leb, nat_eq}
use route_x_reverse_proxy.Net.{Ip, is_nil}
use route_x_reverse_proxy.Lb.Target.{Target}
use route_x_reverse_proxy.Bandwidth.Tracker.{Calendar}
use route_x_reverse_proxy.L7.Blocks.{Blocks}
use route_x_reverse_proxy.L7.Banned.{Holds}
use route_x_reverse_proxy.L7.Bucket.{Floats}
use route_x_reverse_proxy.L7.Engine as Protection
use route_x_reverse_proxy.Tcp.Connections.{TcpProxy}
use route_x_reverse_proxy.Tcp.Events.{
  Event, accepts, picks, dials, reads, copies_in, copies_out, leaves, marks,
}
use route_x_reverse_proxy.Tcp.Lookups.{NoneFrom}

module _ (F : Floats) (ip_string : Ip → String) (rand : ℕ → ℕ) (cal : Calendar) (key : String)
    (now later : ℕ) (cfg : Protection.Config F) where
  -- The engine is there, with the key banned up to the time, and no connection of it is handled.
  pub record Shut (p : TcpProxy F) : Type 0 where
    pub engine : Protection.Engine F
    pub there : p.protection ≡ some engine
    pub holds : Holds F ip_string key now later cfg engine
    pub nobody : NoneFrom ip_string key p.handlers

  -- An event between the two times; an accepted connection has an address.
  abbrev pub timely : Event → Bool
  timely (accepts src port n) = not (is_nil src) && (leb now n && leb n later)
  timely (reads k payload failed written n) = leb now n
  timely (picks k n) = true
  timely (dials k up) = true
  timely (copies_in k n t) = true
  timely (copies_out k n t) = true
  timely (leaves k) = true
  timely (marks ip port healthy) = true
