-- ===== src/Udp/Datagrams.antt =====
-- internal/proxy/udp.go, the loop of Start: what becomes of one datagram. The rules are those of
-- dynamicACL; the clock is read once for a datagram.
use route_x_reverse_proxy.Common.{
  ℕ, ◌+◌, ◌/◌, ◌≡◌, Bool, true, false, not, List, Option, none, some, String, arith, if◌then◌else◌,
  length,
}
use route_x_reverse_proxy.Net.{Ip}
use route_x_reverse_proxy.Acl.Engine.{Engine}
use route_x_reverse_proxy.Acl.Compose.{check_composed, denies}
use route_x_reverse_proxy.Bandwidth.Tracker.{Tracker, Calendar, record_in}
use route_x_reverse_proxy.L7.Bans.{is_banned}
use route_x_reverse_proxy.L7.Bucket.{Floats}
use route_x_reverse_proxy.L7.Engine as Protection
use route_x_reverse_proxy.Udp.Sessions.{UdpProxy, get_or_create_session}

-- A proxy with what guards it; `none` where the source has nil.
pub record Guarded (F : Floats) : Type 0 where
  pub proxy : UdpProxy
  pub global_acl : Option Engine
  pub proxy_acl : Option Engine
  pub protection : Option (Protection.Engine F)
  pub recorder : Option Tracker
  pub bytes_in : ℕ

-- `isSuspended`.
unfoldable pub is_suspended : Option Tracker → Bool
is_suspended none = false
is_suspended (some t) = t.suspended

module _ (F : Floats) (ip_string : Ip → String) where
  -- The engine's part: the question for a ban, and the payload.
  unfoldable pub admit :
      Option (Protection.Engine F) → Ip → List ℕ → ℕ → Option (Protection.Engine F) × Bool
  admit none ip payload now = (none, true)
  admit (some e) ip payload now =
      let asked = is_banned ip_string ip now e.bans in
      let e' = record e { bans = asked.0 } in
      let seen = Protection.on_data F ip_string ip payload false now e' in
      if asked.1 then (some e', false) else (some seen.0.0, seen.1)

module _ (F : Floats) (ip_string : Ip → String) (rand : ℕ → ℕ) (cal : Calendar) where
  abbrev recorded : ℕ → ℕ → Option Tracker → Option Tracker
  recorded n now none = none
  recorded n now (some t) = some (record_in cal n (now / 1000000000) t)

  -- From the count of the bytes on: the session that the payload is written to, if there is one.
  unfoldable pub forward : String → Ip → ℕ → List ℕ → Bool → ℕ → Guarded F → Guarded F × Option ℕ
  forward key ip port payload dialled now g =
      let opened = get_or_create_session ip_string rand key ip port dialled now g.proxy in
      (
        record g {
          proxy = opened.0;
          recorder = recorded (length payload) now g.recorder;
          bytes_in = g.bytes_in + length payload;
        },
        opened.1,
      )

  unfoldable pub handle : String → Ip → ℕ → List ℕ → Bool → ℕ → Guarded F → Guarded F × Option ℕ
  handle key ip port payload dialled now g =
      let checked = check_composed g.global_acl g.proxy_acl ip in
      let ruled = record g { global_acl = checked.0.0; proxy_acl = checked.0.1 } in
      let seen = admit F ip_string g.protection ip payload now in
      let passed = record ruled { protection = seen.0 } in
      let sent = forward key ip port payload dialled now passed in
      if is_suspended g.recorder
      then (g, none)
      else if denies checked.1
      then (ruled, none)
      else if not seen.1
      then (passed, none)
      else sent

  -- What lets a datagram pass.
  pub record Passes (ip : Ip) (payload : List ℕ) (now : ℕ) (g : Guarded F) : Type 0 where
    pub running : is_suspended g.recorder ≡ false
    pub ruled : denies (check_composed g.global_acl g.proxy_acl ip).1 ≡ false
    pub seen : (admit F ip_string g.protection ip payload now).1 ≡ true

  -- No datagram reaches a session past the guards: if one does, the proxy was not suspended, neither
  -- rules denied the address, and the protection engine passed it.
  pub handle-Passes :
      (key : String) (ip : Ip) (port : ℕ) (payload : List ℕ) (dialled : Bool) (now id : ℕ)
      (g : Guarded F)
      → (handle key ip port payload dialled now g).1 ≡ some id
      → Passes ip payload now g
  unfolding handle
  handle-Passes key ip port payload dialled now id g run = record {
    running = ground (arith, run);
    ruled = ground (arith, run);
    seen = ground (arith, run);
  }

  -- An engine that passes a datagram does not have its address banned.
  pub admit-unbanned :
      (e : Protection.Engine F) (ip : Ip) (payload : List ℕ) (now : ℕ)
      → (admit F ip_string (some e) ip payload now).1 ≡ true
      → (is_banned ip_string ip now e.bans).1 ≡ false
  unfolding admit
  admit-unbanned e ip payload now h = ground (arith, h)
