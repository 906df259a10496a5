-- ===== src/Udp/Flood.antt =====
-- internal/proxy/udp.go, the loop of Start: a flood of datagrams from a banned address.
use route_x_reverse_proxy.Common.{
  ℕ, ◌≤◌, ◌≡◌, refl, ap, ◌∙◌, Bool, true, false, List, [], ◌∷◌, Option, none, some, String, arith,
  All, Bool-cases, inl, inr,
}
use route_x_reverse_proxy.Net.{Ip, is_nil}
use route_x_reverse_proxy.Acl.Compose.{check_composed, denies}
use route_x_reverse_proxy.Bandwidth.Tracker.{Calendar}
use route_x_reverse_proxy.L7.Bans.{is_banned}
use route_x_reverse_proxy.L7.Blocks.{Blocks, blocked}
use route_x_reverse_proxy.L7.Bucket.{Floats}
use route_x_reverse_proxy.L7.Engine as Protection
use route_x_reverse_proxy.Udp.Datagrams.{Guarded, is_suspended, admit, handle}

-- A datagram of one address: the key of its session, its port, its payload, what a dial for it gives,
-- and its time.
pub record Datagram : Type 0 where
  pub key : String
  pub port : ℕ
  pub payload : List ℕ
  pub dialled : Bool
  pub time : ℕ

module _ (F : Floats) (ip_string : Ip → String) (rand : ℕ → ℕ) (cal : Calendar) where
  -- The loop over datagrams of an address, with the session that each is written to.
  unfoldable pub flood : Ip → List Datagram → Guarded F → Guarded F × List (Option ℕ)
  flood ip [] g = (g, [])
  flood ip (d ∷ ds) g =
      let (after, sent) =
        handle F ip_string rand cal d.key ip d.port d.payload d.dialled d.time g in
      let (last, answers) = flood ip ds after in (last, sent ∷ answers)

  -- The parts of a proxy that a refused datagram leaves alone; only the rules count it.
  pub record Same (g after : Guarded F) : Type 0 where
    pub proxy : after.proxy ≡ g.proxy
    pub recorder : after.recorder ≡ g.recorder
    pub bytes_in : after.bytes_in ≡ g.bytes_in
    pub protection : after.protection ≡ g.protection

  module _ (ip : Ip) (later : ℕ) (e : Protection.Engine F) where
    refused :
        (payload : List ℕ) (now : ℕ) (o : Option (Protection.Engine F))
        → o ≡ some e
        → is_nil ip ≡ false
        → now ≤ later
        → Blocks (ip_string ip) later e.bans
        → admit F ip_string o ip payload now ≡ (o, false)
    unfolding admit
    refused payload now none h given l b = absurd (ground (arith, h))
    refused payload now (some x) h given l b =
        let same : x ≡ e = ap (λ o. elim o [ none ↦ e | some y ↦ y ]) h in
        let banned : is_banned ip_string ip now x.bans ≡ (x.bans, true) =
          rw same (blocked ip_string ip now later e.bans given l b) in
        rw banned refl

    handle-Same :
        (d : Datagram) (g : Guarded F)
        → g.protection ≡ some e
        → is_nil ip ≡ false
        → d.time ≤ later
        → Blocks (ip_string ip) later e.bans
        → Same g (handle F ip_string rand cal d.key ip d.port d.payload d.dialled d.time g).0
          × ((handle F ip_string rand cal d.key ip d.port d.payload d.dialled d.time g).1 ≡ none)
    unfolding handle
    handle-Same d g there given l b =
        let asked = refused d.payload d.time g.protection there given l b in
        elim (Bool-cases (is_suspended g.recorder)) [
          | inl stopped ↦
              rw stopped
                (record { proxy = refl; recorder = refl; bytes_in = refl; protection = refl }, refl)
          | inr running ↦
              elim (Bool-cases (denies (check_composed g.global_acl g.proxy_acl ip).1)) [
                | inl denied ↦ rw running (
                    rw denied (
                      record { proxy = refl; recorder = refl; bytes_in = refl; protection = refl },
                      refl,
                    ))
                | inr ruled ↦ rw running (
                    rw ruled (
                      rw asked (
                        record {
                          proxy = refl;
                          recorder = refl;
                          bytes_in = refl;
                          protection = refl;
                        },
                        refl,
                      )))
              ]
        ]

    -- A flood from an address whose ban is open changes nothing but the counts of the rules: however
    -- many datagrams of it are handled, none later than the time to which the ban is open, none is
    -- written to a session, and the sessions, the balancer, the bandwidth and the engine stay the same.
    pub flood-Same :
        (ds : List Datagram) (g : Guarded F)
        → g.protection ≡ some e
        → is_nil ip ≡ false
        → Blocks (ip_string ip) later e.bans
        → All (λ d. d.time ≤ later) ds
        → Same g (flood ip ds g).0 × All (λ o. o ≡ none) (flood ip ds g).1
    unfolding flood
    flood-Same [] g there given b l =
        (record { proxy = refl; recorder = refl; bytes_in = refl; protection = refl }, tt)
    flood-Same (d ∷ ds) g there given b l =
        let (first, silent) = handle-Same d g there given l.0 b in
        let after = (handle F ip_string rand cal d.key ip d.port d.payload d.dialled d.time g).0 in
        let (rest, answers) = flood-Same ds after (first.protection ∙ there) given b l.1 in
        (
          record {
            proxy = rest.proxy ∙ first.proxy;
            recorder = rest.recorder ∙ first.recorder;
            bytes_in = rest.bytes_in ∙ first.bytes_in;
            protection = rest.protection ∙ first.protection;
          },
          (silent, answers),
        )
