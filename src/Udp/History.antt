-- ===== src/Udp/History.antt =====
-- internal/proxy/udp.go: the proxy after any datagrams, answers, ends of readers and reaps.
use route_x_reverse_proxy.Common.{
  ℕ, ◌≡◌, refl, ◌∙◌, Bool, false, not, ◌&&◌, List, [], ◌∷◌, none, some, String, arith, string_eq,
  nat_eq, ◌==◌, same_refl, ◌≢◌, Bool-cases, Option-cases, Result-cases, inl, inr, get_elem?,
}
use route_x_reverse_proxy.Common.Int.{pos}
use route_x_reverse_proxy.Common.Assoc.{lookup, lookup-delete}
use route_x_reverse_proxy.Net.{Ip}
use route_x_reverse_proxy.Lb.Target.{Target}
use route_x_reverse_proxy.Lb.Balancer.{pick}
use route_x_reverse_proxy.Proxy.Conn.{new_conn_tracker, register, forget}
use route_x_reverse_proxy.Udp.Sessions.{
  Session, UdpProxy, touch, dest_port, open_session, connect, get_or_create_session, end_reader,
  listed, idle, cancel_idle, reap_sessions,
}
use route_x_reverse_proxy.Udp.Readers.{IsSound, touched-IsSound, opened-IsSound, ended-IsSound}
use route_x_reverse_proxy.Udp.Reaping.{reaped-IsSound}

-- What happens to a proxy, each with its time: a datagram of a client, whose dial would succeed or
-- not; an answer that a reader reads; the end of a reader; a reap.
pub data Happening : Type 0 where
  datagram : String → Ip → ℕ → Bool → ℕ → Happening
  answer : ℕ → ℕ → Happening
  ends : ℕ → Happening
  reaps : ℕ → Happening

abbrev pub Sound : UdpProxy → Type 0
Sound p = IsSound p.sessions p.readers p.tracker.next p.active_conns

touch-Sound : (id now : ℕ) (p : UdpProxy) → Sound p → Sound (touch id now p)
unfolding touch
touch-Sound id now p v = elim (Option-cases (lookup id p.readers)) [
  | inl absent ↦ rw (absent, touch) v
  | inr (s, here) ↦
      rw (here, touch)
        (touched-IsSound p.sessions p.readers p.tracker.next p.active_conns id now s here v)
]

open_session-Sound :
    (key : String) (src : Ip) (port idx : ℕ) (t : Target) (upstream now : ℕ) (p : UdpProxy)
    → Sound p
    → Sound (open_session key src port idx t upstream now p).0
unfolding open_session register
open_session-Sound key src port idx t upstream now p v =
    opened-IsSound p.sessions p.readers p.tracker.next p.active_conns key
      (record { key = key; target = idx; cancelled = false; last_activity = now }) refl v

connect-Sound :
    (key : String) (src : Ip) (port : ℕ) (dialled : Bool) (now idx : ℕ) (p : UdpProxy)
    → Sound p
    → Sound (connect key src port dialled now idx p).0
unfolding connect
connect-Sound key src port dialled now idx p v =
    elim (Option-cases (get_elem? p.balancer.targets idx)) [
      | inl outside ↦ rw (outside, connect) v
      | inr (t, inside) ↦ elim (Option-cases (dest_port p t)) [
        | inl closed ↦ rw (inside, connect) (rw closed v)
        | inr (upstream, port_found) ↦ elim (Bool-cases dialled) [
          | inl up ↦
              rw (inside, connect)
                (rw port_found (rw up (open_session-Sound key src port idx t upstream now p v)))
          | inr down ↦ rw (inside, connect) (rw port_found (rw down v))
        ]
      ]
    ]

end_reader-Sound : (id : ℕ) (p : UdpProxy) → Sound p → Sound (end_reader id p)
unfolding end_reader forget
end_reader-Sound id p v = elim (Option-cases (lookup id p.readers)) [
  | inl absent ↦ rw (absent, end_reader) v
  | inr (s, here) ↦
      rw (here, end_reader)
        (ended-IsSound p.sessions p.readers p.tracker.next p.active_conns id s here v)
]

-- The end of a reader removes the session that stands under its client's key, also where that is
-- a newer one, made after a reap: the newer reader still runs, but no datagram finds it any more.
pub end_reader-newer :
    (id newer : ℕ) (s : Session) (p : UdpProxy)
    → lookup id p.readers ≡ some s
    → lookup s.key p.sessions ≡ some newer
    → id ≢ newer
    → (lookup s.key (end_reader id p).sessions ≡ none)
      × (lookup newer (end_reader id p).readers ≡ lookup newer p.readers)
unfolding end_reader
end_reader-newer id newer s p here there apart =
    let same = same_refl s.key in
    let other : (id == newer) ≡ false = ground (arith, apart) in
    (
      rw (here, end_reader) (lookup-delete s.key s.key p.sessions ∙ (rw same refl)),
      rw (here, end_reader) (lookup-delete id newer p.readers ∙ (rw other refl)),
    )

cancel_idle-key :
    (now : ℕ) (p : UdpProxy) (kv : ℕ × Session) → (cancel_idle now p kv).key ≡ kv.1.key
cancel_idle-key now p kv = elim (Bool-cases (listed p kv && idle now p kv.0)) [
  | inl late ↦ rw late refl
  | inr active ↦ rw active refl
]

reap_sessions-Sound : (now : ℕ) (p : UdpProxy) → Sound p → Sound (reap_sessions now p)
unfolding reap_sessions
reap_sessions-Sound now p v =
    reaped-IsSound (cancel_idle now p) (cancel_idle-key now p) (λ kv. not (idle now p kv.1))
      p.sessions p.readers p.tracker.next p.active_conns v

-- A clean start: nothing is in the table, and nothing runs.
unfoldable pub start : UdpProxy → UdpProxy
start p = record p {
  tracker = new_conn_tracker;
  sessions = [];
  readers = [];
  active_conns = pos 0;
  total_conns = 0;
}

module _ (ip_string : Ip → String) (rand : ℕ → ℕ) where
  get_or_create_session-Sound :
      (key : String) (src : Ip) (port : ℕ) (dialled : Bool) (now : ℕ) (p : UdpProxy)
      → Sound p
      → Sound (get_or_create_session ip_string rand key src port dialled now p).0
  unfolding get_or_create_session
  get_or_create_session-Sound key src port dialled now p v =
      let asked = pick ip_string rand p.balancer src now now in
      elim (Option-cases (lookup key p.sessions)) [
        | inr (id, here) ↦ rw (here, get_or_create_session) (touch-Sound id now p v)
        | inl new ↦ elim (Result-cases asked.1) [
          | inr (e, refused) ↦ rw (new, get_or_create_session) (rw refused v)
          | inl (idx, chosen) ↦
              rw (new, get_or_create_session)
                (rw chosen
                  (connect-Sound key src port dialled now idx (record p { balancer = asked.0 }) v))
        ]
      ]

  unfoldable pub happens : UdpProxy → Happening → UdpProxy
  happens p (datagram key src port dialled now) =
      (get_or_create_session ip_string rand key src port dialled now p).0
  happens p (answer id now) = touch id now p
  happens p (ends id) = end_reader id p
  happens p (reaps now) = reap_sessions now p

  unfoldable pub history : UdpProxy → List Happening → UdpProxy
  history p [] = p
  history p (h ∷ hs) = history (happens p h) hs

  happens-Sound : (p : UdpProxy) (h : Happening) → Sound p → Sound (happens p h)
  unfolding happens
  happens-Sound p (datagram key src port dialled now) v =
      get_or_create_session-Sound key src port dialled now p v
  happens-Sound p (answer id now) v = touch-Sound id now p v
  happens-Sound p (ends id) v = end_reader-Sound id p v
  happens-Sound p (reaps now) v = reap_sessions-Sound now p v

  history_from-Sound : (p : UdpProxy) (hs : List Happening) → Sound p → Sound (history p hs)
  unfolding history
  history_from-Sound p [] v = v
  history_from-Sound p (h ∷ hs) v = history_from-Sound (happens p h) hs (happens-Sound p h v)

  -- After any datagrams, answers, ends of readers and reaps, in any order, each session of the table
  -- of a proxy that started clean has a running reader, which serves the client under whose key the
  -- session stands, and the count of active sessions is that of the running readers.
  pub history-Sound : (p : UdpProxy) (hs : List Happening) → Sound (history (start p) hs)
  unfolding start
  history-Sound p hs = history_from-Sound (start p) hs (record {
    served = λ k i e. absurd (unfold lookup in ground (arith, e));
    known = λ i s e. absurd (unfold lookup in ground (arith, e));
    counted = refl;
    keys = tt;
    ids = tt;
  })
