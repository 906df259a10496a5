-- ===== src/Proxy/Conn.antt =====
-- internal/proxy/conn.go: the registry of live connections.
use route_x_reverse_proxy.Common.{
  ℕ, suc, ◌+◌, ◌≤◌, ◌≡◌, refl, inl, inr, Bool, true, false, List, [], ◌∷◌, map, Option, none, some,
  String, arith, if◌then◌else◌, ◌==◌, nat_eq, length, All, Bool-cases, ◌∙◌,
}
use route_x_reverse_proxy.Common.Int.{ℤ, pos, negsuc, ◌+ℤ◌}
use route_x_reverse_proxy.Common.Assoc.{
  Assoc, lookup, insert, delete, Distinct, Misses, Distinct-insert, Distinct-delete, lookup-Misses,
  length-insert, length-delete,
}
use route_x_reverse_proxy.Net.{Ip}

pub record ConnInfo : Type 0 where
  pub id : ℕ
  pub proxy_name : String
  pub protocol : String
  pub src_ip : Ip
  pub src_port : ℕ
  pub upstream_ip : Ip
  pub upstream_port : ℕ
  pub started_at : ℕ
  pub bytes_in : ℕ
  pub bytes_out : ℕ
  pub closed : Bool

unfoldable pub mark_closed : ConnInfo → ConnInfo
mark_closed c = record c { closed = true }

pub record ConnTracker : Type 0 where
  pub conns : Assoc ℕ ConnInfo
  pub next : ℕ
  pub live : ℤ

abbrev pub new_conn_tracker : ConnTracker
new_conn_tracker = record { conns = []; next = 0; live = pos 0 }

-- An identifier of 0 asks for a new one. The record is returned as it was stored.
unfoldable pub register : ConnInfo → ConnTracker → ConnTracker × ConnInfo
register info t =
    let next = if info.id == 0 then t.next + 1 else t.next in
    let info' = if info.id == 0 then record info { id = t.next + 1 } else info in
    (record { conns = insert info'.id info' t.conns; next = next; live = t.live +ℤ pos 1 }, info')

unfoldable pub forget : ℕ → ConnTracker → ConnTracker
forget id t = record t {
  conns = delete id t.conns;
  live = elim (lookup id t.conns) [ none ↦ t.live | some c ↦ t.live +ℤ negsuc 0 ];
}

unfoldable pub snapshot : ConnTracker → List ConnInfo
snapshot t = map (λ kv. kv.1) t.conns

-- Whether the closer is called; `none` is a nil closer.
unfoldable pub kill : ℕ → Option (Unit {0}) → ConnTracker → Bool
kill id none t = false
kill id (some closer) t = elim (lookup id t.conns) [ none ↦ false | some c ↦ true ]

-- A proxy's calls: it registers records without an identifier, and forgets any.
pub data Call : Type 0 where
  registers : ConnInfo → Call
  forgets : ℕ → Call

unfoldable pub call : ConnTracker → Call → ConnTracker
call t (registers info) = (register (record info { id = 0 }) t).0
call t (forgets id) = forget id t

unfoldable pub calls : ConnTracker → List Call → ConnTracker
calls t [] = t
calls t (c ∷ cs) = calls (call t c) cs

abbrev pub IdsUpTo : ℕ → Assoc ℕ ConnInfo → Type 0
IdsUpTo n = All (λ (kv : ℕ × ConnInfo). (kv.0 ≤ n) × (kv.0 ≡ kv.1.id))

-- The live count is the size of the table; identifiers were given out by the counter.
pub record IsConsistent (t : ConnTracker) : Type 0 where
  pub counted : t.live ≡ pos (length t.conns)
  pub distinct : Distinct t.conns
  pub ids : IdsUpTo t.next t.conns

Misses-above : (n : ℕ) (m : Assoc ℕ ConnInfo) → IdsUpTo n m → Misses (n + 1) m
Misses-above n [] h = tt
Misses-above n (kv ∷ m) h = (ground (arith, h.0.0), Misses-above n m h.1)

IdsUpTo-mono : (m n : ℕ) (t : Assoc ℕ ConnInfo) → m ≤ n → IdsUpTo m t → IdsUpTo n t
IdsUpTo-mono m n [] l h = tt
IdsUpTo-mono m n (kv ∷ t) l h =
    let first : kv.0 ≤ n = omega (arith, h.0.0) in ((first, h.0.1), IdsUpTo-mono m n t l h.1)

pub IdsUpTo-insert :
    (n k : ℕ) (c : ConnInfo) (t : Assoc ℕ ConnInfo)
    → k ≤ n
    → k ≡ c.id
    → IdsUpTo n t
    → IdsUpTo n (insert k c t)
unfolding insert
IdsUpTo-insert n k c [] l e h = ((l, e), tt)
IdsUpTo-insert n k c (kv ∷ t) l e h = elim (Bool-cases (kv.0 == k)) [
  | inl here ↦ rw here ((l, e), h.1)
  | inr later ↦ rw later (h.0, IdsUpTo-insert n k c t l e h.1)
]

IdsUpTo-delete : (n k : ℕ) (t : Assoc ℕ ConnInfo) → IdsUpTo n t → IdsUpTo n (delete k t)
unfolding delete
IdsUpTo-delete n k [] h = h
IdsUpTo-delete n k ((j, c) ∷ t) h = elim (Bool-cases (j == k)) [
  | inl here ↦ rw here (IdsUpTo-delete n k t h.1)
  | inr later ↦ rw later (h.0, IdsUpTo-delete n k t h.1)
]

pub register-IsConsistent :
    (info : ConnInfo) (t : ConnTracker)
    → IsConsistent t
    → IsConsistent (register (record info { id = 0 }) t).0
unfolding register
register-IsConsistent info t v =
    let absent = lookup-Misses (t.next + 1) t.conns (Misses-above t.next t.conns v.ids) in
    let c = record info { id = t.next + 1 } in
    let size : length (insert (t.next + 1) c t.conns) ≡ suc (length t.conns) =
      length-insert (t.next + 1) c t.conns ∙ (rw absent) in
    record {
      counted = ground (arith, size, v.counted);
      distinct = Distinct-insert (t.next + 1) c t.conns v.distinct;
      ids =
          IdsUpTo-insert (t.next + 1) (t.next + 1) c t.conns (omega arith) refl
            (IdsUpTo-mono t.next (t.next + 1) t.conns (omega arith) v.ids);
    }

live-forget :
    (id : ℕ) (t : ConnTracker)
    → IsConsistent t
    → (forget id t).live ≡ pos (length (delete id t.conns))
unfolding forget
live-forget id t v = ground (arith, length-delete id t.conns v.distinct, v.counted)

pub forget-IsConsistent : (id : ℕ) (t : ConnTracker) → IsConsistent t → IsConsistent (forget id t)
unfolding forget
forget-IsConsistent id t v = record {
  counted = live-forget id t v;
  distinct = Distinct-delete id t.conns v.distinct;
  ids = IdsUpTo-delete t.next id t.conns v.ids;
}

call-IsConsistent : (t : ConnTracker) (c : Call) → IsConsistent t → IsConsistent (call t c)
unfolding call
call-IsConsistent t (registers info) v = register-IsConsistent info t v
call-IsConsistent t (forgets id) v = forget-IsConsistent id t v

calls_from-IsConsistent :
    (t : ConnTracker) (cs : List Call) → IsConsistent t → IsConsistent (calls t cs)
unfolding calls
calls_from-IsConsistent t [] v = v
calls_from-IsConsistent t (c ∷ cs) v =
    calls_from-IsConsistent (call t c) cs (call-IsConsistent t c v)

-- After any registrations without an identifier and any calls of Forget, in any order and also
-- repeated, the live count of a new tracker is the number of connections in its table, and no two
-- of them share an identifier.
pub calls-IsConsistent : (cs : List Call) → IsConsistent (calls new_conn_tracker cs)
calls-IsConsistent cs =
    calls_from-IsConsistent new_conn_tracker cs (record { counted = refl; distinct = tt; ids = tt })
