-- ===== src/Udp/Reaping.antt =====
-- internal/proxy/udp.go, `reapSessions`: the table loses sessions, and the readers stay.
use route_x_reverse_proxy.Common.{
  ℕ, suc, ◌≡◌, refl, ◌∙◌, ap, sym, Bool, [], ◌∷◌, map, some, String, arith, ◌==◌, string_eq, nat_eq,
  length, retain, Bool-cases, inl, inr,
}
use route_x_reverse_proxy.Common.Int.{ℤ, pos}
use route_x_reverse_proxy.Common.Assoc.{
  Assoc, lookup, Distinct, Misses, lookup-retain, Distinct-retain,
}
use route_x_reverse_proxy.Udp.Sessions.{Session}
use route_x_reverse_proxy.Udp.Readers.{IsSound}

module _ (f : ℕ × Session → Session) (keeps : (kv : ℕ × Session) → (f kv).key ≡ kv.1.key) where
  abbrev pub mapped : Assoc ℕ Session → Assoc ℕ Session
  mapped rs = map {B = ℕ × Session} (λ kv. (kv.0, f kv)) rs

  lookup-mapped :
      (i : ℕ) (rs : Assoc ℕ Session) (s : Session)
      → lookup i rs ≡ some s
      → (s' : Session) × (lookup i (mapped rs) ≡ some s') × (s'.key ≡ s.key)
  unfolding lookup
  lookup-mapped i [] s e = absurd (ground (arith, e))
  lookup-mapped i ((j, w) ∷ rs) s e = elim (Bool-cases (j == i)) [
    | inl here ↦
        let same : w ≡ s = ground (arith, e, here) in
        (f (j, w), rw here refl, keeps (j, w) ∙ ap (λ (x : Session). x.key) same)
    | inr later ↦
        let old : lookup i rs ≡ some s = ground (arith, e, later) in
        let (s', there, named) = lookup-mapped i rs s old in (s', rw later there, named)
  ]

  mapped-lookup :
      (i : ℕ) (rs : Assoc ℕ Session) (s' : Session)
      → lookup i (mapped rs) ≡ some s'
      → (s : Session) × (lookup i rs ≡ some s)
  unfolding lookup
  mapped-lookup i [] s' e = absurd (ground (arith, e))
  mapped-lookup i ((j, w) ∷ rs) s' e = elim (Bool-cases (j == i)) [
    | inl here ↦ (w, rw here refl)
    | inr later ↦
        let old : lookup i (mapped rs) ≡ some s' = ground (arith, e, later) in
        let (s, there) = mapped-lookup i rs s' old in (s, rw later there)
  ]

  length-mapped : (rs : Assoc ℕ Session) → length (mapped rs) ≡ length rs
  length-mapped [] = refl
  length-mapped (kv ∷ rs) = ap suc (length-mapped rs)

  Misses-mapped : (i : ℕ) (rs : Assoc ℕ Session) → Misses i rs → Misses i (mapped rs)
  Misses-mapped i [] h = h
  Misses-mapped i ((j, w) ∷ rs) h = (h.0, Misses-mapped i rs h.1)

  Distinct-mapped : (rs : Assoc ℕ Session) → Distinct rs → Distinct (mapped rs)
  Distinct-mapped [] h = h
  Distinct-mapped ((j, w) ∷ rs) h = (Misses-mapped j rs h.0, Distinct-mapped rs h.1)

  pub reaped-IsSound :
      (q : String × ℕ → Bool) (ss : Assoc String ℕ) (rs : Assoc ℕ Session) (n : ℕ) (active : ℤ)
      → IsSound ss rs n active
      → IsSound (retain q ss) (mapped rs) n active
  reaped-IsSound q ss rs n active v = record {
    served = λ k i e.
        let kept = lookup-retain k q ss v.keys in
        let old : lookup k ss ≡ some i = ground (arith, e, kept) in
        let (s, there, named) = v.served k i old in
        let (s', there', named') = lookup-mapped i rs s there in (s', there', named' ∙ named);
    known = λ i s' e. let (s, there) = mapped-lookup i rs s' e in v.known i s there;
    counted = v.counted ∙ ap pos (sym (length-mapped rs));
    keys = Distinct-retain q ss v.keys;
    ids = Distinct-mapped rs v.ids;
  }
