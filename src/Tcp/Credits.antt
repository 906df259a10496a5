-- ===== src/Tcp/Credits.antt =====
-- internal/proxy/tcp.go: the bytes that are added to a registered connection.
use route_x_reverse_proxy.Common.{
  ℕ, ◌+◌, ◌≤◌, ◌≡◌, refl, ap, sym, ◌∙◌, subst, [], ◌∷◌, Option, none, some, arith, ◌==◌, nat_eq,
  Bool-cases, Option-cases, inl, inr,
}
use route_x_reverse_proxy.Common.Int.{pos}
use route_x_reverse_proxy.Common.Assoc.{
  Assoc, lookup, insert, lookup-insert, Distinct-insert, length-insert,
}
use route_x_reverse_proxy.Proxy.Conn.{ConnInfo, ConnTracker, IsConsistent, IdsUpTo, IdsUpTo-insert}
use route_x_reverse_proxy.Tcp.Connections.{Handler, credit_in, credit_out}
use route_x_reverse_proxy.Tcp.Registry.{Owned, same_value}

IdsUpTo-lookup :
    (n id : ℕ) (c : ConnInfo) (m : Assoc ℕ ConnInfo)
    → IdsUpTo n m
    → lookup id m ≡ some c
    → (id ≤ n) × (id ≡ c.id)
unfolding lookup
IdsUpTo-lookup n id c [] h there = absurd (ground (arith, there))
IdsUpTo-lookup n id c ((j, w) ∷ m) h there = elim (Bool-cases (j == id)) [
  | inl here ↦
      let key : j ≡ id = (nat_eq.reflects j id).0 here in
      let value : w ≡ c = same_value w c (rw here at there) in
      let named : j ≡ c.id = h.0.1 ∙ ap (λ (x : ConnInfo). x.id) value in
      (subst (λ x. x ≤ n) key h.0.0, sym key ∙ named)
  | inr later ↦ IdsUpTo-lookup n id c m h.1 (rw later at there)
]

-- An entry that is written again under its identifier.
module _ (t : ConnTracker) (id : ℕ) (c new : ConnInfo) (here : lookup id t.conns ≡ some c) where
  rewritten-IsConsistent :
      new.id ≡ c.id → IsConsistent t → IsConsistent (record t { conns = insert id new t.conns })
  rewritten-IsConsistent same v =
      let (small, named) = IdsUpTo-lookup t.next id c t.conns v.ids here in
      record {
        counted = v.counted ∙ ap pos (sym (length-insert id new t.conns ∙ (rw here refl)));
        distinct = Distinct-insert id new t.conns v.distinct;
        ids = IdsUpTo-insert t.next id new t.conns small (named ∙ sym same) v.ids;
      }

  rewritten-Owned :
      (hs : Assoc ℕ Handler) → Owned hs t → Owned hs (record t { conns = insert id new t.conns })
  rewritten-Owned hs owned i w there = elim (Bool-cases (id == i)) [
    | inl same ↦ owned i c (ap (λ x. lookup x t.conns) (sym ((nat_eq.reflects id i).0 same)) ∙ here)
    | inr other ↦ owned i w (sym (lookup-insert id i new t.conns ∙ (rw other refl)) ∙ there)
  ]

module _ (hs : Assoc ℕ Handler) (n : ℕ) (t : ConnTracker) where
  pub credit_in-keeps :
      (o : Option ℕ)
      → IsConsistent t × Owned hs t
      → IsConsistent (credit_in o n t) × Owned hs (credit_in o n t)
  unfolding credit_in
  credit_in-keeps none v = v
  credit_in-keeps (some id) v = elim (Option-cases (lookup id t.conns)) [
    | inl absent ↦ rw (absent, credit_in) v
    | inr (c, here) ↦
        let new = record c { bytes_in = c.bytes_in + n } in
        rw (here, credit_in)
          (rewritten-IsConsistent t id c new here refl v.0, rewritten-Owned t id c new here hs v.1)
  ]

  pub credit_out-keeps :
      (o : Option ℕ)
      → IsConsistent t × Owned hs t
      → IsConsistent (credit_out o n t) × Owned hs (credit_out o n t)
  unfolding credit_out
  credit_out-keeps none v = v
  credit_out-keeps (some id) v = elim (Option-cases (lookup id t.conns)) [
    | inl absent ↦ rw (absent, credit_out) v
    | inr (c, here) ↦
        let new = record c { bytes_out = c.bytes_out + n } in
        rw (here, credit_out)
          (rewritten-IsConsistent t id c new here refl v.0, rewritten-Owned t id c new here hs v.1)
  ]
