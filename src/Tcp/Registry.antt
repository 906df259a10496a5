-- ===== src/Tcp/Registry.antt =====
-- internal/proxy/tcp.go: the connections that stand in the registry, and the runs of handleConn that
-- registered them.
use route_x_reverse_proxy.Common.{
  ℕ, ◌+◌, ◌≡◌, ◌≢◌, refl, ap, sym, ◌∙◌, Option, none, some, arith, ◌==◌, nat_eq, Bool-cases, inl,
  inr,
}
use route_x_reverse_proxy.Common.Assoc.{Assoc, lookup, insert, delete, lookup-insert, lookup-delete}
use route_x_reverse_proxy.Proxy.Conn.{ConnInfo, ConnTracker, register, forget}
use route_x_reverse_proxy.Tcp.Connections.{Handler}

-- Each registered connection belongs to a run of handleConn, which forgets it when it leaves.
abbrev pub Owned : Assoc ℕ Handler → ConnTracker → Type 0
Owned hs t =
    (id : ℕ) (c : ConnInfo)
    → lookup id t.conns ≡ some c
    → (k : ℕ) × (h : Handler) × (lookup k hs ≡ some h) × (h.conn ≡ some id)

pub same_value {ℓ} : {A : Type ℓ} (a b : A) → some a ≡ some b → a ≡ b
same_value a b h = ap (λ o. elim o [ none ↦ a | some x ↦ x ]) h

module _ (hs : Assoc ℕ Handler) (t : ConnTracker) (k : ℕ) where
  -- A handler that keeps its connection, if it has one.
  pub kept-Owned :
      (new : Handler)
      → ((old : Handler) (id : ℕ)
          → lookup k hs ≡ some old
          → old.conn ≡ some id
          → new.conn ≡ some id)
      → Owned hs t
      → Owned (insert k new hs) t
  kept-Owned new keeps owned id c there =
      let (j, h, at_j, has) = owned id c there in
      elim (Bool-cases (k == j)) [
        | inl same ↦
            let one : lookup k hs ≡ some h =
              ap (λ x. lookup x hs) ((nat_eq.reflects k j).0 same) ∙ at_j in
            (j, new, lookup-insert k j new hs ∙ (rw same refl), keeps h id one has)
        | inr other ↦ (j, h, lookup-insert k j new hs ∙ (rw other at_j), has)
      ]

  -- A handler that had no connection, and registers one.
  pub registered-Owned :
      (old new : Handler) (info : ConnInfo)
      → lookup k hs ≡ some old
      → old.conn ≡ none
      → new.conn ≡ some (t.next + 1)
      → Owned hs t
      → Owned (insert k new hs) (register (record info { id = 0 }) t).0
  unfolding register
  registered-Owned old new info here free has owned id c there =
      elim (Bool-cases ((t.next + 1) == id)) [
        | inl same ↦ (
          k,
          new,
          lookup-insert k k new hs ∙ (rw ((nat_eq.reflects k k).1 refl) refl),
          has ∙ ap some ((nat_eq.reflects (t.next + 1) id).0 same),
        )
        | inr other ↦
            let before : lookup id t.conns ≡ some c =
              sym (
                lookup-insert (t.next + 1) id (record info { id = t.next + 1 }) t.conns
                ∙ (rw other refl))
              ∙ there in
            kept-Owned new
              (λ h i at_k conn.
                let equal : old ≡ h = same_value old h (sym here ∙ at_k) in
                absurd (ground (arith, sym free ∙ ap (λ (x : Handler). x.conn) equal ∙ conn)))
              owned id c before
      ]

  -- A handler that leaves, and forgets its connection.
  pub left-Owned :
      (h : Handler)
      → lookup k hs ≡ some h
      → Owned hs t
      → Owned (delete k hs) (elim h.conn [ none ↦ t | some id ↦ forget id t ])
  unfolding forget
  left-Owned h here owned = given h.conn refl
    where
      still :
          (id : ℕ) (c : ConnInfo)
          → h.conn ≢ some id
          → lookup id t.conns ≡ some c
          → (j : ℕ) × (g : Handler) × (lookup j (delete k hs) ≡ some g) × (g.conn ≡ some id)
      still id c apart there =
          let (j, g, at_j, has) = owned id c there in
          elim (Bool-cases (k == j)) [
            | inl same ↦
                let one : some h ≡ some g =
                  sym here ∙ ap (λ x. lookup x hs) ((nat_eq.reflects k j).0 same) ∙ at_j in
                absurd (apart (ap (λ (x : Handler). x.conn) (same_value h g one) ∙ has))
            | inr other ↦ (j, g, lookup-delete k j hs ∙ (rw other at_j), has)
          ]

      given :
          (o : Option ℕ)
          → h.conn ≡ o
          → Owned (delete k hs) (elim o [ none ↦ t | some id ↦ forget id t ])
      given none e id c there = still id c (λ same. ground (arith, e, same)) there
      given (some mine) e id c there = elim (Bool-cases (mine == id)) [
        | inl same ↦
            let gone : lookup id (delete mine t.conns) ≡ none =
              lookup-delete mine id t.conns ∙ (rw same refl) in
            absurd (ground (arith, there, gone))
        | inr other ↦
            let before : lookup id t.conns ≡ some c =
              sym (lookup-delete mine id t.conns ∙ (rw other refl)) ∙ there in
            still id c (λ same. ground (arith, other, same_value mine id (sym e ∙ same))) before
      ]
