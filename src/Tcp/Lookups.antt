-- ===== src/Tcp/Lookups.antt =====
-- internal/proxy/tcp.go: what the table of the runs of handleConn holds.
use route_x_reverse_proxy.Common.{
  ℕ, ◌≡◌, refl, ap, subst, false, Option, none, some, String, arith, Bool-cases, inl, inr,
  string_eq, nat_eq, ◌==◌,
}
use route_x_reverse_proxy.Common.Assoc.{Assoc, lookup, insert, delete, lookup-insert, lookup-delete}
use route_x_reverse_proxy.Net.{Ip}
use route_x_reverse_proxy.L7.Bucket.{Floats}
use route_x_reverse_proxy.Tcp.Connections.{Stage, Handler, TcpProxy}
use route_x_reverse_proxy.Tcp.Events.{rank, at_stage}

-- No connection of an address with the text is being handled.
abbrev pub NoneFrom : (Ip → String) → String → Assoc ℕ Handler → Type 0
NoneFrom ip_string key hs =
    (k : ℕ) (h : Handler) → lookup k hs ≡ some h → (ip_string h.src == key) ≡ false

module _ (ip_string : Ip → String) (key : String) where
  pub insert-NoneFrom :
      (k : ℕ) (new : Handler) (hs : Assoc ℕ Handler)
      → (ip_string new.src == key) ≡ false
      → NoneFrom ip_string key hs
      → NoneFrom ip_string key (insert k new hs)
  insert-NoneFrom k new hs other v j h here = elim (Bool-cases (k == j)) [
    | inr apart ↦ v j h (rw (lookup-insert k j new hs, apart) at here)
    | inl same ↦
        let found = rw (lookup-insert k j new hs, same) at here in
        let one : new ≡ h = ap (λ o. elim o [ none ↦ new | some x ↦ x ]) found in
        subst (λ (x : Handler). (ip_string x.src == key) ≡ false) one other
  ]

  pub delete-NoneFrom :
      (k : ℕ) (hs : Assoc ℕ Handler)
      → NoneFrom ip_string key hs
      → NoneFrom ip_string key (delete k hs)
  delete-NoneFrom k hs v j h here = elim (Bool-cases (k == j)) [
    | inl same ↦ absurd (ground (arith, rw (lookup-delete k j hs, same) at here))
    | inr apart ↦ v j h (rw (lookup-delete k j hs, apart) at here)
  ]

pub at_stage-lookup :
    {F : Floats} (stage : Stage) (k : ℕ) (h : Handler) (p : TcpProxy F)
    → at_stage stage k p ≡ some h
    → lookup k p.handlers ≡ some h
unfolding at_stage
at_stage-lookup stage k h p e = go (lookup k p.handlers) refl
  where
    go : (o : Option Handler) → lookup k p.handlers ≡ o → lookup k p.handlers ≡ some h
    go none q = absurd (ground (arith, e, q))
    go (some x) q = elim (Bool-cases (rank stage == rank x.stage)) [
      | inl same ↦ ground (arith, e, q, same)
      | inr other ↦ absurd (ground (arith, e, q, other))
    ]

pub at_stage-rank :
    {F : Floats} (stage : Stage) (k : ℕ) (h : Handler) (p : TcpProxy F)
    → at_stage stage k p ≡ some h
    → rank stage ≡ rank h.stage
unfolding at_stage
at_stage-rank stage k h p e = go (lookup k p.handlers) refl
  where
    go : (o : Option Handler) → lookup k p.handlers ≡ o → rank stage ≡ rank h.stage
    go none q = absurd (ground (arith, e, q))
    go (some x) q = elim (Bool-cases (rank stage == rank x.stage)) [
      | inl same ↦
          let one : x ≡ h = ground (arith, e, q, same) in
          subst (λ (y : Handler). rank stage ≡ rank y.stage) one (ground (arith, same))
      | inr other ↦ absurd (ground (arith, e, q, other))
    ]
