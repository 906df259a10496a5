-- ===== src/Udp/Readers.antt =====
-- internal/proxy/udp.go: which sessions have a reader, over any history of datagrams, answers, ends
-- of readers and reaps.
use route_x_reverse_proxy.Common.{
  ℕ, suc, ◌+◌, ◌≤◌, ◌≡◌, refl, ◌∙◌, ap, subst, sym, false, none, some, String, arith, ◌==◌,
  string_eq, nat_eq, length, Bool-cases, Option-cases, inl, inr,
}
use route_x_reverse_proxy.Common.Int.{ℤ, pos, negsuc, ◌+ℤ◌}
use route_x_reverse_proxy.Common.Assoc.{
  Assoc, lookup, insert, delete, Distinct, lookup-insert, lookup-insert_self, lookup-delete,
  Distinct-insert, Distinct-delete, length-insert, length-delete,
}
use route_x_reverse_proxy.Udp.Sessions.{Session}

-- The table, the readers, the last identifier and the count of sessions: a session of the table has
-- a running reader, of its own client; the count is that of the readers.
pub record IsSound (ss : Assoc String ℕ) (rs : Assoc ℕ Session) (n : ℕ) (active : ℤ) : Type 0 where
  pub served :
      (key : String) (id : ℕ)
      → lookup key ss ≡ some id
      → (s : Session) × (lookup id rs ≡ some s) × (s.key ≡ key)
  pub known : (id : ℕ) (s : Session) → lookup id rs ≡ some s → id ≤ n
  pub counted : active ≡ pos (length rs)
  pub keys : Distinct ss
  pub ids : Distinct rs

same_value {ℓ} : {A : Type ℓ} (a b : A) → some a ≡ some b → a ≡ b
same_value a b h = ap (λ o. elim o [ none ↦ a | some x ↦ x ]) h

module _ (ss : Assoc String ℕ) (rs : Assoc ℕ Session) (n : ℕ) (active : ℤ) where
  fresh : IsSound ss rs n active → lookup (n + 1) rs ≡ none
  fresh v = elim (Option-cases (lookup (n + 1) rs)) [
    | inl absent ↦ absent
    | inr (s, there) ↦ absurd (omega (arith, v.known (n + 1) s there))
  ]

  pub touched-IsSound :
      (id now : ℕ) (s : Session)
      → lookup id rs ≡ some s
      → IsSound ss rs n active
      → IsSound ss (insert id (record s { last_activity = now }) rs) n active
  touched-IsSound id now s here v =
      let s' = record s { last_activity = now } in
      record {
        served = λ key i e.
            let (r, there, named) = v.served key i e in
            elim (Bool-cases (id == i)) [
              | inl same ↦
                  let one : id ≡ i = ground (arith, same) in
                  let equal : some s ≡ some r = sym here ∙ ap (λ x. lookup x rs) one ∙ there in
                  (
                    s',
                    lookup-insert id i s' rs ∙ (rw same refl),
                    ap (λ (x : Session). x.key) (same_value s r equal) ∙ named,
                  )
              | inr other ↦ (r, lookup-insert id i s' rs ∙ (rw other there), named)
            ];
        known = λ i r e. elim (Bool-cases (id == i)) [
          | inl same ↦
              let one : id ≡ i = ground (arith, same) in omega (arith, v.known id s here, one)
          | inr other ↦ v.known i r (sym (lookup-insert id i s' rs ∙ (rw other refl)) ∙ e)
        ];
        counted = v.counted ∙ ap pos (sym (length-insert id s' rs ∙ (rw here refl)));
        keys = v.keys;
        ids = Distinct-insert id s' rs v.ids;
      }

  pub opened-IsSound :
      (key : String) (s : Session)
      → s.key ≡ key
      → IsSound ss rs n active
      → IsSound (insert key (n + 1) ss) (insert (n + 1) s rs) (n + 1) (active +ℤ pos 1)
  opened-IsSound key s named v = record {
    served = λ k i e. elim (Bool-cases (key == k)) [
      | inl same ↦
          let new : some (n + 1) ≡ some i =
            sym (lookup-insert key k (n + 1) ss ∙ (rw same refl)) ∙ e in
          let one : key ≡ k = (string_eq.reflects key k).0 same in
          (
            s,
            subst (λ x. lookup x (insert (n + 1) s rs) ≡ some s) (same_value (n + 1) i new)
                (lookup-insert_self (n + 1) s rs),
            named ∙ one,
          )
      | inr other ↦
          let old = sym (lookup-insert key k (n + 1) ss ∙ (rw other refl)) ∙ e in
          let (r, there, called) = v.served k i old in
          let apart : ((n + 1) == i) ≡ false = ground (arith, v.known i r there) in
          (r, lookup-insert (n + 1) i s rs ∙ (rw apart there), called)
    ];
    known = λ i r e. elim (Bool-cases ((n + 1) == i)) [
      | inl same ↦ ground (arith, same)
      | inr other ↦
          let old = v.known i r (sym (lookup-insert (n + 1) i s rs ∙ (rw other refl)) ∙ e) in
          omega (arith, old)
    ];
    counted =
        let size : length (insert (n + 1) s rs) ≡ suc (length rs) =
          length-insert (n + 1) s rs ∙ (rw (fresh v) refl) in
        ground (arith, size, v.counted);
    keys = Distinct-insert key (n + 1) ss v.keys;
    ids = Distinct-insert (n + 1) s rs v.ids;
  }

  pub ended-IsSound :
      (id : ℕ) (s : Session)
      → lookup id rs ≡ some s
      → IsSound ss rs n active
      → IsSound (delete s.key ss) (delete id rs) n (active +ℤ negsuc 0)
  ended-IsSound id s here v = record {
    served = λ k i e. elim (Bool-cases (s.key == k)) [
      | inl same ↦
          let gone : lookup k (delete s.key ss) ≡ none =
            lookup-delete s.key k ss ∙ (rw same refl) in
          absurd (ground (arith, e, gone))
      | inr other ↦
          let old = sym (lookup-delete s.key k ss ∙ (rw other refl)) ∙ e in
          let (r, there, called) = v.served k i old in
          elim (Bool-cases (id == i)) [
            | inl one ↦
                let equal : some s ≡ some r =
                  sym here ∙ ap (λ x. lookup x rs) ((nat_eq.reflects id i).0 one) ∙ there in
                let key : s.key ≡ k = ap (λ (x : Session). x.key) (same_value s r equal) ∙ called in
                absurd (ground (arith, other, (string_eq.reflects s.key k).1 key))
            | inr two ↦ (r, lookup-delete id i rs ∙ (rw two there), called)
          ]
    ];
    known = λ i r e. elim (Bool-cases (id == i)) [
      | inl one ↦
          let gone : lookup i (delete id rs) ≡ none = lookup-delete id i rs ∙ (rw one refl) in
          absurd (ground (arith, e, gone))
      | inr two ↦ v.known i r (sym (lookup-delete id i rs ∙ (rw two refl)) ∙ e)
    ];
    counted =
        let size : length rs ≡ suc (length (delete id rs)) =
          length-delete id rs v.ids ∙ (rw here refl) in
        ground (arith, size, v.counted);
    keys = Distinct-delete s.key ss v.keys;
    ids = Distinct-delete id rs v.ids;
  }
