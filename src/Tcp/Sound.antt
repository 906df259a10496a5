-- ===== src/Tcp/Sound.antt =====
-- internal/proxy/tcp.go: what holds of a proxy between two events, and what a change of one run of
-- handleConn does to it.
use route_x_reverse_proxy.Common.{
  ℕ, suc, ◌+◌, ◌≤◌, ◌≡◌, ◌≢◌, refl, ap, sym, ◌∙◌, List, Option, none, some, arith, ◌==◌, nat_eq,
  Bool-cases, Option-cases, inl, inr, length,
}
use route_x_reverse_proxy.Common.Int.{ℤ, pos, negsuc, ◌+ℤ◌}
use route_x_reverse_proxy.Common.Assoc.{
  Assoc, lookup, insert, delete, Distinct, lookup-insert, lookup-delete, Distinct-insert,
  Distinct-delete, length-insert, length-delete,
}
use route_x_reverse_proxy.Lb.Target.{Target}
use route_x_reverse_proxy.Lb.Balancer.{Balancer, release}
use route_x_reverse_proxy.Lb.Ledger.{IsExact}
use route_x_reverse_proxy.Proxy.Conn.{ConnTracker, IsConsistent, forget, forget-IsConsistent}
use route_x_reverse_proxy.Tcp.Connections.{accepted, Handler}
use route_x_reverse_proxy.Tcp.Holdings.{holdings, launched-IsExact, left-IsExact}
use route_x_reverse_proxy.Tcp.Registry.{Owned, same_value, kept-Owned, left-Owned}

-- The runs of handleConn against what they hold: the active count and the drainer's are their
-- number; each target counts the runs that hold it; the registry is consistent, and each connection
-- in it belongs to a run; a run that has not picked holds nothing.
pub record IsSound (hs : Assoc ℕ Handler) (n : ℕ) (ts : List Target) (t : ConnTracker)
    (active live : ℤ) : Type 0 where
  pub keys : Distinct hs
  pub known : (k : ℕ) (h : Handler) → lookup k hs ≡ some h → k ≤ n
  pub fresh :
      (k : ℕ) (h : Handler)
      → lookup k hs ≡ some h
      → h.stage ≡ accepted
      → (h.target ≡ none) × (h.conn ≡ none)
  pub counted : active ≡ pos (length hs)
  pub draining : live ≡ pos (length hs)
  pub exact : IsExact ts (holdings hs)
  pub consistent : IsConsistent t
  pub owned : Owned hs t

module _ (hs : Assoc ℕ Handler) (n : ℕ) (ts : List Target) (t : ConnTracker) (active live : ℤ) where
  -- A run that goes on to a later stage, with what it holds then.
  pub moved-IsSound :
      (k : ℕ) (old new : Handler) (ts' : List Target) (t' : ConnTracker)
      → lookup k hs ≡ some old
      → new.stage ≢ accepted
      → IsExact ts' (holdings (insert k new hs))
      → IsConsistent t'
      → Owned (insert k new hs) t'
      → IsSound hs n ts t active live
      → IsSound (insert k new hs) n ts' t' active live
  moved-IsSound k old new ts' t' here later exact' consistent' owned' v =
      let size : length (insert k new hs) ≡ length hs = length-insert k new hs ∙ (rw here refl) in
      record {
        keys = Distinct-insert k new hs v.keys;
        known = λ j h e. elim (Bool-cases (k == j)) [
          | inl same ↦
              let one : k ≡ j = (nat_eq.reflects k j).0 same in
              omega (arith, v.known k old here, one)
          | inr other ↦ v.known j h (sym (lookup-insert k j new hs ∙ (rw other refl)) ∙ e)
        ];
        fresh = λ j h e stage. elim (Bool-cases (k == j)) [
          | inl same ↦
              let equal : some new ≡ some h = sym (lookup-insert k j new hs ∙ (rw same refl)) ∙ e in
              absurd (later (ap (λ (x : Handler). x.stage) (same_value new h equal) ∙ stage))
          | inr other ↦ v.fresh j h (sym (lookup-insert k j new hs ∙ (rw other refl)) ∙ e) stage
        ];
        counted = v.counted ∙ ap pos (sym size);
        draining = v.draining ∙ ap pos (sym size);
        exact = exact';
        consistent = consistent';
        owned = owned';
      }

  unknown : IsSound hs n ts t active live → lookup (n + 1) hs ≡ none
  unknown v = elim (Option-cases (lookup (n + 1) hs)) [
    | inl absent ↦ absent
    | inr (h, there) ↦ absurd (omega (arith, v.known (n + 1) h there))
  ]

  pub launched-IsSound :
      (new : Handler)
      → new.target ≡ none
      → new.conn ≡ none
      → IsSound hs n ts t active live
      → IsSound (insert (n + 1) new hs) (n + 1) ts t (active +ℤ pos 1) (live +ℤ pos 1)
  launched-IsSound new no_target no_conn v =
      let absent = unknown v in
      let size : length (insert (n + 1) new hs) ≡ suc (length hs) =
        length-insert (n + 1) new hs ∙ (rw absent refl) in
      record {
        keys = Distinct-insert (n + 1) new hs v.keys;
        known = λ j h e. elim (Bool-cases ((n + 1) == j)) [
          | inl same ↦ ground (arith, same)
          | inr other ↦
              let old = v.known j h (sym (lookup-insert (n + 1) j new hs ∙ (rw other refl)) ∙ e) in
              omega (arith, old)
        ];
        fresh = λ j h e stage. elim (Bool-cases ((n + 1) == j)) [
          | inl same ↦
              let equal : some new ≡ some h =
                sym (lookup-insert (n + 1) j new hs ∙ (rw same refl)) ∙ e in
              let one = same_value new h equal in
              (
                sym (ap (λ (x : Handler). x.target) one) ∙ no_target,
                sym (ap (λ (x : Handler). x.conn) one) ∙ no_conn,
              )
          | inr other ↦
              v.fresh j h (sym (lookup-insert (n + 1) j new hs ∙ (rw other refl)) ∙ e) stage
        ];
        counted = ground (arith, size, v.counted);
        draining = ground (arith, size, v.draining);
        exact = launched-IsExact ts hs (n + 1) new absent no_target v.exact;
        consistent = v.consistent;
        owned =
            kept-Owned hs t (n + 1) new (λ old i there h. absurd (ground (arith, absent, there)))
              v.owned;
      }

forgotten-IsConsistent :
    (o : Option ℕ) (t : ConnTracker)
    → IsConsistent t
    → IsConsistent (elim o [ none ↦ t | some id ↦ forget id t ])
forgotten-IsConsistent none t v = v
forgotten-IsConsistent (some id) t v = forget-IsConsistent id t v

pub left-IsSound :
    (hs : Assoc ℕ Handler) (n : ℕ) (b : Balancer) (t : ConnTracker) (active live : ℤ) (k : ℕ)
    (h : Handler)
    → lookup k hs ≡ some h
    → IsSound hs n b.targets t active live
    → IsSound
        (delete k hs)
        n
        (release b h.target).targets
        (elim h.conn [ none ↦ t | some id ↦ forget id t ])
        (active +ℤ negsuc 0)
        (live +ℤ negsuc 0)
left-IsSound hs n b t active live k h here v =
    let size : length hs ≡ suc (length (delete k hs)) =
      length-delete k hs v.keys ∙ (rw here refl) in
    let old : (j : ℕ) (g : Handler) → lookup j (delete k hs) ≡ some g → lookup j hs ≡ some g =
      λ j g e. elim (Bool-cases (k == j)) [
        | inl same ↦
            let gone : lookup j (delete k hs) ≡ none = lookup-delete k j hs ∙ (rw same refl) in
            absurd (ground (arith, e, gone))
        | inr other ↦ sym (lookup-delete k j hs ∙ (rw other refl)) ∙ e
      ] in
    record {
      keys = Distinct-delete k hs v.keys;
      known = λ j g e. v.known j g (old j g e);
      fresh = λ j g e stage. v.fresh j g (old j g e) stage;
      counted = ground (arith, size, v.counted);
      draining = ground (arith, size, v.draining);
      exact = left-IsExact b hs k h v.keys here v.exact;
      consistent = forgotten-IsConsistent h.conn t v.consistent;
      owned = left-Owned hs t k h here v.owned;
    }
