-- ===== src/Tcp/Late.antt =====
-- internal/proxy/tcp.go: for which connections the copies of handleConn run.
use route_x_reverse_proxy.Common.{
  ℕ, ◌+◌, ◌≤◌, ◌<◌, ◌≡◌, ◌⊎◌, refl, ap, subst, sym, true, false, not, List, [], ◌∷◌, none, some,
  arith, Bool-cases, inl, inr, nat_eq, ◌==◌, retain,
}
use route_x_reverse_proxy.Common.Assoc.{Assoc, lookup, insert, delete, lookup-insert, lookup-delete}
use route_x_reverse_proxy.L7.Bucket.{Floats}
use route_x_reverse_proxy.Tcp.Connections.{copying, Handler, TcpProxy, runs_copy}
use route_x_reverse_proxy.Tcp.Events.{rank}

-- No copy runs for a connection that still waits for its pick, its dial or its first payload. The
-- other two parts carry it: connections and copies bear numbers that have been given.
pub record Late (hs : Assoc ℕ Handler) (inb outb : List ℕ) (total : ℕ) : Type 0 where
  pub early :
      (k : ℕ) (h : Handler)
      → lookup k hs ≡ some h
      → rank h.stage < 3
      → (runs_copy k inb ≡ false) × (runs_copy k outb ≡ false)
  pub keys : (k : ℕ) (h : Handler) → lookup k hs ≡ some h → k ≤ total
  pub started : (k : ℕ) → (runs_copy k inb ≡ true) ⊎ (runs_copy k outb ≡ true) → k ≤ total

abbrev pub LateProxy : {F : Floats} → TcpProxy F → Type 0
LateProxy p = Late p.handlers p.inbound p.outbound p.total_conns

-- What a lookup finds after an insertion.
inserted :
    (k j : ℕ) (new h : Handler) (hs : Assoc ℕ Handler)
    → lookup j (insert k new hs) ≡ some h
    → ((k ≡ j) × (new ≡ h)) ⊎ (((k == j) ≡ false) × (lookup j hs ≡ some h))
inserted k j new h hs here = elim (Bool-cases (k == j)) [
  | inr apart ↦ inr (apart, rw (lookup-insert k j new hs, apart) at here)
  | inl same ↦
      let found = rw (lookup-insert k j new hs, same) at here in
      inl (ground (arith, same), ap (λ o. elim o [ none ↦ new | some x ↦ x ]) found)
]

pub put-Late :
    (k : ℕ) (new : Handler) (hs : Assoc ℕ Handler) (inb outb : List ℕ) (total : ℕ)
    → k ≤ total
    → (rank new.stage < 3 → (runs_copy k inb ≡ false) × (runs_copy k outb ≡ false))
    → Late hs inb outb total
    → Late (insert k new hs) inb outb total
put-Late k new hs inb outb total given quiet v = record {
  early = λ j h here waits. elim (inserted k j new h hs here) [
    | inr (apart, old) ↦ v.early j h old waits
    | inl (same, one) ↦
        subst (λ x. (runs_copy x inb ≡ false) × (runs_copy x outb ≡ false)) same
          (quiet (subst (λ (x : Handler). rank x.stage < 3) (sym one) waits))
  ];
  keys = λ j h here. elim (inserted k j new h hs here) [
    | inr (apart, old) ↦ v.keys j h old
    | inl (same, one) ↦ subst (λ x. x ≤ total) same given
  ];
  started = v.started;
}

-- A connection past its first payload starts its copies.
pub start-Late :
    (k : ℕ) (new : Handler) (hs : Assoc ℕ Handler) (inb outb : List ℕ) (total : ℕ)
    → k ≤ total
    → new.stage ≡ copying
    → Late hs inb outb total
    → Late (insert k new hs) (k ∷ inb) (k ∷ outb) total
start-Late k new hs inb outb total given stage v = record {
  early = λ j h here waits. elim (inserted k j new h hs here) [
    | inr (apart, old) ↦ let (a, b) = v.early j h old waits in (rw apart a, rw apart b)
    | inl (same, one) ↦
        let late : 3 ≤ rank h.stage =
          subst (λ (x : Handler). 3 ≤ rank x.stage) one
            (subst (λ s. 3 ≤ rank s) (sym stage) (omega arith)) in
        absurd (omega arith)
  ];
  keys = λ j h here. elim (inserted k j new h hs here) [
    | inr (apart, old) ↦ v.keys j h old
    | inl (same, one) ↦ subst (λ x. x ≤ total) same given
  ];
  started = λ j runs. elim (Bool-cases (k == j)) [
    | inl same ↦ ground (arith, same, given)
    | inr apart ↦
        v.started j (elim runs [ inl a ↦ inl (rw apart at a) | inr b ↦ inr (rw apart at b) ])
  ];
}

-- A new connection bears a number of which no copy runs.
pub grow-Late :
    (new : Handler) (hs : Assoc ℕ Handler) (inb outb : List ℕ) (total : ℕ)
    → Late hs inb outb total
    → Late (insert (total + 1) new hs) inb outb (total + 1)
grow-Late new hs inb outb total v =
    put-Late (total + 1) new hs inb outb (total + 1) (omega arith)
      (λ waits. (
        unused inb (λ r. v.started (total + 1) (inl r)),
        unused outb (λ r. v.started (total + 1) (inr r)),
      ))
      (record {
        early = v.early;
        keys = λ j h here. let l = v.keys j h here in omega arith;
        started = λ j runs. let l = v.started j runs in omega arith;
      })
  where
    unused :
        (copies : List ℕ)
        → (runs_copy (total + 1) copies ≡ true → total + 1 ≤ total)
        → runs_copy (total + 1) copies ≡ false
    unused copies h = elim (Bool-cases (runs_copy (total + 1) copies)) [
      | inr idle ↦ idle
      | inl runs ↦ let l = h runs in absurd (omega arith)
    ]

pub delete-Late :
    (k : ℕ) (hs : Assoc ℕ Handler) (inb outb : List ℕ) (total : ℕ)
    → Late hs inb outb total
    → Late (delete k hs) inb outb total
delete-Late k hs inb outb total v = record {
  early = λ j h here waits. v.early j h (kept j h here) waits;
  keys = λ j h here. v.keys j h (kept j h here);
  started = v.started;
}
  where
    kept : (j : ℕ) (h : Handler) → lookup j (delete k hs) ≡ some h → lookup j hs ≡ some h
    kept j h here = elim (Bool-cases (k == j)) [
      | inl same ↦ absurd (ground (arith, rw (lookup-delete k j hs, same) at here))
      | inr apart ↦ rw (lookup-delete k j hs, apart) at here
    ]

-- The copies left when one has ended.
pub ended :
    (j k : ℕ) (copies : List ℕ)
    → runs_copy j (retain (λ i. not (i == k)) copies) ≡ true
    → runs_copy j copies ≡ true
ended j k [] h = h
ended j k (i ∷ is) h = elim (Bool-cases (i == k)) [
  | inl same ↦ ground (arith, ended j k is (rw same at h))
  | inr apart ↦
      let rest = rw apart at h in
      elim (Bool-cases (i == j)) [
        | inl one ↦ rw one refl
        | inr other ↦ rw other (ended j k is (rw other at rest))
      ]
]

-- Fewer copies run.
pub less-Late :
    (hs : Assoc ℕ Handler) (inb outb less_in less_out : List ℕ) (total : ℕ)
    → ((j : ℕ) → runs_copy j less_in ≡ true → runs_copy j inb ≡ true)
    → ((j : ℕ) → runs_copy j less_out ≡ true → runs_copy j outb ≡ true)
    → Late hs inb outb total
    → Late hs less_in less_out total
less-Late hs inb outb less_in less_out total a b v = record {
  early = λ j h here waits.
      let (x, y) = v.early j h here waits in
      (idle j inb less_in (a j) x, idle j outb less_out (b j) y);
  keys = v.keys;
  started = λ j runs. v.started j (elim runs [ inl r ↦ inl (a j r) | inr r ↦ inr (b j r) ]);
}
  where
    idle :
        (j : ℕ) (all less : List ℕ)
        → (runs_copy j less ≡ true → runs_copy j all ≡ true)
        → runs_copy j all ≡ false
        → runs_copy j less ≡ false
    idle j all less f e = elim (Bool-cases (runs_copy j less)) [
      | inr no_copy ↦ no_copy
      | inl runs ↦ absurd (ground (arith, f runs, e))
    ]
