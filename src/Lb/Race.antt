-- ===== src/Lb/Race.antt =====
-- internal/lb/balancer.go, `Target.DecActive` as its two atomic additions, run by several callers
-- at once. Only what the first addition returned decides about the second.
use route_x_reverse_proxy.Common.{
  ℕ, zero, suc, ◌+◌, ◌-◌, ◌*◌, ◌≤◌, ◌≡◌, refl, true, List, [], ◌∷◌, arith, if◌then◌else◌, ap, ◌∙◌,
}
use route_x_reverse_proxy.Common.Int.{ℤ, pos, negsuc, ◌+ℤ◌, neg_ℤ, ltb_ℤ, sub_ℕ}

-- The counter, and the negative results of the callers that have not restored it yet.
pub record Releases : Type 0 where
  pub active_conns : ℤ
  pub pending : List ℤ

-- `v := atomic.AddInt64(&t.activeConns, -1)`, and the test of `v`.
unfoldable pub decrement : Releases → Releases
decrement s =
    let v = s.active_conns +ℤ negsuc 0 in
    record { active_conns = v; pending = if ltb_ℤ v (pos 0) then v ∷ s.pending else s.pending }

-- `atomic.AddInt64(&t.activeConns, -v)`, by the caller that decremented last.
abbrev restore_by : List ℤ → ℤ → Releases
restore_by [] c = record { active_conns = c; pending = [] }
restore_by (v ∷ vs) c = record { active_conns = c +ℤ neg_ℤ v; pending = vs }

unfoldable pub restore : Releases → Releases
restore s = restore_by s.pending s.active_conns

unfoldable pub decrements : ℕ → Releases → Releases
unfolding decrement
decrements zero s = s
decrements (suc n) s = decrement (decrements n s)

-- Every pending caller restores.
unfoldable pub settle : List ℤ → ℤ → ℤ
settle [] c = c
settle (v ∷ vs) c = settle vs (c +ℤ neg_ℤ v)

abbrev pub idle : Releases
idle = record { active_conns = pos 0; pending = [] }

-- After `n` decrements from zero: -n, and the debts n, …, 1.
abbrev minus : ℕ → ℤ
minus n = sub_ℕ 0 n

abbrev debts : ℕ → List ℤ
debts zero = []
debts (suc n) = negsuc n ∷ debts n

decrements-idle : (n : ℕ) → decrements n idle ≡ record { active_conns = minus n; pending = debts n }
unfolding decrements
decrements-idle zero = refl
decrements-idle (suc n) =
    let e : minus n +ℤ negsuc 0 ≡ negsuc n = ground arith in
    let f : minus (suc n) ≡ negsuc n = ground arith in
    let g : ltb_ℤ (negsuc n) (pos 0) ≡ true = ground arith in rw (decrements-idle n) (rw (e, g, f))

abbrev triangle : ℕ → ℕ
triangle zero = 0
triangle (suc n) = suc n + triangle n

settle-debts : (n a b : ℕ) → settle (debts n) (sub_ℕ a b) ≡ sub_ℕ (triangle n + a) b
unfolding settle
settle-debts zero a b = let e : 0 + a ≡ a = omega arith in rw e
settle-debts (suc n) a b =
    let e : sub_ℕ a b +ℤ neg_ℤ (negsuc n) ≡ sub_ℕ (suc n + a) b = ground arith in
    let f : triangle n + (suc n + a) ≡ suc n + triangle n + a = omega arith in
    ap (settle (debts n)) e ∙ settle-debts n (suc n + a) b ∙ ap (λ x. sub_ℕ x b) f

triangle_closed : (n : ℕ) → 2 * triangle n ≡ n * n + n
triangle_closed zero = omega arith
triangle_closed (suc n) = let ih = triangle_closed n in grind arith

-- If `n` callers release a target that nobody holds, and all of them decrement before any of them
-- restores, the counter is left at n (n - 1) / 2, not at zero.
pub concurrent_releases :
    (n : ℕ)
    → (k : ℕ) × (settle (decrements n idle).pending (decrements n idle).active_conns ≡ pos k)
      × (2 * k + n ≡ n * n)
concurrent_releases n =
    let t = triangle_closed n in
    let le = n-le-triangle n in
    (
      triangle n - n,
      rw (decrements-idle n) (settle-debts n 0 n ∙ whole (triangle n) n le),
      omega arith,
    )
  where
    n-le-triangle : (m : ℕ) → m ≤ triangle m
    n-le-triangle zero = omega arith
    n-le-triangle (suc m) = omega arith

    whole : (t m : ℕ) → m ≤ t → sub_ℕ (t + 0) m ≡ pos (t - m)
    whole t m l = ground arith

-- Without interruption the two additions leave an idle counter at zero, any number of times.
pub uninterrupted_releases :
    (s : Releases) → s.active_conns ≡ pos 0 → s.pending ≡ [] → restore (decrement s) ≡ idle
unfolding restore decrement
uninterrupted_releases s e f = ground arith
