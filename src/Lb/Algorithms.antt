-- ===== src/Lb/Algorithms.antt =====
-- internal/lb/balancer.go, the five selection algorithms. A chosen target is its index; `rand n`
-- stands for what the generator's `Intn(n)` returns.
use Prim.Native.Nat.{bit_xor}
use route_x_reverse_proxy.Common.{
  ℕ, zero, suc, ◌+◌, ◌-◌, ◌*◌, ◌%◌, ◌^◌, Bool, true, false, ◌&&◌, List, [], ◌∷◌, Option, none, some,
  Result, ok, err, if◌then◌else◌, ltb, leb, ◌==◌, nat_eq, length, get_elem?,
}
use route_x_reverse_proxy.Common.Int.{ℤ, pos, negsuc, ◌+ℤ◌, sub_ℕ, mod_ℤ, ltb_ℤ, pos_part}
use route_x_reverse_proxy.Net.{Ip, is_nil}
use route_x_reverse_proxy.Lb.Target.{Target}

pub data Algorithm : Type 0 where
  round_robin least_conn ip_hash weighted random : Algorithm

-- `index_out_of_range` is Go's panic on a slice access, `intn_panic`
-- the one of `Intn` on a number that is not positive.
pub data PickError : Type 0 where
  no_healthy_targets index_out_of_range intn_panic : PickError

abbrev pub Picked : Type 0
Picked = Result PickError ℕ

-- `int(c)` of a `uint64`.
abbrev pub to_int64 : ℕ → ℤ
to_int64 c = if ltb c (2 ^ 63) then pos c else sub_ℕ c (2 ^ 64)

abbrev pub probe : List Target → ℤ → Picked → Picked
probe ts (negsuc i) rest = err index_out_of_range
probe ts (pos idx) rest = elim (get_elem? ts idx) [
  | none ↦ err index_out_of_range
  | some t ↦ if t.healthy then ok idx else rest
]

-- `for i := 0; i < n; i++ { idx := (start + i) % n; ... }`, with the rounds left and `i`.
unfoldable pub scan : List Target → ℤ → ℕ → ℕ → Picked
scan ts start zero i = err no_healthy_targets
scan ts start (suc k) i =
    let rest = scan ts start k (suc i) in probe ts (mod_ℤ (start +ℤ pos i) (length ts)) rest

-- The new cursor, and the index.
unfoldable pub pick_round_robin : List Target → ℕ → ℕ × Picked
pick_round_robin ts cursor =
    let next = (cursor + 1) % 2 ^ 64 in
    let start = mod_ℤ (to_int64 ((next + 2 ^ 64 - 1) % 2 ^ 64)) (length ts) in
    (next, scan ts start (length ts) 0)

abbrev pub beats : ℤ → Option (ℕ × ℤ) → Bool
beats c none = true
beats c (some (_, best)) = ltb_ℤ c best

-- The loop of `pickLeastConn`: the best index and its connections so far.
unfoldable pub least_from : ℕ → List Target → Option (ℕ × ℤ) → Option (ℕ × ℤ)
least_from i [] best = best
least_from i (t ∷ ts) best =
    least_from (suc i) ts
      (if t.healthy && beats t.active_conns best then some (i, t.active_conns) else best)

unfoldable pub pick_least_conn : List Target → Picked
pick_least_conn ts = elim (least_from 0 ts none) [
  | none ↦ err no_healthy_targets
  | some (idx, _) ↦ ok idx
]

-- FNV-1a over 32 bits.
unfoldable pub fnv32a : ℕ → List ℕ → ℕ
fnv32a h [] = h
fnv32a h (b ∷ bs) = fnv32a ((bit_xor h b * 16777619) % 2 ^ 32) bs

-- On 64-bit platforms the hash is never negative as an `int`.
unfoldable pub pick_ip_hash : List Target → ℕ → Ip → ℕ × Picked
unfolding pick_round_robin
pick_ip_hash ts cursor src =
    let seed = fnv32a 2166136261 src % length ts in
    if is_nil src then pick_round_robin ts cursor else (cursor, scan ts (pos seed) (length ts) 0)

abbrev pub eligible : Target → Bool
eligible t = t.healthy && ltb_ℤ (pos 0) t.weight

-- The indices that pass a test, in order.
unfoldable pub indices_from : (Target → Bool) → ℕ → List Target → List ℕ
indices_from p i [] = []
indices_from p i (t ∷ ts) = let rest = indices_from p (suc i) ts in if p t then i ∷ rest else rest

abbrev pub weight_at : List Target → ℕ → ℕ
weight_at ts idx = elim (get_elem? ts idx) [ none ↦ 0 | some t ↦ pos_part t.weight ]

-- `totalWeight += t.Weight`, an `int` as its two's complement.
unfoldable pub total_weight : List Target → List ℕ → ℕ
total_weight ts [] = 0
total_weight ts (idx ∷ idxs) = (weight_at ts idx + total_weight ts idxs) % 2 ^ 64

abbrev pub index_at : List ℕ → ℕ → Picked
index_at idxs i = elim (get_elem? idxs i) [ none ↦ err index_out_of_range | some idx ↦ ok idx ]

-- `r -= weight; if r < 0 { return }`: with `r` never negative before the subtraction. `safe` is
-- what stands behind the loop.
unfoldable pub draw : List Target → Picked → List ℕ → ℕ → Picked
draw ts safe [] r = safe
draw ts safe (idx ∷ idxs) r =
    let rest = draw ts safe idxs (r - weight_at ts idx) in
    if ltb r (weight_at ts idx) then ok idx else rest

abbrev pub is_empty : List ℕ → Bool
is_empty [] = true
is_empty (x ∷ xs) = false

unfoldable pub pick_weighted : (ℕ → ℕ) → List Target → Picked
pick_weighted rand ts =
    let idxs = indices_from eligible 0 ts in
    let total = total_weight ts idxs in
    if is_empty idxs
    then err no_healthy_targets
    else if total == 0
    then index_at idxs (rand (length idxs))
    else if leb (2 ^ 63) total
    then err intn_panic
    else draw ts (index_at idxs 0) idxs (rand total)

unfoldable pub pick_random : (ℕ → ℕ) → List Target → Picked
pick_random rand ts =
    let idxs = indices_from (λ t. t.healthy) 0 ts in
    if is_empty idxs then err no_healthy_targets else index_at idxs (rand (length idxs))

unfoldable pub pick_alg : (ℕ → ℕ) → Algorithm → List Target → ℕ → Ip → ℕ × Picked
pick_alg rand round_robin ts cursor src = pick_round_robin ts cursor
pick_alg rand least_conn ts cursor src = (cursor, pick_least_conn ts)
pick_alg rand ip_hash ts cursor src = pick_ip_hash ts cursor src
pick_alg rand weighted ts cursor src = (cursor, pick_weighted rand ts)
pick_alg rand random ts cursor src = (cursor, pick_random rand ts)
