-- ===== src/L7/Bucket.antt =====
-- internal/l7/ratelimit.go, `TokenBucket`. The numbers are Go's float64, whose operations are a
-- parameter; what is used of them is that the comparisons order them.
use route_x_reverse_proxy.Common.{
  ℕ, ◌-◌, ◌≡◌, refl, Bool, true, false, not, arith, if◌then◌else◌, Bool-cases, inl, inr,
}

-- The operations of float64 that the package uses.
pub record Floats : Type 1 where
  pub Number : Type 0
  pub add : Number → Number → Number
  pub sub : Number → Number → Number
  pub mul : Number → Number → Number
  -- `a <= b`; `a > b` is `lt b a`.
  pub le : Number → Number → Bool
  pub lt : Number → Number → Bool
  pub of_int : ℕ → Number
  -- The constant 0.99, and `Duration.Seconds` of nanoseconds.
  pub near_full : Number
  pub seconds : ℕ → Number

-- Away from NaN the comparisons are a total order.
pub record IsOrdered (F : Floats) : Type 0 where
  pub lt_is_not_le : (a b : F.Number) → F.lt a b ≡ not (F.le b a)
  pub le_refl : (a : F.Number) → F.le a a ≡ true
  pub le_trans : (a b c : F.Number) → F.le a b ≡ true → F.le b c ≡ true → F.le a c ≡ true

pub record TokenBucket (F : Floats) : Type 0 where
  pub rate : F.Number
  pub burst : F.Number
  pub tokens : F.Number
  pub last_refill : ℕ

module _ (F : Floats) where
  unfoldable pub new_token_bucket : F.Number → F.Number → ℕ → TokenBucket F
  new_token_bucket rate burst now =
      let capacity = if F.le burst (F.of_int 0) then rate else burst in
      record { rate = rate; burst = capacity; tokens = capacity; last_refill = now }

  unfoldable pub refill : ℕ → TokenBucket F → TokenBucket F
  refill now tb =
      let tokens = F.add tb.tokens (F.mul (F.seconds (now - tb.last_refill)) tb.rate) in
      record tb { tokens = if F.lt tb.burst tokens then tb.burst else tokens; last_refill = now }

  unfoldable pub allow : F.Number → ℕ → TokenBucket F → TokenBucket F × Bool
  allow n now tb =
      let full = refill now tb in
      if F.le n full.tokens
      then (record full { tokens = F.sub full.tokens n }, true)
      else (full, false)

  unfoldable pub is_full : ℕ → TokenBucket F → TokenBucket F × Bool
  is_full now tb =
      let full = refill now tb in (full, F.le (F.mul full.burst F.near_full) full.tokens)

  refill-burst :
      (now : ℕ) (tb : TokenBucket F) → IsOrdered F → F.le (refill now tb).tokens tb.burst ≡ true
  unfolding refill
  refill-burst now tb o =
      let tokens = F.add tb.tokens (F.mul (F.seconds (now - tb.last_refill)) tb.rate) in
      ground (arith, o.lt_is_not_le tb.burst tokens, o.le_refl tb.burst)

  -- Whatever a bucket holds and however long it has filled, a request for more than its burst is
  -- refused, and takes no tokens: the bucket is left as the refill made it.
  pub allow-oversized :
      (n : F.Number) (now : ℕ) (tb : TokenBucket F)
      → IsOrdered F
      → F.lt tb.burst n ≡ true
      → allow n now tb ≡ (refill now tb, false)
  unfolding allow
  allow-oversized n now tb o large = elim (Bool-cases (F.le n (refill now tb).tokens)) [
    | inl covered ↦
        let fits = o.le_trans n (refill now tb).tokens tb.burst covered (refill-burst now tb o) in
        absurd (ground (arith, fits, large, o.lt_is_not_le tb.burst n))
    | inr short ↦ rw short refl
  ]
