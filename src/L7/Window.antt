-- ===== src/L7/Window.antt =====
-- internal/l7/ratelimit.go, `SlidingWindow`. Times are in nanoseconds and do not run backwards; the
-- resolution is not 0, where the program would divide by it.
use native.Mathlib.Nat.{zero-div}
use route_x_reverse_proxy.Common.{
  ℕ, zero, suc, ◌+◌, ◌-◌, ◌/◌, ◌%◌, ◌<◌, ◌≤◌, ◌≡◌, refl, ◌∙◌, ap, true, List, [], ◌∷◌, arith, ltb,
  if◌then◌else◌, length, modify, replicate, sum, length-modify, Bool-cases, inl, inr,
}

pub record SlidingWindow : Type 0 where
  pub window : ℕ
  pub buckets : List ℕ
  pub resolution : ℕ
  pub num_buckets : ℕ
  pub head : ℕ
  pub last_tick : ℕ

abbrev buckets_or_ten : ℕ → ℕ
buckets_or_ten zero = 10
buckets_or_ten (suc n) = suc n

unfoldable pub new_sliding_window : ℕ → ℕ → ℕ → SlidingWindow
new_sliding_window window num_buckets now = record {
  window = window;
  buckets = replicate (buckets_or_ten num_buckets) 0;
  resolution = window / buckets_or_ten num_buckets;
  num_buckets = buckets_or_ten num_buckets;
  head = 0;
  last_tick = now;
}

-- The loop of `advance`: each tick moves the head and clears its bucket.
unfoldable pub clear_ticks : ℕ → SlidingWindow → SlidingWindow
clear_ticks zero w = w
clear_ticks (suc ticks) w =
    let head = (w.head + 1) % w.num_buckets in
    clear_ticks ticks (record w { head = head; buckets = modify head (λ b. 0) w.buckets })

unfoldable pub ticks_until : ℕ → SlidingWindow → ℕ
ticks_until now w =
    let ticks = (now - w.last_tick) / w.resolution in
    if ltb w.num_buckets ticks then w.num_buckets else ticks

unfoldable pub advance : ℕ → SlidingWindow → SlidingWindow
advance now w =
    let ticks = ticks_until now w in
    let moved = clear_ticks ticks w in
    if ltb 0 ticks then record moved { last_tick = now } else moved

unfoldable pub add : ℕ → ℕ → SlidingWindow → SlidingWindow
add n now w =
    let moved = advance now w in
    record moved { buckets = modify moved.head (λ b. b + n) moved.buckets }

unfoldable pub count : ℕ → SlidingWindow → SlidingWindow × ℕ
count now w = let moved = advance now w in (moved, sum moved.buckets)

-- The head stands on one of the buckets.
pub record IsValid (w : SlidingWindow) : Type 0 where
  pub sized : length w.buckets ≡ w.num_buckets
  pub placed : w.head < w.num_buckets

sum_zeros : (n : ℕ) → sum (replicate n 0) ≡ 0
sum_zeros zero = refl
sum_zeros (suc n) = omega (arith, sum_zeros n)

length_zeros : (n : ℕ) → length {A = ℕ} (replicate n 0) ≡ n
length_zeros zero = refl
length_zeros (suc n) = ap suc (length_zeros n)

pub new-IsValid : (window n now : ℕ) → IsValid (new_sliding_window window n now)
unfolding new_sliding_window
new-IsValid window zero now = record { sized = refl; placed = omega arith }
new-IsValid window (suc n) now = record { sized = length_zeros (suc n); placed = omega arith }

sum_cleared : (i : ℕ) (xs : List ℕ) → sum (modify i (λ b. 0) xs) ≤ sum xs
sum_cleared i [] = omega arith
sum_cleared zero (x ∷ xs) = omega arith
sum_cleared (suc i) (x ∷ xs) = omega (arith, sum_cleared i xs)

sum_added : (i n : ℕ) (xs : List ℕ) → i < length xs → sum (modify i (λ b. b + n) xs) ≡ sum xs + n
sum_added i n [] l = absurd (omega (arith, l))
sum_added zero n (x ∷ xs) l = omega arith
sum_added (suc i) n (x ∷ xs) l = omega (arith, sum_added i n xs (omega (arith, l)))

mod_below : (a n m : ℕ) → m < n → a % n < n
mod_below a n m l = omega (arith, l)

clear_ticks-IsValid : (n : ℕ) (w : SlidingWindow) → IsValid w → IsValid (clear_ticks n w)
unfolding clear_ticks
clear_ticks-IsValid zero w v = v
clear_ticks-IsValid (suc n) w v =
    let head = (w.head + 1) % w.num_buckets in
    clear_ticks-IsValid n (record w { head = head; buckets = modify head (λ b. 0) w.buckets })
      (record {
        sized = length-modify head (λ b. 0) w.buckets ∙ v.sized;
        placed = mod_below (w.head + 1) w.num_buckets w.head v.placed;
      })

clear_ticks-sum : (n : ℕ) (w : SlidingWindow) → sum (clear_ticks n w).buckets ≤ sum w.buckets
unfolding clear_ticks
clear_ticks-sum zero w = omega arith
clear_ticks-sum (suc n) w =
    let head = (w.head + 1) % w.num_buckets in
    let later =
      clear_ticks-sum n (record w { head = head; buckets = modify head (λ b. 0) w.buckets }) in
    omega (arith, later, sum_cleared head w.buckets)

advance-IsValid : (now : ℕ) (w : SlidingWindow) → IsValid w → IsValid (advance now w)
unfolding advance
advance-IsValid now w v =
    let moved = clear_ticks-IsValid (ticks_until now w) w v in
    elim (Bool-cases (ltb 0 (ticks_until now w))) [
      | inl some_ticks ↦ rw some_ticks (record { sized = moved.sized; placed = moved.placed })
      | inr no_ticks ↦ rw no_ticks moved
    ]

advance-sum : (now : ℕ) (w : SlidingWindow) → sum (advance now w).buckets ≤ sum w.buckets
unfolding advance
advance-sum now w = ground (arith, clear_ticks-sum (ticks_until now w) w)

add-IsValid : (n now : ℕ) (w : SlidingWindow) → IsValid w → IsValid (add n now w)
unfolding add
add-IsValid n now w v =
    let moved = advance-IsValid now w v in
    record {
      sized = length-modify (advance now w).head (λ b. b + n) (advance now w).buckets ∙ moved.sized;
      placed = moved.placed;
    }

advance_still : (now : ℕ) (w : SlidingWindow) → ticks_until now w ≡ 0 → advance now w ≡ w
unfolding advance clear_ticks
advance_still now w h = rw h refl

advance_moved :
    (now : ℕ) (w : SlidingWindow)
    → ltb 0 (ticks_until now w) ≡ true
    → (advance now w).last_tick ≡ now
unfolding advance
advance_moved now w h = rw h refl

ticks_now : (now : ℕ) (w : SlidingWindow) → w.last_tick ≡ now → ticks_until now w ≡ 0
unfolding ticks_until
ticks_now now w h =
    let none_left : now - w.last_tick ≡ 0 = omega (arith, h) in
    let no_ticks : (now - w.last_tick) / w.resolution ≡ 0 =
      ap (λ x. x / w.resolution) none_left ∙ zero-div w.resolution in
    ground (arith, no_ticks)

refilled_ticks :
    (now : ℕ) (w : SlidingWindow) (bs : List ℕ)
    → ticks_until now (record w { buckets = bs }) ≡ ticks_until now w
unfolding ticks_until
refilled_ticks now w bs = refl

-- After an advance there is no tick to make at the same time, whatever the buckets hold.
settled :
    (now : ℕ) (w : SlidingWindow) (bs : List ℕ)
    → ticks_until now (record (advance now w) { buckets = bs }) ≡ 0
settled now w bs = elim (Bool-cases (ltb 0 (ticks_until now w))) [
  | inl some_ticks ↦
      ticks_now now (record (advance now w) { buckets = bs }) (advance_moved now w some_ticks)
  | inr no_ticks ↦
      let none_now : ticks_until now w ≡ 0 = ground (arith, no_ticks) in
      refilled_ticks now (advance now w) bs
      ∙ ap (ticks_until now) (advance_still now w none_now)
      ∙ none_now
]

advance_settled :
    (now : ℕ) (w : SlidingWindow) (bs : List ℕ)
    → advance now (record (advance now w) { buckets = bs })
      ≡ record (advance now w) { buckets = bs }
advance_settled now w bs =
    advance_still now (record (advance now w) { buckets = bs }) (settled now w bs)

-- What is added is counted at once: with the head on a bucket, a count right after an addition of
-- n is the count before it and n.
pub count-add :
    (n now : ℕ) (w : SlidingWindow) → IsValid w → (count now (add n now w)).1 ≡ (count now w).1 + n
unfolding count add
count-add n now w v =
    let moved = advance now w in
    let valid = advance-IsValid now w v in
    rw (advance_settled now w (modify moved.head (λ b. b + n) moved.buckets))
      (sum_added moved.head n moved.buckets (omega (arith, valid.sized, valid.placed)))

-- The window after additions of 1, and counts between them, at the given times.
unfoldable pub hits : SlidingWindow → List ℕ → SlidingWindow
hits w [] = w
hits w (now ∷ nows) = hits (count now (add 1 now w)).0 nows

hit-IsValid : (now : ℕ) (w : SlidingWindow) → IsValid w → IsValid (count now (add 1 now w)).0
unfolding count
hit-IsValid now w v = advance-IsValid now (add 1 now w) (add-IsValid 1 now w v)

new-sum : (window n now : ℕ) → sum (new_sliding_window window n now).buckets ≡ 0
unfolding new_sliding_window
new-sum window zero now = refl
new-sum window (suc n) now = sum_zeros (suc n)

hit-sum :
    (now : ℕ) (w : SlidingWindow)
    → IsValid w
    → sum (count now (add 1 now w)).0.buckets ≤ sum w.buckets + 1
unfolding count add
hit-sum now w v =
    let valid = advance-IsValid now w v in
    let added =
      sum_added (advance now w).head 1 (advance now w).buckets
        (omega (arith, valid.sized, valid.placed)) in
    omega (arith, advance-sum now (add 1 now w), added, advance-sum now w)

hits-sum :
    (w : SlidingWindow) (nows : List ℕ)
    → IsValid w
    → sum (hits w nows).buckets ≤ sum w.buckets + length nows
unfolding hits
hits-sum w [] v = omega arith
hits-sum w (now ∷ nows) v =
    let hit = hit-sum now w v in
    let later = hits-sum (count now (add 1 now w)).0 nows (hit-IsValid now w v) in
    omega (arith, hit, later)

-- A new window never counts more hits than there were, at any times.
pub count-hits :
    (window n start now : ℕ) (nows : List ℕ)
    → (count now (hits (new_sliding_window window n start) nows)).1 ≤ length nows
unfolding count
count-hits window n start now nows =
    let w = new_sliding_window window n start in
    let after = hits w nows in
    let total = hits-sum w nows (new-IsValid window n start) in
    omega (arith, advance-sum now after, total, new-sum window n start)
