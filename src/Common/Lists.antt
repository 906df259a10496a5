-- ===== src/Common/Lists.antt =====
-- Lists measured and indexed by native numbers, under the library's names.
use Prim.Native.Nat.{ℕ, zero, suc, ◌+◌, ◌≤◌, ◌<◌}
use mathlib.Core.Path.{◌≡◌, refl, ap}
use mathlib.Core.Logic.{◌≢◌, ◌⊎◌, inl, inr}
use mathlib.Core.Bool.{Bool}
use mathlib.Core.List.{List, [], ◌∷◌, ◌++◌}
use mathlib.Core.Option.{Option, none, some}
use native.Mathlib.Omega.{arith}
use route_x_reverse_proxy.Common.Tests.{if◌then◌else◌}

module _ {ℓ} {A : Type ℓ} where
  abbrev pub length : List A → ℕ
  length [] = 0
  length (x ∷ xs) = suc (length xs)

  abbrev pub get_elem? : List A → ℕ → Option A
  get_elem? [] i = none
  get_elem? (x ∷ xs) zero = some x
  get_elem? (x ∷ xs) (suc i) = get_elem? xs i

  -- Apply `f` to the element at an index; out of bounds nothing changes.
  abbrev pub modify : ℕ → (A → A) → List A → List A
  modify i f [] = []
  modify zero f (x ∷ xs) = f x ∷ xs
  modify (suc i) f (x ∷ xs) = x ∷ modify i f xs

  abbrev pub take : ℕ → List A → List A
  take zero xs = []
  take (suc n) [] = []
  take (suc n) (x ∷ xs) = x ∷ take n xs

  abbrev pub drop : ℕ → List A → List A
  drop zero xs = xs
  drop (suc n) [] = []
  drop (suc n) (x ∷ xs) = drop n xs

  abbrev pub replicate : ℕ → A → List A
  replicate zero a = []
  replicate (suc n) a = a ∷ replicate n a

  -- The elements that pass a Boolean test.
  abbrev pub retain : (A → Bool) → List A → List A
  retain p [] = []
  retain p (x ∷ xs) = let rest = retain p xs in if p x then x ∷ rest else rest

  abbrev pub All {κ} : (A → Type κ) → List A → Type κ
  All P [] = Unit
  All P (x ∷ xs) = P x × All P xs

abbrev pub sum : List ℕ → ℕ
sum [] = 0
sum (x ∷ xs) = x + sum xs

module _ {ℓ} {A : Type ℓ} where
  pub length-append : (xs ys : List A) → length (xs ++ ys) ≡ length xs + length ys
  length-append [] ys = omega arith
  length-append (x ∷ xs) ys = omega (arith, length-append xs ys)

  pub length-modify : (i : ℕ) (f : A → A) (xs : List A) → length (modify i f xs) ≡ length xs
  length-modify i f [] = refl
  length-modify zero f (x ∷ xs) = refl
  length-modify (suc i) f (x ∷ xs) = ap suc (length-modify i f xs)

  pub get_elem?-modify_self :
      (i : ℕ) (f : A → A) (xs : List A) (a : A)
      → get_elem? xs i ≡ some a
      → get_elem? (modify i f xs) i ≡ some (f a)
  get_elem?-modify_self i f [] a h = ground arith
  get_elem?-modify_self zero f (x ∷ xs) a h = ground arith
  get_elem?-modify_self (suc i) f (x ∷ xs) a h = get_elem?-modify_self i f xs a h

  pub get_elem?-modify_ne :
      (i j : ℕ) (f : A → A) (xs : List A) → i ≢ j → get_elem? (modify i f xs) j ≡ get_elem? xs j
  get_elem?-modify_ne i j f [] h = refl
  get_elem?-modify_ne zero zero f (x ∷ xs) h = absurd (h refl)
  get_elem?-modify_ne zero (suc j) f (x ∷ xs) h = refl
  get_elem?-modify_ne (suc i) zero f (x ∷ xs) h = refl
  get_elem?-modify_ne (suc i) (suc j) f (x ∷ xs) h =
      get_elem?-modify_ne i j f xs (λ e. h (ap suc e))

  pub get_elem?-some : (xs : List A) (i : ℕ) → i < length xs → (a : A) × (get_elem? xs i ≡ some a)
  get_elem?-some [] i h = elim h [ ]
  get_elem?-some (x ∷ xs) zero h = (x, refl)
  get_elem?-some (x ∷ xs) (suc i) h = get_elem?-some xs i (omega arith)

  pub get_elem?-lt : (xs : List A) (i : ℕ) (a : A) → get_elem? xs i ≡ some a → i < length xs
  get_elem?-lt [] i a h = ground arith
  get_elem?-lt (x ∷ xs) zero a h = omega arith
  get_elem?-lt (x ∷ xs) (suc i) a h = omega (arith, get_elem?-lt xs i a h)

  pub length-retain-le : (p : A → Bool) (xs : List A) → length (retain p xs) ≤ length xs
  length-retain-le p [] = omega arith
  length-retain-le p (x ∷ xs) = ground (arith, length-retain-le p xs)

  pub All-get_elem? {κ} :
      (P : A → Type κ) (xs : List A) (i : ℕ) (a : A) → All P xs → get_elem? xs i ≡ some a → P a
  All-get_elem? P [] i a h e = absurd (ground arith)
  All-get_elem? P (x ∷ xs) zero a h e = ground arith
  All-get_elem? P (x ∷ xs) (suc i) a h e = All-get_elem? P xs i a h.1 e

  -- What stands at an index of a modified list.
  pub modify-cases :
      (f : A → A) (xs : List A) (idx i : ℕ) (y : A)
      → get_elem? (modify idx f xs) i ≡ some y
      → ((idx ≡ i) × (x : A) × (get_elem? xs i ≡ some x) × (y ≡ f x))
        ⊎ ((idx ≢ i) × (get_elem? xs i ≡ some y))
  modify-cases f [] idx i y e = absurd (ground arith)
  modify-cases f (x ∷ xs) zero zero y e = inl (refl, x, refl, ground arith)
  modify-cases f (x ∷ xs) zero (suc i) y e = inr (omega arith, e)
  modify-cases f (x ∷ xs) (suc idx) zero y e = inr (omega arith, e)
  modify-cases f (x ∷ xs) (suc idx) (suc i) y e = elim (modify-cases f xs idx i y e) [
    | inl (same, x', q, r) ↦ inl (ap suc same, x', q, r)
    | inr (other, q) ↦ inr (omega arith, q)
  ]
