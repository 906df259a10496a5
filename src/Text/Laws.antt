-- ===== src/Text/Laws.antt =====
-- Printed numbers are read back, and texts without a separator or a space stay whole.
use route_x_reverse_proxy.Common.{
  ℕ, zero, suc, ◌+◌, ◌-◌, ◌*◌, ◌/◌, ◌%◌, ◌^◌, ◌<◌, ◌≤◌, ◌≡◌, refl, ◌∙◌, ap, true, false, ◌&&◌, List,
  [], ◌∷◌, ◌++◌, none, some, ltb, leb, ◌==◌, nat_eq, All, arith, Bool-cases, ◌⊎◌, inl, inr,
  same_refl,
}
use route_x_reverse_proxy.Common.Int.{pos}
use route_x_reverse_proxy.Text.Edit.{
  Text, is_empty, is_space, trim_left, trim_right, trim_space, push, split, cut, prepend, join,
}
use route_x_reverse_proxy.Text.Number.{is_digit, digits_value, unsigned, atoi, digits, decimal}

-- A text of digits only.
abbrev pub AllDigits : Text → Type 0
AllDigits = All (λ c. (48 ≤ c) × (c ≤ 57))

pub All-append {ℓ κ} :
    {A : Type ℓ} (P : A → Type κ) (xs ys : List A) → All P xs → All P ys → All P (xs ++ ys)
All-append P [] ys h k = k
All-append P (x ∷ xs) ys h k = (h.0, All-append P xs ys h.1 k)

digits-AllDigits : (fuel n : ℕ) → AllDigits (digits fuel n)
unfolding digits
digits-AllDigits zero n = ((omega arith, omega arith), tt)
digits-AllDigits (suc fuel) n = elim (Bool-cases (ltb n 10)) [
  | inl small ↦ rw small ((omega arith, ground (arith, small)), tt)
  | inr large ↦ rw large (
      All-append (λ c. (48 ≤ c) × (c ≤ 57)) (digits fuel (n / 10)) ((48 + n % 10) ∷ [])
        (digits-AllDigits fuel (n / 10)) ((omega arith, omega arith), tt))
]

pub decimal-AllDigits : (n : ℕ) → AllDigits (decimal n)
unfolding decimal
decimal-AllDigits n = digits-AllDigits n n

digits_value-append :
    (acc d v : ℕ) (s : Text)
    → d < 10
    → digits_value acc s ≡ some v
    → digits_value acc (s ++ (48 + d) ∷ []) ≡ some (v * 10 + d)
unfolding digits_value is_digit
digits_value-append acc d v [] l h = ground (arith, l, h)
digits_value-append acc d v (c ∷ s) l h = elim (Bool-cases (leb 48 c && leb c 57)) [
  | inl digit ↦
      let rest : digits_value (acc * 10 + (c - 48)) s ≡ some v = ground (arith, h, digit) in
      rw digit (digits_value-append (acc * 10 + (c - 48)) d v s l rest)
  | inr other ↦ absurd (ground (arith, h, other))
]

one_digit : (d : ℕ) → d < 10 → digits_value 0 ((48 + d) ∷ []) ≡ some d
one_digit d l = digits_value-append 0 d 0 [] l (unfold digits_value in refl) ∙ ap some (omega arith)

digits_value-digits : (fuel n : ℕ) → n ≤ fuel → digits_value 0 (digits fuel n) ≡ some n
unfolding digits
digits_value-digits zero n l = one_digit (n % 10) (omega arith) ∙ ap some (omega (arith, l))
digits_value-digits (suc fuel) n l = elim (Bool-cases (ltb n 10)) [
  | inl small ↦ rw small (one_digit n (ground (arith, small)))
  | inr large ↦
      let front = digits_value-digits fuel (n / 10) (ground (arith, large, l)) in
      let whole =
        digits_value-append 0 (n % 10) (n / 10) (digits fuel (n / 10)) (omega arith) front in
      rw large (whole ∙ ap some (omega arith))
]

atoi-digits :
    (s : Text) (n : ℕ)
    → AllDigits s
    → is_empty s ≡ false
    → digits_value 0 s ≡ some n
    → n < 2 ^ 63
    → atoi s ≡ some (pos n)
unfolding atoi unsigned
atoi-digits [] n h e v l = absurd (ground (arith, e))
atoi-digits (c ∷ cs) n h e v l =
    let minus : (c == 45) ≡ false = ground (arith, h.0.0) in
    let plus : (c == 43) ≡ false = ground (arith, h.0.0) in
    let small : ltb n (2 ^ 63) ≡ true = ground (arith, l) in
    rw minus (rw plus (rw v (rw small refl)))

append_nonempty : (s : Text) (c : ℕ) → is_empty (s ++ c ∷ []) ≡ false
append_nonempty [] c = refl
append_nonempty (d ∷ s) c = refl

digits-nonempty : (fuel n : ℕ) → is_empty (digits fuel n) ≡ false
unfolding digits
digits-nonempty zero n = refl
digits-nonempty (suc fuel) n = elim (Bool-cases (ltb n 10)) [
  | inl small ↦ rw small refl
  | inr large ↦ rw large (append_nonempty (digits fuel (n / 10)) (48 + n % 10))
]

-- Reading a printed number gives it back, below 2 ^ 63.
pub atoi-decimal : (n : ℕ) → n < 2 ^ 63 → atoi (decimal n) ≡ some (pos n)
unfolding decimal
atoi-decimal n l =
    atoi-digits (digits n n) n (digits-AllDigits n n) (digits-nonempty n n)
      (digits_value-digits n n (omega arith)) l

pub decimal-nonempty : (n : ℕ) → is_empty (decimal n) ≡ false
unfolding decimal
decimal-nonempty n = digits-nonempty n n

-- A text without a given character, and one without spaces.
abbrev pub Lacks : ℕ → Text → Type 0
Lacks sep = All (λ c. (c == sep) ≡ false)

abbrev pub IsPlain : Text → Type 0
IsPlain = All (λ c. is_space c ≡ false)

digit_space : (c : ℕ) → 48 ≤ c → c ≤ 57 → is_space c ≡ false
unfolding is_space
digit_space c l h = ground (arith, l, h)

pub AllDigits-IsPlain : (s : Text) → AllDigits s → IsPlain s
AllDigits-IsPlain [] h = tt
AllDigits-IsPlain (c ∷ s) h = (digit_space c h.0.0 h.0.1, AllDigits-IsPlain s h.1)

pub AllDigits-Lacks : (sep : ℕ) (s : Text) → (sep < 48) ⊎ (57 < sep) → AllDigits s → Lacks sep s
AllDigits-Lacks sep [] o h = tt
AllDigits-Lacks sep (c ∷ s) o h = (ground (arith, o, h.0.0, h.0.1), AllDigits-Lacks sep s o h.1)

trim_left-IsPlain : (s : Text) → IsPlain s → trim_left s ≡ s
unfolding trim_left
trim_left-IsPlain [] h = refl
trim_left-IsPlain (c ∷ s) h = rw (h.0) refl

trim_right-IsPlain : (s : Text) → IsPlain s → trim_right s ≡ s
unfolding trim_right
trim_right-IsPlain [] h = refl
trim_right-IsPlain (c ∷ s) h =
    let stays : (is_empty (trim_right s) && is_space c) ≡ false = ground (arith, h.0) in
    rw stays (ap (◌∷◌ c) (trim_right-IsPlain s h.1))

pub trim_space-IsPlain : (s : Text) → IsPlain s → trim_space s ≡ s
unfolding trim_space
trim_space-IsPlain s h = ap trim_right (trim_left-IsPlain s h) ∙ trim_right-IsPlain s h

pub split-Lacks : (sep : ℕ) (s : Text) → Lacks sep s → split sep s ≡ s ∷ []
unfolding split
split-Lacks sep [] h = refl
split-Lacks sep (c ∷ s) h = rw (h.0) (ap (push c) (split-Lacks sep s h.1))

pub split-append : (sep : ℕ) (s t : Text) → Lacks sep s → split sep (s ++ sep ∷ t) ≡ s ∷ split sep t
unfolding split
split-append sep [] t h = let here = same_refl sep in rw here refl
split-append sep (c ∷ s) t h = rw (h.0) (ap (push c) (split-append sep s t h.1))

pub cut-Lacks : (sep : ℕ) (s : Text) → Lacks sep s → cut sep s ≡ none
unfolding cut
cut-Lacks sep [] h = refl
cut-Lacks sep (c ∷ s) h = rw (h.0) (ap (prepend c) (cut-Lacks sep s h.1))

pub cut-append : (sep : ℕ) (s t : Text) → Lacks sep s → cut sep (s ++ sep ∷ t) ≡ some (s, t)
unfolding cut
cut-append sep [] t h = let here = same_refl sep in rw here refl
cut-append sep (c ∷ s) t h = rw (h.0) (ap (prepend c) (cut-append sep s t h.1))

-- Splitting a join of parts gives the parts back, where there is one and none has the separator.
pub split-join :
    (sep : ℕ) (part : Text) (parts : List Text)
    → All (Lacks sep) (part ∷ parts)
    → split sep (join sep (part ∷ parts)) ≡ part ∷ parts
unfolding join
split-join sep part [] h = split-Lacks sep part h.0
split-join sep part (next ∷ parts) h =
    split-append sep part (join sep (next ∷ parts)) h.0
    ∙ ap (◌∷◌ part) (split-join sep next parts h.1)
