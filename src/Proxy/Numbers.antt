-- ===== src/Proxy/Numbers.antt =====
-- internal/proxy/helpers.go, `itoa` and `parsePort`: numbers as texts, of code points. The twelve bytes
-- of itoa's buffer are counted; an index below 0 is a panic, `none`.
use route_x_reverse_proxy.Common.{
  ℕ, zero, suc, ◌+◌, ◌-◌, ◌*◌, ◌/◌, ◌%◌, ◌<◌, ◌≡◌, refl, ap, sym, ◌∙◌, true, ◌&&◌, [], ◌∷◌, Option,
  none, some, arith, if◌then◌else◌, ◌==◌, nat_eq, leb, Bool-cases, inl, inr,
}
use route_x_reverse_proxy.Common.Int.{ℤ, pos, negsuc}
use route_x_reverse_proxy.Text.Edit.{Text}

-- `for i > 0`, with the bytes that are free and those that are written.
unfoldable pub write_digits : ℕ → ℕ → Text → Option (ℕ × Text)
write_digits zero i out = if i == 0 then some (0, out) else none
write_digits (suc free) i out =
    let rest = write_digits free (i / 10) ((48 + i % 10) ∷ out) in
    if i == 0 then some (suc free, out) else rest

-- The sign.
abbrev pub write_sign : Option (ℕ × Text) → Option Text
write_sign none = none
write_sign (some (zero, out)) = none
write_sign (some (suc free, out)) = some (45 ∷ out)

abbrev pub written : Option (ℕ × Text) → Option Text
written none = none
written (some r) = some r.1

unfoldable pub itoa : ℤ → Option Text
itoa (pos i) = if i == 0 then some (48 ∷ []) else written (write_digits 12 i [])
itoa (negsuc i) = write_sign (write_digits 12 (suc i) [])

unfoldable pub parse_from : ℕ → Text → ℕ
parse_from n [] = n
parse_from n (c ∷ cs) =
    let rest = parse_from (n * 10 + (c - 48)) cs in if leb 48 c && leb c 57 then rest else 0

unfoldable pub parse_port : Text → ℕ
parse_port s = parse_from 0 s

-- The numbers that fit into some bytes.
abbrev pub room : ℕ → ℕ
room zero = 1
room (suc free) = 10 * room free

parse_from-digit :
    (i : ℕ) (out : Text) → parse_from (i / 10) ((48 + i % 10) ∷ out) ≡ parse_from i out
unfolding parse_from
parse_from-digit i out =
    let small : leb 48 (48 + i % 10) && leb (48 + i % 10) 57 ≡ true = ground arith in
    let value : i / 10 * 10 + (48 + i % 10 - 48) ≡ i = omega arith in
    rw small (ap (λ n. parse_from n out) value)

write_digits-parse_from :
    (free i : ℕ) (out : Text)
    → i < room free
    → (r : ℕ × Text) × (write_digits free i out ≡ some r) × (parse_from 0 r.1 ≡ parse_from i out)
unfolding write_digits
write_digits-parse_from zero i out h =
    let none_left : i ≡ 0 = omega (arith, h) in
    let done : (i == 0) ≡ true = ground (arith, none_left) in
    ((0, out), rw done refl, ap (λ n. parse_from n out) (sym none_left))
write_digits-parse_from (suc free) i out h = elim (Bool-cases (i == 0)) [
  | inl done ↦
      let none_left : i ≡ 0 = (nat_eq.reflects i 0).0 done in
      ((suc free, out), rw done refl, ap (λ n. parse_from n out) (sym none_left))
  | inr more ↦
      let fits : i / 10 < room free = omega (arith, h) in
      let (r, run, same) = write_digits-parse_from free (i / 10) ((48 + i % 10) ∷ out) fits in
      (r, rw more run, same ∙ parse_from-digit i out)
]

-- A number below a million million, and so a port, fits into the buffer: itoa gives a text, and
-- parsePort reads the number back.
pub parse_port-itoa :
    (n : ℕ) → n < 1000000000000 → (s : Text) × (itoa (pos n) ≡ some s) × (parse_port s ≡ n)
unfolding itoa parse_port
parse_port-itoa n h = elim (Bool-cases (n == 0)) [
  | inl done ↦
      let none_left : n ≡ 0 = (nat_eq.reflects n 0).0 done in
      (48 ∷ [], rw done refl, unfold parse_from in sym none_left)
  | inr more ↦
      let (r, run, same) = write_digits-parse_from 12 n [] h in
      (r.1, rw more (ap written run), same ∙ (unfold parse_from in refl))
]
