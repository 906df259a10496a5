-- ===== src/Text/Number.antt =====
-- `strconv.Atoi` and `%d`.
use route_x_reverse_proxy.Common.{
  ℕ, zero, suc, ◌+◌, ◌-◌, ◌*◌, ◌/◌, ◌%◌, ◌^◌, Bool, ◌&&◌, [], ◌∷◌, ◌++◌, Option, none, some, ltb,
  leb, if◌then◌else◌, ◌==◌, nat_eq,
}
use route_x_reverse_proxy.Common.Int.{ℤ, pos, negsuc, neg_ℤ}
use route_x_reverse_proxy.Text.Edit.{Text}

unfoldable pub is_digit : ℕ → Bool
is_digit c = leb 48 c && leb c 57

unfoldable pub digits_value : ℕ → Text → Option ℕ
digits_value acc [] = some acc
digits_value acc (c ∷ cs) =
    let rest = digits_value (acc * 10 + (c - 48)) cs in if is_digit c then rest else none

-- The digits after the sign: at least one.
unfoldable pub unsigned : Text → Option ℕ
unsigned [] = none
unsigned (c ∷ cs) = digits_value 0 (c ∷ cs)

abbrev pub positive : Option ℕ → Option ℤ
positive none = none
positive (some n) = if ltb n (2 ^ 63) then some (pos n) else none

abbrev pub negative : Option ℕ → Option ℤ
negative none = none
negative (some n) = if leb n (2 ^ 63) then some (neg_ℤ (pos n)) else none

-- `none` for a text that is no number, and for a number outside int64.
unfoldable pub atoi : Text → Option ℤ
atoi [] = none
atoi (c ∷ cs) =
    if c == 45
    then negative (unsigned cs)
    else if c == 43
    then positive (unsigned cs)
    else positive (unsigned (c ∷ cs))

-- The digits of a number; as many rounds as the number are enough.
unfoldable pub digits : ℕ → ℕ → Text
digits zero n = (48 + n % 10) ∷ []
digits (suc fuel) n =
    let front = digits fuel (n / 10) in
    if ltb n 10 then (48 + n) ∷ [] else front ++ (48 + n % 10) ∷ []

unfoldable pub decimal : ℕ → Text
decimal n = digits n n

-- `%d` of an `int`.
unfoldable pub signed : ℤ → Text
signed (pos n) = decimal n
signed (negsuc n) = 45 ∷ decimal (suc n)
