-- ===== src/Config/Ports.antt =====
-- internal/config/proxy.go, `parsePortRange`. The set `seen` holds the ports of the result, so the
-- test for it is a search of the result.
use route_x_reverse_proxy.Common.{
  ℕ, zero, suc, ◌+◌, ◌-◌, Bool, true, false, ◌||◌, List, [], ◌∷◌, ◌++◌, none, some, Result, ok,
  ◌>>=◌, ◌>>◌, fail_if, or_fail, if◌then◌else◌, ◌==◌, nat_eq,
}
use route_x_reverse_proxy.Common.Int.{ℤ, pos, pos_part, leb_ℤ, ltb_ℤ}
use route_x_reverse_proxy.Text.Edit.{Text, is_empty, trim_space, split, cut}
use route_x_reverse_proxy.Text.Number.{atoi}

pub data SpecError : Type 0 where
  empty_spec no_ports_parsed : SpecError
  invalid_low invalid_high invalid_port low_not_below_high : Text → SpecError
  range_out_of_bounds : ℤ → ℤ → SpecError
  port_out_of_bounds : ℤ → SpecError

abbrev pub member : ℕ → List ℕ → Bool
member p [] = false
member p (q ∷ qs) = q == p || member p qs

unfoldable pub add_port : ℕ → List ℕ → List ℕ
add_port p out = if member p out then out else out ++ p ∷ []

-- `for i := lo; i <= hi; i++`, with the rounds left.
unfoldable pub add_range : ℕ → ℕ → List ℕ → List ℕ
add_range zero i out = out
add_range (suc rounds) i out = add_range rounds (i + 1) (add_port i out)

-- `n <= 0 || n > 65535`.
abbrev pub outside : ℤ → Bool
outside n = leb_ℤ n (pos 0) || ltb_ℤ (pos 65535) n

unfoldable pub parse_single : List ℕ → Text → Result SpecError (List ℕ)
parse_single out p = or_fail (atoi p) (invalid_port p) >>= λ n.
    fail_if (outside n) (port_out_of_bounds n) >> ok (add_port (pos_part n) out)

unfoldable pub parse_pair : List ℕ → Text → Text → Text → Result SpecError (List ℕ)
parse_pair out p low high = or_fail (atoi (trim_space low)) (invalid_low low) >>= λ lo.
    or_fail (atoi (trim_space high)) (invalid_high high) >>= λ hi.
    fail_if (outside lo || outside hi) (range_out_of_bounds lo hi)
    >> fail_if (leb_ℤ hi lo) (low_not_below_high p)
    >> ok (add_range (suc (pos_part hi) - pos_part lo) (pos_part lo) out)

-- 58 is `:` and 44 is `,`.
unfoldable pub parse_trimmed : List ℕ → Text → Result SpecError (List ℕ)
parse_trimmed out p =
    if is_empty p
    then ok out
    else elim (cut 58 p) [ none ↦ parse_single out p | some pair ↦ parse_pair out p pair.0 pair.1 ]

unfoldable pub parse_part : List ℕ → Text → Result SpecError (List ℕ)
parse_part out part = parse_trimmed out (trim_space part)

unfoldable pub parse_parts : List ℕ → List Text → Result SpecError (List ℕ)
parse_parts out [] = ok out
parse_parts out (part ∷ parts) = parse_part out part >>= λ more. parse_parts more parts

abbrev pub none_parsed : List ℕ → Bool
none_parsed [] = true
none_parsed (p ∷ ps) = false

unfoldable pub parse_port_range : Text → Result SpecError (List ℕ)
parse_port_range spec =
    let s = trim_space spec in
    fail_if (is_empty s) empty_spec
    >> (parse_parts [] (split 44 s) >>= λ out. fail_if (none_parsed out) no_ports_parsed >> ok out)
