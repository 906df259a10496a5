-- ===== src/Iptables/RoundTrip.antt =====
-- internal/iptables/rules.go, `portList`, against internal/config/proxy.go, `parsePortRange`.
use route_x_reverse_proxy.Common.{
  ℕ, suc, ◌+◌, ◌-◌, ◌<◌, ◌≤◌, ◌≡◌, refl, ◌∙◌, ap, true, false, ◌||◌, List, [], ◌∷◌, ◌++◌, ok, ◌==◌,
  nat_eq, length, All, arith, Bool-cases, inl, inr,
}
use route_x_reverse_proxy.Common.Int.{pos, leb_ℤ}
use route_x_reverse_proxy.Text.Edit.{Text, is_space, join}
use route_x_reverse_proxy.Text.Number.{decimal}
use route_x_reverse_proxy.Text.Laws.{
  decimal-nonempty, Lacks, IsPlain, All-append, trim_space-IsPlain, split-Lacks, cut-append,
}
use route_x_reverse_proxy.Config.Ports.{
  add_port, add_range, outside, parse_pair, parse_trimmed, parse_part, parse_parts,
  parse_port_range,
}
use route_x_reverse_proxy.Config.PortBounds.{IsPort, IsPortList}
use route_x_reverse_proxy.Iptables.PortList.{contiguous, last_of, listed, port_list}
use route_x_reverse_proxy.Iptables.Listed.{
  decimal-IsPlain, decimal-Lacks_comma, decimal-Lacks_colon, port_read, port_inside, range_added,
  last_port, parsed_text, nonempty_append, listed_parsed,
}

abbrev pair_text : ℕ → ℕ → Text
pair_text lo hi = decimal lo ++ 58 ∷ decimal hi

pair_text-IsPlain : (lo hi : ℕ) → IsPlain (pair_text lo hi)
pair_text-IsPlain lo hi =
    All-append (λ c. is_space c ≡ false) (decimal lo) (58 ∷ decimal hi) (decimal-IsPlain lo)
      ((unfold is_space in refl), decimal-IsPlain hi)

pair_text-Lacks_comma : (lo hi : ℕ) → Lacks 44 (pair_text lo hi)
pair_text-Lacks_comma lo hi =
    All-append (λ c. (c == 44) ≡ false) (decimal lo) (58 ∷ decimal hi) (decimal-Lacks_comma lo)
      (refl, decimal-Lacks_comma hi)

pair_parsed :
    (p : Text) (lo hi : ℕ)
    → IsPort lo
    → IsPort hi
    → lo < hi
    → parse_pair [] p (decimal lo) (decimal hi) ≡ ok (add_range (suc hi - lo) lo [])
unfolding parse_pair
pair_parsed p lo hi l h below =
    let inside : (outside (pos lo) || outside (pos hi)) ≡ false =
      ground (arith, port_inside lo l, port_inside hi h) in
    let order : leb_ℤ (pos hi) (pos lo) ≡ false = ground (arith, below) in
    rw (trim_space-IsPlain (decimal lo) (decimal-IsPlain lo)) (
      rw (trim_space-IsPlain (decimal hi) (decimal-IsPlain hi))
        (rw (port_read lo l) (rw (port_read hi h) (rw inside (rw order refl)))))

pair_part :
    (lo hi : ℕ)
    → IsPort lo
    → IsPort hi
    → lo < hi
    → parse_part [] (pair_text lo hi) ≡ ok (add_range (suc hi - lo) lo [])
unfolding parse_part parse_trimmed
pair_part lo hi l h below =
    ap (parse_trimmed []) (trim_space-IsPlain (pair_text lo hi) (pair_text-IsPlain lo hi))
    ∙ (rw (nonempty_append (decimal lo) (58 ∷ decimal hi) (decimal-nonempty lo)) (
        rw (cut-append 58 (decimal lo) (decimal hi) (decimal-Lacks_colon lo))
          (pair_parsed (pair_text lo hi) lo hi l h below)))

All-last_of : (p : ℕ) (ps : List ℕ) → All IsPort (p ∷ ps) → IsPort (last_of p ps)
All-last_of p [] h = h.0
All-last_of p (q ∷ ps) h = All-last_of q ps h.1

range_text :
    (p q : ℕ) (ps : List ℕ)
    → IsPortList (p ∷ q ∷ ps)
    → contiguous p (q ∷ ps) ≡ true
    → parse_port_range (pair_text p (last_of q ps)) ≡ ok (p ∷ q ∷ ps)
range_text p q ps v run =
    let hi = last_of q ps in
    let size : hi ≡ p + length (q ∷ ps) = last_port p (q ∷ ps) run in
    let top = All-last_of p (q ∷ ps) v.bounded in
    let rounds : suc hi - p ≡ length (p ∷ q ∷ ps) = omega (arith, size) in
    let filled : add_range (length (p ∷ q ∷ ps)) p [] ≡ p ∷ q ∷ ps =
      unfold add_range add_port in range_added p (q ∷ ps) (p ∷ []) run v.different in
    let one : parse_parts [] (pair_text p hi ∷ []) ≡ ok (p ∷ q ∷ ps) =
      unfold parse_parts in
      (rw (pair_part p hi v.bounded.0 top (omega (arith, size))) (rw rounds (ap ok filled))) in
    parsed_text (pair_text p hi) (pair_text p hi ∷ []) (p ∷ q ∷ ps) (pair_text-IsPlain p hi)
      (nonempty_append (decimal p) (58 ∷ decimal hi) (decimal-nonempty p))
      (split-Lacks 44 (pair_text p hi) (pair_text-Lacks_comma p hi)) one refl

alone : (p : ℕ) → decimal p ≡ listed (p ∷ [])
unfolding listed join
alone p = refl

-- A specification can be written from its ports: the text that the firewall rules use for a list of
-- ports, each from 1 to 65535 and each once, is read back as that list, in its order.
pub parse_port_range-port_list :
    (ports : List ℕ)
    → IsPortList ports
    → 1 ≤ length ports
    → parse_port_range (port_list ports) ≡ ok ports
unfolding port_list
parse_port_range-port_list [] v l = absurd (omega (arith, l))
parse_port_range-port_list (p ∷ []) v l = ap parse_port_range (alone p) ∙ listed_parsed p [] v
parse_port_range-port_list (p ∷ q ∷ ps) v l = elim (Bool-cases (contiguous p (q ∷ ps))) [
  | inl run ↦ rw run (range_text p q ps v run)
  | inr gaps ↦ rw gaps (listed_parsed p (q ∷ ps) v)
]
