-- ===== src/Config/PortBounds.antt =====
-- internal/config/proxy.go, `parsePortRange`: what holds of the ports that it gives.
use route_x_reverse_proxy.Common.{
  ℕ, zero, suc, ◌+◌, ◌-◌, ◌≤◌, ◌≡◌, ◌≢◌, sym, subst, false, ◌||◌, List, [], ◌∷◌, ◌++◌, ok,
  Result-cases, nat_eq, length, All, arith, Bool-cases, Option-cases, inl, inr,
}
use route_x_reverse_proxy.Common.Int.{ℤ, pos, negsuc, pos_part, leb_ℤ}
use route_x_reverse_proxy.Text.Edit.{Text, is_empty, trim_space, split, cut}
use route_x_reverse_proxy.Text.Number.{atoi}
use route_x_reverse_proxy.Proxy.Portmap.{Absent, AllDifferent}
use route_x_reverse_proxy.Config.Ports.{
  member, add_port, add_range, outside, parse_single, parse_pair, parse_trimmed, parse_part,
  parse_parts, none_parsed, parse_port_range,
}

abbrev pub IsPort : ℕ → Type 0
IsPort p = (1 ≤ p) × (p ≤ 65535)

-- Ports in the range, each once.
pub record IsPortList (ports : List ℕ) : Type 0 where
  pub bounded : All IsPort ports
  pub different : AllDifferent ports

pub member-Absent : (p : ℕ) (ps : List ℕ) → member p ps ≡ false → Absent p ps
member-Absent p [] h = tt
member-Absent p (q ∷ qs) h = (ground (arith, h), member-Absent p qs (ground (arith, h)))

All-append_one : (ps : List ℕ) (p : ℕ) → All IsPort ps → IsPort p → All IsPort (ps ++ p ∷ [])
All-append_one [] p h k = (k, tt)
All-append_one (q ∷ ps) p h k = (h.0, All-append_one ps p h.1 k)

Absent-append : (q : ℕ) (ps : List ℕ) (p : ℕ) → Absent q ps → q ≢ p → Absent q (ps ++ p ∷ [])
Absent-append q [] p h n = (n, tt)
Absent-append q (r ∷ ps) p h n = (h.0, Absent-append q ps p h.1 n)

AllDifferent-append :
    (ps : List ℕ) (p : ℕ) → AllDifferent ps → Absent p ps → AllDifferent (ps ++ p ∷ [])
AllDifferent-append [] p h a = (tt, tt)
AllDifferent-append (q ∷ ps) p h a =
    (Absent-append q ps p h.0 (λ e. a.0 (sym e)), AllDifferent-append ps p h.1 a.1)

add_port-IsPortList :
    (p : ℕ) (out : List ℕ) → IsPort p → IsPortList out → IsPortList (add_port p out)
unfolding add_port
add_port-IsPortList p out h v = elim (Bool-cases (member p out)) [
  | inl seen ↦ rw seen v
  | inr new ↦ rw new (record {
    bounded = All-append_one out p v.bounded h;
    different = AllDifferent-append out p v.different (member-Absent p out new);
  })
]

add_range-IsPortList :
    (rounds i : ℕ) (out : List ℕ)
    → 1 ≤ i
    → i + rounds ≤ 65536
    → IsPortList out
    → IsPortList (add_range rounds i out)
unfolding add_range
add_range-IsPortList zero i out l h v = v
add_range-IsPortList (suc rounds) i out l h v =
    add_range-IsPortList rounds (i + 1) (add_port i out) (omega arith) (omega (arith, h))
      (add_port-IsPortList i out (l, omega (arith, h)) v)

inside-IsPort : (n : ℤ) → outside n ≡ false → IsPort (pos_part n)
inside-IsPort (pos n) h = (ground (arith, h), ground (arith, h))
inside-IsPort (negsuc n) h = absurd (ground (arith, h))

parse_single-IsPortList :
    (out : List ℕ) (p : Text) (ports : List ℕ)
    → IsPortList out
    → parse_single out p ≡ ok ports
    → IsPortList ports
unfolding parse_single
parse_single-IsPortList out p ports v run = elim (Option-cases (atoi p)) [
  | inl bad ↦ absurd (ground (arith, run, bad))
  | inr (n, good) ↦ elim (Bool-cases (outside n)) [
    | inl out_of ↦ absurd (ground (arith, run, good, out_of))
    | inr inside ↦
        let result : add_port (pos_part n) out ≡ ports = ground (arith, run, good, inside) in
        subst IsPortList result (add_port-IsPortList (pos_part n) out (inside-IsPort n inside) v)
  ]
]

parse_pair-IsPortList :
    (out : List ℕ) (p low high : Text) (ports : List ℕ)
    → IsPortList out
    → parse_pair out p low high ≡ ok ports
    → IsPortList ports
unfolding parse_pair
parse_pair-IsPortList out p low high ports v run = elim (Option-cases (atoi (trim_space low))) [
  | inl bad ↦ absurd (ground (arith, run, bad))
  | inr (lo, low_read) ↦ elim (Option-cases (atoi (trim_space high))) [
    | inl bad ↦ absurd (ground (arith, run, low_read, bad))
    | inr (hi, high_read) ↦ elim (Bool-cases (outside lo || outside hi)) [
      | inl out_of ↦ absurd (ground (arith, run, low_read, high_read, out_of))
      | inr inside ↦ elim (Bool-cases (leb_ℤ hi lo)) [
        | inl crossed ↦ absurd (ground (arith, run, low_read, high_read, inside, crossed))
        | inr below ↦
            let lo_in = inside-IsPort lo (ground (arith, inside)) in
            let hi_in = inside-IsPort hi (ground (arith, inside)) in
            let rounds = suc (pos_part hi) - pos_part lo in
            let result : add_range rounds (pos_part lo) out ≡ ports =
              ground (arith, run, low_read, high_read, inside, below) in
            subst IsPortList result (
              add_range-IsPortList rounds (pos_part lo) out lo_in.0 (omega (arith, lo_in, hi_in)) v)
      ]
    ]
  ]
]

parse_part-IsPortList :
    (out : List ℕ) (part : Text) (ports : List ℕ)
    → IsPortList out
    → parse_part out part ≡ ok ports
    → IsPortList ports
unfolding parse_part parse_trimmed
parse_part-IsPortList out part ports v run =
    let p = trim_space part in
    elim (Bool-cases (is_empty p)) [
      | inl blank ↦
          let result : out ≡ ports = ground (arith, run, blank) in subst IsPortList result v
      | inr some_text ↦ elim (Option-cases (cut 58 p)) [
        | inl alone ↦ parse_single-IsPortList out p ports v (ground (arith, run, some_text, alone))
        | inr (pair, colon) ↦
            parse_pair-IsPortList out p pair.0 pair.1 ports v
              (ground (arith, run, some_text, colon))
      ]
    ]

parse_parts-IsPortList :
    (out : List ℕ) (parts : List Text) (ports : List ℕ)
    → IsPortList out
    → parse_parts out parts ≡ ok ports
    → IsPortList ports
unfolding parse_parts
parse_parts-IsPortList out [] ports v run =
    let result : out ≡ ports = ground (arith, run) in subst IsPortList result v
parse_parts-IsPortList out (part ∷ parts) ports v run = elim (Result-cases (parse_part out part)) [
  | inl (more, good) ↦
      parse_parts-IsPortList more parts ports (parse_part-IsPortList out part more v good)
        (ground (arith, run, good))
  | inr (e, bad) ↦ absurd (ground (arith, run, bad))
]

some_parsed : (out : List ℕ) → none_parsed out ≡ false → 1 ≤ length out
some_parsed [] h = absurd (ground (arith, h))
some_parsed (p ∷ ps) h = omega arith

-- A specification that is accepted gives at least one port, only ports from 1 to 65535, and each of
-- them once.
pub parse_port_range-IsPortList :
    (spec : Text) (ports : List ℕ)
    → parse_port_range spec ≡ ok ports
    → IsPortList ports × (1 ≤ length ports)
unfolding parse_port_range
parse_port_range-IsPortList spec ports run = elim (Bool-cases (is_empty (trim_space spec))) [
  | inl blank ↦ absurd (ground (arith, run, blank))
  | inr some_text ↦ elim (Result-cases (parse_parts [] (split 44 (trim_space spec)))) [
    | inr (e, bad) ↦ absurd (ground (arith, run, some_text, bad))
    | inl (out, good) ↦ elim (Bool-cases (none_parsed out)) [
      | inl nothing ↦ absurd (ground (arith, run, some_text, good, nothing))
      | inr parsed ↦
          let result : out ≡ ports = ground (arith, run, some_text, good, parsed) in
          let start : IsPortList [] = record { bounded = tt; different = tt } in
          (
            subst IsPortList result
                (parse_parts-IsPortList [] (split 44 (trim_space spec)) out start good),
            subst (λ ps. 1 ≤ length ps) result (some_parsed out parsed),
          )
    ]
  ]
]
