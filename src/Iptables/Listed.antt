-- ===== src/Iptables/Listed.antt =====
-- internal/config/proxy.go, `parsePortRange`, on ports that internal/iptables/rules.go lists one by one.
use mathlib.Core.List.{append-nil}
use route_x_reverse_proxy.Common.{
  ℕ, ◌+◌, ◌≡◌, ◌≢◌, refl, ◌∙◌, ap, sym, subst, true, false, List, [], ◌∷◌, ◌++◌, map, some, ok,
  nat_eq, length, All, arith, inl, inr,
}
use route_x_reverse_proxy.Common.Int.{pos}
use route_x_reverse_proxy.Text.Edit.{Text, is_empty, is_space, split, join}
use route_x_reverse_proxy.Text.Number.{atoi, decimal}
use route_x_reverse_proxy.Text.Laws.{
  decimal-AllDigits, decimal-nonempty, atoi-decimal, Lacks, IsPlain, All-append, AllDigits-IsPlain,
  AllDigits-Lacks, trim_space-IsPlain, split-join, cut-Lacks,
}
use route_x_reverse_proxy.Proxy.Portmap.{Absent, AllDifferent}
use route_x_reverse_proxy.Config.Ports.{
  member, add_port, add_range, outside, parse_single, parse_trimmed, parse_part, parse_parts,
  none_parsed, parse_port_range,
}
use route_x_reverse_proxy.Config.PortBounds.{IsPort, IsPortList}
use route_x_reverse_proxy.Iptables.PortList.{contiguous, last_of, listed}

pub decimal-IsPlain : (p : ℕ) → IsPlain (decimal p)
decimal-IsPlain p = AllDigits-IsPlain (decimal p) (decimal-AllDigits p)

pub decimal-Lacks_comma : (p : ℕ) → Lacks 44 (decimal p)
decimal-Lacks_comma p = AllDigits-Lacks 44 (decimal p) (inl (omega arith)) (decimal-AllDigits p)

pub decimal-Lacks_colon : (p : ℕ) → Lacks 58 (decimal p)
decimal-Lacks_colon p = AllDigits-Lacks 58 (decimal p) (inr (omega arith)) (decimal-AllDigits p)

pub port_read : (p : ℕ) → IsPort p → atoi (decimal p) ≡ some (pos p)
port_read p h = atoi-decimal p (omega (arith, h.1))

pub port_inside : (p : ℕ) → IsPort p → outside (pos p) ≡ false
port_inside p h = ground (arith, h.0, h.1)

pub single_parsed :
    (out : List ℕ) (p : ℕ) → IsPort p → parse_single out (decimal p) ≡ ok (add_port p out)
unfolding parse_single
single_parsed out p h = rw (port_read p h) (rw (port_inside p h) refl)

pub trimmed_parsed :
    (out : List ℕ) (p : ℕ) → IsPort p → parse_trimmed out (decimal p) ≡ ok (add_port p out)
unfolding parse_trimmed
trimmed_parsed out p h =
    rw (decimal-nonempty p)
      (rw (cut-Lacks 58 (decimal p) (decimal-Lacks_colon p)) (single_parsed out p h))

pub part_parsed :
    (out : List ℕ) (p : ℕ) → IsPort p → parse_part out (decimal p) ≡ ok (add_port p out)
unfolding parse_part
part_parsed out p h =
    ap (parse_trimmed out) (trim_space-IsPlain (decimal p) (decimal-IsPlain p))
    ∙ trimmed_parsed out p h

pub Absent-member : (p : ℕ) (ps rest : List ℕ) → AllDifferent (ps ++ p ∷ rest) → member p ps ≡ false
Absent-member p [] rest h = refl
Absent-member p (q ∷ ps) rest h =
    let apart = Absent_at q p ps rest h.0 in
    let later = Absent-member p ps rest h.1 in ground (arith, apart, later)
  where
    Absent_at : (q p : ℕ) (ps rest : List ℕ) → Absent q (ps ++ p ∷ rest) → q ≢ p
    Absent_at q p [] rest a = a.0
    Absent_at q p (r ∷ ps) rest a = Absent_at q p ps rest a.1

pub added_last :
    (p : ℕ) (out rest : List ℕ) → AllDifferent (out ++ p ∷ rest) → add_port p out ≡ out ++ p ∷ []
unfolding add_port
added_last p out rest h = let new = Absent-member p out rest h in rw new refl

pub regrouped : (out : List ℕ) (p : ℕ) (ps : List ℕ) → (out ++ p ∷ []) ++ ps ≡ out ++ p ∷ ps
regrouped [] p ps = refl
regrouped (q ∷ out) p ps = ap (◌∷◌ q) (regrouped out p ps)

pub parts_parsed :
    (out ps : List ℕ)
    → All IsPort ps
    → AllDifferent (out ++ ps)
    → parse_parts out (map decimal ps) ≡ ok (out ++ ps)
unfolding parse_parts
parts_parsed out [] h d = ap ok (sym (append-nil out))
parts_parsed out (p ∷ ps) h d =
    let first = part_parsed out p h.0 ∙ ap ok (added_last p out ps d) in
    let grouped = regrouped out p ps in
    rw first
      (parts_parsed (out ++ p ∷ []) ps h.1 (subst AllDifferent (sym grouped) d) ∙ ap ok grouped)

pub range_added :
    (before : ℕ) (ps out : List ℕ)
    → contiguous before ps ≡ true
    → AllDifferent (out ++ ps)
    → add_range (length ps) (before + 1) out ≡ out ++ ps
unfolding add_range contiguous
range_added before [] out h d = sym (append-nil out)
range_added before (p ∷ ps) out h d =
    let next : p ≡ before + 1 = ground (arith, h) in
    let rest : contiguous p ps ≡ true = ground (arith, h) in
    let grouped = regrouped out p ps in
    ap (λ i. add_range (length ps) (i + 1) (add_port i out)) (sym next)
    ∙ ap (add_range (length ps) (p + 1)) (added_last p out ps d)
    ∙ range_added p ps (out ++ p ∷ []) rest (subst AllDifferent (sym grouped) d)
    ∙ grouped

pub last_port :
    (before : ℕ) (ps : List ℕ)
    → contiguous before ps ≡ true
    → last_of before ps ≡ before + length ps
unfolding contiguous
last_port before [] h = omega arith
last_port before (p ∷ ps) h =
    let next : p ≡ before + 1 = ground (arith, h) in
    let rest : contiguous p ps ≡ true = ground (arith, h) in
    omega (arith, next, last_port p ps rest)

-- A text that a specification starts from, with what its parts give.
pub parsed_text :
    (s : Text) (parts : List Text) (ports : List ℕ)
    → IsPlain s
    → is_empty s ≡ false
    → split 44 s ≡ parts
    → parse_parts [] parts ≡ ok ports
    → none_parsed ports ≡ false
    → parse_port_range s ≡ ok ports
unfolding parse_port_range
parsed_text s parts ports plain some_text cuts run found =
    rw (trim_space-IsPlain s plain) (rw some_text (rw cuts (rw run (rw found refl))))

pub joined-IsPlain : (p : ℕ) (ps : List ℕ) → IsPlain (listed (p ∷ ps))
unfolding listed join
joined-IsPlain p [] = decimal-IsPlain p
joined-IsPlain p (q ∷ ps) =
    All-append (λ c. is_space c ≡ false) (decimal p) (44 ∷ listed (q ∷ ps)) (decimal-IsPlain p)
      ((unfold is_space in refl), joined-IsPlain q ps)

pub nonempty_append : (s t : Text) → is_empty s ≡ false → is_empty (s ++ t) ≡ false
nonempty_append [] t h = absurd (ground (arith, h))
nonempty_append (c ∷ s) t h = refl

pub joined-nonempty : (p : ℕ) (ps : List ℕ) → is_empty (listed (p ∷ ps)) ≡ false
unfolding listed join
joined-nonempty p [] = decimal-nonempty p
joined-nonempty p (q ∷ ps) = nonempty_append (decimal p) (44 ∷ listed (q ∷ ps)) (decimal-nonempty p)

pub parts-Lack : (ps : List ℕ) → All (Lacks 44) (map decimal ps)
parts-Lack [] = tt
parts-Lack (p ∷ ps) = (decimal-Lacks_comma p, parts-Lack ps)

pub listed_parsed :
    (p : ℕ) (ps : List ℕ) → IsPortList (p ∷ ps) → parse_port_range (listed (p ∷ ps)) ≡ ok (p ∷ ps)
listed_parsed p ps v =
    parsed_text (listed (p ∷ ps)) (map decimal (p ∷ ps)) (p ∷ ps) (joined-IsPlain p ps)
      (joined-nonempty p ps)
      (unfold listed in split-join 44 (decimal p) (map decimal ps) (parts-Lack (p ∷ ps)))
      (parts_parsed [] (p ∷ ps) v.bounded v.different) refl

-- The text of a contiguous range.
