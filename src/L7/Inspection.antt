-- ===== src/L7/Inspection.antt =====
-- internal/l7/inspector.go, `Inspect`: what decides, and what is counted.
use route_x_reverse_proxy.Common.{
  ℕ, ◌+◌, ◌≡◌, refl, ◌∙◌, ap, Bool, true, false, not, List, [], ◌∷◌, ◌++◌, some, arith, ◌==◌,
  string_eq, nat_eq, length, retain, All,
}
use route_x_reverse_proxy.L7.Inspector.{
  CustomRule, Inspector, matches, custom, tally, verdict, inspect,
}

custom-skip :
    (payload : List ℕ) (pre rest : List CustomRule)
    → All (λ r. matches payload r ≡ false) pre
    → custom payload (pre ++ rest) ≡ custom payload rest
unfolding custom
custom-skip payload [] rest h = refl
custom-skip payload (r ∷ pre) rest h = rw (h.0) (custom-skip payload pre rest h.1)

verdict-custom :
    (i : Inspector) (payload : List ℕ) (b : Bool)
    → custom payload i.custom_rules ≡ some b
    → verdict i payload ≡ b
unfolding verdict
verdict-custom i payload b h = rw (h, verdict) refl

inspect_on :
    (i : Inspector) (payload : List ℕ)
    → i.enabled ≡ true
    → inspect i payload ≡ (tally (verdict i payload) i, verdict i payload)
unfolding inspect
inspect_on i payload on = rw on refl

-- The first custom rule that matches decides, before the protocol's test: the payload passes
-- exactly if that rule's action is not `drop`.
pub inspect-first :
    (i : Inspector) (payload : List ℕ) (pre post : List CustomRule) (r : CustomRule)
    → i.enabled ≡ true
    → i.custom_rules ≡ pre ++ (r ∷ post)
    → All (λ q. matches payload q ≡ false) pre
    → matches payload r ≡ true
    → (inspect i payload).1 ≡ not (r.action == "drop")
inspect-first i payload pre post r on order before here =
    let skip = custom-skip payload pre (r ∷ post) before in
    let hit : custom payload (r ∷ post) ≡ some (not (r.action == "drop")) =
      unfold custom in rw here refl in
    let answer =
      verdict-custom i payload (not (r.action == "drop"))
        (ap (custom payload) order ∙ skip ∙ hit) in
    ap (λ r. r.1) (inspect_on i payload on) ∙ answer

-- The inspector after payloads, with its answers.
unfoldable pub inspections : Inspector → List (List ℕ) → Inspector × List Bool
inspections i [] = (i, [])
inspections i (p ∷ ps) =
    let later = inspections (inspect i p).0 ps in (later.0, (inspect i p).1 ∷ later.1)

abbrev pub trues : List Bool → ℕ
trues answers = length (retain (λ b. b) answers)

abbrev pub falses : List Bool → ℕ
falses answers = length (retain not answers)

tally_first :
    (b : Bool) (i : Inspector) (answers : List Bool) (after : Inspector)
    → after ≡ record (tally b i) {
      passed = (tally b i).passed + trues answers;
      dropped = (tally b i).dropped + falses answers;
    }
    → after ≡ record i {
      passed = i.passed + trues (b ∷ answers);
      dropped = i.dropped + falses (b ∷ answers);
    }
unfolding tally
tally_first true i answers after h = ground (arith, h)
tally_first false i answers after h = ground (arith, h)

tally_enabled : (b : Bool) (i : Inspector) → (tally b i).enabled ≡ i.enabled
unfolding tally
tally_enabled true i = refl
tally_enabled false i = refl

-- An inspector that is on counts each payload once, as passed or as dropped, as it answered, and
-- changes nothing else.
pub inspections-counted :
    (i : Inspector) (ps : List (List ℕ))
    → i.enabled ≡ true
    → (inspections i ps).0 ≡ record i {
      passed = i.passed + trues (inspections i ps).1;
      dropped = i.dropped + falses (inspections i ps).1;
    }
unfolding inspections
inspections-counted i [] on = ground arith
inspections-counted i (p ∷ ps) on =
    let b = verdict i p in
    rw (inspect_on i p on) (
      tally_first b i (inspections (tally b i) ps).1 (inspections (tally b i) ps).0
        (inspections-counted (tally b i) ps (tally_enabled b i ∙ on)))
