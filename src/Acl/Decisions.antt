-- ===== src/Acl/Decisions.antt =====
-- internal/acl/engine.go, `Check`: which rule decides, and what the counters count.
use route_x_reverse_proxy.Common.{
  ℕ, suc, ◌+◌, ◌%◌, ◌^◌, ◌≡◌, ◌<◌, refl, ◌∙◌, true, false, not, List, [], ◌∷◌, ◌++◌, Option, some,
  String, ◌==◌, string_eq, length, retain, All, arith,
}
use route_x_reverse_proxy.Net.{Ip, is_nil}
use route_x_reverse_proxy.Acl.Engine.{Rule, Engine, matches, decide, count, check}

decide-skip :
    (fallback : String) (ip : Ip) (pre rest : List Rule)
    → All (λ r. matches ip r ≡ false) pre
    → decide fallback ip (pre ++ rest) ≡ decide fallback ip rest
unfolding decide
decide-skip fallback ip [] rest h = refl
decide-skip fallback ip (r ∷ pre) rest h = rw (h.0) (decide-skip fallback ip pre rest h.1)

-- The first rule that matches decides: an enabled engine answers an address with the action of the
-- first rule that matches it, whatever rules follow.
pub check-first :
    (e : Engine) (ip : Ip) (pre post : List Rule) (r : Rule)
    → e.rules ≡ pre ++ (r ∷ post)
    → All (λ q. matches ip q ≡ false) pre
    → matches ip r ≡ true
    → e.enabled ≡ true
    → is_nil ip ≡ false
    → (check (some e) ip).1 ≡ r.action
unfolding check
check-first e ip pre post r order before here on given =
    let skip = decide-skip e.default_action ip pre (r ∷ post) before in
    let hit : decide e.default_action ip (r ∷ post) ≡ r.action = unfold decide in rw here refl in
    rw on (rw given (rw order (skip ∙ hit)))

-- The engine after checks of addresses, with their answers.
unfoldable pub checks : Option Engine → List Ip → Option Engine × List String
checks e [] = (e, [])
checks e (ip ∷ ips) = let later = checks (check e ip).0 ips in (later.0, (check e ip).1 ∷ later.1)

abbrev pub allows : List String → ℕ
allows answers = length (retain (λ a. a == "allow") answers)

abbrev pub refuses : List String → ℕ
refuses answers = length (retain (λ a. not (a == "allow")) answers)

wrap_add : (a n : ℕ) → ((a + 1) % 2 ^ 64 + n) % 2 ^ 64 ≡ (a + suc n) % 2 ^ 64
wrap_add a n = omega arith

-- What an engine holds after checks that were answered with `answers`.
abbrev pub Counted : Engine → List String → Option Engine → Type 0
Counted e answers after =
    after
    ≡ some (record e {
      allowed = (e.allowed + allows answers) % 2 ^ 64;
      denied = (e.denied + refuses answers) % 2 ^ 64;
    })

abbrev pub InRange : Engine → Type 0
InRange e = (e.allowed < 2 ^ 64) × (e.denied < 2 ^ 64)

check_on :
    (e : Engine) (ip : Ip)
    → e.enabled ≡ true
    → is_nil ip ≡ false
    → check (some e) ip
      ≡ (some (count (decide e.default_action ip e.rules) e), decide e.default_action ip e.rules)
unfolding check
check_on e ip on given = rw on (rw given refl)

count-InRange : (action : String) (e : Engine) → InRange e → InRange (count action e)
unfolding count
count-InRange action e h = ground (arith, h.0, h.1)

count_enabled : (action : String) (e : Engine) → (count action e).enabled ≡ e.enabled
unfolding count
count_enabled action e = ground arith

count_first :
    (e : Engine) (action : String) (answers : List String) (after : Option Engine)
    → Counted (count action e) answers after
    → Counted e (action ∷ answers) after
unfolding count
count_first e action answers after h =
    ground (arith, h, wrap_add e.allowed (allows answers), wrap_add e.denied (refuses answers))

-- The two counters of an enabled engine count its answers: the first those that are `allow`, the
-- second all the others, each modulo 2 ^ 64; the checks change nothing else.
pub checks-Counted :
    (e : Engine) (ips : List Ip)
    → e.enabled ≡ true
    → InRange e
    → All (λ ip. is_nil ip ≡ false) ips
    → Counted e (checks (some e) ips).1 (checks (some e) ips).0
unfolding checks
checks-Counted e [] on range given = ground (arith, range.0, range.1)
checks-Counted e (ip ∷ ips) on range given =
    let action = decide e.default_action ip e.rules in
    rw (check_on e ip on given.0) (
      count_first e action (checks (some (count action e)) ips).1
        (checks (some (count action e)) ips).0
        (checks-Counted (count action e) ips (count_enabled action e ∙ on)
          (count-InRange action e range) given.1))
