-- ===== src/Acl/Edits.antt =====
-- internal/acl/engine.go: changes of the rules at run time.
use route_x_reverse_proxy.Common.{
  ◌+◌, ◌≡◌, refl, ◌∙◌, ap, inl, inr, Bool, true, false, not, List, [], ◌∷◌, ◌++◌, map, Option, some,
  String, ok, if◌then◌else◌, ◌==◌, string_eq, same_refl, length, retain, All, arith, Option-cases,
  Result-cases,
}
use route_x_reverse_proxy.Net.{Ip, IpNet}
use route_x_reverse_proxy.Acl.Engine.{
  Rule, Engine, matches, decide, net_of, compile, new_engine, add_rule, replace_rules, remove_rule,
}

decide_append :
    (fallback : String) (ip : Ip) (rs : List Rule) (r : Rule)
    → decide fallback ip (rs ++ (r ∷ []))
      ≡ decide (if matches ip r then r.action else fallback) ip rs
unfolding decide
decide_append fallback ip [] r = refl
decide_append fallback ip (q ∷ rs) r = ground (arith, decide_append fallback ip rs r)

removed_of :
    (cidr : String) (rs : List Rule)
    → length (retain (λ r. not (r.cidr == cidr)) rs) + length (retain (λ r. r.cidr == cidr) rs)
      ≡ length rs
removed_of cidr [] = refl
removed_of cidr (r ∷ rs) = ground (arith, removed_of cidr rs)

none_left_of :
    (cidr : String) (rs : List Rule)
    → All (λ r. (r.cidr == cidr) ≡ false) (retain (λ r. not (r.cidr == cidr)) rs)
none_left_of cidr [] = tt
none_left_of cidr (r ∷ rs) = ground (arith, none_left_of cidr rs)

-- RemoveRule removes each rule with the given text, reports how many they were, and keeps the rest.
pub removals_reported :
    (cidr : String) (e : Engine)
    → (length (remove_rule cidr e).0.rules + (remove_rule cidr e).1 ≡ length e.rules)
      × All (λ r. (r.cidr == cidr) ≡ false) (remove_rule cidr e).0.rules
unfolding remove_rule
removals_reported cidr e = (removed_of cidr e.rules, none_left_of cidr e.rules)

module _ (parse_cidr : String → Option IpNet) (parse_ip : String → Option Ip) where
  -- A rule that is added at run time decides only the addresses that no earlier rule matches: it
  -- takes the default action's place for the addresses that it matches.
  pub added_last :
      (action cidr comment : String) (e after : Engine) (n : IpNet) (ip : Ip)
      → add_rule parse_cidr parse_ip action cidr comment e ≡ ok after
      → net_of parse_cidr parse_ip cidr ≡ some n
      → decide after.default_action ip after.rules
        ≡ decide
            (if matches ip
                (record { action = action; cidr = cidr; comment = comment; cidr_net = some n })
              then action
              else e.default_action)
            ip
            e.rules
  unfolding add_rule
  added_last action cidr comment e after n ip run parsed =
      let r : Rule = record {
        action = action;
        cidr = cidr;
        comment = comment;
        cidr_net = some n;
      } in
      let rules : after.rules ≡ e.rules ++ (r ∷ []) = ground (arith, run, parsed) in
      let fallback : after.default_action ≡ e.default_action = ground (arith, run, parsed) in
      rw rules (rw fallback (decide_append e.default_action ip e.rules r))

  kept_fresh :
      (cidr : String) (rs : List Rule) (r : Rule)
      → (r.cidr == cidr) ≡ true
      → All (λ q. (q.cidr == cidr) ≡ false) rs
      → (retain (λ q. not (q.cidr == cidr)) (rs ++ (r ∷ [])) ≡ rs)
        × (length (retain (λ q. q.cidr == cidr) (rs ++ (r ∷ []))) ≡ 1)
  kept_fresh cidr [] r same h = (rw same refl, rw same refl)
  kept_fresh cidr (q ∷ rs) r same h =
      let rest = kept_fresh cidr rs r same h.1 in (rw (h.0) (ap (◌∷◌ q) rest.0), rw (h.0) (rest.1))

  -- Adding a rule under a text that no rule has, and removing that text, gives the engine back and
  -- reports one rule.
  pub add_then_remove :
      (action cidr comment : String) (e after : Engine)
      → All (λ r. (r.cidr == cidr) ≡ false) e.rules
      → add_rule parse_cidr parse_ip action cidr comment e ≡ ok after
      → remove_rule cidr after ≡ (e, 1)
  unfolding add_rule remove_rule
  add_then_remove action cidr comment e after fresh run =
      elim (Option-cases (net_of parse_cidr parse_ip cidr)) [
        | inl bad ↦ absurd (ground (arith, run, bad))
        | inr (n, parsed) ↦
            let r : Rule = record {
              action = action;
              cidr = cidr;
              comment = comment;
              cidr_net = some n;
            } in
            let grown : after ≡ record e { rules = e.rules ++ (r ∷ []) } =
              ground (arith, run, parsed) in
            let kept = kept_fresh cidr e.rules r (same_refl cidr) fresh in
            rw grown (rw (kept.0) (rw (kept.1) refl))
      ]

  compile-map :
      (rules done : List Rule)
      → compile parse_cidr parse_ip rules ≡ ok done
      → map {A = Rule} (λ r. record r { cidr_net = net_of parse_cidr parse_ip r.cidr }) rules ≡ done
  unfolding compile
  compile-map [] done run = ground (arith, run)
  compile-map (r ∷ rules) done run = elim (Option-cases (net_of parse_cidr parse_ip r.cidr)) [
    | inl bad ↦ absurd (ground (arith, run, bad))
    | inr (n, parsed) ↦ elim (Result-cases (compile parse_cidr parse_ip rules)) [
      | inl (d, good) ↦ ground (arith, run, parsed, good, compile-map rules d good)
      | inr (e, bad) ↦ absurd (ground (arith, run, parsed, bad))
    ]
  ]

  -- Where NewEngine accepts rules, ReplaceRules with the same rules leaves an engine with the same
  -- compiled rules.
  pub replace-new :
      (name default_action : String) (rules : List Rule) (enabled : Bool) (made old : Engine)
      → new_engine parse_cidr parse_ip name default_action rules enabled ≡ ok made
      → (replace_rules parse_cidr parse_ip rules old).rules ≡ made.rules
  unfolding new_engine replace_rules
  replace-new name default_action rules enabled made old run =
      elim (Result-cases (compile parse_cidr parse_ip rules)) [
        | inl (d, good) ↦ compile-map rules d good ∙ ground (arith, run, good)
        | inr (e, bad) ↦ absurd (ground (arith, run, bad))
      ]
