-- ===== src/Acl/Engine.antt =====
-- internal/acl/engine.go. `net.ParseCIDR` and `net.ParseIP` are parameters; the counters are 64-bit
-- and wrap around.
use route_x_reverse_proxy.Common.{
  ℕ, ◌+◌, ◌%◌, ◌^◌, Bool, false, not, ◌||◌, List, [], ◌∷◌, ◌++◌, map, Option, none, some, String,
  Result, ok, err, ◌>>=◌, if◌then◌else◌, ◌==◌, string_eq, length, retain,
}
use route_x_reverse_proxy.Net.{Ip, IpNet, is_nil, to4, full_mask, contains}

pub record Rule : Type 0 where
  pub action : String
  pub cidr : String
  pub comment : String
  pub cidr_net : Option IpNet

pub record Engine : Type 0 where
  pub default_action : String
  pub rules : List Rule
  pub name : String
  pub enabled : Bool
  pub allowed : ℕ
  pub denied : ℕ

pub data ParseError : Type 0 where
  parse_error : String → ParseError

-- The network of a single address.
unfoldable pub host_net : Ip → IpNet
host_net ip =
    if is_nil (to4 ip)
    then record { ip = ip; mask = full_mask 16 }
    else record { ip = ip; mask = full_mask 4 }

module _ (parse_cidr : String → Option IpNet) (parse_ip : String → Option Ip) where
  -- `none` where the text is neither a CIDR block nor an address.
  unfoldable pub net_of : String → Option IpNet
  net_of text = elim (parse_cidr text) [
    | some n ↦ some n
    | none ↦ elim (parse_ip text) [ none ↦ none | some ip ↦ some (host_net ip) ]
  ]

  -- The loop of NewEngine, which stops at the first rule that does not parse.
  unfoldable pub compile : List Rule → Result ParseError (List Rule)
  compile [] = ok []
  compile (r ∷ rs) =
      let rest = compile rs in
      elim (net_of r.cidr) [
        | none ↦ err (parse_error r.cidr)
        | some n ↦ rest >>= λ done. ok ((record r { cidr_net = some n }) ∷ done)
      ]

  unfoldable pub new_engine : String → String → List Rule → Bool → Result ParseError Engine
  new_engine name default_action rules enabled = compile rules >>= λ compiled. ok (record {
    default_action = default_action;
    rules = compiled;
    name = name;
    enabled = enabled;
    allowed = 0;
    denied = 0;
  })

  unfoldable pub add_rule : String → String → String → Engine → Result ParseError Engine
  add_rule action cidr comment e = elim (net_of cidr) [
    | none ↦ err (parse_error cidr)
    | some n ↦
        let r : Rule = record {
          action = action;
          cidr = cidr;
          comment = comment;
          cidr_net = some n;
        } in
        ok (record e { rules = e.rules ++ (r ∷ []) })
  ]

  -- A rule that does not parse is kept without a network.
  unfoldable pub replace_rules : List Rule → Engine → Engine
  replace_rules rules e = record e {
    rules = map {A = Rule} (λ r. record r { cidr_net = net_of r.cidr }) rules;
  }

-- Whether the test of the loop in `Check` holds.
unfoldable pub matches : Ip → Rule → Bool
matches ip r = elim r.cidr_net [ none ↦ false | some n ↦ contains n ip ]

-- The action of the loop, or the default after it.
unfoldable pub decide : String → Ip → List Rule → String
decide fallback ip [] = fallback
decide fallback ip (r ∷ rs) =
    let rest = decide fallback ip rs in if matches ip r then r.action else rest

unfoldable pub count : String → Engine → Engine
count action e =
    if action == "allow"
    then record e { allowed = (e.allowed + 1) % 2 ^ 64 }
    else record e { denied = (e.denied + 1) % 2 ^ 64 }

-- `none` is the nil engine.
unfoldable pub check : Option Engine → Ip → Option Engine × String
check none ip = (none, "allow")
check (some e) ip =
    let action = decide e.default_action ip e.rules in
    if not e.enabled || is_nil ip then (some e, "allow") else (some (count action e), action)

unfoldable pub remove_rule : String → Engine → Engine × ℕ
remove_rule cidr e = (
  record e { rules = retain (λ r. not (r.cidr == cidr)) e.rules },
  length (retain (λ r. r.cidr == cidr) e.rules),
)

unfoldable pub set_default_action : String → Engine → Engine
set_default_action action e = record e { default_action = action }

unfoldable pub set_enabled : Bool → Engine → Engine
set_enabled enabled e = record e { enabled = enabled }

unfoldable pub listed : Engine → List Rule
listed e = map {A = Rule} (λ r. record r { cidr_net = none }) e.rules
