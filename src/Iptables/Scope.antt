-- ===== src/Iptables/Scope.antt =====
-- internal/iptables/rules.go: which traffic the rules of a proxy match.
use Prim.Native.String.{◌++◌ as concat}
use route_x_reverse_proxy.Common.{
  ℕ, ◌+◌, ◌≡◌, refl, Bool, true, false, List, [], ◌∷◌, ◌++◌, Option, none, some, String, string_eq,
  ◌==◌, All, arith, get_elem?, if◌then◌else◌,
}
use route_x_reverse_proxy.Text.Edit.{Text}
use route_x_reverse_proxy.Config.RateLimits.{RateLimits}
use route_x_reverse_proxy.Iptables.PortList.{port_list}
use route_x_reverse_proxy.Iptables.Validator.{above_zero}
use route_x_reverse_proxy.Iptables.Rules.{
  Rule, when, proto_for_protocol, comment, packet_rules, connection_rules, tcp_rules, build_rules,
}

-- The protocol that a rule matches: the word behind `-p`.
abbrev pub proto_of : Rule → Option String
proto_of r = get_elem? r.spec 1

-- A rule of the input chain of the filter table for one protocol and the given ports, whose comment is
-- the proxy's prefix with a kind and the ports, and which jumps to DROP.
pub record IsScoped (comments : String → String) (port_text : String) (r : Rule) : Type 0 where
  pub in_filter : r.table ≡ "filter"
  pub in_input : r.chain ≡ "INPUT"
  pub kind : String
  pub named : r.comment ≡ comments kind
  pub proto : String
  pub middle : List String
  pub matched :
      r.spec
      ≡ "-p"
        ∷ proto
        ∷ "--dport"
        ∷ port_text
        ∷ (middle ++ ("-m" ∷ "comment" ∷ "--comment" ∷ comments kind ∷ "-j" ∷ "DROP" ∷ []))

pub All-append {ℓ κ} :
    {A : Type ℓ} (P : A → Type κ) (xs ys : List A) → All P xs → All P ys → All P (xs ++ ys)
All-append P [] ys h k = k
All-append P (x ∷ xs) ys h k = (h.0, All-append P xs ys h.1 k)

-- 1 for a limit that is set.
abbrev pub one_if : Bool → ℕ
one_if b = if b then 1 else 0

abbrev pub is_for : String → Option String → Bool
is_for proto none = false
is_for proto (some p) = p == proto

-- How many of the limits that have a rule for TCP are set.
abbrev pub tcp_limits : RateLimits → ℕ
tcp_limits rl =
    one_if (above_zero rl.tcp_pps_per_ip)
    + one_if (above_zero rl.new_conns_per_sec_per_ip)
    + one_if (above_zero rl.max_simultaneous_conns_per_ip)
    + one_if (above_zero rl.max_total_conns)
    + one_if rl.drop_fragmented_packets
    + one_if (above_zero rl.tcp_syn_rate_per_ip)
    + one_if rl.tcp_invalid_state_drop
    + one_if (above_zero rl.tcp_rst_rate_per_ip)

-- How many rules match packets of a protocol.
abbrev pub count_for : String → List Rule → ℕ
count_for proto [] = 0
count_for proto (r ∷ rs) = one_if (is_for proto (proto_of r)) + count_for proto rs

count_for-append :
    (proto : String) (rs qs : List Rule)
    → count_for proto (rs ++ qs) ≡ count_for proto rs + count_for proto qs
count_for-append proto [] qs = omega arith
count_for-append proto (r ∷ rs) qs = omega (arith, count_for-append proto rs qs)

count_for-when :
    (proto : String) (cond : Bool) (r : Rule)
    → count_for proto (when cond r) ≡ (if cond then one_if (is_for proto (proto_of r)) else 0)
unfolding when
count_for-when proto true r = omega arith
count_for-when proto false r = refl

module _ (shown : Text → String) (prefix : String) (ports : List ℕ) where
  abbrev Scoped : Rule → Type 0
  Scoped r = IsScoped (λ kind. comment shown prefix kind ports) (shown (port_list ports)) r

  -- A rule as it is written for a kind, a protocol and the words between its ports and its comment.
  abbrev shape : String → String → List String → Rule
  shape kind proto words = record {
    table = "filter";
    chain = "INPUT";
    comment = comment shown prefix kind ports;
    spec =
        "-p"
        ∷ proto
        ∷ "--dport"
        ∷ shown (port_list ports)
        ∷ (words
            ++ ("-m"
                ∷ "comment"
                ∷ "--comment"
                ∷ comment shown prefix kind ports
                ∷ "-j"
                ∷ "DROP"
                ∷ []));
  }

  -- How many rules a proxy has for each protocol. A UDP proxy has rules for UDP from two limits alone,
  -- the packet rate and the fragments; the three limits of connections give it rules for TCP. A proxy
  -- of both protocols has for UDP the packet rate alone, and a TCP proxy no rule for UDP; either has
  -- for TCP one rule of each of eight limits that is set. No other limit has a part in the counts.
  pub build_rules-counted :
      (name : String) (rl : RateLimits)
      → (count_for "udp" (build_rules shown prefix ports name rl "udp")
          ≡ one_if (above_zero rl.udp_pps_per_ip) + one_if rl.drop_fragmented_packets)
        × (count_for "tcp" (build_rules shown prefix ports name rl "udp")
            ≡ one_if (above_zero rl.new_conns_per_sec_per_ip)
              + one_if (above_zero rl.max_simultaneous_conns_per_ip)
              + one_if (above_zero rl.max_total_conns))
        × (count_for "udp" (build_rules shown prefix ports name rl "tcp-udp")
            ≡ one_if (above_zero rl.udp_pps_per_ip))
        × (count_for "udp" (build_rules shown prefix ports name rl "tcp") ≡ 0)
        × (count_for "tcp" (build_rules shown prefix ports name rl "tcp") ≡ tcp_limits rl)
        × (count_for "tcp" (build_rules shown prefix ports name rl "tcp-udp") ≡ tcp_limits rl)
  unfolding build_rules packet_rules connection_rules tcp_rules proto_for_protocol
  build_rules-counted name rl = (
    simp (count_for-append, count_for-when) (ground arith),
    simp (count_for-append, count_for-when) (ground arith),
    simp (count_for-append, count_for-when) (ground arith),
    simp (count_for-append, count_for-when) (ground arith),
    simp (count_for-append, count_for-when) (ground arith),
    simp (count_for-append, count_for-when) (ground arith),
  )
