-- ===== src/Iptables/Agreement.antt =====
-- internal/iptables/validator.go against internal/config/proxy.go, `validateRateLimits`.
use route_x_reverse_proxy.Common.{
  ℕ, zero, suc, ◌≡◌, refl, sym, ap, ◌≢◌, ◌∙◌, Bool, true, false, not, ◌&&◌, ◌||◌, List, [], ◌∷◌,
  String, Result, ok, err, ◌>>◌, fail_if, string_eq, arith,
}
use mathlib.Core.Bool.{and_assoc}
use route_x_reverse_proxy.Common.Int.{ℤ, pos, negsuc, leb_ℤ, ltb_ℤ}
use route_x_reverse_proxy.Config.RateLimits as Config
use route_x_reverse_proxy.Config.RateLimits.{
  RateLimits, ConfigError, below_zero, is_set, crossed, reject, validate_counts, validate_sizes,
  validate_tcp_udp,
}
use route_x_reverse_proxy.Iptables.Validator as Iptables
use route_x_reverse_proxy.Iptables.Validator.{
  ValidateResult, check, warn, outside, above_zero, any_negative, warn_modules, check_ttl,
  check_packet_size, check_payload,
}

check-valid :
    (failed : Bool) (message : String) (res : ValidateResult)
    → (check failed message res).valid ≡ (res.valid && not failed)
unfolding check
check-valid failed message res = ground arith

warn-valid :
    (cond : Bool) (message : String) (res : ValidateResult)
    → (warn cond message res).valid ≡ res.valid
unfolding warn
warn-valid cond message res = ground arith

warn_modules-valid :
    (loaded : String → Bool) (names : List String) (res : ValidateResult)
    → (warn_modules loaded names res).valid ≡ res.valid
unfolding warn_modules
warn_modules-valid loaded [] res = refl
warn_modules-valid loaded (name ∷ names) res =
    warn_modules-valid loaded names _ ∙ warn-valid (not (loaded name)) _ res

-- Three checks in a row.
checks-valid :
    (a b c : Bool) (ma mb mc : String) (res : ValidateResult)
    → (check c mc (check b mb (check a ma res))).valid ≡ (res.valid && not (a || b || c))
unfolding check
checks-valid a b c ma mb mc res = ground arith

-- Whether the result is no error.
unfoldable pub is_ok : Result ConfigError (Unit {0}) → Bool
is_ok (ok a) = true
is_ok (err e) = false

fail_if-is_ok :
    (cond : Bool) (e : ConfigError) (k : Result ConfigError (Unit {0}))
    → is_ok (fail_if cond e >> k) ≡ (not cond && is_ok k)
unfolding is_ok
fail_if-is_ok true e k = refl
fail_if-is_ok false e k = refl

>>-is_ok : (r k : Result ConfigError (Unit {0})) → is_ok (r >> k) ≡ (is_ok r && is_ok k)
unfolding is_ok
>>-is_ok (ok a) k = refl
>>-is_ok (err e) k = refl

last-is_ok : (cond : Bool) (e : ConfigError) → is_ok (fail_if cond e) ≡ not cond
unfolding is_ok
last-is_ok true e = refl
last-is_ok false e = refl

-- What the two validators say of a pair of limits.
abbrev pub bad_pair : ℕ → ℤ → ℤ → Bool
bad_pair bound lo hi =
    outside bound lo || outside bound hi || (above_zero lo && above_zero hi && leb_ℤ hi lo)

above_zero-is_set : (n : ℤ) → below_zero n ≡ false → above_zero n ≡ is_set n
above_zero-is_set (pos zero) h = ground (arith, h)
above_zero-is_set (pos (suc n)) h = ground (arith, h)
above_zero-is_set (negsuc n) h = ground (arith, h)

pair_lem :
    (bound : ℕ) (lo hi : ℤ)
    → ltb_ℤ (pos bound) lo ≡ false
    → ltb_ℤ (pos bound) hi ≡ false
    → not (bad_pair bound lo hi) ≡ (not (below_zero lo || below_zero hi) && not (crossed lo hi))
pair_lem bound (pos zero) (pos zero) h k = ground (arith, h, k)
pair_lem bound (pos zero) (pos (suc m)) h k = ground (arith, h, k)
pair_lem bound (pos (suc n)) (pos zero) h k = ground (arith, h, k)
pair_lem bound (pos (suc n)) (pos (suc m)) h k = ground (arith, h, k)
pair_lem bound (pos n) (negsuc m) h k = ground (arith, h, k)
pair_lem bound (negsuc n) (pos m) h k = ground (arith, h, k)
pair_lem bound (negsuc n) (negsuc m) h k = ground (arith, h, k)

-- The two validators, each as one condition.
abbrev pub payload_bad : RateLimits → Bool
payload_bad rl =
    outside 65535 rl.udp_max_payload
    || outside 65535 rl.udp_min_payload
    || (above_zero rl.udp_min_payload
        && above_zero rl.udp_max_payload
        && ltb_ℤ rl.udp_max_payload rl.udp_min_payload)

check_ttl-valid :
    (rl : RateLimits) (res : ValidateResult)
    → (check_ttl rl res).valid ≡ (res.valid && not (bad_pair 255 rl.min_ttl rl.max_ttl))
unfolding check_ttl
check_ttl-valid rl res = checks-valid _ _ _ _ _ _ res

check_packet_size-valid :
    (rl : RateLimits) (res : ValidateResult)
    → (check_packet_size rl res).valid
      ≡ (res.valid && not (bad_pair 65535 rl.min_packet_size rl.max_packet_size))
unfolding check_packet_size
check_packet_size-valid rl res = checks-valid _ _ _ _ _ _ res

check_payload-valid :
    (rl : RateLimits) (res : ValidateResult)
    → (check_payload rl res).valid ≡ (res.valid && not (payload_bad rl))
unfolding check_payload
check_payload-valid rl res = checks-valid _ _ _ _ _ _ res

iptables-valid :
    (loaded : String → Bool) (rl : RateLimits) (protocol : String)
    → (Iptables.validate_rate_limits true loaded rl protocol).valid ≡ (
        not (bad_pair 255 rl.min_ttl rl.max_ttl)
        && not (bad_pair 65535 rl.min_packet_size rl.max_packet_size)
        && not (any_negative rl)
        && not (payload_bad rl))
unfolding Iptables.validate_rate_limits
iptables-valid loaded rl protocol =
    warn-valid _ _ _
    ∙ check_payload-valid rl _
    ∙ rw
        (
          check-valid (any_negative rl) "rate limit values must be >= 0" _,
          check_packet_size-valid rl _,
          check_ttl-valid rl _,
          warn_modules-valid loaded _ _,
          check-valid false "iptables binary not found in PATH" _,
        )
        refl

validate_counts-is_ok :
    (rl : RateLimits)
    → is_ok (validate_counts rl) ≡ (
        not (below_zero rl.tcp_pps_per_ip)
        && not (below_zero rl.udp_pps_per_ip)
        && not (below_zero rl.new_conns_per_sec_per_ip)
        && not (below_zero rl.new_conns_per_sec_global)
        && not (below_zero rl.max_simultaneous_conns_per_ip)
        && not (below_zero rl.max_total_conns))
unfolding validate_counts
validate_counts-is_ok rl = simp (>>-is_ok, last-is_ok, and_assoc) refl

validate_sizes-is_ok :
    (rl : RateLimits)
    → is_ok (validate_sizes rl) ≡ (
        not (below_zero rl.min_ttl || below_zero rl.max_ttl)
        && not (crossed rl.min_ttl rl.max_ttl)
        && not (below_zero rl.min_packet_size || below_zero rl.max_packet_size)
        && not (crossed rl.min_packet_size rl.max_packet_size))
unfolding validate_sizes
validate_sizes-is_ok rl = simp (>>-is_ok, last-is_ok) refl

validate_tcp_udp-is_ok :
    (rl : RateLimits)
    → is_ok (validate_tcp_udp rl) ≡ (
        not (below_zero rl.tcp_syn_rate_per_ip)
        && not (below_zero rl.tcp_rst_rate_per_ip)
        && not (below_zero rl.udp_max_payload || below_zero rl.udp_min_payload)
        && not (crossed rl.udp_min_payload rl.udp_max_payload))
unfolding validate_tcp_udp
validate_tcp_udp-is_ok rl = simp (>>-is_ok, last-is_ok) refl

payload_lem :
    (lo hi : ℤ)
    → ltb_ℤ (pos 65535) lo ≡ false
    → ltb_ℤ (pos 65535) hi ≡ false
    → (lo ≡ hi → lo ≡ pos 0)
    → not (outside 65535 hi || outside 65535 lo || (above_zero lo && above_zero hi && ltb_ℤ hi lo))
      ≡ (not (below_zero hi || below_zero lo) && not (crossed lo hi))
payload_lem (pos zero) (pos zero) h k d = ground (arith, h, k)
payload_lem (pos zero) (pos (suc m)) h k d = ground (arith, h, k)
payload_lem (pos (suc n)) (pos zero) h k d = ground (arith, h, k)
payload_lem (pos (suc n)) (pos (suc m)) h k d =
    let apart : n ≢ m = λ same. ground (arith, d (ap (λ x. pos (suc x)) same)) in
    ground (arith, h, k, apart)
payload_lem (pos n) (negsuc m) h k d = ground (arith, h, k)
payload_lem (negsuc n) (pos m) h k d = ground (arith, h, k)
payload_lem (negsuc n) (negsuc m) h k d = ground (arith, h, k)

regroup :
    (t t1 t2 p p1 p2 u u1 u2 a b c d e f g h : Bool)
    → t ≡ (t1 && t2)
    → p ≡ (p1 && p2)
    → u ≡ (u1 && u2)
    → (t && p && not (a || b || c || d || e || f || g || h) && u) ≡ (
        not a
        && not b
        && not c
        && not d
        && not e
        && not f
        && (t1 && t2 && p1 && p2)
        && (not g && not h && u1 && u2))
regroup t t1 t2 p p1 p2 u u1 u2 a b c d e f g h et ep eu = ground (arith, et, ep, eu)

config-is_ok :
    (rl : RateLimits)
    → is_ok (Config.validate_rate_limits rl)
      ≡ (is_ok (validate_counts rl) && is_ok (validate_sizes rl) && is_ok (validate_tcp_udp rl))
unfolding Config.validate_rate_limits
config-is_ok rl = simp (>>-is_ok) refl

config-conditions :
    (rl : RateLimits)
    → is_ok (Config.validate_rate_limits rl) ≡ (
        not (below_zero rl.tcp_pps_per_ip)
        && not (below_zero rl.udp_pps_per_ip)
        && not (below_zero rl.new_conns_per_sec_per_ip)
        && not (below_zero rl.new_conns_per_sec_global)
        && not (below_zero rl.max_simultaneous_conns_per_ip)
        && not (below_zero rl.max_total_conns)
        && (not (below_zero rl.min_ttl || below_zero rl.max_ttl)
            && not (crossed rl.min_ttl rl.max_ttl)
            && not (below_zero rl.min_packet_size || below_zero rl.max_packet_size)
            && not (crossed rl.min_packet_size rl.max_packet_size))
        && (not (below_zero rl.tcp_syn_rate_per_ip)
            && not (below_zero rl.tcp_rst_rate_per_ip)
            && not (below_zero rl.udp_max_payload || below_zero rl.udp_min_payload)
            && not (crossed rl.udp_min_payload rl.udp_max_payload)))
config-conditions rl =
    config-is_ok rl
    ∙ rw (validate_counts-is_ok rl, validate_sizes-is_ok rl, validate_tcp_udp-is_ok rl) refl

-- The bounds that the firewall sets and the configuration does not: a time to live of a byte, sizes
-- of a packet, and payload limits that are equal only where they are off.
pub record IsBounded (rl : RateLimits) : Type 0 where
  pub min_ttl : ltb_ℤ (pos 255) rl.min_ttl ≡ false
  pub max_ttl : ltb_ℤ (pos 255) rl.max_ttl ≡ false
  pub min_packet : ltb_ℤ (pos 65535) rl.min_packet_size ≡ false
  pub max_packet : ltb_ℤ (pos 65535) rl.max_packet_size ≡ false
  pub min_payload : ltb_ℤ (pos 65535) rl.udp_min_payload ≡ false
  pub max_payload : ltb_ℤ (pos 65535) rl.udp_max_payload ≡ false
  pub apart : rl.udp_min_payload ≡ rl.udp_max_payload → rl.udp_min_payload ≡ pos 0

-- Where the command is present and the limits are bounded (a time to live at most 255, sizes and
-- payloads at most 65535, the two payload limits equal only at 0), the firewall's validator finds
-- limits valid exactly when the configuration's validator accepts them, for each protocol and
-- whichever kernel modules are loaded.
pub validate_rate_limits-agree :
    (loaded : String → Bool) (rl : RateLimits) (protocol : String)
    → IsBounded rl
    → (Iptables.validate_rate_limits true loaded rl protocol).valid
      ≡ is_ok (Config.validate_rate_limits rl)
validate_rate_limits-agree loaded rl protocol b =
    iptables-valid loaded rl protocol
    ∙ regroup _ (not (below_zero rl.min_ttl || below_zero rl.max_ttl))
        (not (crossed rl.min_ttl rl.max_ttl)) _
        (not (below_zero rl.min_packet_size || below_zero rl.max_packet_size))
        (not (crossed rl.min_packet_size rl.max_packet_size)) _
        (not (below_zero rl.udp_max_payload || below_zero rl.udp_min_payload))
        (not (crossed rl.udp_min_payload rl.udp_max_payload)) (below_zero rl.tcp_pps_per_ip)
        (below_zero rl.udp_pps_per_ip) (below_zero rl.new_conns_per_sec_per_ip)
        (below_zero rl.new_conns_per_sec_global) (below_zero rl.max_simultaneous_conns_per_ip)
        (below_zero rl.max_total_conns) (below_zero rl.tcp_syn_rate_per_ip)
        (below_zero rl.tcp_rst_rate_per_ip) (pair_lem 255 rl.min_ttl rl.max_ttl b.min_ttl b.max_ttl)
        (pair_lem 65535 rl.min_packet_size rl.max_packet_size b.min_packet b.max_packet)
        (payload_lem rl.udp_min_payload rl.udp_max_payload b.min_payload b.max_payload b.apart)
    ∙ sym (config-conditions rl)
