-- ===== src/Iptables/Validator.antt =====
-- internal/iptables/validator.go. Whether the command and the kernel modules are there is given.
use Prim.Native.String.{◌++◌ as concat}
use route_x_reverse_proxy.Common.{
  ℕ, Bool, true, false, not, ◌&&◌, ◌||◌, List, [], ◌∷◌, ◌++◌, String, if◌then◌else◌, ◌==◌,
  string_eq,
}
use route_x_reverse_proxy.Common.Int.{ℤ, pos, leb_ℤ, ltb_ℤ}
use route_x_reverse_proxy.Config.RateLimits.{RateLimits, below_zero}

pub record ValidateResult : Type 0 where
  pub valid : Bool
  pub errors : List String
  pub warns : List String

-- A failed check adds its error and makes the result invalid.
unfoldable pub check : Bool → String → ValidateResult → ValidateResult
check failed message res =
    if failed then record res { errors = res.errors ++ message ∷ []; valid = false } else res

unfoldable pub warn : Bool → String → ValidateResult → ValidateResult
warn cond message res = if cond then record res { warns = res.warns ++ message ∷ [] } else res

-- Outside of 0 to the bound.
abbrev pub outside : ℕ → ℤ → Bool
outside bound n = below_zero n || ltb_ℤ (pos bound) n

abbrev pub above_zero : ℤ → Bool
above_zero n = ltb_ℤ (pos 0) n

abbrev pub any_negative : RateLimits → Bool
any_negative rl =
    below_zero rl.tcp_pps_per_ip
    || below_zero rl.udp_pps_per_ip
    || below_zero rl.new_conns_per_sec_per_ip
    || below_zero rl.new_conns_per_sec_global
    || below_zero rl.max_simultaneous_conns_per_ip
    || below_zero rl.max_total_conns
    || below_zero rl.tcp_syn_rate_per_ip
    || below_zero rl.tcp_rst_rate_per_ip

abbrev pub tcp_limits_set : RateLimits → Bool
tcp_limits_set rl =
    above_zero rl.tcp_pps_per_ip
    || above_zero rl.tcp_syn_rate_per_ip
    || rl.tcp_invalid_state_drop
    || above_zero rl.tcp_rst_rate_per_ip

unfoldable pub warn_modules : (String → Bool) → List String → ValidateResult → ValidateResult
warn_modules module_loaded [] res = res
warn_modules module_loaded (name ∷ names) res = warn_modules module_loaded names (
    warn (not (module_loaded name)) (concat (concat "kernel module " name) " may not be loaded")
      res)

unfoldable pub check_ttl : RateLimits → ValidateResult → ValidateResult
check_ttl rl res =
    check (above_zero rl.min_ttl && above_zero rl.max_ttl && leb_ℤ rl.max_ttl rl.min_ttl)
      "min_ttl must be < max_ttl"
      (check (outside 255 rl.max_ttl) "max_ttl must be 0-255"
        (check (outside 255 rl.min_ttl) "min_ttl must be 0-255" res))

unfoldable pub check_packet_size : RateLimits → ValidateResult → ValidateResult
check_packet_size rl res =
    check
      (above_zero rl.min_packet_size
        && above_zero rl.max_packet_size
        && leb_ℤ rl.max_packet_size rl.min_packet_size)
      "min_packet_size must be < max_packet_size"
      (check (outside 65535 rl.max_packet_size) "max_packet_size must be 0-65535"
        (check (outside 65535 rl.min_packet_size) "min_packet_size must be 0-65535" res))

unfoldable pub check_payload : RateLimits → ValidateResult → ValidateResult
check_payload rl res =
    check
      (above_zero rl.udp_min_payload
        && above_zero rl.udp_max_payload
        && ltb_ℤ rl.udp_max_payload rl.udp_min_payload)
      "udp_min_payload must be <= udp_max_payload"
      (check (outside 65535 rl.udp_min_payload) "udp_min_payload must be 0-65535"
        (check (outside 65535 rl.udp_max_payload) "udp_max_payload must be 0-65535" res))

unfoldable pub validate_rate_limits : Bool → (String → Bool) → RateLimits → String → ValidateResult
validate_rate_limits has_iptables module_loaded rl protocol =
    let start : ValidateResult = record { valid = true; errors = []; warns = [] } in
    let modules = "xt_hashlimit" ∷ "xt_connlimit" ∷ "xt_recent" ∷ "xt_state" ∷ [] in
    let present = check (not has_iptables) "iptables binary not found in PATH" start in
    let sized = check_packet_size rl (check_ttl rl (warn_modules module_loaded modules present)) in
    let counted = check (any_negative rl) "rate limit values must be >= 0" sized in
    warn (protocol == "udp" && tcp_limits_set rl)
      "tcp-specific limits set on udp-only proxy — will be ignored" (check_payload rl counted)
