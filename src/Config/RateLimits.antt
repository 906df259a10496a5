-- ===== src/Config/RateLimits.antt =====
-- internal/config/proxy.go, `validateRateLimits`. The path of the file stands in every error and is
-- left out.
use route_x_reverse_proxy.Common.{
  zero, suc, Bool, true, false, ◌&&◌, ◌||◌, String, Result, ◌>>◌, fail_if,
}
use route_x_reverse_proxy.Common.Int.{ℤ, pos, negsuc, leb_ℤ, ltb_ℤ}

pub record RateLimits : Type 0 where
  pub tcp_pps_per_ip : ℤ
  pub udp_pps_per_ip : ℤ
  pub new_conns_per_sec_per_ip : ℤ
  pub new_conns_per_sec_global : ℤ
  pub max_simultaneous_conns_per_ip : ℤ
  pub max_total_conns : ℤ
  pub drop_fragmented_packets : Bool
  pub min_ttl : ℤ
  pub max_ttl : ℤ
  pub min_packet_size : ℤ
  pub max_packet_size : ℤ
  pub tcp_syn_rate_per_ip : ℤ
  pub tcp_invalid_state_drop : Bool
  pub tcp_rst_rate_per_ip : ℤ
  pub udp_max_payload : ℤ
  pub udp_min_payload : ℤ

pub record ConfigError : Type 0 where
  pub field : String
  pub reason : String

abbrev pub below_zero : ℤ → Bool
below_zero n = ltb_ℤ n (pos 0)

abbrev pub is_set : ℤ → Bool
is_set (pos zero) = false
is_set (pos (suc n)) = true
is_set (negsuc n) = true

-- `lo != 0 && hi != 0 && lo >= hi`.
abbrev pub crossed : ℤ → ℤ → Bool
crossed lo hi = is_set lo && is_set hi && leb_ℤ hi lo

abbrev pub reject : Bool → String → String → Result ConfigError (Unit {0})
reject cond field reason = fail_if cond (record { field = field; reason = reason })

unfoldable pub validate_counts : RateLimits → Result ConfigError (Unit {0})
validate_counts rl =
    reject (below_zero rl.tcp_pps_per_ip) "proxy.rate_limits.tcp_pps_per_ip"
      "must be >= 0 (0 = disabled)"
    >> reject (below_zero rl.udp_pps_per_ip) "proxy.rate_limits.udp_pps_per_ip" "must be >= 0"
    >> reject (below_zero rl.new_conns_per_sec_per_ip) "proxy.rate_limits.new_conns_per_sec_per_ip"
        "must be >= 0"
    >> reject (below_zero rl.new_conns_per_sec_global) "proxy.rate_limits.new_conns_per_sec_global"
        "must be >= 0"
    >> reject (below_zero rl.max_simultaneous_conns_per_ip)
        "proxy.rate_limits.max_simultaneous_conns_per_ip" "must be >= 0"
    >> reject (below_zero rl.max_total_conns) "proxy.rate_limits.max_total_conns" "must be >= 0"

unfoldable pub validate_sizes : RateLimits → Result ConfigError (Unit {0})
validate_sizes rl =
    reject (below_zero rl.min_ttl || below_zero rl.max_ttl) "proxy.rate_limits.min_ttl"
      "min_ttl and max_ttl must be >= 0"
    >> reject (crossed rl.min_ttl rl.max_ttl) "proxy.rate_limits.min_ttl"
        "min_ttl must be < max_ttl when both are set"
    >> reject (below_zero rl.min_packet_size || below_zero rl.max_packet_size)
        "proxy.rate_limits.min_packet_size" "min_packet_size and max_packet_size must be >= 0"
    >> reject (crossed rl.min_packet_size rl.max_packet_size) "proxy.rate_limits.min_packet_size"
        "min_packet_size must be < max_packet_size when both are set"

unfoldable pub validate_tcp_udp : RateLimits → Result ConfigError (Unit {0})
validate_tcp_udp rl =
    reject (below_zero rl.tcp_syn_rate_per_ip) "proxy.rate_limits.tcp_syn_rate_per_ip"
      "must be >= 0"
    >> reject (below_zero rl.tcp_rst_rate_per_ip) "proxy.rate_limits.tcp_rst_rate_per_ip"
        "must be >= 0"
    >> reject (below_zero rl.udp_max_payload || below_zero rl.udp_min_payload)
        "proxy.rate_limits.udp_min_payload" "udp_min_payload and udp_max_payload must be >= 0"
    >> reject (crossed rl.udp_min_payload rl.udp_max_payload) "proxy.rate_limits.udp_min_payload"
        "udp_min_payload must be < udp_max_payload when both are set"

-- The two checks after these accept everything.
unfoldable pub validate_rate_limits : RateLimits → Result ConfigError (Unit {0})
validate_rate_limits rl = validate_counts rl >> validate_sizes rl >> validate_tcp_udp rl
