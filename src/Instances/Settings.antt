-- ===== src/Instances/Settings.antt =====
-- internal/config/proxy.go and defs.go: what an instance is built from, and internal/proxy/manager.go,
-- `resolveTimeouts`. `net.ParseIP` is a parameter. Durations are integers of nanoseconds.
use route_x_reverse_proxy.Common.{
  ℕ, Bool, true, false, List, [], ◌∷◌, ◌++◌, ◌&&◌, Option, none, some, String, Result, ok, err,
  ◌>>=◌, ◌>>◌, fail_if, if◌then◌else◌,
}
use route_x_reverse_proxy.Common.Int.{ℤ, pos, ltb_ℤ}
use route_x_reverse_proxy.Common.Assoc.{Assoc}
use route_x_reverse_proxy.Net.{Ip}
use route_x_reverse_proxy.Text.Edit.{Text, is_empty, trim_space, split}
use route_x_reverse_proxy.Bandwidth.Tracker.{Quota, is_zero_ℤ}
use route_x_reverse_proxy.Health.Checker as Health
use route_x_reverse_proxy.L7.Bucket.{Floats}
use route_x_reverse_proxy.L7.Engine as Protection
use route_x_reverse_proxy.Config.Ports.{parse_port_range}
use route_x_reverse_proxy.Config.RateLimits.{is_set}

-- Of a proxy, of the defaults, and of the two together.
pub record Timeouts : Type 0 where
  pub upstream_connect : ℤ
  pub upstream_read : ℤ
  pub upstream_write : ℤ
  pub client_read : ℤ
  pub client_write : ℤ
  pub udp_session_timeout : ℤ

pub record ProxyConfig (F : Floats) : Type 0 where
  pub name : String
  pub config_path : String
  pub protocol : String
  pub origin_ip : Text
  pub dest_ip : Text
  pub origin_port : Text
  pub dest_port : Text
  pub one_to_one : Bool
  pub algorithm : String
  pub sticky_sessions : Bool
  pub sticky_ttl : ℤ
  pub upstream_weights : Assoc String ℤ
  pub health_check : Health.Config
  pub timeouts : Timeouts
  pub bandwidth_enabled : Bool
  pub quota : Quota
  pub l7_protection : Protection.Config F

pub record Defaults : Type 0 where
  pub timeouts : Timeouts
  pub health_check : Health.Config

-- `Duration.Or`.
unfoldable pub or_default : ℤ → ℤ → ℤ
or_default d fallback = if is_set d then d else fallback

unfoldable pub resolve_timeouts : Defaults → Timeouts → Timeouts
resolve_timeouts gd pt = record {
  upstream_connect = or_default pt.upstream_connect gd.timeouts.upstream_connect;
  upstream_read = or_default pt.upstream_read gd.timeouts.upstream_read;
  upstream_write = or_default pt.upstream_write gd.timeouts.upstream_write;
  client_read = or_default pt.client_read gd.timeouts.client_read;
  client_write = or_default pt.client_write gd.timeouts.client_write;
  udp_session_timeout = or_default pt.udp_session_timeout gd.timeouts.udp_session_timeout;
}

-- An override that is positive.
abbrev positive_or : ℤ → ℤ → ℤ
positive_or d fallback = if ltb_ℤ (pos 0) d then d else fallback

unfoldable pub health_config : Defaults → Health.Config → Health.Config
health_config gd hc = record {
  interval = positive_or hc.interval gd.health_check.interval;
  timeout = positive_or hc.timeout gd.health_check.timeout;
  failures_before_eject =
      positive_or hc.failures_before_eject gd.health_check.failures_before_eject;
  passes_before_readmit =
      positive_or hc.passes_before_readmit gd.health_check.passes_before_readmit;
}

-- `ProxyBandwidth.IsZero`.
unfoldable pub quota_is_zero : Quota → Bool
quota_is_zero q =
    is_zero_ℤ q.hourly && is_zero_ℤ q.daily && is_zero_ℤ q.weekly && is_zero_ℤ q.monthly

pub data IpError : Type 0 where
  invalid_ip no_valid_ips : Text → IpError

abbrev pub no_ips : List Text → Bool
no_ips [] = true
no_ips (ip ∷ ips) = false

module _ (parse_ip : Text → Option Ip) where
  unfoldable pub take_ip : List Text → Text → Result IpError (List Text)
  take_ip out ip =
      if is_empty ip
      then ok out
      else elim (parse_ip ip) [ none ↦ err (invalid_ip ip) | some parsed ↦ ok (out ++ ip ∷ []) ]

  unfoldable pub split_parts : List Text → List Text → Result IpError (List Text)
  split_parts out [] = ok out
  split_parts out (part ∷ parts) = take_ip out (trim_space part) >>= λ more. split_parts more parts

  unfoldable pub split_ips : Text → Result IpError (List Text)
  split_ips s =
      if is_empty (trim_space s)
      then ok []
      else split_parts [] (split 44 s) >>= λ out. fail_if (no_ips out) (no_valid_ips s) >> ok out

  -- `ResolveOriginIPs` and `ResolveDestIPs`.
  unfoldable pub resolve_ips : Text → List Text
  resolve_ips s = elim (split_ips s) [ ok ips ↦ ips | err e ↦ [] ]

-- `ResolveOriginPorts` and `ResolveDestPorts`.
unfoldable pub resolve_ports : Text → List ℕ
resolve_ports s = elim (parse_port_range s) [ ok ports ↦ ports | err e ↦ [] ]
