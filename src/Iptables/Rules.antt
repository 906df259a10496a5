-- ===== src/Iptables/Rules.antt =====
-- internal/iptables/rules.go, `BuildRules`. `shown` turns the text of a number or of a port list into
-- a string.
use Prim.Native.String.{◌++◌ as concat}
use route_x_reverse_proxy.Common.{
  ℕ, Bool, ◌&&◌, ◌||◌, List, [], ◌∷◌, ◌++◌, String, if◌then◌else◌, ◌==◌, string_eq,
}
use route_x_reverse_proxy.Common.Int.{ℤ, pos, ◌+ℤ◌}
use route_x_reverse_proxy.Text.Edit.{Text}
use route_x_reverse_proxy.Text.Number.{signed}
use route_x_reverse_proxy.Config.RateLimits.{RateLimits}
use route_x_reverse_proxy.Iptables.PortList.{port_list}
use route_x_reverse_proxy.Iptables.Validator.{above_zero}

pub record Rule : Type 0 where
  pub table : String
  pub chain : String
  pub spec : List String
  pub comment : String

-- `if cond { rules = append(rules, rule) }`.
unfoldable pub when : Bool → Rule → List Rule
when cond rule = if cond then rule ∷ [] else []

abbrev pub has_tcp : String → Bool
has_tcp protocol = protocol == "tcp" || protocol == "tcp-udp"

abbrev pub has_udp : String → Bool
has_udp protocol = protocol == "udp" || protocol == "tcp-udp"

unfoldable pub proto_for_protocol : String → String
proto_for_protocol protocol =
    if protocol == "tcp"
    then "tcp"
    else if protocol == "udp"
    then "udp"
    else if protocol == "tcp-udp"
    then "tcp"
    else "tcp"

module _ (shown : Text → String) where
  unfoldable pub comment : String → String → List ℕ → String
  comment prefix kind ports =
      concat prefix (concat "-" (concat kind (concat "-" (shown (port_list ports)))))

  abbrev pub per_second : ℤ → String
  per_second n = concat (shown (signed n)) "/sec"

module _ (shown : Text → String) (prefix : String) (ports : List ℕ) where
  -- The limits of packets, of connections, and of TCP alone, in the order of the source.
  unfoldable pub packet_rules : String → RateLimits → String → List Rule
  packet_rules name rl protocol =
      when (above_zero rl.tcp_pps_per_ip && has_tcp protocol) (record {
        table = "filter";
        chain = "INPUT";
        comment = comment shown prefix "TCP-PPS" ports;
        spec =
            "-p"
            ∷ "tcp"
            ∷ "--dport"
            ∷ shown (port_list ports)
            ∷ "-m"
            ∷ "hashlimit"
            ∷ "--hashlimit-name"
            ∷ concat "routex_tcp_pps_" name
            ∷ "--hashlimit-above"
            ∷ per_second shown rl.tcp_pps_per_ip
            ∷ "--hashlimit-mode"
            ∷ "srcip"
            ∷ "-m"
            ∷ "comment"
            ∷ "--comment"
            ∷ comment shown prefix "TCP-PPS" ports
            ∷ "-j"
            ∷ "DROP"
            ∷ [];
      })
      ++ when (above_zero rl.udp_pps_per_ip && has_udp protocol) (record {
        table = "filter";
        chain = "INPUT";
        comment = comment shown prefix "UDP-PPS" ports;
        spec =
            "-p"
            ∷ "udp"
            ∷ "--dport"
            ∷ shown (port_list ports)
            ∷ "-m"
            ∷ "hashlimit"
            ∷ "--hashlimit-name"
            ∷ concat "routex_udp_pps_" name
            ∷ "--hashlimit-above"
            ∷ per_second shown rl.udp_pps_per_ip
            ∷ "--hashlimit-mode"
            ∷ "srcip"
            ∷ "-m"
            ∷ "comment"
            ∷ "--comment"
            ∷ comment shown prefix "UDP-PPS" ports
            ∷ "-j"
            ∷ "DROP"
            ∷ [];
      })

  unfoldable pub connection_rules : String → RateLimits → String → List Rule
  connection_rules name rl protocol =
      when (above_zero rl.new_conns_per_sec_per_ip) (record {
        table = "filter";
        chain = "INPUT";
        comment = comment shown prefix "NewConn-PerIP" ports;
        spec =
            "-p"
            ∷ "tcp"
            ∷ "--dport"
            ∷ shown (port_list ports)
            ∷ "--syn"
            ∷ "-m"
            ∷ "recent"
            ∷ "--name"
            ∷ concat "routex_newconn_" name
            ∷ "--rcheck"
            ∷ "--seconds"
            ∷ "1"
            ∷ "--hitcount"
            ∷ shown (signed (rl.new_conns_per_sec_per_ip +ℤ pos 1))
            ∷ "-m"
            ∷ "comment"
            ∷ "--comment"
            ∷ comment shown prefix "NewConn-PerIP" ports
            ∷ "-j"
            ∷ "DROP"
            ∷ [];
      })
      ++ when (above_zero rl.max_simultaneous_conns_per_ip) (record {
        table = "filter";
        chain = "INPUT";
        comment = comment shown prefix "MaxSimul-PerIP" ports;
        spec =
            "-p"
            ∷ "tcp"
            ∷ "--dport"
            ∷ shown (port_list ports)
            ∷ "-m"
            ∷ "connlimit"
            ∷ "--connlimit-above"
            ∷ shown (signed rl.max_simultaneous_conns_per_ip)
            ∷ "--connlimit-mask"
            ∷ "32"
            ∷ "-m"
            ∷ "comment"
            ∷ "--comment"
            ∷ comment shown prefix "MaxSimul-PerIP" ports
            ∷ "-j"
            ∷ "DROP"
            ∷ [];
      })
      ++ when (above_zero rl.max_total_conns) (record {
        table = "filter";
        chain = "INPUT";
        comment = comment shown prefix "MaxTotal" ports;
        spec =
            "-p"
            ∷ "tcp"
            ∷ "--dport"
            ∷ shown (port_list ports)
            ∷ "-m"
            ∷ "connlimit"
            ∷ "--connlimit-above"
            ∷ shown (signed rl.max_total_conns)
            ∷ "-m"
            ∷ "comment"
            ∷ "--comment"
            ∷ comment shown prefix "MaxTotal" ports
            ∷ "-j"
            ∷ "DROP"
            ∷ [];
      })
      ++ when (rl.drop_fragmented_packets) (record {
        table = "filter";
        chain = "INPUT";
        comment = comment shown prefix "FragDrop" ports;
        spec =
            "-p"
            ∷ proto_for_protocol protocol
            ∷ "--dport"
            ∷ shown (port_list ports)
            ∷ "-f"
            ∷ "-m"
            ∷ "comment"
            ∷ "--comment"
            ∷ comment shown prefix "FragDrop" ports
            ∷ "-j"
            ∷ "DROP"
            ∷ [];
      })

  unfoldable pub tcp_rules : String → RateLimits → String → List Rule
  tcp_rules name rl protocol =
      when (above_zero rl.tcp_syn_rate_per_ip && has_tcp protocol) (record {
        table = "filter";
        chain = "INPUT";
        comment = comment shown prefix "SYN-Rate" ports;
        spec =
            "-p"
            ∷ "tcp"
            ∷ "--dport"
            ∷ shown (port_list ports)
            ∷ "--syn"
            ∷ "-m"
            ∷ "hashlimit"
            ∷ "--hashlimit-name"
            ∷ concat "routex_syn_" name
            ∷ "--hashlimit-above"
            ∷ per_second shown rl.tcp_syn_rate_per_ip
            ∷ "--hashlimit-mode"
            ∷ "srcip"
            ∷ "-m"
            ∷ "comment"
            ∷ "--comment"
            ∷ comment shown prefix "SYN-Rate" ports
            ∷ "-j"
            ∷ "DROP"
            ∷ [];
      })
      ++ when (rl.tcp_invalid_state_drop && has_tcp protocol) (record {
        table = "filter";
        chain = "INPUT";
        comment = comment shown prefix "Invalid-State" ports;
        spec =
            "-p"
            ∷ "tcp"
            ∷ "--dport"
            ∷ shown (port_list ports)
            ∷ "-m"
            ∷ "state"
            ∷ "--state"
            ∷ "INVALID"
            ∷ "-m"
            ∷ "comment"
            ∷ "--comment"
            ∷ comment shown prefix "Invalid-State" ports
            ∷ "-j"
            ∷ "DROP"
            ∷ [];
      })
      ++ when (above_zero rl.tcp_rst_rate_per_ip && has_tcp protocol) (record {
        table = "filter";
        chain = "INPUT";
        comment = comment shown prefix "RST-Rate" ports;
        spec =
            "-p"
            ∷ "tcp"
            ∷ "--dport"
            ∷ shown (port_list ports)
            ∷ "--tcp-flags"
            ∷ "RST"
            ∷ "RST"
            ∷ "-m"
            ∷ "hashlimit"
            ∷ "--hashlimit-name"
            ∷ concat "routex_rst_" name
            ∷ "--hashlimit-above"
            ∷ per_second shown rl.tcp_rst_rate_per_ip
            ∷ "--hashlimit-mode"
            ∷ "srcip"
            ∷ "-m"
            ∷ "comment"
            ∷ "--comment"
            ∷ comment shown prefix "RST-Rate" ports
            ∷ "-j"
            ∷ "DROP"
            ∷ [];
      })

  unfoldable pub build_rules : String → RateLimits → String → List Rule
  build_rules name rl protocol =
      packet_rules name rl protocol
      ++ (connection_rules name rl protocol ++ tcp_rules name rl protocol)
