-- ===== src/Proxy/Examples.antt =====
-- internal/proxy: the theorems at a concrete number and concrete connections.
use route_x_reverse_proxy.Common.{◌≡◌, false, [], ◌∷◌, some, arith}
use route_x_reverse_proxy.Common.Int.{pos}
use route_x_reverse_proxy.Text.Edit.{Text}
use route_x_reverse_proxy.Proxy.Numbers.{itoa, parse_port, parse_port-itoa}
use route_x_reverse_proxy.Proxy.Conn.{
  ConnInfo, new_conn_tracker, registers, forgets, calls, IsConsistent, calls-IsConsistent,
}

abbrev client : ConnInfo
client = record {
  id = 0;
  proxy_name = "web";
  protocol = "tcp";
  src_ip = 10 ∷ 0 ∷ 0 ∷ 1 ∷ [];
  src_port = 5000;
  upstream_ip = 10 ∷ 0 ∷ 0 ∷ 2 ∷ [];
  upstream_port = 80;
  started_at = 0;
  bytes_in = 0;
  bytes_out = 0;
  closed = false;
}

calls-IsConsistent_example :
    IsConsistent
      (calls new_conn_tracker (registers client ∷ registers client ∷ forgets 1 ∷ forgets 1 ∷ []))
calls-IsConsistent_example =
    calls-IsConsistent (registers client ∷ registers client ∷ forgets 1 ∷ forgets 1 ∷ [])

parse_port-itoa_example : (s : Text) × (itoa (pos 25565) ≡ some s) × (parse_port s ≡ 25565)
parse_port-itoa_example = parse_port-itoa 25565 (omega arith)
