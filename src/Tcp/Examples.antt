-- ===== src/Tcp/Examples.antt =====
-- internal/proxy/tcp.go: the theorems at a concrete proxy with two connections.
use route_x_reverse_proxy.Common.{
  ℕ, zero, suc, ◌≡◌, refl, true, false, List, [], ◌∷◌, none, some, String, arith, string_eq, nat_eq,
  ◌+◌, ◌-◌, ◌*◌, ◌/◌, ltb, leb, get_elem?,
}
use route_x_reverse_proxy.Common.Int.{pos}
use route_x_reverse_proxy.Common.Assoc.{lookup, insert, delete}
use route_x_reverse_proxy.Net.{Ip}
use route_x_reverse_proxy.Acl.Compose.{check_composed}
use route_x_reverse_proxy.Bandwidth.Tracker.{Calendar}
use route_x_reverse_proxy.L7.Bucket.{Floats}
use route_x_reverse_proxy.L7.Engine as Protection
use route_x_reverse_proxy.Lb.Target.{Target, inc_active, dec_active}
use route_x_reverse_proxy.Lb.Balancer.{Balancer, pick, sticky_hit, remember, release}
use route_x_reverse_proxy.Lb.Ledger.{IsExact}
use route_x_reverse_proxy.Lb.Algorithms.{round_robin, pick_alg, pick_round_robin, scan}
use route_x_reverse_proxy.Proxy.Conn.{new_conn_tracker, register, forget}
use route_x_reverse_proxy.Proxy.Portmap.{is_one_to_one}
use route_x_reverse_proxy.Udp.Datagrams.{is_suspended}
use route_x_reverse_proxy.Tcp.Drainer.{wait_over, new_drainer, track, done}
use route_x_reverse_proxy.Tcp.Connections.{
  launch, set_out, destination, dest_port, enter, set_handler, start_copies, credit_in, credit_out,
  leave, TcpProxy, new_tcp_proxy, to_stage,
}
use route_x_reverse_proxy.Tcp.Events.{
  Event, accepts, picks, dials, copies_in, copies_out, leaves, marks, steps, step, accept, welcome,
  at_stage, choose, picked, copied_in, copied_out, count_in, count_out, stop_copying, needs_first,
  dialled,
}
use route_x_reverse_proxy.Tcp.Runs.{Sound}
use route_x_reverse_proxy.Tcp.Drained.{steps-Sound, steps-drained}
use route_x_reverse_proxy.Tcp.Late.{LateProxy}
use route_x_reverse_proxy.Tcp.Copies.{steps-Late}
use route_x_reverse_proxy.L7.Blocks.{Blocks}

abbrev client : Ip
client = 10 ∷ 0 ∷ 0 ∷ 1 ∷ []

abbrev target : Target
target = record {
  ip = 10 ∷ 0 ∷ 0 ∷ 2 ∷ [];
  port = 80;
  weight = pos 1;
  healthy = true;
  active_conns = pos 0;
  total_conns = 0;
  fail_count = 0;
}

abbrev balancer : Balancer
balancer = record { algorithm = round_robin; targets = target ∷ []; rr_cursor = 0; sticky = none }

idle : IsExact balancer.targets []
idle zero t e = ground (arith, e)
idle (suc n) t e = absurd (ground (arith, e))

abbrev ip_string : Ip → String
ip_string ip = "10.0.0.1"

abbrev rand : ℕ → ℕ
rand n = 0

-- Whole numbers in place of float64.
abbrev numbers : Floats
numbers = record {
  Number = ℕ;
  add = λ a b. a + b;
  sub = λ a b. a - b;
  mul = λ a b. a * b;
  le = leb;
  lt = ltb;
  of_int = λ n. n;
  near_full = 1;
  seconds = λ n. n / 1000000000;
}

abbrev days : Calendar
days = record { day_start = λ now. now; week_start = λ now. now; month_start = λ now. now }

-- The first connection copies to its end, and the dial of the second fails.
abbrev events : List Event
events =
    accepts client 5000 0
    ∷ accepts client 5001 1
    ∷ picks 1 2
    ∷ picks 2 3
    ∷ dials 1 true
    ∷ dials 2 false
    ∷ copies_in 1 100 4
    ∷ leaves 2
    ∷ copies_out 1 900 5
    ∷ leaves 1
    ∷ []

abbrev fresh_proxy : TcpProxy numbers
fresh_proxy = new_tcp_proxy "web" 8080 none balancer new_conn_tracker (none, none) none none

steps-Sound_example : Sound (steps numbers ip_string rand days fresh_proxy events)
steps-Sound_example =
    steps-Sound numbers ip_string rand days "web" 8080 none balancer (none, none) none none events
      idle

abbrev after : TcpProxy numbers
after = steps numbers ip_string rand days fresh_proxy events

all_left : after.handlers ≡ []
unfolding steps step accept launch track welcome new_tcp_proxy new_drainer is_suspended
    check_composed at_stage lookup insert delete choose pick sticky_hit remember pick_alg
    pick_round_robin scan picked set_out destination dest_port enter register set_handler to_stage
    dialled needs_first start_copies copied_in copied_out count_in count_out credit_in credit_out
    stop_copying leave forget release done is_one_to_one inc_active dec_active
all_left = refl

steps-drained_example :
    (after.tracker.conns ≡ [])
    × (after.active_conns ≡ pos 0)
    × ((i : ℕ) (t : Target) → get_elem? after.balancer.targets i ≡ some t → t.active_conns ≡ pos 0)
    × (wait_over after.drainer 0 false ≡ true)
steps-drained_example =
    steps-drained numbers ip_string rand days "web" 8080 none balancer (none, none) none none events
      after idle refl all_left

-- The client is banned for good.
abbrev engine : Protection.Engine numbers
engine = record {
  cfg = record {
    enabled = true;
    rate_enabled = true;
    max_bytes_per_sec_per_ip = pos 100;
    burst_multiplier = 2;
    cycling_enabled = true;
    window = 1000;
    max_conns_in_window = pos 5;
    inspection = record { enabled = true; mode = "none"; custom_rules = [] };
    scoring = record {
      enabled = false;
      ban_threshold = pos 50;
      ban_duration = 60;
      score_rules = [];
    };
  };
  inspector = record {
    mode = some "none";
    custom_rules =
        record { name = "zero"; match_offset = 1; match_bytes = 0 ∷ []; action = "drop" } ∷ [];
    enabled = true;
    passed = 0;
    dropped = 0;
  };
  ip_bytes_tokens = [];
  cycling_windows = [];
  scores = [];
  bans = ("10.0.0.1", record { ip = client; expires_at = 0; reason = "" }) ∷ [];
  blocked_conns = 0;
  banned_ips = 0;
  events = [];
}

abbrev guarded : TcpProxy numbers
guarded = new_tcp_proxy "web" 8080 none balancer new_conn_tracker (none, none) (some engine) none

-- The client tries twice, and a target is marked in between.
abbrev tries : List Event
tries = accepts client 5000 7 ∷ marks client 80 false ∷ picks 1 8 ∷ accepts client 5001 9 ∷ []

steps-Late_example : LateProxy (steps numbers ip_string rand days fresh_proxy events)
steps-Late_example =
    steps-Late numbers ip_string rand days "web" 8080 none balancer new_conn_tracker (none, none)
      none none events
