-- ===== src/Udp/Examples.antt =====
-- internal/proxy/udp.go: the theorems at a concrete proxy, with two datagrams of a client, a reap
-- between them, and the end of the first reader.
use route_x_reverse_proxy.Common.{
  ℕ, ◌≡◌, refl, true, false, List, [], ◌∷◌, none, some, String, arith, string_eq, nat_eq, ◌+◌, ◌+◌,
  ◌-◌, ◌*◌, ◌/◌, leb, ltb, All,
}
use route_x_reverse_proxy.Common.Int.{pos}
use route_x_reverse_proxy.Common.Assoc.{lookup}
use route_x_reverse_proxy.Net.{Ip}
use route_x_reverse_proxy.Lb.Target.{Target}
use route_x_reverse_proxy.Lb.Algorithms.{round_robin}
use route_x_reverse_proxy.Proxy.Conn.{new_conn_tracker}
use route_x_reverse_proxy.Udp.Sessions.{Session, UdpProxy, end_reader}
use route_x_reverse_proxy.Acl.Engine.{Engine}
use route_x_reverse_proxy.Bandwidth.Tracker.{Calendar}
use route_x_reverse_proxy.L7.Bucket.{Floats}
use route_x_reverse_proxy.L7.Engine as Protection
use route_x_reverse_proxy.L7.Blocks.{Blocks}
use route_x_reverse_proxy.Udp.Datagrams.{Guarded}
use route_x_reverse_proxy.Udp.Flood.{Datagram, flood, Same, flood-Same}
use route_x_reverse_proxy.Udp.History.{
  Happening, datagram, ends, reaps, Sound, start, history, history-Sound, end_reader-newer,
}

abbrev client : Ip
client = 10 ∷ 0 ∷ 0 ∷ 1 ∷ []

abbrev target : Target
target = record {
  ip = 10 ∷ 0 ∷ 0 ∷ 2 ∷ [];
  port = 53;
  weight = pos 1;
  healthy = true;
  active_conns = pos 0;
  total_conns = 0;
  fail_count = 0;
}

abbrev proxy : UdpProxy
proxy = record {
  proxy_name = "dns";
  origin_port = 53;
  session_timeout = 60;
  resolver = none;
  balancer = record {
    algorithm = round_robin;
    targets = target ∷ [];
    rr_cursor = 0;
    sticky = none;
  };
  tracker = new_conn_tracker;
  sessions = [];
  readers = [];
  active_conns = pos 0;
  total_conns = 0;
}

abbrev happenings : List Happening
happenings =
    datagram "10.0.0.1:5000" client 5000 true 0
    ∷ reaps 100
    ∷ datagram "10.0.0.1:5000" client 5000 true 110
    ∷ ends 1
    ∷ []

abbrev ip_string : Ip → String
ip_string ip = "10.0.0.1"

abbrev rand : ℕ → ℕ
rand n = 0

history-Sound_example : Sound (history ip_string rand (start proxy) happenings)
history-Sound_example = history-Sound ip_string rand proxy happenings

abbrev session : Session
session = record { key = "10.0.0.1:5000"; target = 0; cancelled = true; last_activity = 0 }

-- The proxy before the first reader ends.
abbrev reopened : UdpProxy
reopened = record proxy {
  sessions = ("10.0.0.1:5000", 2) ∷ [];
  readers = (1, session) ∷ (2, record session { cancelled = false; last_activity = 110 }) ∷ [];
  active_conns = pos 2;
  total_conns = 2;
}

first_reader : lookup 1 reopened.readers ≡ some session
unfolding lookup
first_reader = refl

newer_listed : lookup "10.0.0.1:5000" reopened.sessions ≡ some 2
unfolding lookup
newer_listed = refl

end_reader-newer_example :
    (lookup "10.0.0.1:5000" (end_reader 1 reopened).sessions ≡ none)
    × (lookup 2 (end_reader 1 reopened).readers ≡ lookup 2 reopened.readers)
end_reader-newer_example =
    end_reader-newer 1 2 session reopened first_reader newer_listed (omega arith)

abbrev deny_all : Engine
deny_all = record {
  default_action = "deny";
  rules = [];
  name = "dns";
  enabled = true;
  allowed = 0;
  denied = 0;
}

-- Whole numbers in place of float64.
abbrev numbers : Floats
numbers = record {
  Number = ℕ;
  add = λ a b. a + b;
  sub = λ a b. a - b;
  mul = λ a b. a * b;
  le = leb;
  lt = ltb;
  of_int = λ n. n;
  near_full = 1;
  seconds = λ n. n / 1000000000;
}

abbrev days : Calendar
days = record { day_start = λ now. now; week_start = λ now. now; month_start = λ now. now }

-- The client is banned for good.
abbrev engine : Protection.Engine numbers
engine = record {
  cfg = record {
    enabled = true;
    rate_enabled = true;
    max_bytes_per_sec_per_ip = pos 100;
    burst_multiplier = 2;
    cycling_enabled = true;
    window = 1000;
    max_conns_in_window = pos 5;
    inspection = record { enabled = true; mode = "none"; custom_rules = [] };
    scoring = record {
      enabled = false;
      ban_threshold = pos 50;
      ban_duration = 60;
      score_rules = [];
    };
  };
  inspector = record {
    mode = some "none";
    custom_rules =
        record { name = "zero"; match_offset = 1; match_bytes = 0 ∷ []; action = "drop" } ∷ [];
    enabled = true;
    passed = 0;
    dropped = 0;
  };
  ip_bytes_tokens = [];
  cycling_windows = [];
  scores = [];
  bans = ("10.0.0.1", record { ip = client; expires_at = 0; reason = "" }) ∷ [];
  blocked_conns = 0;
  banned_ips = 0;
  events = [];
}

abbrev guarded : Guarded numbers
guarded = record {
  proxy = reopened;
  global_acl = none;
  proxy_acl = none;
  protection = some engine;
  recorder = none;
  bytes_in = 0;
}

banned_there : Blocks (ip_string client) 200 engine.bans
unfolding lookup
banned_there = record {
  entry = record { ip = client; expires_at = 0; reason = "" };
  here = refl;
  open_still = refl;
}

abbrev request : ℕ → Datagram
request now = record {
  key = "10.0.0.1:5000";
  port = 5000;
  payload = 1 ∷ [];
  dialled = true;
  time = now;
}

flood-Same_example :
    Same numbers ip_string rand days guarded
      (flood numbers ip_string rand days client (request 120 ∷ request 121 ∷ []) guarded).0
    × All
        (λ o. o ≡ none)
        (flood numbers ip_string rand days client (request 120 ∷ request 121 ∷ []) guarded).1
flood-Same_example =
    flood-Same numbers ip_string rand days client 200 engine (request 120 ∷ request 121 ∷ [])
      guarded refl refl banned_there (omega arith, (omega arith, tt))
