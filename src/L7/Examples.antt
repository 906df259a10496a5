-- ===== src/L7/Examples.antt =====
-- internal/l7: the theorems at a concrete engine.
use route_x_reverse_proxy.Common.{
  ℕ, ◌+◌, ◌-◌, ◌*◌, ◌/◌, ◌≤◌, ◌≡◌, refl, true, false, List, [], ◌∷◌, ◌++◌, some, String, arith, ltb,
  leb, if◌then◌else◌, ◌==◌, string_eq, nat_eq, length,
}
use route_x_reverse_proxy.Common.Int.{pos}
use route_x_reverse_proxy.Net.{Ip, bytes_equal}
use route_x_reverse_proxy.L7.Patterns.{read_var_int}
use route_x_reverse_proxy.L7.VarInt.{encode, read_var_int-encode}
use route_x_reverse_proxy.L7.Inspector.{CustomRule, Inspector, matches}
use route_x_reverse_proxy.L7.Window.{SlidingWindow, new_sliding_window}
use route_x_reverse_proxy.L7.Bucket.{Floats, IsOrdered, TokenBucket}
use route_x_reverse_proxy.L7.Engine.{Config, Engine, new_engine}
use route_x_reverse_proxy.L7.Scores.{IsSafe}
use route_x_reverse_proxy.L7.Steps.{Step, accepts, sends, unbans_ip, prunes, steps, steps-IsSafe}

read_var_int-encode_example : read_var_int (encode 4 300 ++ 0 ∷ []) ≡ (300, length (encode 4 300))
read_var_int-encode_example = read_var_int-encode 300 (0 ∷ []) (omega arith)

sized : 3 ≤ length (encode 4 300 ++ 0 ∷ [])
unfolding encode
sized = omega arith

abbrev drop_zero : CustomRule
drop_zero = record { name = "zero"; match_offset = 1; match_bytes = 0 ∷ []; action = "drop" }

abbrev allow_one : CustomRule
allow_one = record { name = "one"; match_offset = 0; match_bytes = 1 ∷ []; action = "allow" }

abbrev inspector : Inspector
inspector = record {
  mode = some "none";
  custom_rules = allow_one ∷ drop_zero ∷ [];
  enabled = true;
  passed = 0;
  dropped = 0;
}

abbrev payload : List ℕ
payload = 7 ∷ 0 ∷ 9 ∷ []

misses : matches payload allow_one ≡ false
unfolding matches bytes_equal
misses = refl

hits_zero : matches payload drop_zero ≡ true
unfolding matches bytes_equal
hits_zero = refl

abbrev text_of : Ip → String
text_of [] = "<nil>"
text_of (b ∷ bs) = if b == 10 then "10.0.0.1" else "10.0.0.2"

abbrev first_ip : Ip
first_ip = 10 ∷ 0 ∷ 0 ∷ 1 ∷ []

abbrev second_ip : Ip
second_ip = 11 ∷ 0 ∷ 0 ∷ 2 ∷ []

abbrev window : SlidingWindow
window = new_sliding_window 1000 10 0

-- Whole numbers in place of float64.
abbrev numbers : Floats
numbers = record {
  Number = ℕ;
  add = λ a b. a + b;
  sub = λ a b. a - b;
  mul = λ a b. a * b;
  le = leb;
  lt = ltb;
  of_int = λ n. n;
  near_full = 1;
  seconds = λ n. n / 1000000000;
}

numbers-IsOrdered : IsOrdered numbers
numbers-IsOrdered = record {
  lt_is_not_le = λ a b. ground arith;
  le_refl = λ a. ground arith;
  le_trans = λ a b c g h. ground (arith, g, h);
}

abbrev bucket : TokenBucket numbers
bucket = record { rate = 100; burst = 200; tokens = 50; last_refill = 0 }

abbrev config : Config numbers
config = record {
  enabled = true;
  rate_enabled = true;
  max_bytes_per_sec_per_ip = pos 100;
  burst_multiplier = 2;
  cycling_enabled = true;
  window = 1000;
  max_conns_in_window = pos 5;
  inspection = record { enabled = true; mode = "none"; custom_rules = [] };
  scoring = record { enabled = true; ban_threshold = pos 50; ban_duration = 60; score_rules = [] };
}

steps-IsSafe_example : IsSafe (
    steps numbers text_of
      (accepts first_ip 1 ∷ sends first_ip payload false 2 ∷ prunes 3 ∷ [])
      (new_engine numbers text_of config))
steps-IsSafe_example =
    steps-IsSafe numbers text_of config
      (accepts first_ip 1 ∷ sends first_ip payload false 2 ∷ prunes 3 ∷ [])

abbrev engine : Engine numbers
engine = record {
  cfg = config;
  inspector = inspector;
  ip_bytes_tokens = [];
  cycling_windows = [];
  scores = ("10.0.0.1", 25) ∷ [];
  bans = [];
  blocked_conns = 0;
  banned_ips = 0;
  events = [];
}

abbrev between : List Step
between =
    accepts first_ip 30 ∷ unbans_ip second_ip ∷ sends first_ip payload false 40 ∷ prunes 50 ∷ []
