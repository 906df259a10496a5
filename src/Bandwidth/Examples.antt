-- ===== src/Bandwidth/Examples.antt =====
-- internal/bandwidth: the theorems at a concrete tracker.
use route_x_reverse_proxy.Common.{◌*◌, ◌/◌, ◌≡◌, refl, inl, false, [], ◌∷◌, arith}
use route_x_reverse_proxy.Common.Int.{pos}
use route_x_reverse_proxy.Common.Assoc.{lookup, insert}
use route_x_reverse_proxy.Bandwidth.Tracker.{
  Quota, is_zero, Tracker, Calendar, new_tracker, put_in, maybe_check_quota, check_quota, snapshot,
  used_from, record_in,
}
use route_x_reverse_proxy.Bandwidth.Totals.{
  IsBalanced, records_in, records_out, suspends, uses, uses-IsBalanced, KeepsWindows,
}
use route_x_reverse_proxy.Bandwidth.Quotas.{Started, WithinMore, record-Enforced}

-- The calendar of UTC for the days, with weeks of seven and months of thirty days.
abbrev calendar : Calendar
calendar = record {
  day_start = λ now. now / 86400 * 86400;
  week_start = λ now. now / 604800 * 604800;
  month_start = λ now. now / 2592000 * 2592000;
}

abbrev quota : Quota
quota = record { hourly = pos 100; daily = pos 1000; weekly = pos 0; monthly = pos 0 }

abbrev tracker : Tracker
tracker = record {
  name = "web";
  quota = quota;
  buckets = (7200, record { in_bytes = 10; out_bytes = 20 }) ∷ [];
  inbound = 10;
  outbound = 20;
  suspended = false;
}

still_running : (record_in calendar 69 7300 tracker).suspended ≡ false
unfolding record_in maybe_check_quota check_quota snapshot used_from put_in lookup insert is_zero
still_running = refl

started : Started calendar 7300
started = record { day = omega arith; week = omega arith; month = omega arith }

record-Enforced_example : WithinMore calendar 69 7300 tracker
record-Enforced_example =
    record-Enforced calendar 69 7300 tracker (record_in calendar 69 7300 tracker) started (inl refl)
      still_running

uses-IsBalanced_example : IsBalanced (
    uses calendar
      (new_tracker "web" quota)
      (records_in 5 7300 ∷ records_out 7 11000 ∷ suspends ∷ []))
uses-IsBalanced_example =
    uses-IsBalanced calendar "web" quota (records_in 5 7300 ∷ records_out 7 11000 ∷ suspends ∷ [])

kept : KeepsWindows calendar 3000000
kept = record { day = omega arith; week = omega arith; month = omega arith }
