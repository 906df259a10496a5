-- ===== src/Lb/Target.antt =====
-- internal/lb/balancer.go, `Target`. An atomic operation is a function on the record; the counters
-- are unbounded, as no run reaches 2^63 connections.
use route_x_reverse_proxy.Common.{ℕ, suc, ◌+◌, ◌-◌, ◌≡◌, Bool, arith, if◌then◌else◌}
use route_x_reverse_proxy.Common.Int.{ℤ, pos, negsuc, ◌+ℤ◌, neg_ℤ, ltb_ℤ}
use route_x_reverse_proxy.Net.{Ip}

pub record Target : Type 0 where
  pub ip : Ip
  pub port : ℕ
  pub weight : ℤ
  pub healthy : Bool
  pub active_conns : ℤ
  pub total_conns : ℕ
  pub fail_count : ℕ

unfoldable pub new_target : Ip → ℕ → ℤ → Bool → Target
new_target ip port weight healthy = record {
  ip = ip;
  port = port;
  weight = weight;
  healthy = healthy;
  active_conns = pos 0;
  total_conns = 0;
  fail_count = 0;
}

-- Returns the previous flag.
unfoldable pub health_mark : Bool → Target → Target × Bool
health_mark healthy t = (record t { healthy = healthy }, t.healthy)

unfoldable pub inc_active : Target → Target
inc_active t = record t { active_conns = t.active_conns +ℤ pos 1; total_conns = t.total_conns + 1 }

-- The decrement, and the restoring addition of what it fell below zero, without interruption.
unfoldable pub dec_active : Target → Target
dec_active t =
    let v = t.active_conns +ℤ negsuc 0 in
    record t { active_conns = if ltb_ℤ v (pos 0) then v +ℤ neg_ℤ v else v }

unfoldable pub inc_fail : Target → Target
inc_fail t = record t { fail_count = t.fail_count + 1 }

unfoldable pub reset_fail : Target → Target
reset_fail t = record t { fail_count = 0 }

-- On a counter that is not negative the decrement stops at zero.
pub dec_active-clamps :
    (t : Target) (n : ℕ) → t.active_conns ≡ pos n → (dec_active t).active_conns ≡ pos (n - 1)
unfolding dec_active
dec_active-clamps t n h = ground arith

pub inc_active-suc :
    (t : Target) (n : ℕ) → t.active_conns ≡ pos n → (inc_active t).active_conns ≡ pos (suc n)
unfolding inc_active
inc_active-suc t n h = ground arith
