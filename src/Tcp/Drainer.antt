-- ===== src/Tcp/Drainer.antt =====
-- internal/proxy/draining.go. The wait group and the live count move together and are one count.
use route_x_reverse_proxy.Common.{ℕ, Bool, true, false, ◌||◌, if◌then◌else◌, leb}
use route_x_reverse_proxy.Common.Int.{ℤ, pos, negsuc, pos_part, ◌+ℤ◌, leb_ℤ}

pub record Drainer : Type 0 where
  pub timeout : ℤ
  pub live : ℤ
  pub closing : Bool

unfoldable pub new_drainer : ℤ → Drainer
new_drainer timeout = record { timeout = timeout; live = pos 0; closing = false }

unfoldable pub track : Drainer → Drainer
track d = record d { live = d.live +ℤ pos 1 }

-- The callback that `Track` returns.
unfoldable pub done : Drainer → Drainer
done d = record d { live = d.live +ℤ negsuc 0 }

-- `Wait` up to the `select`: whether it goes on to wait.
unfoldable pub wait : Drainer → Drainer × Bool
wait d =
    if d.closing
    then (d, false)
    else if leb_ℤ d.timeout (pos 0)
    then (record d { closing = true }, false)
    else (record d { closing = true }, true)

-- The `select`: what lets a wait end after some time, with its context cancelled or not.
unfoldable pub wait_over : Drainer → ℕ → Bool → Bool
wait_over d elapsed cancelled =
    leb_ℤ d.live (pos 0) || leb (pos_part d.timeout) elapsed || cancelled
