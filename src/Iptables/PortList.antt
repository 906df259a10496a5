-- ===== src/Iptables/PortList.antt =====
-- internal/iptables/rules.go, `portList`: ports as a text for `--dport`.
use route_x_reverse_proxy.Common.{
  ℕ, ◌+◌, Bool, true, false, List, [], ◌∷◌, ◌++◌, map, if◌then◌else◌, ◌==◌, nat_eq,
}
use route_x_reverse_proxy.Text.Edit.{Text, join}
use route_x_reverse_proxy.Text.Number.{decimal}

-- The loop that compares each port with the one before it.
unfoldable pub contiguous : ℕ → List ℕ → Bool
contiguous before [] = true
contiguous before (p ∷ ps) = let rest = contiguous p ps in if p == before + 1 then rest else false

abbrev pub last_of : ℕ → List ℕ → ℕ
last_of p [] = p
last_of p (q ∷ qs) = last_of q qs

-- The ports joined by commas.
unfoldable pub listed : List ℕ → Text
listed ports = join 44 (map decimal ports)

unfoldable pub port_list : List ℕ → Text
port_list [] = listed []
port_list (p ∷ []) = decimal p
port_list (p ∷ q ∷ ps) =
    if contiguous p (q ∷ ps) then decimal p ++ 58 ∷ decimal (last_of q ps) else listed (p ∷ q ∷ ps)
