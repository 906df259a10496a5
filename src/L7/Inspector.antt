-- ===== src/L7/Inspector.antt =====
-- internal/l7/inspector.go, `Inspector`. The configured bytes of a custom rule are given as
-- `parseHexBytes` returned them, the empty list where it failed.
use route_x_reverse_proxy.Common.{
  ℕ, ◌+◌, Bool, true, false, not, ◌&&◌, List, [], ◌∷◌, Option, none, some, String, ltb, leb,
  if◌then◌else◌, ◌==◌, string_eq, nat_eq, length, take, drop, retain,
}
use route_x_reverse_proxy.Net.{bytes_equal}
use route_x_reverse_proxy.L7.Patterns.{check_mode}

-- The offset is a position in the payload, so it is not negative.
pub record CustomRule : Type 0 where
  pub name : String
  pub match_offset : ℕ
  pub match_bytes : List ℕ
  pub action : String

pub record InspectionConfig : Type 0 where
  pub enabled : Bool
  pub mode : String
  pub custom_rules : List CustomRule

pub record Inspector : Type 0 where
  pub mode : Option String
  pub custom_rules : List CustomRule
  pub enabled : Bool
  pub passed : ℕ
  pub dropped : ℕ

-- The first argument is whether protection is on. `mode` is `none` without a detector.
unfoldable pub new_inspector : Bool → InspectionConfig → Inspector
new_inspector enabled c =
    if enabled && c.enabled
    then record {
      mode = some c.mode;
      custom_rules = retain (λ r. ltb 0 (length r.match_bytes)) c.custom_rules;
      enabled = true;
      passed = 0;
      dropped = 0;
    }
    else record { mode = none; custom_rules = []; enabled = false; passed = 0; dropped = 0 }

unfoldable pub matches : List ℕ → CustomRule → Bool
matches payload r =
    leb (r.match_offset + length r.match_bytes) (length payload)
    && bytes_equal (take (length r.match_bytes) (drop r.match_offset payload)) r.match_bytes

-- The answer of the custom rules: `none` where none matches.
unfoldable pub custom : List ℕ → List CustomRule → Option Bool
custom payload [] = none
custom payload (r ∷ rs) =
    let later = custom payload rs in
    if matches payload r then some (not (r.action == "drop")) else later

-- The answer of the detector, if there is one that is set to a protocol.
unfoldable pub detect : Option String → List ℕ → Bool
detect none payload = true
detect (some mode) payload =
    if not (mode == "none") && not (mode == "") then check_mode mode payload else true

unfoldable pub tally : Bool → Inspector → Inspector
tally true i = record i { passed = i.passed + 1 }
tally false i = record i { dropped = i.dropped + 1 }

unfoldable pub verdict : Inspector → List ℕ → Bool
verdict i payload = elim (custom payload i.custom_rules) [
  | some answer ↦ answer
  | none ↦ detect i.mode payload
]

unfoldable pub inspect : Inspector → List ℕ → Inspector × Bool
inspect i payload =
    if i.enabled then (tally (verdict i payload) i, verdict i payload) else (i, true)
