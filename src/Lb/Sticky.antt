-- ===== src/Lb/Sticky.antt =====
-- internal/lb/balancer.go, `stickyTable`: source address to target index, with an expiry. An `int64`
-- is kept as its two's complement; the readings of the clock, `UnixNano`, are not negative.
use route_x_reverse_proxy.Common.{
  ℕ, zero, suc, ◌+◌, ◌*◌, ◌%◌, ◌^◌, ◌≤◌, ◌≡◌, Bool, ◌||◌, not, Option, none, some, String, [],
  arith, leb, if◌then◌else◌, length, retain, string_eq, ◌==◌,
}
use route_x_reverse_proxy.Common.Int.{ℤ, pos, negsuc}
use route_x_reverse_proxy.Common.Assoc.{
  Assoc, lookup, insert, delete, lookup-insert, Distinct, lookup-retain,
}

pub record StickyEntry : Type 0 where
  pub target_idx : ℕ
  pub expiry : ℕ

pub record StickyTable : Type 0 where
  pub ttl : ℕ
  pub entries : Assoc String StickyEntry

-- The configured seconds, 3600 where they are not positive, in nanoseconds.
abbrev ttl_seconds : ℤ → ℕ
ttl_seconds (pos zero) = 3600
ttl_seconds (pos (suc n)) = suc n
ttl_seconds (negsuc n) = 3600

unfoldable pub new_sticky_table : ℤ → StickyTable
new_sticky_table secs = record { ttl = (ttl_seconds secs * 1000000000) % 2 ^ 64; entries = [] }

-- `e.expiry <= now`, of an `int64` and a time.
abbrev pub lapsed : ℕ → ℕ → Bool
lapsed expiry now = leb (2 ^ 63) expiry || leb expiry now

-- `none` for Go's -1.
unfoldable pub get : StickyTable → String → ℕ → Option ℕ
get s key now = elim (lookup key s.entries) [
  | none ↦ none
  | some e ↦ if lapsed e.expiry now then none else some e.target_idx
]

unfoldable pub put : StickyTable → String → ℕ → ℕ → StickyTable
put s key idx now = record s {
  entries = insert key (record { target_idx = idx; expiry = (now + s.ttl) % 2 ^ 64 }) s.entries;
}

unfoldable pub drop : StickyTable → String → StickyTable
drop s key = record s { entries = delete key s.entries }

unfoldable pub size : StickyTable → ℕ
size s = length s.entries

unfoldable pub prune : StickyTable → ℕ → StickyTable
prune s now = record s { entries = retain (λ kv. not (lapsed kv.1.expiry now)) s.entries }

-- A mapping is read back until its expiry, and not from then on.
pub get-put :
    (s : StickyTable) (key other : String) (idx now later : ℕ)
    → get (put s key idx now) other later ≡ (
        if key == other
        then (if lapsed ((now + s.ttl) % 2 ^ 64) later then none else some idx)
        else get s other later)
unfolding get put
get-put s key other idx now later = ground (
  arith,
  lookup-insert key other (record { target_idx = idx; expiry = (now + s.ttl) % 2 ^ 64 }) s.entries,
)

-- Pruning is invisible to reads at the time of the pruning or later.
pub get-prune :
    (s : StickyTable) (key : String) (now later : ℕ)
    → Distinct s.entries
    → now ≤ later
    → get (prune s now) key later ≡ get s key later
unfolding get prune
get-prune s key now later d h =
    ground (arith, lookup-retain key (λ kv. not (lapsed kv.1.expiry now)) s.entries d)
