-- ===== src/Bandwidth/Tracker.antt =====
-- internal/bandwidth/tracker.go. The calendar of a location is a parameter: from a time, the starts
-- of its day, week and month. Times are in seconds since 1970, and the counts of bytes are not
-- bounded. Recorded numbers of bytes are lengths, so they are not negative. A recording is one step:
-- the source adds to the total before it takes the lock. So is a reset, where the source stores the
-- totals after the lock is released.
use route_x_reverse_proxy.Common.{
  ℕ, zero, suc, ◌+◌, ◌-◌, ◌*◌, ◌/◌, Bool, true, false, ◌&&◌, [], ◌∷◌, none, some, String, leb,
  if◌then◌else◌, nat_eq, retain,
}
use route_x_reverse_proxy.Common.Int.{ℤ, pos, negsuc, leb_ℤ, ltb_ℤ}
use route_x_reverse_proxy.Common.Assoc.{Assoc, lookup, insert}

pub record Quota : Type 0 where
  pub hourly : ℤ
  pub daily : ℤ
  pub weekly : ℤ
  pub monthly : ℤ

abbrev pub is_zero_ℤ : ℤ → Bool
is_zero_ℤ (pos zero) = true
is_zero_ℤ (pos (suc n)) = false
is_zero_ℤ (negsuc n) = false

unfoldable pub is_zero : Quota → Bool
is_zero q = is_zero_ℤ q.hourly && is_zero_ℤ q.daily && is_zero_ℤ q.weekly && is_zero_ℤ q.monthly

pub record BytePair : Type 0 where
  pub in_bytes : ℕ
  pub out_bytes : ℕ

pub record Tracker : Type 0 where
  pub name : String
  pub quota : Quota
  pub buckets : Assoc ℕ BytePair
  pub inbound : ℕ
  pub outbound : ℕ
  pub suspended : Bool

unfoldable pub new_tracker : String → Quota → Tracker
new_tracker name quota = record {
  name = name;
  quota = quota;
  buckets = [];
  inbound = 0;
  outbound = 0;
  suspended = false;
}

-- `Truncate(time.Hour).Unix()`.
abbrev pub current_hour : ℕ → ℕ
current_hour now = now / 3600 * 3600

-- What `time.Date` gives for a time in a location: the starts of its day, week and month.
pub record Calendar : Type 0 where
  pub day_start : ℕ → ℕ
  pub week_start : ℕ → ℕ
  pub month_start : ℕ → ℕ

abbrev pub total : BytePair → ℕ
total bp = bp.in_bytes + bp.out_bytes

-- The sum over the buckets from an hour on.
unfoldable pub used_from : ℕ → Assoc ℕ BytePair → ℕ
used_from start [] = 0
used_from start (kv ∷ m) =
    let rest = used_from start m in if leb start kv.0 then total kv.1 + rest else rest

pub record Used : Type 0 where
  pub hourly_used : ℕ
  pub daily_used : ℕ
  pub weekly_used : ℕ
  pub monthly_used : ℕ

unfoldable pub set_quota : Quota → Tracker → Tracker
set_quota q t = record t { quota = q }

unfoldable pub suspend : Tracker → Tracker
suspend t = record t { suspended = true }

unfoldable pub resume : Tracker → Tracker
resume t = record t { suspended = false }

unfoldable pub reset : Tracker → Tracker
reset t = record t { buckets = []; inbound = 0; outbound = 0; suspended = false }

abbrev pub keep_hours : ℕ
keep_hours = 31 * 24

-- `pruneOldBuckets`.
unfoldable pub prune_old_buckets : ℕ → Tracker → Tracker
prune_old_buckets now t = record t {
  buckets = retain (λ kv. leb (now - keep_hours * 3600) kv.0) t.buckets;
}

-- A quota that is set and reached.
abbrev pub reached : ℤ → ℕ → Bool
reached limit used = ltb_ℤ (pos 0) limit && leb_ℤ limit (pos used)

abbrev pub pair_at : ℕ → Assoc ℕ BytePair → BytePair
pair_at hour m = elim (lookup hour m) [
  | none ↦ record { in_bytes = 0; out_bytes = 0 }
  | some bp ↦ bp
]

unfoldable pub put_in : ℕ → ℕ → Tracker → Tracker
put_in n now t =
    let bp = pair_at (current_hour now) t.buckets in
    record t {
      inbound = t.inbound + n;
      buckets = insert (current_hour now) (record bp { in_bytes = bp.in_bytes + n }) t.buckets;
    }

unfoldable pub put_out : ℕ → ℕ → Tracker → Tracker
put_out n now t =
    let bp = pair_at (current_hour now) t.buckets in
    record t {
      outbound = t.outbound + n;
      buckets = insert (current_hour now) (record bp { out_bytes = bp.out_bytes + n }) t.buckets;
    }

module _ (cal : Calendar) where
  -- The sums of `snapshot`.
  unfoldable pub snapshot : ℕ → Tracker → Used
  snapshot now t = record {
    hourly_used = used_from (current_hour now) t.buckets;
    daily_used = used_from (cal.day_start now / 3600 * 3600) t.buckets;
    weekly_used = used_from (cal.week_start now / 3600 * 3600) t.buckets;
    monthly_used = used_from (cal.month_start now / 3600 * 3600) t.buckets;
  }

  -- The window that is exceeded first, or the empty text.
  unfoldable pub check_quota : ℕ → Tracker → Tracker × String
  check_quota now t =
      let s = snapshot now t in
      if is_zero t.quota
      then (t, "")
      else if reached t.quota.hourly s.hourly_used
      then (suspend t, "hourly")
      else if reached t.quota.daily s.daily_used
      then (suspend t, "daily")
      else if reached t.quota.weekly s.weekly_used
      then (suspend t, "weekly")
      else if reached t.quota.monthly s.monthly_used
      then (suspend t, "monthly")
      else (t, "")

  unfoldable pub maybe_check_quota : ℕ → Tracker → Tracker
  maybe_check_quota now t = if t.suspended then t else (check_quota now t).0

  unfoldable pub record_in : ℕ → ℕ → Tracker → Tracker
  record_in n now t = maybe_check_quota now (put_in n now t)

  unfoldable pub record_out : ℕ → ℕ → Tracker → Tracker
  record_out n now t = maybe_check_quota now (put_out n now t)

  -- A turn of the cleanup loop.
  unfoldable pub clean_up : ℕ → Tracker → Tracker
  clean_up now t = (check_quota now (prune_old_buckets now t)).0
