-- ===== src/Bandwidth/Totals.antt =====
-- internal/bandwidth/tracker.go: the buckets against the running totals, and pruning.
use route_x_reverse_proxy.Common.{
  ℕ, ◌+◌, ◌-◌, ◌*◌, ◌/◌, ◌≤◌, ◌≡◌, refl, List, [], ◌∷◌, String, leb, ◌==◌, nat_eq, retain, arith,
  Bool-cases, inl, inr,
}
use route_x_reverse_proxy.Common.Assoc.{Assoc, lookup, insert}
use route_x_reverse_proxy.Bandwidth.Tracker.{
  Quota, BytePair, Tracker, Calendar, new_tracker, current_hour, total, pair_at, used_from, put_in,
  put_out, snapshot, set_quota, suspend, resume, reset, check_quota, maybe_check_quota, record_in,
  record_out, keep_hours, prune_old_buckets,
}

-- Writing a bucket changes the sum of the buckets from an hour on, that of the bucket or one before
-- it, by the difference of the bucket.
pub used_insert :
    (start k : ℕ) (bp : BytePair) (m : Assoc ℕ BytePair)
    → start ≤ k
    → used_from start (insert k bp m) + total (pair_at k m) ≡ used_from start m + total bp
unfolding used_from insert lookup
used_insert start k bp [] l = ground (arith, l)
used_insert start k bp ((j, old) ∷ m) l = elim (Bool-cases (j == k)) [
  | inl here ↦ rw here (ground (arith, l))
  | inr later ↦ rw later (ground (arith, used_insert start k bp m l))
]

-- Every byte that the running totals count stands in a bucket.
abbrev pub IsBalanced : Tracker → Type 0
IsBalanced t = used_from 0 t.buckets ≡ t.inbound + t.outbound

put_in-IsBalanced : (n now : ℕ) (t : Tracker) → IsBalanced t → IsBalanced (put_in n now t)
unfolding put_in
put_in-IsBalanced n now t v =
    let bp = pair_at (current_hour now) t.buckets in
    let written =
      used_insert 0 (current_hour now) (record bp { in_bytes = bp.in_bytes + n }) t.buckets
        (omega arith) in
    omega (arith, written, v)

put_out-IsBalanced : (n now : ℕ) (t : Tracker) → IsBalanced t → IsBalanced (put_out n now t)
unfolding put_out
put_out-IsBalanced n now t v =
    let bp = pair_at (current_hour now) t.buckets in
    let written =
      used_insert 0 (current_hour now) (record bp { out_bytes = bp.out_bytes + n }) t.buckets
        (omega arith) in
    omega (arith, written, v)

module _ (cal : Calendar) where
  check_quota-IsBalanced :
      (now : ℕ) (t : Tracker) → IsBalanced t → IsBalanced (check_quota cal now t).0
  unfolding check_quota suspend
  check_quota-IsBalanced now t v = ground (arith, v)

  maybe_check_quota-IsBalanced :
      (now : ℕ) (t : Tracker) → IsBalanced t → IsBalanced (maybe_check_quota cal now t)
  unfolding maybe_check_quota
  maybe_check_quota-IsBalanced now t v = ground (arith, v, check_quota-IsBalanced now t v)

  -- The calls that record, reset and configure; a prune is not among them.
  pub data Use : Type 0 where
    records_in records_out : ℕ → ℕ → Use
    sets_quota : Quota → Use
    suspends resumes resets : Use
    checks : ℕ → Use

  unfoldable pub use_once : Tracker → Use → Tracker
  use_once t (records_in n now) = record_in cal n now t
  use_once t (records_out n now) = record_out cal n now t
  use_once t (sets_quota q) = set_quota q t
  use_once t suspends = suspend t
  use_once t resumes = resume t
  use_once t resets = reset t
  use_once t (checks now) = (check_quota cal now t).0

  unfoldable pub uses : Tracker → List Use → Tracker
  uses t [] = t
  uses t (u ∷ us) = uses (use_once t u) us

  use_once-IsBalanced : (t : Tracker) (u : Use) → IsBalanced t → IsBalanced (use_once t u)
  unfolding use_once record_in record_out set_quota suspend resume reset used_from
  use_once-IsBalanced t (records_in n now) v =
      maybe_check_quota-IsBalanced now (put_in n now t) (put_in-IsBalanced n now t v)
  use_once-IsBalanced t (records_out n now) v =
      maybe_check_quota-IsBalanced now (put_out n now t) (put_out-IsBalanced n now t v)
  use_once-IsBalanced t (sets_quota q) v = v
  use_once-IsBalanced t suspends v = v
  use_once-IsBalanced t resumes v = v
  use_once-IsBalanced t resets v = refl
  use_once-IsBalanced t (checks now) v = check_quota-IsBalanced now t v

  uses_from-IsBalanced : (t : Tracker) (us : List Use) → IsBalanced t → IsBalanced (uses t us)
  unfolding uses
  uses_from-IsBalanced t [] v = v
  uses_from-IsBalanced t (u ∷ us) v =
      uses_from-IsBalanced (use_once t u) us (use_once-IsBalanced t u v)

  -- After any recordings, at any times and hours, changes of the quota, suspensions and resets, and
  -- without a prune, the buckets of a new tracker hold the bytes that the running totals count.
  pub uses-IsBalanced :
      (name : String) (quota : Quota) (us : List Use)
      → IsBalanced (uses (new_tracker name quota) us)
  unfolding new_tracker used_from
  uses-IsBalanced name quota us = uses_from-IsBalanced (new_tracker name quota) us refl

  used_from-retain :
      (cutoff start : ℕ) (m : Assoc ℕ BytePair)
      → cutoff ≤ start
      → used_from start (retain (λ kv. leb cutoff kv.0) m) ≡ used_from start m
  unfolding used_from
  used_from-retain cutoff start [] l = refl
  used_from-retain cutoff start (kv ∷ m) l = ground (arith, used_from-retain cutoff start m l)

  -- The hours at which the windows of a time start have not been pruned at it.
  pub record KeepsWindows (now : ℕ) : Type 0 where
    pub day : now - keep_hours * 3600 ≤ cal.day_start now / 3600 * 3600
    pub week : now - keep_hours * 3600 ≤ cal.week_start now / 3600 * 3600
    pub month : now - keep_hours * 3600 ≤ cal.month_start now / 3600 * 3600

  -- Pruning changes no window's usage, where the calendar's day, week and month started within the
  -- 31 days that are kept.
  pub snapshot-prune :
      (now : ℕ) (t : Tracker)
      → KeepsWindows now
      → snapshot cal now (prune_old_buckets now t) ≡ snapshot cal now t
  unfolding snapshot prune_old_buckets
  snapshot-prune now t k =
      let cutoff = now - keep_hours * 3600 in
      let hour = used_from-retain cutoff (current_hour now) t.buckets (omega arith) in
      let day = used_from-retain cutoff (cal.day_start now / 3600 * 3600) t.buckets k.day in
      let week = used_from-retain cutoff (cal.week_start now / 3600 * 3600) t.buckets k.week in
      let month = used_from-retain cutoff (cal.month_start now / 3600 * 3600) t.buckets k.month in
      ground (arith, hour, day, week, month)
