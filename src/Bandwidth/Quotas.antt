-- ===== src/Bandwidth/Quotas.antt =====
-- internal/bandwidth/tracker.go: when a tracker is suspended.
use route_x_reverse_proxy.Common.{
  ℕ, zero, suc, ◌+◌, ◌*◌, ◌/◌, ◌≤◌, ◌≡◌, ◌⊎◌, ◌∙◌, refl, subst, sym, true, false, arith, Bool-cases,
  inl, inr,
}
use route_x_reverse_proxy.Common.Int.{ℤ, pos, negsuc}
use route_x_reverse_proxy.Bandwidth.Tracker.{
  is_zero, is_zero_ℤ, Tracker, Calendar, snapshot, reached, check_quota, maybe_check_quota, suspend,
  put_in, put_out, record_in, record_out, used_from, pair_at, current_hour,
}
use route_x_reverse_proxy.Bandwidth.Totals.{used_insert}

module _ (cal : Calendar) where
  -- No quota that is set is reached at a time.
  pub record Within (now : ℕ) (t : Tracker) : Type 0 where
    pub hour : reached t.quota.hourly (snapshot cal now t).hourly_used ≡ false
    pub day : reached t.quota.daily (snapshot cal now t).daily_used ≡ false
    pub week : reached t.quota.weekly (snapshot cal now t).weekly_used ≡ false
    pub month : reached t.quota.monthly (snapshot cal now t).monthly_used ≡ false

  zero_unreached : (z : ℤ) (n : ℕ) → is_zero_ℤ z ≡ true → reached z n ≡ false
  zero_unreached (pos zero) n h = ground arith
  zero_unreached (pos (suc k)) n h = absurd (ground (arith, h))
  zero_unreached (negsuc k) n h = absurd (ground (arith, h))

  unset-Within : (now : ℕ) (t : Tracker) → is_zero t.quota ≡ true → Within now t
  unfolding is_zero
  unset-Within now t h =
      let s = snapshot cal now t in
      record {
        hour = zero_unreached t.quota.hourly s.hourly_used (ground (arith, h));
        day = zero_unreached t.quota.daily s.daily_used (ground (arith, h));
        week = zero_unreached t.quota.weekly s.weekly_used (ground (arith, h));
        month = zero_unreached t.quota.monthly s.monthly_used (ground (arith, h));
      }

  checked_same :
      (now : ℕ) (t : Tracker)
      → (check_quota cal now t).0.suspended ≡ false
      → (check_quota cal now t).0 ≡ t
  unfolding check_quota suspend
  checked_same now t h = ground (arith, h)

  set_unreached :
      (now : ℕ) (t : Tracker)
      → is_zero t.quota ≡ false
      → (check_quota cal now t).0.suspended ≡ false
      → Within now t
  unfolding check_quota suspend
  set_unreached now t some_set h = record {
    hour = ground (arith, some_set, h);
    day = ground (arith, some_set, h);
    week = ground (arith, some_set, h);
    month = ground (arith, some_set, h);
  }

  check_quota-Within :
      (now : ℕ) (t : Tracker)
      → (check_quota cal now t).0.suspended ≡ false
      → Within now (check_quota cal now t).0
  check_quota-Within now t h =
      subst (Within now) (sym (checked_same now t h)) (elim (Bool-cases (is_zero t.quota)) [
        | inl unset ↦ unset-Within now t unset
        | inr some_set ↦ set_unreached now t some_set h
      ])

  maybe_same :
      (now : ℕ) (t : Tracker)
      → (maybe_check_quota cal now t).suspended ≡ false
      → maybe_check_quota cal now t ≡ (check_quota cal now t).0
  unfolding maybe_check_quota
  maybe_same now t h = ground (arith, h)

  maybe_check_quota-Within :
      (now : ℕ) (t : Tracker)
      → (maybe_check_quota cal now t).suspended ≡ false
      → Within now (maybe_check_quota cal now t)
  maybe_check_quota-Within now t h =
      let same = maybe_same now t h in
      subst (Within now) (sym same)
        (check_quota-Within now t (subst (λ x. x.suspended ≡ false) same h))

  -- What `time.Date` gives are starts: none lies after the time that was asked for.
  pub record Started (now : ℕ) : Type 0 where
    pub day : cal.day_start now ≤ now
    pub week : cal.week_start now ≤ now
    pub month : cal.month_start now ≤ now

  -- No quota that is set is reached by what stands in its window with n bytes more.
  pub record WithinMore (n now : ℕ) (t : Tracker) : Type 0 where
    pub hour : reached t.quota.hourly ((snapshot cal now t).hourly_used + n) ≡ false
    pub day : reached t.quota.daily ((snapshot cal now t).daily_used + n) ≡ false
    pub week : reached t.quota.weekly ((snapshot cal now t).weekly_used + n) ≡ false
    pub month : reached t.quota.monthly ((snapshot cal now t).monthly_used + n) ≡ false

  put_in-adds :
      (n now start : ℕ) (t : Tracker)
      → start ≤ now
      → used_from (start / 3600 * 3600) (put_in n now t).buckets
        ≡ used_from (start / 3600 * 3600) t.buckets + n
  unfolding put_in
  put_in-adds n now start t l =
      let bp = pair_at (current_hour now) t.buckets in
      let written =
        used_insert (start / 3600 * 3600) (current_hour now)
          (record bp { in_bytes = bp.in_bytes + n }) t.buckets (omega arith) in
      omega (arith, written)

  put_out-adds :
      (n now start : ℕ) (t : Tracker)
      → start ≤ now
      → used_from (start / 3600 * 3600) (put_out n now t).buckets
        ≡ used_from (start / 3600 * 3600) t.buckets + n
  unfolding put_out
  put_out-adds n now start t l =
      let bp = pair_at (current_hour now) t.buckets in
      let written =
        used_insert (start / 3600 * 3600) (current_hour now)
          (record bp { out_bytes = bp.out_bytes + n }) t.buckets (omega arith) in
      omega (arith, written)

  -- A tracker with the same quotas and n bytes more in each window.
  added-WithinMore :
      (n now : ℕ) (t more : Tracker)
      → Started now
      → more.quota ≡ t.quota
      → ((start : ℕ)
          → start ≤ now
          → used_from (start / 3600 * 3600) more.buckets
            ≡ used_from (start / 3600 * 3600) t.buckets + n)
      → Within now more
      → WithinMore n now t
  unfolding snapshot
  added-WithinMore n now t more s quotas adds w = record {
    hour = rw quotas at (rw (adds now (omega arith)) at w.hour);
    day = rw quotas at (rw (adds (cal.day_start now) s.day) at w.day);
    week = rw quotas at (rw (adds (cal.week_start now) s.week) at w.week);
    month = rw quotas at (rw (adds (cal.month_start now) s.month) at w.month);
  }

  checked-Within :
      (now : ℕ) (t : Tracker) → (maybe_check_quota cal now t).suspended ≡ false → Within now t
  checked-Within now t h =
      let same = maybe_same now t h in
      subst (Within now) (same ∙ checked_same now t (subst (λ x. x.suspended ≡ false) same h))
        (maybe_check_quota-Within now t h)

  -- The quotas are enforced at once: where a tracker is not suspended after n bytes are recorded, in
  -- either direction, none of the quotas that are set is reached by the bytes that stood in its
  -- window before and these n together.
  pub record-Enforced :
      (n now : ℕ) (t after : Tracker)
      → Started now
      → (after ≡ record_in cal n now t) ⊎ (after ≡ record_out cal n now t)
      → after.suspended ≡ false
      → WithinMore n now t
  unfolding record_in record_out
  record-Enforced n now t after s (inl run) running =
      added-WithinMore n now t (put_in n now t) s (unfold put_in in refl)
        (λ start l. put_in-adds n now start t l)
        (checked-Within now (put_in n now t) (subst (λ x. x.suspended ≡ false) run running))
  record-Enforced n now t after s (inr run) running =
      added-WithinMore n now t (put_out n now t) s (unfold put_out in refl)
        (λ start l. put_out-adds n now start t l)
        (checked-Within now (put_out n now t) (subst (λ x. x.suspended ≡ false) run running))
