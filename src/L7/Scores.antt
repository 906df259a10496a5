-- ===== src/L7/Scores.antt =====
-- internal/l7/engine.go: what holds of an engine whatever is asked of it, and what a score that
-- reaches the threshold does.
use route_x_reverse_proxy.Common.{
  ℕ, ◌+◌, ◌≤◌, ◌≡◌, false, not, ◌||◌, String, arith, string_eq, nat_eq, length, Bool-cases, inl,
  inr,
}
use route_x_reverse_proxy.Common.Int.{ℤ, pos, leb_ℤ, ◌<ℤ◌, pos_part}
use route_x_reverse_proxy.Common.Assoc.{insert}
use route_x_reverse_proxy.Net.{Ip}
use route_x_reverse_proxy.L7.Bucket.{Floats}
use route_x_reverse_proxy.L7.Engine.{
  Engine, rule_score, add_event, score_of, punish, add_score, refuse,
}
use route_x_reverse_proxy.L7.Log.{log_event-bound, Below, Below-insert, Below-delete-insert}

-- The log is bounded, and a score that is kept is below the threshold.
pub record IsSafe {F : Floats} (e : Engine F) : Type 0 where
  pub logged : length e.events ≤ 1000
  pub scored : Below e.cfg.scoring.ban_threshold e.scores

not_reached : (z : ℤ) (n : ℕ) → leb_ℤ z (pos n) ≡ false → pos n <ℤ z
not_reached z n h = ground (arith, h)

module _ (F : Floats) (text_of : Ip → String) where
  add_event-IsSafe :
      (ip : Ip) (typ : String) (score : ℤ) (action reason : String) (now : ℕ) (e : Engine F)
      → IsSafe e
      → IsSafe (add_event F text_of ip typ score action reason now e)
  unfolding add_event
  add_event-IsSafe ip typ score action reason now e v = record {
    logged =
        log_event-bound
          (record {
            time = now;
            ip = ip;
            event_type = typ;
            score = score;
            action = action;
            reason = reason;
          })
          e.events;
    scored = v.scored;
  }

  punish-IsSafe :
      (ip : Ip) (now n : ℕ) (e : Engine F)
      → IsSafe e
      → IsSafe (punish F text_of ip now (record e { scores = insert (text_of ip) n e.scores }))
  unfolding punish add_event
  punish-IsSafe ip now n e v = record {
    logged =
        log_event-bound
          (record {
            time = now;
            ip = ip;
            event_type = "banned";
            score = pos 0;
            action = "banned";
            reason = "behavioral score threshold reached";
          })
          e.events;
    scored = Below-delete-insert e.cfg.scoring.ban_threshold (text_of ip) n e.scores v.scored;
  }

  add_score-IsSafe :
      (ip : Ip) (points : ℤ) (now : ℕ) (e : Engine F)
      → IsSafe e
      → IsSafe (add_score F text_of ip points now e)
  unfolding add_score
  add_score-IsSafe ip points now e v =
      let n = score_of F text_of (text_of ip) e.scores + pos_part points in
      let z = e.cfg.scoring.ban_threshold in
      elim (Bool-cases (leb_ℤ points (pos 0) || not e.cfg.scoring.enabled)) [
        | inl skipped ↦ rw skipped v
        | inr counted ↦ elim (Bool-cases (leb_ℤ z (pos n))) [
          | inl reached ↦ rw counted (rw reached (punish-IsSafe ip now n e v))
          | inr below ↦ rw counted (
              rw below (record {
                logged = v.logged;
                scored = Below-insert z (text_of ip) n e.scores (not_reached z n below) v.scored;
              }))
        ]
      ]

  pub refuse-IsSafe :
      (ip : Ip) (typ reason : String) (now : ℕ) (e : Engine F)
      → IsSafe e
      → IsSafe (refuse F text_of ip typ reason now e)
  unfolding refuse
  refuse-IsSafe ip typ reason now e v =
      let score = rule_score e.cfg.scoring.score_rules typ in
      let logged = add_event F text_of ip typ score "blocked" reason now e in
      let w =
        add_score-IsSafe ip score now logged
          (add_event-IsSafe ip typ score "blocked" reason now e v) in
      record { logged = w.logged; scored = w.scored }
