-- ===== src/L7/Steps.antt =====
-- internal/l7/engine.go: the engine after any calls of its operations.
use route_x_reverse_proxy.Common.{
  ℕ, Bool, true, false, not, ◌||◌, List, [], ◌∷◌, String, arith, length, nat_eq, ◌==◌, Bool-cases,
  inl, inr,
}
use route_x_reverse_proxy.Common.Int.{ℤ, pos, leb_ℤ, ltb_ℤ}
use route_x_reverse_proxy.Net.{Ip, is_nil}
use route_x_reverse_proxy.L7.Inspector.{inspect}
use route_x_reverse_proxy.L7.Bans.{is_banned}
use route_x_reverse_proxy.L7.Bucket.{Floats, allow}
use route_x_reverse_proxy.L7.Window.{add, count}
use route_x_reverse_proxy.L7.Engine.{
  Config, Engine, new_engine, window_of, bucket_of, check_cycling, on_accept, check_rate, on_data,
  ban_ip, unban_ip, prune_inactive_maps,
}
use route_x_reverse_proxy.L7.Log.{Below-retain}
use route_x_reverse_proxy.L7.Scores.{IsSafe, refuse-IsSafe}

-- The calls that change an engine, each with the time at which it runs.
pub data Step : Type 0 where
  accepts : Ip → ℕ → Step
  sends : Ip → List ℕ → Bool → ℕ → Step
  bans_ip : Ip → ℤ → String → ℕ → Step
  unbans_ip : Ip → Step
  prunes : ℕ → Step

module _ (F : Floats) (text_of : Ip → String) where
  unfoldable pub step : Step → Engine F → Engine F
  step (accepts ip now) e = (on_accept F text_of ip now e).0
  step (sends ip payload inspected now) e = (on_data F text_of ip payload inspected now e).0.0
  step (bans_ip ip duration reason now) e = ban_ip F text_of ip duration reason now e
  step (unbans_ip ip) e = unban_ip F text_of ip e
  step (prunes now) e = prune_inactive_maps F text_of now e

  unfoldable pub steps : List Step → Engine F → Engine F
  steps [] e = e
  steps (s ∷ ss) e = steps ss (step s e)

  check_cycling-IsSafe :
      (ip : Ip) (now : ℕ) (e : Engine F) → IsSafe e → IsSafe (check_cycling F text_of ip now e).0
  unfolding check_cycling
  check_cycling-IsSafe ip now e v =
      let counted = count now (add 1 now (window_of F text_of (text_of ip) now e)) in
      elim (Bool-cases (not e.cfg.cycling_enabled)) [
        | inl off ↦ rw off v
        | inr on ↦ elim (Bool-cases (ltb_ℤ e.cfg.max_conns_in_window (pos counted.1))) [
          | inl many ↦ rw on (
              rw many (
                refuse-IsSafe F text_of ip "connection_cycling" "too many connections in window" now
                  _ (record { logged = v.logged; scored = v.scored })))
          | inr few ↦ rw on (rw few (record { logged = v.logged; scored = v.scored }))
        ]
      ]

  on_accept-IsSafe :
      (ip : Ip) (now : ℕ) (e : Engine F) → IsSafe e → IsSafe (on_accept F text_of ip now e).0
  unfolding on_accept
  on_accept-IsSafe ip now e v = elim (Bool-cases (not e.cfg.enabled || is_nil ip)) [
    | inl off ↦ rw off v
    | inr on ↦ elim (Bool-cases (is_banned text_of ip now e.bans).1) [
      | inl banned ↦ rw on (rw banned (record { logged = v.logged; scored = v.scored }))
      | inr free ↦ rw on (
          rw free (check_cycling-IsSafe ip now _ (record { logged = v.logged; scored = v.scored })))
    ]
  ]

  check_rate-IsSafe :
      (ip : Ip) (payload : List ℕ) (now : ℕ) (e : Engine F)
      → IsSafe e
      → IsSafe (check_rate F text_of ip payload now e).0
  unfolding check_rate
  check_rate-IsSafe ip payload now e v =
      let asked =
        allow F (F.of_int (length payload)) now (bucket_of F text_of (text_of ip) now e) in
      elim (Bool-cases (not e.cfg.rate_enabled || leb_ℤ e.cfg.max_bytes_per_sec_per_ip (pos 0))) [
        | inl off ↦ rw off v
        | inr on ↦ elim (Bool-cases (not asked.1)) [
          | inl over ↦ rw on (
              rw over (
                refuse-IsSafe F text_of ip "payload_rate_exceeded" "IP payload rate limit exceeded"
                  now _ (record { logged = v.logged; scored = v.scored })))
          | inr within ↦ rw on (rw within (record { logged = v.logged; scored = v.scored }))
        ]
      ]

  on_data-IsSafe :
      (ip : Ip) (payload : List ℕ) (inspected : Bool) (now : ℕ) (e : Engine F)
      → IsSafe e
      → IsSafe (on_data F text_of ip payload inspected now e).0.0
  unfolding on_data
  on_data-IsSafe ip payload true now e v = elim (Bool-cases (not e.cfg.enabled || is_nil ip)) [
    | inl off ↦ rw off v
    | inr on ↦ rw on (check_rate-IsSafe ip payload now e v)
  ]
  on_data-IsSafe ip payload false now e v = elim (Bool-cases (not e.cfg.enabled || is_nil ip)) [
    | inl off ↦ rw off v
    | inr on ↦ elim (Bool-cases (not (inspect e.inspector payload).1)) [
      | inl bad ↦ rw on (
          rw bad (
            refuse-IsSafe F text_of ip "invalid_protocol" "payload failed protocol inspection" now _
              (record { logged = v.logged; scored = v.scored })))
      | inr good ↦ rw on (
          rw good
            (check_rate-IsSafe ip payload now _ (record { logged = v.logged; scored = v.scored })))
    ]
  ]

  step-IsSafe : (s : Step) (e : Engine F) → IsSafe e → IsSafe (step s e)
  unfolding step ban_ip unban_ip prune_inactive_maps
  step-IsSafe (accepts ip now) e v = on_accept-IsSafe ip now e v
  step-IsSafe (sends ip payload inspected now) e v = on_data-IsSafe ip payload inspected now e v
  step-IsSafe (bans_ip ip duration reason now) e v = record { logged = v.logged; scored = v.scored }
  step-IsSafe (unbans_ip ip) e v = record { logged = v.logged; scored = v.scored }
  step-IsSafe (prunes now) e v = record {
    logged = v.logged;
    scored = Below-retain e.cfg.scoring.ban_threshold (λ kv. not (kv.1 == 0)) e.scores v.scored;
  }

  steps_from-IsSafe : (ss : List Step) (e : Engine F) → IsSafe e → IsSafe (steps ss e)
  unfolding steps
  steps_from-IsSafe [] e v = v
  steps_from-IsSafe (s ∷ ss) e v = steps_from-IsSafe ss (step s e) (step-IsSafe s e v)

  -- After any connections, payloads, bans, unbans and prunes, at any times, the log of a new engine
  -- holds at most 1000 events, and each score that it keeps is below the threshold for a ban.
  pub steps-IsSafe :
      (cfg : Config F) (ss : List Step) → IsSafe (steps ss (new_engine F text_of cfg))
  unfolding new_engine
  steps-IsSafe cfg ss =
      steps_from-IsSafe ss (new_engine F text_of cfg) (record { logged = omega arith; scored = tt })
