-- ===== src/L7/Banned.antt =====
-- internal/l7/engine.go: a ban that is open until a time, over the calls of an engine
-- up to that time.
use route_x_reverse_proxy.Common.{
  ℕ, ◌+◌, ◌≤◌, ◌≡◌, inl, inr, Bool, true, false, not, ◌&&◌, ◌||◌, List, [], ◌∷◌, String, arith, leb,
  All, ap, Bool-cases, length, string_eq, nat_eq, ◌==◌,
}
use route_x_reverse_proxy.Common.Int.{ℤ, pos, leb_ℤ, ltb_ℤ, pos_part}
use route_x_reverse_proxy.Net.{Ip, is_nil}
use route_x_reverse_proxy.L7.Inspector.{inspect}
use route_x_reverse_proxy.L7.Bans.{is_banned}
use route_x_reverse_proxy.L7.Bucket.{Floats, allow}
use route_x_reverse_proxy.L7.Window.{add, count}
use route_x_reverse_proxy.L7.Engine.{
  Config, Engine, rule_score, add_event, score_of, punish, add_score, refuse, window_of, bucket_of,
  check_cycling, on_accept, check_rate, on_data, ban_ip, unban_ip, prune_inactive_maps,
}
use route_x_reverse_proxy.L7.Steps.{Step, accepts, sends, bans_ip, unbans_ip, prunes, step, steps}
use route_x_reverse_proxy.L7.Blocks.{Blocks, is_banned-Blocks, ban-Blocks, unban-Blocks}

module _ (F : Floats) (text_of : Ip → String) (key : String) (now later : ℕ) (cfg : Config F) where
  -- The engine has this configuration, and the key is banned up to the time.
  pub record Holds (e : Engine F) : Type 0 where
    pub same : e.cfg ≡ cfg
    pub blocks : Blocks key later e.bans

  -- A call between the two times that is no administrator's ban or unban of the key.
  abbrev pub during : Step → Bool
  during (accepts ip n) = leb now n && leb n later
  during (sends ip payload inspected n) = leb now n && leb n later
  during (bans_ip ip duration reason n) = not (text_of ip == key)
  during (unbans_ip ip) = not (text_of ip == key)
  during (prunes n) = true

  module _ (long : later ≤ now + cfg.scoring.ban_duration) where
    punish-Holds :
        (ip : Ip) (n : ℕ) (e : Engine F) → now ≤ n → Holds e → Holds (punish F text_of ip n e)
    unfolding punish add_event
    punish-Holds ip n e l v = record {
      same = v.same;
      blocks =
          ban-Blocks text_of key later ip (n + e.cfg.scoring.ban_duration)
            "behavioral threshold exceeded" e.bans
            (inr (lasts (ap (λ (c : Config F). c.scoring.ban_duration) v.same))) v.blocks;
    }
      where
        lasts :
            e.cfg.scoring.ban_duration ≡ cfg.scoring.ban_duration
            → later ≤ n + e.cfg.scoring.ban_duration
        lasts h = omega (arith, h, l, long)

    add_score-Holds :
        (ip : Ip) (points : ℤ) (n : ℕ) (e : Engine F)
        → now ≤ n
        → Holds e
        → Holds (add_score F text_of ip points n e)
    unfolding add_score
    add_score-Holds ip points n e l v =
        let sum = score_of F text_of (text_of ip) e.scores + pos_part points in
        elim (Bool-cases (leb_ℤ points (pos 0) || not e.cfg.scoring.enabled)) [
          | inl skipped ↦ rw skipped v
          | inr counted ↦ elim (Bool-cases (leb_ℤ e.cfg.scoring.ban_threshold (pos sum))) [
            | inl reached ↦
                rw counted
                  (rw reached (punish-Holds ip n _ l (record { same = v.same; blocks = v.blocks })))
            | inr below ↦ rw counted (rw below (record { same = v.same; blocks = v.blocks }))
          ]
        ]

    refuse-Holds :
        (ip : Ip) (typ reason : String) (n : ℕ) (e : Engine F)
        → now ≤ n
        → Holds e
        → Holds (refuse F text_of ip typ reason n e)
    unfolding refuse add_event
    refuse-Holds ip typ reason n e l v =
        let w =
          add_score-Holds ip (rule_score e.cfg.scoring.score_rules typ) n
            (add_event F text_of ip typ (rule_score e.cfg.scoring.score_rules typ) "blocked" reason
              n e)
            l (record { same = v.same; blocks = v.blocks }) in
        record { same = w.same; blocks = w.blocks }

    check_cycling-Holds :
        (ip : Ip) (n : ℕ) (e : Engine F)
        → now ≤ n
        → Holds e
        → Holds (check_cycling F text_of ip n e).0
    unfolding check_cycling
    check_cycling-Holds ip n e l v =
        let counted = count n (add 1 n (window_of F text_of (text_of ip) n e)) in
        elim (Bool-cases (not e.cfg.cycling_enabled)) [
          | inl off ↦ rw off v
          | inr on ↦ elim (Bool-cases (ltb_ℤ e.cfg.max_conns_in_window (pos counted.1))) [
            | inl many ↦ rw on (
                rw many (
                  refuse-Holds ip "connection_cycling" "too many connections in window" n _ l
                    (record { same = v.same; blocks = v.blocks })))
            | inr few ↦ rw on (rw few (record { same = v.same; blocks = v.blocks }))
          ]
        ]

    pub on_accept-Holds :
        (ip : Ip) (n : ℕ) (e : Engine F)
        → now ≤ n
        → n ≤ later
        → Holds e
        → Holds (on_accept F text_of ip n e).0
    unfolding on_accept
    on_accept-Holds ip n e l u v =
        let kept = is_banned-Blocks text_of key later ip n e.bans u v.blocks in
        elim (Bool-cases (not e.cfg.enabled || is_nil ip)) [
          | inl off ↦ rw off v
          | inr on ↦ elim (Bool-cases (is_banned text_of ip n e.bans).1) [
            | inl banned ↦ rw on (rw banned (record { same = v.same; blocks = kept }))
            | inr free ↦
                rw on
                  (rw free (check_cycling-Holds ip n _ l (record { same = v.same; blocks = kept })))
          ]
        ]

    check_rate-Holds :
        (ip : Ip) (payload : List ℕ) (n : ℕ) (e : Engine F)
        → now ≤ n
        → Holds e
        → Holds (check_rate F text_of ip payload n e).0
    unfolding check_rate
    check_rate-Holds ip payload n e l v =
        let asked = allow F (F.of_int (length payload)) n (bucket_of F text_of (text_of ip) n e) in
        elim (Bool-cases (not e.cfg.rate_enabled || leb_ℤ e.cfg.max_bytes_per_sec_per_ip (pos 0))) [
          | inl off ↦ rw off v
          | inr on ↦ elim (Bool-cases (not asked.1)) [
            | inl over ↦ rw on (
                rw over (
                  refuse-Holds ip "payload_rate_exceeded" "IP payload rate limit exceeded" n _ l
                    (record { same = v.same; blocks = v.blocks })))
            | inr within ↦ rw on (rw within (record { same = v.same; blocks = v.blocks }))
          ]
        ]

    pub on_data-Holds :
        (ip : Ip) (payload : List ℕ) (inspected : Bool) (n : ℕ) (e : Engine F)
        → now ≤ n
        → Holds e
        → Holds (on_data F text_of ip payload inspected n e).0.0
    unfolding on_data
    on_data-Holds ip payload true n e l v = elim (Bool-cases (not e.cfg.enabled || is_nil ip)) [
      | inl off ↦ rw off v
      | inr on ↦ rw on (check_rate-Holds ip payload n e l v)
    ]
    on_data-Holds ip payload false n e l v = elim (Bool-cases (not e.cfg.enabled || is_nil ip)) [
      | inl off ↦ rw off v
      | inr on ↦ elim (Bool-cases (not (inspect e.inspector payload).1)) [
        | inl bad ↦ rw on (
            rw bad (
              refuse-Holds ip "invalid_protocol" "payload failed protocol inspection" n _ l
                (record { same = v.same; blocks = v.blocks })))
        | inr good ↦ rw on (
            rw good
              (check_rate-Holds ip payload n _ l (record { same = v.same; blocks = v.blocks })))
      ]
    ]

    step-Holds : (s : Step) (e : Engine F) → during s ≡ true → Holds e → Holds (step F text_of s e)
    unfolding step ban_ip unban_ip prune_inactive_maps
    step-Holds (accepts ip n) e h v =
        on_accept-Holds ip n e (ground (arith, h)) (ground (arith, h)) v
    step-Holds (sends ip payload inspected n) e h v =
        on_data-Holds ip payload inspected n e (ground (arith, h)) v
    step-Holds (bans_ip ip duration reason n) e h v = record {
      same = v.same;
      blocks = ban-Blocks text_of key later ip _ reason e.bans (inl (ground (arith, h))) v.blocks;
    }
    step-Holds (unbans_ip ip) e h v = record {
      same = v.same;
      blocks = unban-Blocks text_of key later ip e.bans (ground (arith, h)) v.blocks;
    }
    step-Holds (prunes n) e h v = record { same = v.same; blocks = v.blocks }

    -- An open ban outlasts every such call.
    pub steps-Holds :
        (ss : List Step) (e : Engine F)
        → All (λ s. during s ≡ true) ss
        → Holds e
        → Holds (steps F text_of ss e)
    unfolding steps
    steps-Holds [] e h v = v
    steps-Holds (s ∷ ss) e h v = steps-Holds ss (step F text_of s e) h.1 (step-Holds s e h.0 v)
