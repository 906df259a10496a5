-- ===== src/L7/Engine.antt =====
-- internal/l7/engine.go. A handler reads the clock once here, `now`; the maps' locks are not held
-- across one another. `IP.String` and float64 are parameters. Scores are not bounded.
use route_x_reverse_proxy.Common.{
  ℕ, ◌+◌, ◌-◌, Bool, true, false, not, ◌||◌, List, [], ◌∷◌, ◌++◌, none, some, String, ltb,
  if◌then◌else◌, ◌==◌, string_eq, nat_eq, length, drop, retain, map,
}
use route_x_reverse_proxy.Common.Int.{ℤ, pos, ltb_ℤ, leb_ℤ, pos_part}
use route_x_reverse_proxy.Common.Assoc.{Assoc, lookup, insert, delete}
use route_x_reverse_proxy.Net.{Ip, is_nil}
use route_x_reverse_proxy.L7.Inspector.{InspectionConfig, Inspector, new_inspector, inspect}
use route_x_reverse_proxy.L7.Bans.{Bans, is_banned, ban, unban}
use route_x_reverse_proxy.L7.Window.{SlidingWindow, new_sliding_window, add, count}
use route_x_reverse_proxy.L7.Bucket.{Floats, TokenBucket, new_token_bucket, allow, is_full}

pub record Scoring : Type 0 where
  pub enabled : Bool
  pub ban_threshold : ℤ
  pub ban_duration : ℕ
  pub score_rules : List (String × ℤ)

pub record Config (F : Floats) : Type 0 where
  pub enabled : Bool
  pub rate_enabled : Bool
  pub max_bytes_per_sec_per_ip : ℤ
  pub burst_multiplier : F.Number
  pub cycling_enabled : Bool
  pub window : ℕ
  pub max_conns_in_window : ℤ
  pub inspection : InspectionConfig
  pub scoring : Scoring

pub record Event : Type 0 where
  pub time : ℕ
  pub ip : Ip
  pub event_type : String
  pub score : ℤ
  pub action : String
  pub reason : String

pub record Engine (F : Floats) : Type 0 where
  pub cfg : Config F
  pub inspector : Inspector
  pub ip_bytes_tokens : Assoc String (TokenBucket F)
  pub cycling_windows : Assoc String SlidingWindow
  pub scores : Assoc String ℕ
  pub bans : Bans
  pub blocked_conns : ℕ
  pub banned_ips : ℕ
  pub events : List Event

-- The scores where no rule of the configuration names the event.
abbrev pub default_score : String → ℤ
default_score event =
    if event == "payload_too_small"
    then pos 5
    else if event == "payload_too_large"
    then pos 10
    else if event == "handshake_timeout"
    then pos 20
    else if event == "invalid_protocol"
    then pos 30
    else if event == "connection_cycling"
    then pos 25
    else if event == "amplification_detected"
    then pos 40
    else pos 0

unfoldable pub rule_score : List (String × ℤ) → String → ℤ
rule_score [] event = default_score event
rule_score (rule ∷ rules) event =
    let later = rule_score rules event in if rule.0 == event then rule.1 else later

-- The log keeps the last thousand events.
unfoldable pub log_event : Event → List Event → List Event
log_event event events =
    let all = events ++ (event ∷ []) in
    if ltb 1000 (length all) then drop (length all - 1000) all else all

module _ (F : Floats) (text_of : Ip → String) where
  unfoldable pub new_engine : Config F → Engine F
  new_engine cfg = record {
    cfg = cfg;
    inspector = new_inspector cfg.enabled cfg.inspection;
    ip_bytes_tokens = [];
    cycling_windows = [];
    scores = [];
    bans = [];
    blocked_conns = 0;
    banned_ips = 0;
    events = [];
  }

  unfoldable pub add_event : Ip → String → ℤ → String → String → ℕ → Engine F → Engine F
  add_event ip typ score action reason now e =
      let event : Event = record {
        time = now;
        ip = ip;
        event_type = typ;
        score = score;
        action = action;
        reason = reason;
      } in
      record e { events = log_event event e.events }

  abbrev pub score_of : String → Assoc String ℕ → ℕ
  score_of key scores = elim (lookup key scores) [ none ↦ 0 | some n ↦ n ]

  -- What `addScore` does once the score has reached the threshold.
  unfoldable pub punish : Ip → ℕ → Engine F → Engine F
  punish ip now e =
      let expires = now + e.cfg.scoring.ban_duration in
      let banned = record e {
        bans = ban text_of ip expires "behavioral threshold exceeded" e.bans;
        banned_ips = e.banned_ips + 1;
      } in
      let logged =
        add_event ip "banned" (pos 0) "banned" "behavioral score threshold reached" now banned in
      record logged { scores = delete (text_of ip) logged.scores }

  unfoldable pub add_score : Ip → ℤ → ℕ → Engine F → Engine F
  add_score ip points now e =
      let current = score_of (text_of ip) e.scores + pos_part points in
      let scored = record e { scores = insert (text_of ip) current e.scores } in
      if leb_ℤ points (pos 0) || not e.cfg.scoring.enabled
      then e
      else if leb_ℤ e.cfg.scoring.ban_threshold (pos current)
      then punish ip now scored
      else scored

  -- The lines of a refusal: the event, its score and the count.
  unfoldable pub refuse : Ip → String → String → ℕ → Engine F → Engine F
  refuse ip typ reason now e =
      let score = rule_score e.cfg.scoring.score_rules typ in
      let scored = add_score ip score now (add_event ip typ score "blocked" reason now e) in
      record scored { blocked_conns = scored.blocked_conns + 1 }

  abbrev pub window_of : String → ℕ → Engine F → SlidingWindow
  window_of key now e = elim (lookup key e.cycling_windows) [
    | none ↦ new_sliding_window e.cfg.window 10 now
    | some w ↦ w
  ]

  unfoldable pub check_cycling : Ip → ℕ → Engine F → Engine F × Bool
  check_cycling ip now e =
      let key = text_of ip in
      let counted = count now (add 1 now (window_of key now e)) in
      let e' = record e { cycling_windows = insert key counted.0 e.cycling_windows } in
      if not e.cfg.cycling_enabled
      then (e, true)
      else if ltb_ℤ e.cfg.max_conns_in_window (pos counted.1)
      then (refuse ip "connection_cycling" "too many connections in window" now e', false)
      else (e', true)

  unfoldable pub on_accept : Ip → ℕ → Engine F → Engine F × Bool
  on_accept ip now e =
      let asked = is_banned text_of ip now e.bans in
      if not e.cfg.enabled || is_nil ip
      then (e, true)
      else if asked.1
      then (record e { bans = asked.0; blocked_conns = e.blocked_conns + 1 }, false)
      else check_cycling ip now (record e { bans = asked.0 })

  unfoldable pub needs_first_payload : Engine F → Bool
  needs_first_payload e =
      if not e.cfg.enabled then false else e.cfg.inspection.enabled || e.cfg.rate_enabled

  -- The bucket of a new address: its burst is twice the rate where the product is not positive.
  unfoldable pub bucket_of : String → ℕ → Engine F → TokenBucket F
  bucket_of key now e =
      let rate = F.of_int (pos_part e.cfg.max_bytes_per_sec_per_ip) in
      let burst = F.mul rate e.cfg.burst_multiplier in
      elim (lookup key e.ip_bytes_tokens) [
        | some tb ↦ tb
        | none ↦
            new_token_bucket F rate
              (if F.le burst (F.of_int 0) then F.mul rate (F.of_int 2) else burst) now
      ]

  unfoldable pub check_rate : Ip → List ℕ → ℕ → Engine F → Engine F × Bool
  check_rate ip payload now e =
      let key = text_of ip in
      let asked = allow F (F.of_int (length payload)) now (bucket_of key now e) in
      let e' = record e { ip_bytes_tokens = insert key asked.0 e.ip_bytes_tokens } in
      if not e.cfg.rate_enabled || leb_ℤ e.cfg.max_bytes_per_sec_per_ip (pos 0)
      then (e, true)
      else if not asked.1
      then (refuse ip "payload_rate_exceeded" "IP payload rate limit exceeded" now e', false)
      else (e', true)

  -- The flag `inspected` is the caller's; it is given back set once the payload was inspected.
  unfoldable pub on_data : Ip → List ℕ → Bool → ℕ → Engine F → (Engine F × Bool) × Bool
  on_data ip payload inspected now e =
      let seen = inspect e.inspector payload in
      let e' = record e { inspector = seen.0 } in
      let first = check_rate ip payload now e' in
      let again = check_rate ip payload now e in
      if not e.cfg.enabled || is_nil ip
      then ((e, inspected), true)
      else if inspected
      then ((again.0, inspected), again.1)
      else if not seen.1
      then ((refuse ip "invalid_protocol" "payload failed protocol inspection" now e', true), false)
      else ((first.0, true), first.1)

  unfoldable pub ban_ip : Ip → ℤ → String → ℕ → Engine F → Engine F
  ban_ip ip duration reason now e = record e {
    bans =
        ban text_of ip (if ltb_ℤ (pos 0) duration then now + pos_part duration else 0) reason
          e.bans;
    banned_ips = e.banned_ips + 1;
  }

  unfoldable pub unban_ip : Ip → Engine F → Engine F
  unban_ip ip e = record e { bans = unban text_of ip e.bans }

  -- `pruneInactiveMaps`: the questions of the loops advance the windows and fill the buckets.
  unfoldable pub prune_inactive_maps : ℕ → Engine F → Engine F
  prune_inactive_maps now e = record e {
    cycling_windows =
        retain (λ kv. not ((count now kv.1).1 == 0))
          (map {B = String × SlidingWindow} (λ kv. (kv.0, (count now kv.1).0)) e.cycling_windows);
    ip_bytes_tokens =
        retain (λ kv. not (is_full F now kv.1).1)
          (map {B = String × TokenBucket F} (λ kv. (kv.0, (is_full F now kv.1).0))
            e.ip_bytes_tokens);
    scores = retain (λ kv. not (kv.1 == 0)) e.scores;
  }

  -- `Events`: the last `limit` events, or all of them.
  unfoldable pub last_events : ℤ → Engine F → List Event
  last_events limit e =
      let asked =
        if leb_ℤ limit (pos 0) || ltb (length e.events) (pos_part limit)
        then length e.events
        else pos_part limit in
      drop (length e.events - asked) e.events
