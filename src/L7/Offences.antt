-- ===== src/L7/Offences.antt =====
-- internal/l7/engine.go: an address whose score reaches the threshold is refused.
use route_x_reverse_proxy.Common.{◌+◌, ◌≡◌, true, false, String, string_eq, nat_eq}
use route_x_reverse_proxy.Common.Int.{ℤ, pos, leb_ℤ, pos_part}
use route_x_reverse_proxy.Net.{Ip, is_nil}
use route_x_reverse_proxy.L7.Bucket.{Floats}
use route_x_reverse_proxy.L7.Engine.{Engine, score_of}
use route_x_reverse_proxy.L7.Blocks.{Blocks}

module _ (F : Floats) (text_of : Ip → String) where
  -- The points of an offence are counted, and take the address to the threshold.
  pub record Reaches (ip : Ip) (points : ℤ) (e : Engine F) : Type 0 where
    pub given : is_nil ip ≡ false
    pub scores_on : e.cfg.scoring.enabled ≡ true
    pub positive : leb_ℤ points (pos 0) ≡ false
    pub threshold :
        leb_ℤ e.cfg.scoring.ban_threshold
          (pos (score_of F text_of (text_of ip) e.scores + pos_part points))
        ≡ true
