-- ===== src/L7/Bans.antt =====
-- internal/l7/inspector.go, `banStore`. `IP.String` is a parameter of the definitions; times are in
-- nanoseconds, and `expires_at` 0 is a ban for good.
use route_x_reverse_proxy.Common.{
  ℕ, ◌≡◌, Bool, true, false, not, ◌&&◌, none, some, String, arith, ltb, if◌then◌else◌, ◌==◌,
  string_eq, nat_eq,
}
use route_x_reverse_proxy.Common.Assoc.{Assoc, lookup, insert, delete, lookup-insert, lookup-delete}
use route_x_reverse_proxy.Net.{Ip, is_nil}

pub record BanEntry : Type 0 where
  pub ip : Ip
  pub expires_at : ℕ
  pub reason : String

abbrev pub Bans : Type 0
Bans = Assoc String BanEntry

-- Whether an entry has expired.
abbrev pub expired : ℕ → BanEntry → Bool
expired now e = not (e.expires_at == 0) && ltb e.expires_at now

module _ (text_of : Ip → String) where
  -- An entry that has expired is removed by the question.
  unfoldable pub is_banned : Ip → ℕ → Bans → Bans × Bool
  is_banned ip now bans = if is_nil ip then (bans, false) else elim (lookup (text_of ip) bans) [
    | none ↦ (bans, false)
    | some e ↦ if expired now e then (delete (text_of ip) bans, false) else (bans, true)
  ]

  unfoldable pub ban : Ip → ℕ → String → Bans → Bans
  ban ip expires_at reason bans =
      if is_nil ip
      then bans
      else insert (text_of ip) (record { ip = ip; expires_at = expires_at; reason = reason }) bans

  unfoldable pub unban : Ip → Bans → Bans
  unban ip bans = if is_nil ip then bans else delete (text_of ip) bans

  -- After a ban the banned address is refused for good if the expiry is 0, and up to the expiry
  -- otherwise; every other address is answered as before.
  pub is_banned-ban :
      (banned asked : Ip) (expires_at now : ℕ) (reason : String) (bans : Bans)
      → is_nil banned ≡ false
      → is_nil asked ≡ false
      → (is_banned asked now (ban banned expires_at reason bans)).1 ≡ (
          if text_of banned == text_of asked
          then not (not (expires_at == 0) && ltb expires_at now)
          else (is_banned asked now bans).1)
  unfolding is_banned ban
  is_banned-ban banned asked expires_at now reason bans given given' = ground (
    arith,
    given,
    given',
    lookup-insert (text_of banned) (text_of asked)
        (record { ip = banned; expires_at = expires_at; reason = reason }) bans,
  )

  -- After Unban the address is not banned, and every other address is answered as before.
  pub is_banned-unban :
      (cleared asked : Ip) (now : ℕ) (bans : Bans)
      → is_nil cleared ≡ false
      → (is_banned asked now (unban cleared bans)).1
        ≡ (if text_of cleared == text_of asked then false else (is_banned asked now bans).1)
  unfolding is_banned unban
  is_banned-unban cleared asked now bans given =
      ground (arith, given, lookup-delete (text_of cleared) (text_of asked) bans)
