-- ===== src/L7/Blocks.antt =====
-- internal/l7/inspector.go, `banStore`: an entry that is open until a time, over the store's operations.
use route_x_reverse_proxy.Common.{
  ℕ, ◌≤◌, ◌≡◌, ◌⊎◌, ◌∙◌, refl, inl, inr, true, false, none, some, Option, String, arith, subst,
  Bool-cases, string_eq, nat_eq, ◌==◌, same_refl,
}
use route_x_reverse_proxy.Common.Assoc.{lookup, insert, delete, lookup-insert, lookup-delete}
use route_x_reverse_proxy.Net.{Ip, is_nil}
use route_x_reverse_proxy.L7.Bans.{BanEntry, Bans, expired, is_banned, ban, unban}

-- The key has an entry that has not expired at a time.
pub record Blocks (key : String) (later : ℕ) (bans : Bans) : Type 0 where
  pub entry : BanEntry
  pub here : lookup key bans ≡ some entry
  pub open_still : expired later entry ≡ false

expired_earlier :
    (e : BanEntry) (n later : ℕ) → n ≤ later → expired later e ≡ false → expired n e ≡ false
expired_earlier e n later l h = ground (arith, h)

module _ (text_of : Ip → String) (key : String) (later : ℕ) where
  insert-Blocks :
      (k : String) (e : BanEntry) (bans : Bans)
      → ((k == key) ≡ false) ⊎ (expired later e ≡ false)
      → Blocks key later bans
      → Blocks key later (insert k e bans)
  insert-Blocks k e bans fits b = elim (Bool-cases (k == key)) [
    | inr other ↦ record {
      entry = b.entry;
      here = lookup-insert k key e bans ∙ rw other (b.here);
      open_still = b.open_still;
    }
    | inl same ↦ record {
      entry = e;
      here = lookup-insert k key e bans ∙ rw same refl;
      open_still = fresh_one same fits;
    }
  ]
    where
      fresh_one :
          (k == key) ≡ true
          → ((k == key) ≡ false) ⊎ (expired later e ≡ false)
          → expired later e ≡ false
      fresh_one same (inl other) = absurd (ground (arith, same, other))
      fresh_one same (inr h) = h

  delete-Blocks :
      (k : String) (bans : Bans)
      → (k == key) ≡ false
      → Blocks key later bans
      → Blocks key later (delete k bans)
  delete-Blocks k bans other b = record {
    entry = b.entry;
    here = lookup-delete k key bans ∙ rw other (b.here);
    open_still = b.open_still;
  }

  -- Another address's entry may be removed by its question, the key's is not.
  pub is_banned-Blocks :
      (ip : Ip) (n : ℕ) (bans : Bans)
      → n ≤ later
      → Blocks key later bans
      → Blocks key later (is_banned text_of ip n bans).0
  unfolding is_banned
  is_banned-Blocks ip n bans l b = elim (Bool-cases (is_nil ip)) [
    | inl nil ↦ rw nil b
    | inr given ↦ go given (lookup (text_of ip) bans) refl
  ]
    where
      other_key :
          (e : BanEntry)
          → lookup (text_of ip) bans ≡ some e
          → expired n e ≡ true
          → (text_of ip == key) ≡ false
      other_key e h gone = elim (Bool-cases (text_of ip == key)) [
        | inr other ↦ other
        | inl same ↦
            let one = (string_eq.reflects (text_of ip) key).0 same in
            let found = b.here in
            let open_at_n = expired_earlier b.entry n later l b.open_still in
            let entry_same : some e ≡ some b.entry = ground (arith, h, one, found) in
            let closed : expired n b.entry ≡ true =
              subst (λ o. elim o [ none ↦ true | some x ↦ expired n x ] ≡ true) entry_same gone in
            absurd (ground (arith, open_at_n, closed))
      ]

      go :
          is_nil ip ≡ false
          → (o : Option BanEntry) → lookup (text_of ip) bans ≡ o
          → Blocks key later (is_banned text_of ip n bans).0
      go given none h = rw given (rw h b)
      go given (some e) h = elim (Bool-cases (expired n e)) [
        | inl gone ↦
            rw given (rw h (rw gone (delete-Blocks (text_of ip) bans (other_key e h gone) b)))
        | inr live ↦ rw given (rw h (rw live b))
      ]

  -- A ban of another key, or one that lasts.
  pub ban-Blocks :
      (ip : Ip) (expires : ℕ) (reason : String) (bans : Bans)
      → ((text_of ip == key) ≡ false) ⊎ (later ≤ expires)
      → Blocks key later bans
      → Blocks key later (ban text_of ip expires reason bans)
  unfolding ban
  ban-Blocks ip expires reason bans fits b = elim (Bool-cases (is_nil ip)) [
    | inl nil ↦ rw nil b
    | inr given ↦ rw given (insert-Blocks (text_of ip) _ bans (lasts fits) b)
  ]
    where
      lasts :
          ((text_of ip == key) ≡ false) ⊎ (later ≤ expires)
          → ((text_of ip == key) ≡ false)
            ⊎ (expired later (record { ip = ip; expires_at = expires; reason = reason }) ≡ false)
      lasts (inl other) = inl other
      lasts (inr l) = inr (ground (arith, l))

  pub unban-Blocks :
      (ip : Ip) (bans : Bans)
      → (text_of ip == key) ≡ false
      → Blocks key later bans
      → Blocks key later (unban text_of ip bans)
  unfolding unban
  unban-Blocks ip bans other b = elim (Bool-cases (is_nil ip)) [
    | inl nil ↦ rw nil b
    | inr given ↦ rw given (delete-Blocks (text_of ip) bans other b)
  ]

module _ (text_of : Ip → String) where
  -- A ban that lasts to a time is open at it.
  pub ban-opens :
      (ip : Ip) (expires later : ℕ) (reason : String) (bans : Bans)
      → is_nil ip ≡ false
      → later ≤ expires
      → Blocks (text_of ip) later (ban text_of ip expires reason bans)
  unfolding ban
  ban-opens ip expires later reason bans given l = rw given (record {
    entry = record { ip = ip; expires_at = expires; reason = reason };
    here = lookup-insert (text_of ip) (text_of ip) _ bans ∙ rw (same_refl (text_of ip)) refl;
    open_still = ground (arith, l);
  })

  -- While it is open the address is banned, and the question changes nothing.
  pub blocked :
      (ip : Ip) (n later : ℕ) (bans : Bans)
      → is_nil ip ≡ false
      → n ≤ later
      → Blocks (text_of ip) later bans
      → is_banned text_of ip n bans ≡ (bans, true)
  unfolding is_banned
  blocked ip n later bans given l b =
      let live = expired_earlier b.entry n later l b.open_still in
      rw (given) (rw (b.here) (rw live refl))
