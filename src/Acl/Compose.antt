-- ===== src/Acl/Compose.antt =====
-- internal/proxy/manager.go, `getComposedACL`, `composedACL` and `dynamicACL`: the global rules
-- before a proxy's own.
use route_x_reverse_proxy.Common.{
  ◌≡◌, refl, Bool, true, not, ◌&&◌, Option, none, some, String, arith, if◌then◌else◌, ◌==◌,
  string_eq, Bool-cases, inl, inr,
}
use route_x_reverse_proxy.Net.{Ip}
use route_x_reverse_proxy.Acl.Engine.{Engine, check}

-- `composedACL.Check`, given what its two calls do.
unfoldable pub after_first :
    Option Engine × String
    → Option Engine × String
    → Engine
    → (Option Engine × Option Engine) × String
after_first first second p =
    if first.1 == "deny" then ((first.0, some p), "deny") else ((first.0, second.0), second.1)

-- What `dynamicACL.Check` does with the global checker and the proxy's own, each `none` where it is
-- nil: the two checkers after it, and its answer. The second is asked only where the first does
-- not deny.
unfoldable pub check_composed :
    Option Engine → Option Engine → Ip → (Option Engine × Option Engine) × String
check_composed none none ip = ((none, none), "allow")
check_composed none (some p) ip = let asked = check (some p) ip in ((none, asked.0), asked.1)
check_composed (some g) none ip = let asked = check (some g) ip in ((asked.0, none), asked.1)
check_composed (some g) (some p) ip = after_first (check (some g) ip) (check (some p) ip) p

-- Whether an answer refuses a connection, as its callers ask.
abbrev pub denies : String → Bool
denies answer = answer == "deny"

abbrev Asked : Type 0
Asked = Option Engine × String

both_asked :
    (first second : Asked) (p : Engine)
    → not (denies (after_first first second p).1) ≡ (not (denies first.1) && not (denies second.1))
unfolding after_first
both_asked first second p = elim (Bool-cases (first.1 == "deny")) [
  | inl denied ↦ rw denied refl
  | inr passed ↦ rw passed refl
]

nil_allows : (ip : Ip) → (check none ip).1 ≡ "allow"
unfolding check
nil_allows ip = refl

alone : (b : Bool) → not b ≡ (not b && true)
alone b = ground arith

-- A connection passes the composed rules exactly if neither the global nor the proxy's rules deny
-- it; rules that are not set deny nothing.
pub check_composed-denies :
    (global_acl proxy_acl : Option Engine) (ip : Ip)
    → not (denies (check_composed global_acl proxy_acl ip).1)
      ≡ (not (denies (check global_acl ip).1) && not (denies (check proxy_acl ip).1))
unfolding check_composed
check_composed-denies none none ip = unfold check in refl
check_composed-denies none (some p) ip = rw (nil_allows ip) refl
check_composed-denies (some g) none ip = rw (nil_allows ip) (alone (denies (check (some g) ip).1))
check_composed-denies (some g) (some p) ip = both_asked (check (some g) ip) (check (some p) ip) p
