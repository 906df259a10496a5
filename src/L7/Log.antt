-- ===== src/L7/Log.antt =====
-- internal/l7/engine.go, the log of events and the table of scores, each by itself.
use route_x_reverse_proxy.Common.{
  ℕ, zero, suc, ◌-◌, ◌≤◌, ◌≡◌, Bool, List, [], ◌∷◌, ◌++◌, String, arith, ◌==◌, string_eq, length,
  drop, retain, All, Bool-cases, inl, inr, same_refl,
}
use route_x_reverse_proxy.Common.Int.{ℤ, pos, ◌<ℤ◌}
use route_x_reverse_proxy.Common.Assoc.{Assoc, insert, delete}
use route_x_reverse_proxy.L7.Engine.{Event, log_event}

length-drop : (n : ℕ) (es : List Event) → length (drop n es) ≡ length es - n
length-drop zero es = omega arith
length-drop (suc n) [] = omega arith
length-drop (suc n) (e ∷ es) = omega (arith, length-drop n es)

pub log_event-bound : (event : Event) (events : List Event) → length (log_event event events) ≤ 1000
unfolding log_event
log_event-bound event events =
    let all = events ++ (event ∷ []) in ground (arith, length-drop (length all - 1000) all)

-- The scores are below a threshold.
abbrev pub Below : ℤ → Assoc String ℕ → Type 0
Below z = All (λ (kv : String × ℕ). pos kv.1 <ℤ z)

pub Below-insert :
    (z : ℤ) (k : String) (v : ℕ) (m : Assoc String ℕ)
    → pos v <ℤ z
    → Below z m
    → Below z (insert k v m)
unfolding insert
Below-insert z k v [] l h = (l, tt)
Below-insert z k v (kv ∷ m) l h = elim (Bool-cases (kv.0 == k)) [
  | inl here ↦ rw here (l, h.1)
  | inr later ↦ rw later (h.0, Below-insert z k v m l h.1)
]

pub Below-delete : (z : ℤ) (k : String) (m : Assoc String ℕ) → Below z m → Below z (delete k m)
unfolding delete
Below-delete z k [] h = h
Below-delete z k ((j, v) ∷ m) h = elim (Bool-cases (j == k)) [
  | inl here ↦ rw here (Below-delete z k m h.1)
  | inr later ↦ rw later (h.0, Below-delete z k m h.1)
]

-- Deleting a key after writing it leaves only entries that were there.
pub Below-delete-insert :
    (z : ℤ) (k : String) (v : ℕ) (m : Assoc String ℕ)
    → Below z m
    → Below z (delete k (insert k v m))
unfolding insert delete
Below-delete-insert z k v [] h = rw (same_refl k) tt
Below-delete-insert z k v ((j, w) ∷ m) h = elim (Bool-cases (j == k)) [
  | inl here ↦ rw here (rw (same_refl k) (Below-delete z k m h.1))
  | inr later ↦ rw later (rw later (h.0, Below-delete-insert z k v m h.1))
]

pub Below-retain :
    (z : ℤ) (p : String × ℕ → Bool) (m : Assoc String ℕ) → Below z m → Below z (retain p m)
Below-retain z p [] h = h
Below-retain z p (kv ∷ m) h = elim (Bool-cases (p kv)) [
  | inl kept ↦ rw kept (h.0, Below-retain z p m h.1)
  | inr gone ↦ rw gone (Below-retain z p m h.1)
]
