-- ===== src/Text/Edit.antt =====
-- `strings.TrimSpace`, `Split` by one character, `SplitN` in two, `Join` and `HasSuffix`.
use route_x_reverse_proxy.Common.{
  ℕ, ◌-◌, Bool, true, false, ◌&&◌, ◌||◌, List, [], ◌∷◌, ◌++◌, Option, none, some, leb,
  if◌then◌else◌, ◌==◌, nat_eq, length, drop,
}
use route_x_reverse_proxy.Net.{bytes_equal}

abbrev pub Text : Type 0
Text = List ℕ

abbrev pub is_empty : Text → Bool
is_empty [] = true
is_empty (c ∷ cs) = false

-- `unicode.IsSpace`.
unfoldable pub is_space : ℕ → Bool
is_space c =
    (leb 9 c && leb c 13)
    || c == 32
    || c == 133
    || c == 160
    || c == 5760
    || (leb 8192 c && leb c 8202)
    || c == 8232
    || c == 8233
    || c == 8239
    || c == 8287
    || c == 12288

unfoldable pub trim_left : Text → Text
trim_left [] = []
trim_left (c ∷ cs) = let rest = trim_left cs in if is_space c then rest else c ∷ cs

unfoldable pub trim_right : Text → Text
trim_right [] = []
trim_right (c ∷ cs) =
    let rest = trim_right cs in if is_empty rest && is_space c then [] else c ∷ rest

unfoldable pub trim_space : Text → Text
trim_space s = trim_right (trim_left s)

abbrev pub push : ℕ → List Text → List Text
push c [] = (c ∷ []) ∷ []
push c (part ∷ parts) = (c ∷ part) ∷ parts

-- The parts between the separators; a text without one is its own only part.
unfoldable pub split : ℕ → Text → List Text
split sep [] = [] ∷ []
split sep (c ∷ cs) = let parts = split sep cs in if c == sep then [] ∷ parts else push c parts

abbrev pub prepend : ℕ → Option (Text × Text) → Option (Text × Text)
prepend c none = none
prepend c (some parts) = some (c ∷ parts.0, parts.1)

-- `SplitN(s, sep, 2)` where the separator occurs, and `none` where it does not.
unfoldable pub cut : ℕ → Text → Option (Text × Text)
cut sep [] = none
cut sep (c ∷ cs) = let later = cut sep cs in if c == sep then some ([], cs) else prepend c later

unfoldable pub join : ℕ → List Text → Text
join sep [] = []
join sep (part ∷ []) = part
join sep (part ∷ next ∷ parts) = part ++ sep ∷ join sep (next ∷ parts)

unfoldable pub has_suffix : Text → Text → Bool
unfolding bytes_equal
has_suffix s suffix =
    leb (length suffix) (length s) && bytes_equal (drop (length s - length suffix) s) suffix
