-- ===== src/Scopes.antt =====
-- Scopes: shared/scopes.ts and api/src/nhis/scopes.ts. A scope is a family, or a family and a
-- tier behind a colon.
pub mod Parts
pub mod Implied
pub mod Collapse
mod Tests
use simple_directory.Common.{
  ℕ, String, Bool, true, false, not, ◌&&◌, ◌||◌, Option, none, some, List, [], ◌∷◌, leb, ◌==◌,
  string_eq, if◌then◌else◌, filter, any, cut,
}

-- `tiers.indexOf(...)` of a scope's text: `bare` is undefined, `unknown` is -1
pub data Tier : Type 0 where
  bare unknown : Tier
  at : ℕ → Tier

abbrev pub tier_of : String → Tier
tier_of t =
    if t == "read"
    then at 0
    else if t == "write"
    then at 1
    else if t == "admin"
    then at 2
    else unknown

pub split : String → String × Tier
split scope = elim (cut b':' scope) [
  | none ↦ (scope, bare)
  | some (family, t) ↦ (family, tier_of t)
]

abbrev pub implies_parts : String × Tier → String × Tier → Bool
implies_parts (a, bare) (b, bare) = false
implies_parts (a, bare) (b, unknown) = a == b
implies_parts (a, bare) (b, at j) = a == b
implies_parts (a, at i) (b, at j) = (a == b || a == "all") && leb j i
implies_parts _ _ = false

pub implies : String → String → Bool
implies m s = if m == s then true else implies_parts (split m) (split s)

-- `[...new Set(scopes)]`: the first occurrences, in order
abbrev pub unique : List String → List String
unique [] = []
unique (x ∷ xs) = x ∷ filter (λ y. not (y == x)) (unique xs)

abbrev pub is_implied_in : List String → String → Bool
is_implied_in l s = any (λ m. not (m == s) && implies m s) l

pub collapse_scopes : List String → List String
collapse_scopes scopes = filter (λ s. not (is_implied_in (unique scopes) s)) (unique scopes)
