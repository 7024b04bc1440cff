-- ===== src/Nhis/Scopes.antt =====
-- api/src/nhis/scopes.ts: which scopes may be stored on a non-human identity, and which a token
-- exchange or an OAuth grant receives.
pub mod Granted
pub mod Narrow
mod Tests
use mathlib.Core.Option
use Prim.Native.String
use simple_directory.Common.{
  Bool, List, Option, Result, String, [], any, cut, false, filter, if◌then◌else◌, includes, leb,
  none, not, ok, some, split_on, strip_prefix, throw_if, true, ℕ, ◌&&◌, ◌++◌, ◌+◌, ◌==◌, ◌>>=◌,
  ◌>>◌, ◌||◌, ◌∷◌, nat_eq, option_eq, string_eq,
}

-- What the code takes from the libraries of the platform (lib-express and lib-common-types):
-- `scopeRegexp.test`, `scopeCovers` and the list `scopeTiers`.
pub record ScopeLib : Type 0 where
  pub scope_regexp : String → Bool
  pub scope_covers : List String → String → Bool
  pub scope_tiers : List String

-- `join(' ')`
abbrev pub join_spaces : List String → String
join_spaces [] = ""
join_spaces (w ∷ []) = w
join_spaces (w ∷ v ∷ ws) = String.◌++◌ w (String.◌++◌ " " (join_spaces (v ∷ ws)))

-- `split(' ').filter(s => !!s)`
abbrev pub words : String → List String
words s = filter (λ w. not (w == "")) (split_on b' ' s)

-- `indexOf`, from a given index; `none` is -1
abbrev pub index_from : ℕ → List String → String → Option ℕ
index_from i [] t = none
index_from i (x ∷ xs) t = if x == t then some i else index_from (i + 1) xs t

-- `a >= tier`, where -1 is below every tier
abbrev pub at_least : Option ℕ → ℕ → Bool
at_least none tier = false
at_least (some i) tier = leb tier i

module _ (lib : ScopeLib) where
  open lib use {scope_regexp, scope_covers, scope_tiers}

  -- The scopes of one identity: the `throw` of the first bad one is a 400.
  pub check_scopes : List String → List String → List String → Result (Unit {0})
  check_scopes [] known already_stored = ok tt
  check_scopes (scope ∷ scopes) known already_stored = do
    throw_if (not (scope_regexp scope)) 400
    throw_if (not (includes already_stored scope) && not (includes known scope)) 400
    check_scopes scopes known already_stored

  unfoldable pub tier_index : String → Option ℕ
  tier_index tier = index_from 0 scope_tiers tier

  -- `m.startsWith('all:') && tierIndex(m.slice(4)) >= tier`
  unfoldable pub global_tier_covers : ℕ → String → Bool
  global_tier_covers tier m = elim (strip_prefix "all:" m) [
    | none ↦ false
    | some t ↦ at_least (tier_index t) tier
  ]

  abbrev pub covers_tier : List String → Option ℕ → Bool
  covers_tier max none = false
  covers_tier max (some tier) = any (global_tier_covers tier) max

  abbrev pub covers_parts : List String → Option (String × String) → Bool
  covers_parts max none = false
  covers_parts max (some (family, t)) = covers_tier max (tier_index t)

  unfoldable pub max_covers : List String → String → Bool
  max_covers max scope = if scope_covers max scope then true else covers_parts max (cut b':' scope)

  -- the loop of `grantedScope`, without or with a maximum
  abbrev pub exceeds : Option (List String) → String → Bool
  exceeds none scope = false
  exceeds (some max) scope = not (max_covers max scope)

  pub check_requested : Option (List String) → List String → Result (Unit {0})
  check_requested max [] = ok tt
  check_requested max (scope ∷ scopes) = do
    throw_if (not (scope_regexp scope)) 400
    throw_if (exceeds max scope) 400
    check_requested max scopes

  abbrev pub requested_words : Option String → List String
  requested_words none = []
  requested_words (some s) = words s

  abbrev pub granted_of : Option (List String) → List String → Result (Option String)
  granted_of max [] = ok (Option.map join_spaces max)
  granted_of max (w ∷ ws) = check_requested max (w ∷ ws) >> ok (some (join_spaces (w ∷ ws)))

  pub granted_scope : Option (List String) → Option String → Result (Option String)
  granted_scope max requested = granted_of max (requested_words requested)

  -- `max ? maxCovers(max, scope) : scopeCovers(known, scope)`
  abbrev pub may_grant : Option (List String) → List String → String → Bool
  may_grant none known scope = scope_covers known scope
  may_grant (some max) known scope = max_covers max scope

  -- one round of the loop of `narrowScope`
  unfoldable pub narrow_step :
      Option (List String) → List String → List String → String → List String
  narrow_step max known narrowed scope =
      if scope == "" || includes narrowed scope || not (scope_regexp scope)
      then narrowed
      else if may_grant max known scope
      then narrowed ++ scope ∷ []
      else narrowed

  unfoldable pub narrow_from :
      Option (List String) → List String → List String → List String → List String
  narrow_from max known narrowed [] = narrowed
  narrow_from max known narrowed (scope ∷ scopes) =
      narrow_from max known (narrow_step max known narrowed scope) scopes

  unfoldable pub narrow_scope : List String → Option (List String) → List String → List String
  narrow_scope requested max known = narrow_from max known [] requested
