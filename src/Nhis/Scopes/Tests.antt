-- ===== src/Nhis/Scopes/Tests.antt =====
-- Tests of the granted scopes, and the theorems at concrete scopes.
use simple_directory.Nhis.Scopes.Granted.{granted_scope-covered}
use simple_directory.Common.{
  All, List, String, [], false, includes, not, ok, refl, some, true, ◌==◌, ◌∷◌, ◌≡◌, nat_eq,
  option_eq, string_eq,
}
use simple_directory.Nhis.Scopes.{
  ScopeLib, check_requested, global_tier_covers, granted_scope, max_covers, narrow_from,
  narrow_scope, narrow_step, tier_index, words,
}

-- a library whose scopes are the non empty texts, covered by themselves
abbrev exact : ScopeLib
exact = record {
  scope_regexp = λ s. not (s == "");
  scope_covers = includes;
  scope_tiers = "read" ∷ "write" ∷ "admin" ∷ [];
}

-- a global tier of the maximum covers the tiers below it, of each family
global_tier : max_covers exact ("all:write" ∷ []) "datasets:read" ≡ true
unfolding max_covers global_tier_covers tier_index
global_tier = refl

above_tier : max_covers exact ("all:read" ∷ []) "datasets:write" ≡ false
unfolding max_covers global_tier_covers tier_index
above_tier = refl

two_granted :
    granted_scope exact (some ("all:write" ∷ [])) (some "datasets:read users:write")
    ≡ ok (some "datasets:read users:write")
unfolding granted_scope check_requested max_covers global_tier_covers tier_index
two_granted = refl

granted_scope-covered_example :
    (words "datasets:read users:write" ≡ words "datasets:read users:write")
    × All
        (λ w. (exact.scope_regexp w ≡ true) × (max_covers exact ("all:write" ∷ []) w ≡ true))
        (words "datasets:read users:write")
granted_scope-covered_example =
    granted_scope-covered exact ("all:write" ∷ []) "datasets:read users:write"
      "datasets:read users:write" (λ e. cc e) two_granted

narrowed :
    narrow_scope exact ("a" ∷ "b:read" ∷ "" ∷ "a" ∷ "c" ∷ []) (some ("a" ∷ "all:read" ∷ [])) []
    ≡ "a" ∷ "b:read" ∷ []
unfolding narrow_scope narrow_from narrow_step max_covers global_tier_covers tier_index
narrowed = refl

abbrev asked : List String
asked = "a" ∷ "c" ∷ "a" ∷ []
