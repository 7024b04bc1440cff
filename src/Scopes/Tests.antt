-- ===== src/Scopes/Tests.antt =====
-- Tests of the scopes, and the theorems at concrete scopes.
use simple_directory.Scopes.Collapse.{collapse_scopes-covers}
use simple_directory.Common.{
  List, String, [], false, includes, refl, true, ◌∷◌, ◌≡◌, nat_eq, option_eq, string_eq,
}
use simple_directory.Scopes.{collapse_scopes, implies, split}

-- the bare family is above the tiers
bare_over_tier : implies "datasets" "datasets:write" ≡ true
unfolding implies split
bare_over_tier = refl

tier_over_tier : implies "datasets:write" "datasets:read" ≡ true
unfolding implies split
tier_over_tier = refl

global_over_tier : implies "all:admin" "datasets:write" ≡ true
unfolding implies split
global_over_tier = refl

-- the bare family "all" covers its own tiers only
bare_all : implies "all" "datasets:write" ≡ false
unfolding implies split
bare_all = refl

-- with the bare family "all" the collapsed list can imply less than the list did
all_collapsed : collapse_scopes ("all" ∷ "all:admin" ∷ "datasets:write" ∷ []) ≡ "all" ∷ []
unfolding collapse_scopes implies split
all_collapsed = refl

abbrev some_scopes : List String
some_scopes = "datasets:read" ∷ "datasets" ∷ "users:read" ∷ "datasets:read" ∷ []

some_collapsed : collapse_scopes some_scopes ≡ "datasets" ∷ "users:read" ∷ []
unfolding collapse_scopes implies split
some_collapsed = refl

read_kept : includes (collapse_scopes some_scopes) "users:read" ≡ true
unfolding collapse_scopes implies split
read_kept = refl

collapse_scopes-covers_example :
    (m : String) × (includes (collapse_scopes some_scopes) m ≡ true)
    × (implies m "datasets:read" ≡ true)
collapse_scopes-covers_example = collapse_scopes-covers some_scopes "datasets:read" refl refl
