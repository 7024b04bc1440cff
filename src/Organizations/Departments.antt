-- ===== src/Organizations/Departments.antt =====
-- The departments of a patched organization: PATCH /:organizationId of
-- api/src/organizations/router.ts, which gives an identifier to each new department. `slug` makes
-- the identifier of a name, and `show` writes a number: both come from outside of this code.
pub mod Fresh
pub mod Ids
mod Tests
use Prim.Native.String
use simple_directory.Issuers.{before}
use simple_directory.Common.{
  Bool, List, Option, Result, String, [], any, err, get_or, if◌then◌else◌, includes, length,
  nat_beq, none, ok, some, suc, truthy, zero, ℕ, ◌&&◌, ◌++◌, ◌==◌, ◌∷◌, nat_eq, option_eq,
  string_eq,
}

-- a department of the patch; a new one has no identifier
pub record PatchDepartment : Type 0 where
  pub id : Option String
  pub name : String

module _ (slug : String → String) (show : ℕ → String) where
  -- `baseId`, then `baseId + '-' + i`
  abbrev pub candidate : String → ℕ → String
  candidate base i = if nat_beq i 1 then base else String.◌++◌ base (String.◌++◌ "-" (show i))

  -- `while (patch.departments.find(d => d.id === id))`, on fuel
  pub free_id : ℕ → List String → String → ℕ → Option String
  free_id zero ids base i = none
  free_id (suc fuel) ids base i =
      let later = free_id fuel ids base (suc i) in
      if includes ids (candidate base i) then later else some (candidate base i)

  -- one turn more than there are identifiers: see free_id-is_free
  pub fresh_id : List String → String → String
  fresh_id ids base = get_or (free_id (suc (length ids)) ids base 1) base

  abbrev pub given_ids : List PatchDepartment → List String
  given_ids [] = []
  given_ids (d ∷ ds) = elim d.id [ none ↦ given_ids ds | some id ↦ id ∷ given_ids ds ]

  abbrev pub is_duplicate : String → PatchDepartment → Bool
  is_duplicate name d = truthy d.id && d.name == name

  -- `for (const dep of patch.departments)`: the departments before, with their identifiers, and
  -- those that follow
  pub assign_ids : List PatchDepartment → List PatchDepartment → Result (List PatchDepartment)
  assign_ids before [] = ok before
  assign_ids before (d ∷ ds) =
      if truthy d.id
      then assign_ids (before ++ d ∷ []) ds
      else if any (is_duplicate d.name) (before ++ d ∷ ds)
      then err 400
      else let id = fresh_id (given_ids (before ++ d ∷ ds)) (slug d.name) in
        assign_ids (before ++ record d { id = some id } ∷ []) ds
