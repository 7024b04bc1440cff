-- ===== src/Members.antt =====
-- Memberships of an organization: addMember, patchMember, removeMember and required2FA of
-- api/src/storages/mongo.ts. The code changes the entry that it found in place: here the first
-- entry that passes the same test is changed.
pub mod Exclusive
pub mod Place
pub mod Add
pub mod Patch
pub mod Remove
pub mod Store
mod Tests
use simple_directory.Users.{is_admin}
use simple_directory.Common.{
  Bool, List, Option, Result, String, [], any, err, false, filter, find, if◌then◌else◌, includes,
  is_some, none, not, ok, or_null, or_throw, remove_first, some, throw_if, true, truthy,
  update_first, ◌&&◌, ◌++◌, ◌==◌, ◌>>=◌, ◌>>◌, ◌∷◌, nat_eq, option_eq, string_eq,
}
use simple_directory.Collection.{Collection}
use simple_directory.Types.{Department, Membership, Organization, User}

-- the settings that the code reads from `config`
pub record MemberConfig : Type 0 where
  pub multi_roles : Bool
  pub single_membership : Bool

-- `(a || null) === (b || null)`
abbrev pub same_department : Option String → Option String → Bool
same_department a b = or_null a == or_null b

abbrev pub in_org : String → Membership → Bool
in_org id o = o.id == id

-- the entry of the whole organization, and of one of its departments
abbrev pub is_root : String → Membership → Bool
is_root id o = o.id == id && not (truthy o.department)

abbrev pub is_dep : String → Membership → Bool
is_dep id o = o.id == id && truthy o.department

abbrev pub find_department : Organization → String → Option Department
find_department orga id = find (λ (d : Department). d.id == id) orga.departments

-- the test of the first `find` of addMember and of patchMember
abbrev pub is_entry : MemberConfig → String → Option String → Option String → Membership → Bool
is_entry cfg id role department o =
    if cfg.multi_roles && not (some o.role == role)
    then false
    else o.id == id && same_department o.department department

abbrev pub clear_department : Membership → Membership
clear_department o = record o { department = none; department_name = none }

abbrev pub set_department : Department → Membership → Membership
set_department d o = record o { department = some d.id; department_name = some d.name }

-- `if (department) { … 404 … } else { delete … }`
abbrev pub relocation : Organization → Option String → Result (Membership → Membership)
relocation orga none = ok clear_department
relocation orga (some department) = do
  d ← or_throw (find_department orga department) 404
  ok (set_department d)

-- the last assignments of addMember
abbrev pub write_role : String → Bool → Membership → Membership
write_role role read_only o = record o {
  role = role;
  read_only = if read_only then true else o.read_only;
}

abbrev pub new_entry : Organization → String → Membership
new_entry orga role = record {
  id = orga.id;
  name = orga.name;
  role = role;
  department = none;
  department_name = none;
  read_only = false;
}

-- the branch that pushes a new entry
unfoldable pub push_entry :
    Organization → String → Option String → Bool → List Membership → Result (List Membership)
push_entry orga role department read_only l = do
  throw_if (truthy department && any (is_root orga.id) l) 400
  throw_if (not (truthy department) && any (is_dep orga.id) l) 400
  place ← relocation orga (or_null department)
  ok (l ++ write_role role read_only (place (new_entry orga role)) ∷ [])

-- the branch of the single membership mode that moves the existing entry
pub move_entry :
    Organization → String → Option String → Bool → List Membership → Result (List Membership)
move_entry orga role department read_only l = do
  place ← relocation orga (or_null department)
  ok (update_first (in_org orga.id) (λ o. write_role role read_only (place o)) l)

unfoldable pub added_memberships :
    MemberConfig
    → Organization
    → String
    → Option String
    → Bool
    → List Membership
    → Result (List Membership)
added_memberships cfg orga role department read_only l =
    if any (is_entry cfg orga.id (some role) department) l
    then ok
        (update_first (is_entry cfg orga.id (some role) department) (write_role role read_only) l)
    else if cfg.single_membership && any (in_org orga.id) l
    then move_entry orga role department read_only l
    else push_entry orga role department read_only l

-- `body` of the request that patches a member
pub record MemberPatch : Type 0 where
  pub role : String
  pub department : Option String

-- the membership that a patch would duplicate
abbrev pub is_target : String → MemberPatch → Membership → Bool
is_target id patch o =
    o.id == id && same_department o.department patch.department && o.role == patch.role

-- whether the first entry that passes `p` and the first that passes `q` are one object
abbrev pub same_first : (Membership → Bool) → (Membership → Bool) → List Membership → Bool
same_first p q [] = false
same_first p q (o ∷ l) = if p o then q o else if q o then false else same_first p q l

-- what the filter against conflicts keeps
abbrev pub no_conflict : MemberConfig → String → MemberPatch → Membership → Bool
no_conflict cfg id patch o =
    if cfg.multi_roles && not (o.role == patch.role)
    then true
    else not (o.id == id && same_department o.department patch.department)

abbrev pub apply_patch : MemberPatch → Option Department → Membership → Membership
apply_patch patch none o = record (clear_department o) { role = patch.role }
apply_patch patch (some d) o = record (set_department d o) { role = patch.role }

-- what follows the search of a duplicate: conflicts are dropped, the entry is patched, and the
-- result is checked before it is written
unfoldable pub patched_entry :
    MemberConfig
    → String
    → Option String
    → Option String
    → MemberPatch
    → Option Department
    → List Membership
    → Result (List Membership)
patched_entry cfg id role department patch d l =
    let kept =
      if same_department patch.department department
      then l
      else filter (no_conflict cfg id patch) l in
    let patched = update_first (is_entry cfg id role department) (apply_patch patch d) kept in
    throw_if (truthy patch.department && any (is_root id) patched) 400
    >> (throw_if (not (truthy patch.department) && any (is_dep id) patched) 400 >> ok patched)

unfoldable pub patched_memberships :
    MemberConfig
    → String
    → Option String
    → Option String
    → MemberPatch
    → Option Department
    → List Membership
    → Result (List Membership)
patched_memberships cfg id role department patch d l =
    if not (any (is_entry cfg id role department) l)
    then err 404
    else if any (is_target id patch) l
    then ok (
        if same_first (is_target id patch) (is_entry cfg id role department) l
        then l
        else remove_first (is_entry cfg id role department) l)
    else patched_entry cfg id role department patch d l

-- the filter of the `$pull` of removeMember
abbrev pub is_removed : String → Option String → Option String → Membership → Bool
is_removed id department role o =
    o.id == id
    && (elim (or_null role) [ none ↦ true | some r ↦ o.role == r ])
    && (elim (or_null department) [
      | none ↦ true
      | some d ↦ if d == "*" then true else o.department == some d
    ])

unfoldable pub remaining_memberships :
    String → Option String → Option String → List Membership → List Membership
remaining_memberships id department role l = filter (λ o. not (is_removed id department role o)) l

abbrev pub set_memberships : List Membership → User → User
set_memberships l u = record u { organizations = l }

abbrev pub has_user_id : String → User → Bool
has_user_id id u = u.id == id

abbrev pub has_org_id : String → Organization → Bool
has_org_id id o = o.id == id

-- `if (patch.department) patchDepartmentObject = …`
abbrev pub patch_department : Organization → Option String → Result (Option Department)
patch_department org none = ok none
patch_department org (some id) = do d ← or_throw (find_department org id) 404; ok (some d)

module _ (users : Collection User) (cfg : MemberConfig) where
  pub add_member :
      users.Store → Organization → User → String → Option String → Bool → Result users.Store
  add_member s orga user role department read_only = do
    l ← added_memberships cfg orga role department read_only user.organizations
    ok (users.update_one (has_user_id user.id) (set_memberships l) s)

  abbrev pub drop_memberships : String → Option String → Option String → User → User
  drop_memberships id department role u =
      set_memberships (remaining_memberships id department role u.organizations) u

  unfoldable pub remove_member :
      users.Store → String → String → Option String → Option String → Result users.Store
  remove_member s organization_id user_id department role = do
    throw_if (cfg.multi_roles && not (truthy role)) 400
    ok (users.update_one (has_user_id user_id) (drop_memberships organization_id department role) s)

module _ (users : Collection User) (orgs : Collection Organization) (cfg : MemberConfig) where
  -- `return` without a write is the write of the memberships that are there
  unfoldable pub patch_member :
      users.Store
      → orgs.Store
      → String
      → String
      → Option String
      → Option String
      → MemberPatch
      → Result users.Store
  patch_member s t organization_id user_id department role patch = do
    throw_if (not (truthy role) && cfg.multi_roles) 400
    org ← or_throw (orgs.find_one (has_org_id organization_id) t) 404
    d ← patch_department org (or_null patch.department)
    user ← or_throw (users.find_one (has_user_id user_id) s) 404
    l ← patched_memberships cfg organization_id role department patch d user.organizations
    ok (users.update_one (has_user_id user_id) (set_memberships l) s)

module _ (orgs : Collection Organization) where
  -- `'2FA.roles': org.role` matches an array that holds the role
  abbrev pub requires_2fa : Membership → Organization → Bool
  requires_2fa o org = org.id == o.id && includes org.roles_2fa o.role

  pub required_2fa : Bool → Bool → orgs.Store → User → Bool
  required_2fa is_admin admins_2fa t user =
      if is_admin && admins_2fa
      then true
      else any (λ o. is_some (orgs.find_one (requires_2fa o) t)) user.organizations
