-- ===== src/Organizations.antt =====
-- The documents of organizations and what refers to them: patchOrganization and deleteOrganization
-- of api/src/storages/mongo.ts, and the quota of departments of api/src/limits/service.ts.
pub mod Rename
pub mod Delete
pub mod Departments
mod Tests
use simple_directory.Members.{has_org_id, has_user_id, in_org, set_memberships}
use simple_directory.Common.{
  Bool, List, Option, Result, String, [], any, false, filter, find, get_or, if◌then◌else◌, is_some,
  leb, ltb, map, none, not, ok, or_null, some, throw_if, true, truthy, update_all, ℕ, ◌&&◌, ◌==◌,
  ◌>>=◌, ◌>>◌, ◌||◌, ◌∷◌, nat_eq, option_eq, string_eq,
}
use simple_directory.Types.{Department, Membership, Organization, Partner, User}
use simple_directory.Collection.{Collection}

-- what the patch of an organization changes here
pub record OrganizationPatch : Type 0 where
  pub name : Option String
  pub departments : Option (List Department)

abbrev pub patched_org : OrganizationPatch → Organization → Organization
patched_org patch o = record o {
  name = get_or patch.name o.name;
  departments = get_or patch.departments o.departments;
}

-- `patch.departments.find(d => d.id === org.department)`
abbrev pub new_department : Option (List Department) → Option String → Option Department
new_department none department = none
new_department (some l) department =
    if truthy department then find (λ (d : Department). some d.id == department) l else none

abbrev pub relabel : Option Department → Membership → Membership
relabel none o = o
relabel (some d) o = record o { department_name = some d.name }

abbrev pub rename : Option String → Membership → Membership
rename none o = o
rename (some name) o = if name == "" then o else record o { name = name }

abbrev pub refresh_membership : String → OrganizationPatch → Membership → Membership
refresh_membership id patch o =
    if o.id == id
    then relabel (new_department patch.departments o.department) (rename patch.name o)
    else o

abbrev pub refresh_user : String → OrganizationPatch → User → User
refresh_user id patch u = record u {
  organizations = map (refresh_membership id patch) u.organizations;
}

abbrev pub is_member : String → User → Bool
is_member id u = any (in_org id) u.organizations

-- `if (patch.name || patch.departments)`
abbrev pub changes_labels : OrganizationPatch → Bool
changes_labels patch = truthy patch.name || is_some patch.departments

abbrev pub rename_partner : String → String → Partner → Partner
rename_partner id name p = record p { name = name }

abbrev pub is_partner_org : String → Partner → Bool
is_partner_org id p = p.id == some id

-- `partners.$[partner].name`
abbrev pub rename_partners : String → String → Organization → Organization
rename_partners id name o = record o {
  partners = update_all (is_partner_org id) (rename_partner id name) o.partners;
}

abbrev pub has_partner_org : String → Organization → Bool
has_partner_org id o = any (is_partner_org id) o.partners

abbrev pub drop_partner : String → Organization → Organization
drop_partner id o = record o { partners = filter (λ p. not (is_partner_org id p)) o.partners }

abbrev pub drop_membership : String → User → User
drop_membership id u = record u { organizations = filter (λ o. not (in_org id o)) u.organizations }

module _ (users : Collection User) (orgs : Collection Organization) where
  pub record OrgStores : Type 0 where
    pub in_users : users.Store
    pub in_orgs : orgs.Store

  -- the loop over the members: each one is written with its refreshed memberships
  pub refresh_each : String → OrganizationPatch → List User → users.Store → users.Store
  refresh_each id patch [] s = s
  refresh_each id patch (u ∷ us) s = refresh_each id patch us (
      users.update_one (has_user_id u.id)
        (set_memberships (map (refresh_membership id patch) u.organizations)) s)

  abbrev pub refresh_members : String → OrganizationPatch → users.Store → users.Store
  refresh_members id patch s =
      if changes_labels patch
      then refresh_each id patch (filter (is_member id) (users.docs s)) s
      else s

  abbrev pub refresh_partners : String → Option String → orgs.Store → orgs.Store
  refresh_partners id none s = s
  refresh_partners id (some name) s =
      orgs.update_many (has_partner_org id) (rename_partners id name) s

  -- patchOrganization of an organization that is there: without one, the code stops after its first
  -- write, which changes nothing
  pub patch_organization : String → OrganizationPatch → OrgStores → OrgStores
  patch_organization id patch s = record {
    in_users = refresh_members id patch s.in_users;
    in_orgs =
        refresh_partners id (or_null patch.name)
          (orgs.update_one (has_org_id id) (patched_org patch) s.in_orgs);
  }

  pub delete_organization : String → OrgStores → OrgStores
  delete_organization id s = record {
    in_users = users.update_many (λ u. true) (drop_membership id) s.in_users;
    in_orgs =
        orgs.delete_one (has_org_id id)
          (orgs.update_many (has_partner_org id) (drop_partner id) s.in_orgs);
  }

-- assertNbDepartmentsLimit: only an increase is refused; `none` is -1
pub assert_nb_departments_limit : Option ℕ → ℕ → ℕ → Result (Unit {0})
assert_nb_departments_limit limit before after = do
  throw_if (not (leb after before) && (elim limit [ none ↦ false | some n ↦ ltb n after ])) 429
  ok tt
