-- ===== src/Members/Tests.antt =====
-- Tests of the memberships, and the theorems at concrete users.
use text.Mathlib.TextEquality.{eq_iff}
use text.Mathlib.Text.{◌==◌ as str_eq}
use mathlib.Core.Path.{subst}
use simple_directory.Members.Patch.{patched_memberships-is_target}
use simple_directory.Members.Add.{added_memberships-IsExclusive}
use simple_directory.Members.Store.{HasExclusive, patch_member-All}
use simple_directory.Common.{
  All, Bool-cases, String, [], any, err, false, inl, inr, none, ok, refl, some, true, ◌∷◌, ◌≡◌,
}
use simple_directory.Collection.{Collection, list_collection}
use simple_directory.Types.{Department, Membership, Organization, User}
use simple_directory.Members.{
  MemberConfig, MemberPatch, added_memberships, is_target, move_entry, patch_member, patched_entry,
  patched_memberships, push_entry,
}
use simple_directory.Members.Exclusive.{IsExclusive, IsSingle}

abbrev plain : MemberConfig
plain = record { multi_roles = false; single_membership = false }

abbrev single : MemberConfig
single = record { multi_roles = false; single_membership = true }

abbrev sales : Department
sales = record { id = "sales"; name = "Sales" }

abbrev acme : Organization
acme = record {
  id = "acme";
  name = "Acme";
  departments = sales ∷ record { id = "rd"; name = "Research" } ∷ [];
  partners = [];
  roles = none;
  roles_2fa = "admin" ∷ [];
  host = none;
  path = none;
}

abbrev in_sales : Membership
in_sales = record {
  id = "acme";
  name = "Acme";
  role = "user";
  department = some "sales";
  department_name = some "Sales";
  read_only = false;
}

abbrev in_other : Membership
in_other = record {
  id = "other";
  name = "Other";
  role = "admin";
  department = none;
  department_name = none;
  read_only = false;
}

abbrev ada : User
ada = record {
  id = "ada";
  name = "Ada";
  email = "ada@example.com";
  email_confirmed = true;
  host = none;
  path = none;
  organizations = in_sales ∷ in_other ∷ [];
  nhi = none;
  sessions = [];
  default_org = none;
  default_dep = none;
  ignore_personal_account = false;
  planned_deletion = none;
  is_admin = false;
  org_storage = false;
  core_id_provider = false;
}

abbrev users : Collection User
users = list_collection User

abbrev orgs : Collection Organization
orgs = list_collection Organization

-- a member of a department cannot be added to the whole organization
root_refused : added_memberships plain acme "user" none false ada.organizations ≡ err 400
unfolding added_memberships push_entry
root_refused = refl

-- in the single membership mode the entry is moved
root_moved :
    added_memberships single acme "admin" none false ada.organizations
    ≡ ok (
        record in_sales { role = "admin"; department = none; department_name = none }
        ∷ in_other
        ∷ [])
unfolding added_memberships move_entry
root_moved = refl

rd_added :
    added_memberships plain acme "user" (some "rd") false ada.organizations
    ≡ ok (
        in_sales
        ∷ in_other
        ∷ record in_sales { department = some "rd"; department_name = some "Research" }
        ∷ [])
unfolding added_memberships push_entry
rd_added = refl

department_unknown :
    added_memberships plain acme "user" (some "hr") false ada.organizations ≡ err 404
unfolding added_memberships push_entry
department_unknown = refl

-- a fact about every organization holds, if it does for "acme", for "other" and for no other
by_org :
    (P : String → Type 0)
    → P "acme"
    → P "other"
    → ((id : String) → (str_eq "acme" id) ≡ false → (str_eq "other" id) ≡ false → P id)
    → (id : String) → P id
by_org P a o h id = elim (Bool-cases (str_eq "acme" id)) [
  | inl same ↦ subst P ((eq_iff "acme" id).0 same) a
  | inr na ↦ elim (Bool-cases (str_eq "other" id)) [
    | inl same ↦ subst P ((eq_iff "other" id).0 same) o
    | inr no_other ↦ h id na no_other
  ]
]

ada-IsExclusive : IsExclusive ada.organizations
ada-IsExclusive = by_org _ refl refl (λ id a o. rw (a, o))

ada-IsSingle : IsSingle ada.organizations
ada-IsSingle = by_org _ refl refl (λ id a o. rw (a, o) tt)

added_memberships-IsExclusive_example : IsExclusive (
    in_sales
    ∷ in_other
    ∷ record in_sales { department = some "rd"; department_name = some "Research" }
    ∷ [])
added_memberships-IsExclusive_example =
    added_memberships-IsExclusive plain acme "user" (some "rd") false ada.organizations _
      ada-IsExclusive (λ _. ada-IsSingle) rd_added

abbrev to_root : MemberPatch
to_root = record { role = "admin"; department = none }

abbrev ada_root : User
ada_root = record ada {
  organizations =
      record in_sales { role = "admin"; department = none; department_name = none } ∷ in_other ∷ [];
}

ada_patched :
    patched_memberships plain "acme" none (some "sales") to_root none ada.organizations
    ≡ ok ada_root.organizations
unfolding patched_memberships patched_entry
ada_patched = refl

patched_memberships-is_target_example : any (is_target "acme" to_root) ada_root.organizations ≡ true
patched_memberships-is_target_example =
    patched_memberships-is_target plain "acme" none (some "sales") to_root none ada.organizations _
      refl ada_patched

ada_patch_stored :
    patch_member users orgs plain (ada ∷ []) (acme ∷ []) "acme" "ada" (some "sales") none to_root
    ≡ ok (ada_root ∷ [])
unfolding patch_member patched_memberships patched_entry
ada_patch_stored = refl

patch_member-All_example : All HasExclusive (ada_root ∷ [])
patch_member-All_example =
    patch_member-All users orgs plain (ada ∷ []) (ada_root ∷ []) (acme ∷ []) "acme" "ada"
      (some "sales") none to_root (ada-IsExclusive, tt) ada_patch_stored
