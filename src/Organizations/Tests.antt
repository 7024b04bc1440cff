-- ===== src/Organizations/Tests.antt =====
-- Tests of the organizations, and the theorems at concrete documents.
use simple_directory.Organizations.Delete.{delete_organization-All}
use simple_directory.Organizations.{
  OrgStores, OrganizationPatch, assert_nb_departments_limit, delete_organization, has_partner_org,
  is_member, patch_organization,
}
use simple_directory.Organizations.Rename.{IsNamed, IsNamedPartner, patch_organization-IsNamed}
use simple_directory.Common.{All, [], err, false, none, ok, refl, some, true, ◌∷◌, ◌≡◌}
use simple_directory.Types.{Membership, Organization, Partner, User}
use simple_directory.Collection.{Collection, list_collection}

abbrev acme_partner : Partner
acme_partner = record {
  id = some "acme";
  name = "Acme";
  contact_email = none;
  partner_id = "p1";
  created_at = some 1000;
}

abbrev acme_org : Organization
acme_org = record {
  id = "acme";
  name = "Acme";
  departments = [];
  partners = [];
  roles = none;
  roles_2fa = [];
  host = none;
  path = none;
}

abbrev other_org : Organization
other_org = record acme_org { id = "other"; name = "Other"; partners = acme_partner ∷ [] }

abbrev in_acme : Membership
in_acme = record {
  id = "acme";
  name = "Acme";
  role = "user";
  department = none;
  department_name = none;
  read_only = false;
}

abbrev cleo : User
cleo = record {
  id = "cleo";
  name = "Cleo";
  email = "cleo@example.com";
  email_confirmed = true;
  host = none;
  path = none;
  organizations = in_acme ∷ record in_acme { id = "other"; name = "Other" } ∷ [];
  nhi = none;
  sessions = [];
  default_org = none;
  default_dep = none;
  ignore_personal_account = false;
  planned_deletion = none;
  is_admin = false;
  org_storage = false;
  core_id_provider = false;
}

abbrev user_docs : Collection User
user_docs = list_collection User

abbrev org_docs : Collection Organization
org_docs = list_collection Organization

abbrev stored : OrgStores user_docs org_docs
stored = record { in_users = cleo ∷ []; in_orgs = acme_org ∷ other_org ∷ [] }

abbrev new_name : OrganizationPatch
new_name = record { name = some "Acme SAS"; departments = none }

patch_organization-IsNamed_example :
    All
      (λ (u : User). All (IsNamed "acme" "Acme SAS") u.organizations)
      (patch_organization user_docs org_docs "acme" new_name stored).in_users
    × All
        (λ (o : Organization). All (IsNamedPartner "acme" "Acme SAS") o.partners)
        (patch_organization user_docs org_docs "acme" new_name stored).in_orgs
patch_organization-IsNamed_example =
    patch_organization-IsNamed user_docs org_docs "acme" "Acme SAS" new_name stored (refl, tt) refl
      refl

delete_organization-All_example :
    All
      (λ (u : User). is_member "acme" u ≡ false)
      (delete_organization user_docs org_docs "acme" stored).in_users
    × All
        (λ (o : Organization). has_partner_org "acme" o ≡ false)
        (delete_organization user_docs org_docs "acme" stored).in_orgs
delete_organization-All_example = delete_organization-All user_docs org_docs "acme" stored

-- an organization over its quota may shrink
shrinks : assert_nb_departments_limit (some 1) 5 4 ≡ ok tt
unfolding assert_nb_departments_limit
shrinks = refl

grows : assert_nb_departments_limit (some 1) 1 2 ≡ err 429
unfolding assert_nb_departments_limit
grows = refl
