-- ===== src/AuthProviders/Tests.antt =====
-- Concrete memberships asserted by an identity provider.
use Prim.Native.String
use simple_directory.Members.{added_memberships, push_entry}
use simple_directory.AuthProviders.{
  AuthInfo, AuthProvider, MemberInfo, ProviderEnv, add_read_only, auth_provider_member_info,
  create_email_domain, department_attribute, member_info, member_infos, oidc, org_ids,
  role_attribute, synced_memberships,
}
use simple_directory.Tokens.{}
use simple_directory.AuthProviders.Asserted.{
  IsKnown, auth_provider_member_info-IsKnown, is_asserted, synced_memberships-asserted,
}
use simple_directory.Types.{Membership, Organization}
use simple_directory.Common.{
  All, Bool, List, String, [], all, false, if◌then◌else◌, none, ok, refl, some, true, ◌==◌, ◌∷◌,
  ◌≡◌, nat_eq, option_eq, string_eq,
}

abbrev acme : Organization
acme = record {
  id = "acme";
  name = "Acme";
  departments = record { id = "sales"; name = "Sales" } ∷ [];
  partners = [];
  roles = none;
  roles_2fa = [];
  host = none;
  path = none;
}

abbrev env : ProviderEnv
env = record {
  default_org = some "acme";
  default_roles = "admin" ∷ "user" ∷ [];
  get_organization = λ id. if id == "acme" then some acme else none;
  ends_with = λ s suffix. s == String.◌++◌ "ada" suffix;
  members = record { multi_roles = false; single_membership = false };
}

-- the groups of the provider give the role, and its service the department
abbrev corporate : AuthProvider
corporate = record {
  id = "corporate";
  provider_type = oidc;
  create_member = create_email_domain "acme.example";
  member_role = role_attribute "group" (("admin", "managers" ∷ []) ∷ []) (some "user");
  member_department = department_attribute "service" true (some "head");
  core_id_provider = true;
}

abbrev login : AuthInfo
login = record {
  attribute =
      λ k. if k == "group" then some "managers" else if k == "service" then some "Sales" else none;
  email = "ada@acme.example";
}

abbrev asserted : MemberInfo
asserted = record { org = acme; read_only = true; role = "admin"; department = some "sales" }

abbrev entry : String → Bool → Membership
entry org owned = record {
  id = org;
  name = org;
  role = "user";
  department = none;
  department_name = none;
  read_only = owned;
}

gives : auth_provider_member_info env none corporate login ≡ ok (asserted ∷ [])
unfolding auth_provider_member_info member_infos member_info
gives = refl

auth_provider_member_info-IsKnown_example : All (IsKnown env (org_ids env none)) (asserted ∷ [])
auth_provider_member_info-IsKnown_example =
    auth_provider_member_info-IsKnown env none corporate login (asserted ∷ []) gives

abbrev synced : List Membership
synced =
    entry "other" false
    ∷ record {
      id = "acme";
      name = "Acme";
      role = "admin";
      department = some "sales";
      department_name = some "Sales";
      read_only = true;
    }
    ∷ []

-- the membership that the provider does not assert any more is dropped
syncs :
    synced_memberships env corporate (asserted ∷ []) (entry "old" true ∷ entry "other" false ∷ [])
    ≡ ok synced
unfolding synced_memberships add_read_only added_memberships push_entry
syncs = refl

synced_memberships-asserted_example : all (is_asserted (asserted ∷ [])) synced ≡ true
synced_memberships-asserted_example =
    synced_memberships-asserted env corporate (asserted ∷ [])
      (entry "old" true ∷ entry "other" false ∷ []) synced refl syncs
