-- ===== src/Nhis/Records/Tests.antt =====
-- Tests of the records of non-human identities, and the theorems at a concrete identity.
use simple_directory.Nhis.Exchange.{load_exchange_nhi, load_exchange_nhi-owned}
use simple_directory.Nhis.Records.Invariant.{IsNhi, patched_user-IsNhi}
use simple_directory.Common.{
  List, String, [], any, err, false, includes, is_some, none, not, ok, refl, some, throw_if, true,
  truthy, ◌&&◌, ◌==◌, ◌∷◌, ◌≡◌, ◌≢◌, nat_eq, option_eq, string_eq,
}
use simple_directory.Types.{Membership, Nhi, Organization, Provider, User}
use simple_directory.Collection.{Collection, list_collection}
use simple_directory.Nhis.Records.{
  NhiChecks, NhiPatch, NhiPost, bound_nhi, created_nhi, patched_nhi, patched_user,
}
use simple_directory.Sites.{Site}

abbrev checks : NhiChecks
checks = record {
  check_provider = λ p. ok tt;
  check_allowed_ips = λ l. throw_if (any (λ s. s == "") l) 400;
  scope_lib = record {
    scope_regexp = λ s. not (s == "");
    scope_covers = includes;
    scope_tiers = "read" ∷ "write" ∷ "admin" ∷ [];
  };
  known_scopes = "datasets:read" ∷ [];
  default_roles = "admin" ∷ "user" ∷ [];
}

abbrev an_org : Organization
an_org = record {
  id = "acme";
  name = "Acme";
  departments = record { id = "sales"; name = "Sales" } ∷ [];
  partners = [];
  roles = none;
  roles_2fa = [];
  host = none;
  path = none;
}

abbrev issuer : Provider
issuer = record { issuer = "https://idp.example"; jwks = none }

abbrev a_post : NhiPost
a_post = record {
  name = "Robot";
  role = "user";
  department = some "sales";
  provider = some issuer;
  subject = some "robot";
  allowed_ips = some ("10.0.0.1" ∷ []);
  ip_binding = false;
  scopes = some ("datasets:read" ∷ []);
}

abbrev its_membership : Membership
its_membership = record {
  id = "acme";
  name = "Acme";
  role = "user";
  department = some "sales";
  department_name = some "Sales";
  read_only = false;
}

abbrev robot : User
robot = record {
  id = "nhi-1";
  name = "Robot";
  email = "nhi-1@nhi.example.com";
  email_confirmed = false;
  host = none;
  path = none;
  organizations = its_membership ∷ [];
  nhi = some (bound_nhi a_post);
  sessions = [];
  default_org = none;
  default_dep = none;
  ignore_personal_account = true;
  planned_deletion = none;
  is_admin = false;
  org_storage = false;
  core_id_provider = false;
}

robot_created : created_nhi an_org "nhi-1" "nhi-1@nhi.example.com" a_post ≡ ok robot
unfolding created_nhi
robot_created = refl

abbrev a_patch : NhiPatch
a_patch = record {
  name = none;
  role = some "admin";
  department = some "";
  provider = none;
  subject = none;
  allowed_ips = some none;
  ip_binding = some true;
  scopes = none;
}

abbrev patched_robot : User
patched_robot = record robot {
  organizations =
      record its_membership { role = "admin"; department = none; department_name = none } ∷ [];
  nhi = some (record (bound_nhi a_post) { allowed_ips = none; ip_binding = true });
}

robot_patched : patched_user checks an_org a_patch robot ≡ ok patched_robot
unfolding patched_user patched_nhi
robot_patched = refl

patched_user-IsNhi_example : IsNhi "acme" patched_robot
patched_user-IsNhi_example =
    patched_user-IsNhi checks an_org "acme" a_patch robot patched_robot
      ((bound_nhi a_post, refl, refl), (its_membership, refl, refl)) robot_patched

-- a key binding is only given whole
half_bound :
    patched_user checks an_org
      (record a_patch { subject = some "x" })
      (record robot { nhi = some (record (bound_nhi a_post) { provider = none; subject = none }) })
    ≡ err 400
unfolding patched_user patched_nhi
half_bound = refl

abbrev robot_docs : Collection User
robot_docs = list_collection User

robot_loaded :
    load_exchange_nhi robot_docs (λ ip l. includes l ip) "nhi-1" none "10.0.0.1" (robot ∷ [])
    ≡ ok robot
unfolding load_exchange_nhi
robot_loaded = refl

load_exchange_nhi-owned_example :
    (robot.id ≡ "nhi-1")
    × (n : Nhi) × (o : Membership) × (robot.nhi ≡ some n)
    × (is_some n.provider && truthy n.subject ≡ true)
    × (robot.organizations ≡ o ∷ [])
    × ((t : Site) → none ≡ some t → (o.id ≡ t.owner.id) × (t.owner.is_organization ≡ true))
    × ((l : List String) → n.allowed_ips ≡ some l → l ≢ [] → includes l "10.0.0.1" ≡ true)
load_exchange_nhi-owned_example =
    load_exchange_nhi-owned robot_docs (λ ip l. includes l ip) "nhi-1" "10.0.0.1" none (robot ∷ [])
      robot robot_loaded
