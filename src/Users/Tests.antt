-- ===== src/Users/Tests.antt =====
-- Tests of the user records, and the theorems at concrete users.
use simple_directory.Common.{[], false, none, refl, true, ◌∷◌, ◌≡◌}
use simple_directory.Types.{User}
use simple_directory.Users.{is_admin}

abbrev root : User
root = record {
  id = "root";
  name = "Root";
  email = "root@example.com";
  email_confirmed = true;
  host = none;
  path = none;
  organizations = [];
  nhi = none;
  sessions = [];
  default_org = none;
  default_dep = none;
  ignore_personal_account = false;
  planned_deletion = none;
  is_admin = false;
  org_storage = false;
  core_id_provider = false;
}

root-is_admin : is_admin (λ s. s) ("root@example.com" ∷ []) root ≡ true
unfolding is_admin
root-is_admin = refl
