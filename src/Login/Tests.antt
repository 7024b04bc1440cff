-- ===== src/Login/Tests.antt =====
-- Tests of the logins, and the theorems at concrete users.
use simple_directory.Login.{
  LoginEnv, LoginRequest, LoginStorage, check_credentials, is_password_of, logged_in, login_user,
  open_login, password_login, recovery_used, refused, second_factor, storage_for, superadmin_in,
  target_org, user_login, with_mode,
}
use simple_directory.Types.{Organization, User}
use simple_directory.Tokens.{SessionUser, get_token_payload}
use simple_directory.Login.Uniform.{password_login-refused}
use simple_directory.Passwords.{
  check_2fa_session, check_password, clear, is_2fa_required, is_2fa_valid, validate_password,
  validate_rules,
}
use simple_directory.Login.Mailed.{IsLinked, passwordless_login-IsLinked}
use simple_directory.Login.Passwordless.{link_sent, mail_for, passwordless_login}
use simple_directory.Exits.{leave, stay}
use simple_directory.Sites.{Site}
use simple_directory.Common.{
  Bool, Option, [], false, if◌then◌else◌, is_some, none, not, refl, some, true, ◌&&◌, ◌==◌, ◌||◌,
  ◌∷◌, ◌≡◌, nat_eq, option_eq, string_eq,
}

abbrev ada : User
ada = record {
  id = "ada";
  name = "Ada";
  email = "ada@example.com";
  email_confirmed = true;
  host = none;
  path = none;
  organizations = [];
  nhi = none;
  sessions = [];
  default_org = none;
  default_dep = none;
  ignore_personal_account = false;
  planned_deletion = none;
  is_admin = true;
  org_storage = false;
  core_id_provider = false;
}

abbrev bob : User
bob = record ada { id = "bob"; email = "bob@example.com"; is_admin = false }

abbrev acme : Organization
acme = record {
  id = "acme";
  name = "Acme";
  departments = [];
  partners = [];
  roles = none;
  roles_2fa = [];
  host = none;
  path = none;
}

abbrev storage : LoginStorage
storage = record {
  find_by_email = λ email s.
      if email == "ada@example.com"
      then some ada
      else if email == "bob@example.com"
      then some bob
      else none;
  get_password = some (λ id. some (clear "secret"));
  check_password_of = none;
  get_2fa = λ id.
      if id == "ada"
      then some (record { active = true; secret = "s"; recovery = some (clear "r") })
      else none;
  required_2fa = λ u. false;
  is_password_outdated = λ u. false;
}

abbrev env : LoginEnv
env = record {
  trim = λ s. s;
  lower = λ s. s;
  is_email = λ s. not (s == "");
  limit = λ key. true;
  derive = λ s p. s;
  check_totp = λ token secret. token == "123456";
  verify_2fa = λ token. if token == "valid" then some "ada" else none;
  global_storage = storage;
  org_storage = λ o. none;
  get_organization = λ id. if id == "acme" then some acme else none;
  tokens = record { admins = "ada@example.com" ∷ []; admin_mode_on_sites = false };
  superadmin = record ada { id = "_superadmin" };
  admin_credentials = none;
  rules = record { min_length = 0; min_char_classes = 0; entropy = 0 };
  is_forbidden = λ s. false;
  validate_on_login = true;
  passwordless = true;
}

abbrev by_ada : LoginRequest
by_ada = record {
  ip = "10.0.0.1";
  has_idp_session = false;
  email = some "ada@example.com";
  password = some "secret";
  org = none;
  dep = none;
  wants_org_storage = false;
  members_only = false;
  admin_mode = false;
  remember_me = false;
  offer_admin_mode = false;
  two_fa = none;
  two_fa_cookie = none;
  site = none;
}

abbrev payload_of : User → Bool → SessionUser
payload_of u admin_mode = record {
  id = u.id;
  email = u.email;
  name = u.name;
  organizations = [];
  is_admin = u.is_admin;
  ipa = false;
  pd = none;
  os = false;
  idp = false;
  site_owner = none;
  nhi = false;
  admin_mode = admin_mode;
  remember_me = false;
  as_admin = none;
  bound_ip = none;
}

abbrev in_admin_mode : LoginRequest
in_admin_mode = record by_ada { admin_mode = true; two_fa = some "123456" }

-- the cookie of the second factor lets in a session that is not one of an administrator, only
cookie_is_enough :
    password_login env (record by_ada { two_fa_cookie = some "valid" })
    ≡ stay (logged_in ada (payload_of ada false) false)
unfolding password_login target_org user_login login_user check_credentials open_login with_mode
    second_factor get_token_payload check_password check_2fa_session is_2fa_required
    validate_password validate_rules
cookie_is_enough = refl

cookie_is_not_enough :
    password_login env (record by_ada { two_fa_cookie = some "valid"; admin_mode = true })
    ≡ leave (refused "2fa-required" 403)
unfolding password_login target_org user_login login_user check_credentials open_login with_mode
    second_factor get_token_payload check_password is_2fa_required validate_password validate_rules
cookie_is_not_enough = refl

recovery : password_login env (record by_ada { two_fa = some "r" }) ≡ leave (recovery_used "ada")
unfolding password_login target_org user_login login_user check_credentials open_login with_mode
    second_factor get_token_payload check_password check_2fa_session is_2fa_required is_2fa_valid
    validate_password validate_rules
recovery = refl

-- the administrator of the settings, who asks for no administrator mode
superadmin_enters :
    password_login
      (record env {
        admin_credentials = some (record { email = "root@example.com"; password = clear "top" });
      })
      (record by_ada { email = some "root@example.com"; password = some "top" })
    ≡ stay (superadmin_in (payload_of (record ada { id = "_superadmin" }) true))
unfolding password_login target_org get_token_payload check_password
superadmin_enters = refl

-- who is not a member gets the link, although it is for members only
outsider_gets_link :
    passwordless_login env
      (record by_ada { email = some "bob@example.com"; org = some "acme"; members_only = true })
    ≡ stay (link_sent bob (payload_of bob false))
unfolding passwordless_login mail_for get_token_payload is_2fa_required
outsider_gets_link = refl

abbrev outsider_bob : LoginRequest
outsider_bob = record by_ada {
  email = some "bob@example.com";
  org = some "acme";
  members_only = true;
}

outsider-IsLinked : IsLinked env outsider_bob bob (payload_of bob false)
outsider-IsLinked =
    (passwordless_login-IsLinked env outsider_bob bob (payload_of bob false)).0 outsider_gets_link

-- a wrong password, for an account and for an organization that are there
abbrev wrong_password : LoginRequest
wrong_password = record by_ada { password = some "guess"; org = some "acme" }

password_login-refused_example :
    password_login env wrong_password ≡ leave (refused "badCredentials" 400)
unfolding check_password
password_login-refused_example =
    password_login-refused env wrong_password "ada@example.com" "guess" refl refl refl refl refl
      refl checks recent wrong (λ c found. cc found)
  where
    checks :
        (o : Option Organization)
        → (is_some (storage_for env false o).get_password
            || is_some (storage_for env false o).check_password_of)
          ≡ true
    checks none = refl
    checks (some o) = refl

    recent :
        (o : Option Organization) (u : User) (site : Option Site)
        → (storage_for env false o).find_by_email "ada@example.com" site ≡ some u
        → (is_some (storage_for env false o).get_password
            && (storage_for env false o).is_password_outdated u)
          ≡ false
    recent none u site found = refl
    recent (some o) u site found = refl

    wrong :
        (o : Option Organization) (u : User) (site : Option Site)
        → (storage_for env false o).find_by_email "ada@example.com" site ≡ some u
        → is_password_of env (storage_for env false o) u "guess" ≡ false
    wrong none u site found = refl
    wrong (some o) u site found = refl

-- an outdated password is told to whoever gives the address
outdated_is_told :
    password_login
      (record env { global_storage = record storage { is_password_outdated = λ u. true } })
      (record by_ada { password = some "guess" })
    ≡ leave (refused "updatePassword" 400)
unfolding password_login target_org user_login login_user check_credentials
outdated_is_told = refl
