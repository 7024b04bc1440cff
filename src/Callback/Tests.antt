-- ===== src/Callback/Tests.antt =====
-- Tests of the callback, and the theorems at a concrete link.
use simple_directory.Callback.Route.{
  CallbackStores, callback_user, confirm_log, take_token, token_callback,
}
use simple_directory.Sites.{get_redirect_site}
use simple_directory.Callback.Single.{token_callback_twice}
use simple_directory.Members.{has_user_id}
use simple_directory.Types.{ServerSession, User}
use simple_directory.Callback.Sound.{IsSound, token_callback-IsSound}
use simple_directory.Callback.{
  CallbackEnv, CallbackQuery, CallbackToken, Opened, RelayState, SdStorage, UsedToken, create_orga,
  get_default_login_redirect, init_server_session, rebound_redirect, redirect_error,
}
use simple_directory.Tokens.{get_default_user_org, get_token_payload}
use simple_directory.Exits.{leave, stay}
use simple_directory.Common.{
  List, String, [], false, find, if◌then◌else◌, none, or_null, refl, some, true, update_first, ◌==◌,
  ◌∷◌, ◌≡◌, nat_eq, option_eq, string_eq,
}
use simple_directory.Collection.{Collection, list_collection}

abbrev ada : User
ada = record {
  id = "ada";
  name = "Ada";
  email = "ada@example.com";
  email_confirmed = false;
  host = none;
  path = none;
  organizations = [];
  nhi = none;
  sessions = [];
  default_org = none;
  default_dep = none;
  ignore_personal_account = false;
  planned_deletion = none;
  is_admin = false;
  org_storage = false;
  core_id_provider = false;
}

abbrev of_link : CallbackToken
of_link = record {
  id = "ada";
  email_confirmed = true;
  admin_mode = true;
  remember_me = false;
  temporary = true;
  action = none;
  cb_jti = some "n1";
  idp_login = none;
  exp = 900;
}

abbrev env : CallbackEnv
env = record {
  verify = λ text. if text == "link" then some of_link else none;
  sign = λ t. "link";
  get_site = λ url. none;
  get_organization = λ id. none;
  site = none;
  site_url = "https://e.example";
  public_host = "e.example";
  public_origin = "https://e.example";
  default_login_redirect = none;
  replace_origin = λ url base. url;
  admin_session = false;
  lower = λ s. s;
  tokens = record { admins = []; admin_mode_on_sites = false };
  multi_roles = false;
  initial_token = 600;
}

abbrev confirm : User → User
confirm u = record u { email_confirmed = true }

abbrev add_session : ServerSession → User → User
add_session x u = record u { sessions = x ∷ u.sessions }

abbrev memory : SdStorage
memory = record {
  Store = List User;
  readonly = false;
  get_user = λ id s. find (has_user_id id) s;
  add_user_session = λ id x s. update_first (has_user_id id) (add_session x) s;
  update_logged = λ id s. s;
  confirm_email = λ id s. update_first (has_user_id id) confirm s;
}

abbrev used_tokens : Collection UsedToken
used_tokens = list_collection UsedToken

abbrev relay_states : Collection RelayState
relay_states = list_collection RelayState

abbrev query : CallbackQuery
query = record {
  id_token = some "link";
  redirect = some "https://evil.example/";
  id_token_org = none;
  id_token_dep = none;
  id_token_role = none;
}

abbrev before_login : CallbackStores env memory used_tokens relay_states
before_login = record { in_users = ada ∷ []; in_used = []; in_relays = [] }

abbrev new_session : ServerSession
new_session = init_server_session "s1" 1000

abbrev after_login : CallbackStores env memory used_tokens relay_states
after_login = record {
  in_users = confirm (add_session new_session ada) ∷ [];
  in_used = record { id = "n1"; used_at = 1000; expires_at = 900000 } ∷ [];
  in_relays = [];
}

abbrev opened_session : Opened
opened_session = record {
  user = ada;
  payload = record (get_token_payload (λ s. s) env.tokens ada none) { admin_mode = false };
  session = new_session;
  idp = none;
  user_org = none;
  step = create_orga;
  redirect = "https://e.example/simple-directory/me";
}

-- the redirection to another site is replaced, and the administrator mode is dropped
opens :
    token_callback env memory used_tokens relay_states true "s1" 1000 query before_login
    ≡ (after_login, stay opened_session)
unfolding token_callback take_token callback_user rebound_redirect get_default_login_redirect
    get_redirect_site get_token_payload get_default_user_org
opens = refl

token_callback_twice_example :
    token_callback env memory used_tokens relay_states true "s2" 2000 query after_login
    ≡ (after_login, leave (redirect_error "invalidToken"))
token_callback_twice_example =
    token_callback_twice env memory used_tokens relay_states true true "s1" "s2" 1000 2000 query
      query before_login after_login opened_session "link" "n1" of_link refl refl refl opens refl

token_callback-IsSound_example :
    (text : String) × (t : CallbackToken) × (or_null query.id_token ≡ some text)
    × (env.verify text ≡ some t)
    × IsSound env memory used_tokens relay_states t before_login opened_session
    × (after_login.in_users
        ≡ confirm_log env memory used_tokens relay_states ada
            (memory.add_user_session "ada" (init_server_session "s1" 1000) before_login.in_users))
token_callback-IsSound_example =
    token_callback-IsSound env memory used_tokens relay_states true "s1" 1000 query before_login
      after_login opened_session opens
