-- ===== src/Tokens/Tests.antt =====
-- Tests of the tokens, and the theorems at concrete users.
use mathlib.Core.Option
use simple_directory.Tokens.Keepalive.Reuse.{keepalive-reused}
use simple_directory.Tokens.Cookies.Expiry.{
  exchange_exp-Renewed, first_token, renewal, renewed_info,
}
use simple_directory.Tokens.Decision.Sound.{decide-renewed}
use simple_directory.Members.{has_user_id}
use simple_directory.Common.{
  Option, Result, String, [], any, ap, err, false, find, get_or, if◌then◌else◌, none, or_null, refl,
  some, true, truthy, ◌/◌, ◌==◌, ◌∷◌, ◌≡◌, nat_eq, option_eq, string_eq,
}
use simple_directory.Types.{Membership, ServerSession, User}
use simple_directory.Collection.{Collection, list_collection}
use simple_directory.Tokens.{
  AsAdmin, OrgRequest, SessionUser, TokenConfig, get_default_user_org, get_token_payload,
}
use simple_directory.Tokens.Jar.{CookieConfig}
use simple_directory.Tokens.Cookies.{SessionInfo, Signer, exchange_info}
use simple_directory.Tokens.Decision.{KeepaliveRequest, decide, renewed, reused}
use simple_directory.Tokens.Keepalive.{KeepaliveState, get_user_of, keepalive, user_holder}
use simple_directory.Sessions.{Holder, exchange_token_current, has_session_id}
use simple_directory.Grants.{GrantDoc, TokenDoc, matches_filter, site_client}

abbrev in_acme : Membership
in_acme = record {
  id = "acme";
  name = "Acme";
  role = "user";
  department = some "sales";
  department_name = some "Sales";
  read_only = false;
}

abbrev used : ServerSession
used = record {
  id = "s1";
  jti = some "b";
  previous_jti = some "a";
  rotated_at = some 1000;
  last_keepalive = 1000;
}

abbrev bea : User
bea = record {
  id = "bea";
  name = "Bea";
  email = "bea@example.com";
  email_confirmed = true;
  host = none;
  path = none;
  organizations = record in_acme { id = "other" } ∷ in_acme ∷ [];
  nhi = none;
  sessions = used ∷ [];
  default_org = some "acme";
  default_dep = none;
  ignore_personal_account = true;
  planned_deletion = none;
  is_admin = false;
  org_storage = false;
  core_id_provider = false;
}

abbrev tokens : TokenConfig
tokens = record { admins = []; admin_mode_on_sites = false }

abbrev cookie_config : CookieConfig
cookie_config = record {
  admin_session_ip_binding = true;
  multi_roles = false;
  id_token = 900;
  exchange_token = 2592000;
  admin_exchange_token = 3600;
}

abbrev bea_payload : SessionUser
bea_payload = get_token_payload (λ s. s) tokens bea none

abbrev asked : OrgRequest
asked = record { org = some "acme"; dep = some "sales"; role = none }

acme_chosen : get_default_user_org bea none asked ≡ some in_acme
unfolding get_default_user_org
acme_chosen = refl

abbrev admin_token : SessionInfo
admin_token = record {
  session = "s9";
  user = "root";
  admin_mode = true;
  ip = some "10.0.0.1";
  jti = some "t1";
  exp = some 5000;
}

-- the administrator acts in the name of Bea, from another address
abbrev next_token : SessionInfo
next_token = renewed_info cookie_config 4000000 "10.0.0.2" bea_payload "t2" admin_token

still_admin :
    (exchange_info cookie_config "10.0.0.2" "s9" bea_payload (some admin_token)).admin_mode ≡ true
unfolding exchange_info get_token_payload
still_admin = refl

exchange_exp-Renewed_example :
    (next_token.session ≡ "s9")
    × (next_token.exp ≡ some 5000)
    × (cookie_config.admin_session_ip_binding ≡ true
        → truthy admin_token.ip ≡ true
        → next_token.ip ≡ some "10.0.0.1")
exchange_exp-Renewed_example =
    exchange_exp-Renewed cookie_config admin_token next_token refl refl
      (renewal first_token next_token 4000000 "10.0.0.2" bea_payload "t2" still_admin refl)

-- a token is its id, and is never expired
abbrev info_of : String → SessionInfo
info_of jti = record {
  session = "s1";
  user = "bea";
  admin_mode = false;
  ip = none;
  jti = some jti;
  exp = some 9000;
}

abbrev signer : Signer
signer = record {
  sign_user = λ u exp. ("header", u.id, "signature");
  sign_info = λ i exp. get_or i.jti "";
  verify_info = λ now t. some (info_of t);
}

abbrev request : String → KeepaliveRequest
request token = record {
  now = 90000;
  req_ip = "10.0.0.1";
  site_path = "";
  user = bea_payload;
  org = none;
  exchange_cookie = some token;
  org_cookie = some "acme";
  dep_cookie = none;
  role_cookie = none;
  remove_admin_mode = false;
}

abbrev find_bea : String → Option User
find_bea id = if id == "bea" then some bea else none

bea_renewed : decide find_bea (λ o. true) signer (request "b") ≡ renewed (info_of "b") none
unfolding decide get_token_payload exchange_token_current
bea_renewed = refl

decide-renewed_example :
    ((request "b").user.nhi ≡ false)
    × ((truthy (info_of "b").ip ≡ true → ((info_of "b").ip == some "10.0.0.1") ≡ true)
        × ((token : String) × (or_null (request "b").exchange_cookie ≡ some token)
            × (signer.verify_info (90000 / 1000) token ≡ some (info_of "b")))
        × ((owner : User) × (s : ServerSession) × ("bea" ≡ owner.id)
            × ((request "b").user.as_admin ≡ none → find_bea (request "b").user.id ≡ some owner)
            × ((a : AsAdmin)
                → (request "b").user.as_admin ≡ some a
                → (find_bea a.id ≡ some owner) × (owner.is_admin ≡ true))
            × (find (has_session_id "s1") owner.sessions ≡ some s)
            × (exchange_token_current 90000 s (some "b") ≡ true)))
decide-renewed_example =
    decide-renewed find_bea (λ o. true) signer (request "b") (info_of "b") none bea_renewed

abbrev bea_users : Collection User
bea_users = list_collection User

abbrev no_holder : Holder
no_holder = user_holder bea_users

abbrev a_grant : GrantDoc
a_grant = record {
  id = "g1";
  sd = some (record {
    issuer = "https://example.com";
    client_id = "client";
    client_kind = site_client;
    subject_is_nhi = false;
    subject_id = "bea";
    account = record { is_organization = false; id = "bea"; department = none };
    scope = "datasets:read";
    resources = [];
    authorized_by = "bea";
    session_id = some "s1";
    created_at = 1000;
    expires_at = 900000;
    last_used_at = none;
  });
}

abbrev grant_docs : Collection GrantDoc
grant_docs = list_collection GrantDoc

abbrev token_docs : Collection TokenDoc
token_docs = list_collection TokenDoc

abbrev state : KeepaliveState bea_users no_holder no_holder grant_docs token_docs token_docs
state = record {
  stores = record { in_users = bea ∷ []; in_ldap = []; in_file = [] };
  oauth = record { in_grants = a_grant ∷ []; in_refresh = []; in_codes = [] };
  cookies = [];
}

abbrev run :
    KeepaliveRequest
    → Result (Unit {0})
      × KeepaliveState bea_users no_holder no_holder grant_docs token_docs token_docs
run r =
    keepalive bea_users no_holder no_holder grant_docs token_docs token_docs signer cookie_config
      tokens (λ s. s) (λ s. s) (λ t. some "s1") (λ o. true) r none "c" state

-- the token before the last one, after the window
bea_reused :
    decide
      (get_user_of bea_users no_holder no_holder grant_docs token_docs token_docs state)
      (λ o. true)
      signer
      (request "a")
    ≡ reused "s1"
unfolding decide get_token_payload exchange_token_current
bea_reused = refl

not_acting : (request "a").user.as_admin ≡ none
unfolding get_token_payload
not_acting = refl

keepalive-reused_example :
    ((run (request "a")).0 ≡ err 401)
    × ((u : User) × (bea_users.find_one
            (has_user_id (request "a").user.id)
            ((run (request "a")).1).stores.in_users
          ≡ some u)
        × (any (has_session_id "s1") u.sessions ≡ false))
    × (any
          (matches_filter (record { subject_id = none; client_id = none; session_id = some "s1" }))
          ((run (request "a")).1).oauth.in_grants
        ≡ false)
keepalive-reused_example =
    keepalive-reused bea_users no_holder no_holder grant_docs token_docs token_docs signer
      cookie_config tokens (λ s. s) (λ s. s) (λ t. some "s1") (λ o. true) (request "a") none "c"
      "s1" state
      (λ t i e. ap (λ (o : Option SessionInfo). Option.map (λ (k : SessionInfo). k.session) o) e)
      (refl, tt) refl not_acting bea_reused
