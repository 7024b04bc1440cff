-- ===== src/Users/Storage/Tests.antt =====
-- Tests of the storage of users, and the theorems at concrete users, tokens and grants.
use simple_directory.OauthTokens.{OauthToken}
use simple_directory.Types.{User}
use simple_directory.Grants.{GrantDoc, TokenDoc, site_client}
use simple_directory.Users.Storage.{UserStores, get_user_by_email}
use simple_directory.Common.{
  Bool, String, [], false, none, refl, some, true, ◌==◌, ◌∷◌, ◌≡◌, nat_eq, option_eq, string_eq,
}
use simple_directory.Collection.{list_collection}

abbrev ada : User
ada = record {
  id = "ada";
  name = "Ada";
  email = "ada@example.com";
  email_confirmed = true;
  host = none;
  path = none;
  organizations = [];
  nhi = none;
  sessions = [];
  default_org = none;
  default_dep = none;
  ignore_personal_account = false;
  planned_deletion = some "2026-01-01";
  is_admin = false;
  org_storage = false;
  core_id_provider = false;
}

-- the identity of an agent with the same address
abbrev agent : User
agent = record ada {
  id = "nhi-1";
  nhi = some (record {
    provider = none;
    subject = none;
    allowed_ips = none;
    ip_binding = false;
    scopes = none;
  });
}

abbrev ada_grant : GrantDoc
ada_grant = record {
  id = "g1";
  sd = some (record {
    issuer = "https://example.com/simple-directory";
    client_id = "portal";
    client_kind = site_client;
    subject_is_nhi = false;
    subject_id = "ada";
    account = record { is_organization = false; id = "ada"; department = none };
    scope = "datasets:read";
    resources = "https://example.com" ∷ [];
    authorized_by = "ada";
    session_id = some "s1";
    created_at = 1000;
    expires_at = 5000;
    last_used_at = none;
  });
}

abbrev google : OauthToken
google = record {
  user_id = "ada";
  provider_id = "google";
  site = none;
  token = "secret";
  offline_refresh_token = false;
  logged_out = none;
  session_state = none;
  sid = none;
  sub = none;
}

abbrev same : String → String → Bool
same a b = a == b

found :
    get_user_by_email (list_collection User) same "ada@example.com" none (agent ∷ ada ∷ [])
    ≡ some ada
unfolding get_user_by_email
found = refl

-- the identity of an agent is never found by its address
agent_not_found :
    get_user_by_email (list_collection User) same "ada@example.com" none (agent ∷ []) ≡ none
unfolding get_user_by_email
agent_not_found = refl

abbrev stored :
    UserStores
      (list_collection User)
      (list_collection OauthToken)
      (list_collection GrantDoc)
      (list_collection TokenDoc)
      (list_collection TokenDoc)
stored = record {
  in_users = agent ∷ ada ∷ [];
  in_tokens = google ∷ [];
  oauth = record { in_grants = ada_grant ∷ []; in_refresh = []; in_codes = [] };
}
