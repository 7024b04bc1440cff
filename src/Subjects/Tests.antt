-- ===== src/Subjects/Tests.antt =====
-- Tests of the subject checks, and the theorem at a concrete grant.
use simple_directory.Sites.{resolve_account_main_site}
use simple_directory.Issuers.{
  IssuerContext, IssuerEnv, Url, do_resolve_resource, find_site, locate_resource, main_site_url,
  resolve_resource,
}
use simple_directory.Nhis.Scopes.{
  global_tier_covers, max_covers, narrow_from, narrow_scope, narrow_step, tier_index,
}
use simple_directory.Nhis.Exchange.{nhi_may_target}
use simple_directory.Subjects.Issued.{IsIssued, check_grant_subject-IsIssued}
use simple_directory.Common.{
  [], false, if◌then◌else◌, includes, none, not, ok, refl, some, true, ◌==◌, ◌∷◌, ◌≡◌, nat_eq,
  option_eq, string_eq,
}
use simple_directory.Types.{Membership, User}
use simple_directory.Grants.{GrantRecord, cimd}
use simple_directory.Tokens.{get_token_payload}
use simple_directory.Subjects.{
  GrantSubject, SubjectEnv, bound_orgs, check_grant_subject, consent_admin_orgs, membership_account,
  narrowed_scope, nhi_max, sd_claims,
}

abbrev agent_org : Membership
agent_org = record {
  id = "acme";
  name = "Acme";
  role = "user";
  department = none;
  department_name = none;
  read_only = false;
}

abbrev agent : User
agent = record {
  id = "nhi-1";
  name = "Agent";
  email = "nhi-1@nhi.example.com";
  email_confirmed = false;
  host = none;
  path = none;
  organizations = agent_org ∷ [];
  nhi = some (record {
    provider = none;
    subject = none;
    allowed_ips = none;
    ip_binding = true;
    scopes = some ("datasets:read" ∷ []);
  });
  sessions = [];
  default_org = none;
  default_dep = none;
  ignore_personal_account = true;
  planned_deletion = none;
  is_admin = false;
  org_storage = false;
  core_id_provider = false;
}

abbrev boss : User
boss = record agent {
  id = "boss";
  organizations = record agent_org { role = "admin" } ∷ [];
  nhi = none;
}

abbrev location : Url
location = record {
  origin = "https://e.example";
  protocol = "https:";
  host = "e.example";
  pathname = "/";
  search = "";
  hash = "";
  username = "";
  password = "";
}

abbrev issuers : IssuerEnv
issuers = record {
  parse_url = λ url.
      if url == "https://e.example/mcp/search"
      then some (record location { pathname = "/mcp/search" })
      else some location;
  lower = λ s. s;
  public_url = "https://e.example/simple-directory";
  public_location = record location { pathname = "/simple-directory" };
  mcp_path = "/mcp";
  get_site = λ url. none;
  main_site_of = λ o. none;
}

abbrev env : SubjectEnv
env = record {
  get_user = λ id. if id == "nhi-1" then some agent else if id == "boss" then some boss else none;
  issuers = issuers;
  find_site_client = λ id. none;
  ip_allowed = λ ip l. includes l ip;
  scope_lib = record {
    scope_regexp = λ s. not (s == "");
    scope_covers = includes;
    scope_tiers = "read" ∷ "write" ∷ "admin" ∷ [];
  };
  known_scopes = "datasets:read" ∷ "datasets:write" ∷ [];
  dep_admin_is_org_admin = false;
  tokens = record { admins = []; admin_mode_on_sites = false };
  lower = λ s. s;
}

abbrev context : IssuerContext
context = record {
  issuer = "https://e.example/simple-directory";
  site = none;
  site_url = "https://e.example";
}

abbrev agent_grant : GrantRecord
agent_grant = record {
  issuer = "https://e.example/simple-directory";
  client_id = "https://agent.example/metadata";
  client_kind = cimd;
  subject_is_nhi = true;
  subject_id = "nhi-1";
  account = record { is_organization = true; id = "acme"; department = none };
  scope = "datasets:write datasets:read";
  resources = "https://e.example/mcp/search" ∷ [];
  authorized_by = "boss";
  session_id = none;
  created_at = 1000;
  expires_at = 5000;
  last_used_at = none;
}

abbrev issued : GrantSubject
issued = record {
  user = agent;
  scope = "datasets:read";
  resource = record {
    is_mcp = true;
    site = none;
    site_url = "https://e.example";
    audience = "https://e.example/mcp" ∷ "https://e.example" ∷ [];
  };
  claims = record {
    id = "nhi-1";
    email = "nhi-1@nhi.example.com";
    name = "Agent";
    organizations = record { membership = agent_org; dflt = false } ∷ [];
    is_admin = false;
    ipa = true;
    pd = none;
    os = false;
    idp = false;
    site_owner = none;
    nhi = true;
    admin_mode = false;
    remember_me = false;
    as_admin = none;
    bound_ip = some "10.0.0.1";
  };
}

-- the scope narrows to what the identity still has
narrowed_to_read : check_grant_subject env 2000 agent_grant context "10.0.0.1" ≡ ok issued
unfolding check_grant_subject nhi_max nhi_may_target narrowed_scope narrow_scope narrow_from
    narrow_step max_covers global_tier_covers tier_index sd_claims get_token_payload bound_orgs
    consent_admin_orgs membership_account resolve_resource do_resolve_resource locate_resource
    find_site main_site_url resolve_account_main_site
narrowed_to_read = refl

check_grant_subject-IsIssued_example : IsIssued env 2000 agent_grant context "10.0.0.1" issued
check_grant_subject-IsIssued_example =
    check_grant_subject-IsIssued env 2000 agent_grant context "10.0.0.1" issued narrowed_to_read
