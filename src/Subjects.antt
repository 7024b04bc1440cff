-- ===== src/Subjects.antt =====
-- The subject of an OAuth grant at each issuance of a token: api/src/oauth-server/grant-subject.ts,
-- with sdClaims of api/src/oauth-server/access-token.ts and the rules on accounts of
-- api/src/oauth-server/consent.ts.
pub mod Issued
mod Tests
use mathlib.Core.Option
use simple_directory.Issuers.{IssuerContext, IssuerEnv, ResolvedResource, resolve_resource}
use simple_directory.Members.{same_department}
use simple_directory.Nhis.Exchange.{ip_is_refused, nhi_may_target, only_membership}
use simple_directory.Users.{is_admin}
use simple_directory.Common.{
  Bool, List, Option, Result, String, [], any, false, find, if◌then◌else◌, is_some, leb, none, not,
  ok, or_null, or_throw, some, split_on, throw_if, true, truthy, ℕ, ◌&&◌, ◌++◌, ◌==◌, ◌>>=◌, ◌>>◌,
  ◌||◌, ◌∷◌, nat_eq, option_eq, string_eq,
}
use simple_directory.Types.{Membership, Nhi, User}
use simple_directory.Grants.{ClientKind, GrantAccount, GrantRecord, cimd, dcr, site_client}
use simple_directory.Sites.{Site, same_bool}
use simple_directory.Tokens.{SessionUser, TokenConfig, TokenOrg, get_token_payload}
use simple_directory.Nhis.Scopes.{ScopeLib, join_spaces, narrow_scope}

-- the scopes of the registration of a client of a site
pub record SiteClient : Type 0 where
  pub scopes : Option (List String)

-- What the check takes from elsewhere: the storage of users, the issuers, the clients of a site, node's BlockList, the library of scopes and the settings.
pub record SubjectEnv : Type 0 where
  pub get_user : String → Option User
  pub issuers : IssuerEnv
  pub find_site_client : String → Option SiteClient
  pub ip_allowed : String → List String → Bool
  pub scope_lib : ScopeLib
  pub known_scopes : List String
  pub dep_admin_is_org_admin : Bool
  pub tokens : TokenConfig
  pub lower : String → String

-- membershipAccount
pub membership_account : Membership → GrantAccount
membership_account o = record {
  is_organization = true;
  id = o.id;
  department = or_null o.department;
}

abbrev pub is_account_of : Membership → GrantAccount → Bool
is_account_of o a = a.id == o.id && same_department a.department o.department

-- the loop of consentAdminOrgs
abbrev pub add_admin_org : Bool → List GrantAccount → Membership → List GrantAccount
add_admin_org dep_admin accounts o =
    if not (o.role == "admin")
    then accounts
    else if truthy o.department && not dep_admin
    then accounts
    else if any (is_account_of o) accounts
    then accounts
    else accounts ++ membership_account o ∷ []

abbrev pub admin_orgs_from : Bool → List GrantAccount → List Membership → List GrantAccount
admin_orgs_from dep_admin accounts [] = accounts
admin_orgs_from dep_admin accounts (o ∷ l) =
    admin_orgs_from dep_admin (add_admin_org dep_admin accounts o) l

pub consent_admin_orgs : Bool → List Membership → List GrantAccount
consent_admin_orgs dep_admin l = admin_orgs_from dep_admin [] l

-- sdClaims: never an admin role
pub sd_claims : SubjectEnv → User → ResolvedResource → Option String → SessionUser
sd_claims env user resource bound_ip =
    record (get_token_payload env.lower env.tokens user
      (Option.map (λ (s : Site). s.owner) resource.site)) {
        is_admin = false;
        admin_mode = false;
        as_admin = none;
        bound_ip = bound_ip;
      }

abbrev pub is_bound_org : GrantAccount → TokenOrg → Bool
is_bound_org account o =
    o.membership.id == account.id && same_department o.membership.department account.department

-- boundAccountClaims: the organizations of the claims; a GrantSubjectError is a 400 of the endpoint
pub bound_orgs : User → GrantAccount → List TokenOrg → Result (List TokenOrg)
bound_orgs user account l =
    if account.is_organization
    then (or_throw (find (is_bound_org account) l) 400 >>= λ o. ok (o ∷ []))
    else (throw_if (is_some user.nhi || not (account.id == user.id)) 400 >> ok [])

abbrev pub is_site_kind : ClientKind → Bool
is_site_kind site_client = true
is_site_kind cimd = false
is_site_kind dcr = false

abbrev pub only_resource : List String → Option String
only_resource [] = none
only_resource (r ∷ []) = some r
only_resource (_ ∷ _ ∷ _) = none

pub record GrantSubject : Type 0 where
  pub user : User
  pub scope : String
  pub resource : ResolvedResource
  pub claims : SessionUser

module _ (env : SubjectEnv) where
  -- the maximum of the scopes, with the checks of each kind of subject
  pub nhi_max :
      GrantRecord
      → String
      → ResolvedResource
      → List Membership
      → Nhi
      → Result (Option (List String))
  nhi_max r ip resource l n = do
    o ← or_throw (only_membership l) 400
    throw_if (not r.account.is_organization) 400
    throw_if (ip_is_refused env.ip_allowed ip n.allowed_ips) 400
    throw_if (not (nhi_may_target (some o) resource.site)) 400
    ok n.scopes

  pub user_max : GrantRecord → IssuerContext → ResolvedResource → Result (Option (List String))
  user_max r ctx resource = do
    throw_if resource.is_mcp 400
    c ← or_throw (env.find_site_client r.client_id) 400
    throw_if (not (resource.site_url == ctx.site_url)) 400
    ok c.scopes

  abbrev pub subject_max :
      GrantRecord
      → IssuerContext
      → String
      → ResolvedResource
      → List Membership
      → Option Nhi
      → Result (Option (List String))
  subject_max r ctx ip resource l none = user_max r ctx resource
  subject_max r ctx ip resource l (some n) = nhi_max r ip resource l n

  pub narrowed_scope : GrantRecord → Option (List String) → List String
  narrowed_scope r max = narrow_scope env.scope_lib (split_on b' ' r.scope) max env.known_scopes

  abbrev pub ip_of_subject : String → Option Nhi → Option String
  ip_of_subject ip none = none
  ip_of_subject ip (some n) = if n.ip_binding then some ip else none

  abbrev pub is_admin_account : Option User → String → Bool
  is_admin_account none id = false
  is_admin_account (some u) id =
      any (λ (a : GrantAccount). a.id == id)
        (consent_admin_orgs env.dep_admin_is_org_admin u.organizations)

  -- the administrator who bound the client to the identity must still be one
  abbrev pub check_authorizer : GrantRecord → Option Nhi → Result (Unit {0})
  check_authorizer r none = ok tt
  check_authorizer r (some n) =
      throw_if (not (is_admin_account (env.get_user r.authorized_by) r.account.id)) 400

  pub check_grant_subject : ℕ → GrantRecord → IssuerContext → String → Result GrantSubject
  check_grant_subject now r ctx ip = do
    throw_if (leb r.expires_at now) 400
    throw_if (not (r.issuer == ctx.issuer)) 400
    throw_if (same_bool r.subject_is_nhi (is_site_kind r.client_kind)) 400
    user ← or_throw (env.get_user r.subject_id) 400
    throw_if (not (same_bool (is_some user.nhi) r.subject_is_nhi)) 400
    uri ← or_throw (only_resource r.resources) 400
    resource ← resolve_resource env.issuers ctx (some uri)
    max ← subject_max r ctx ip resource user.organizations user.nhi
    throw_if (join_spaces (narrowed_scope r max) == "") 400
    orgs ←
        bound_orgs user r.account
          (sd_claims env user resource (ip_of_subject ip user.nhi)).organizations
    check_authorizer r user.nhi
    ok (record {
      user = user;
      scope = join_spaces (narrowed_scope r max);
      resource = resource;
      claims = record (sd_claims env user resource (ip_of_subject ip user.nhi)) {
        organizations = orgs;
      };
    })
