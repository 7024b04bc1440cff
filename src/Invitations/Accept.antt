-- ===== src/Invitations/Accept.antt =====
-- The acceptance of an invitation: GET /_accept of api/src/invitations/router.ts. The mails, events,
-- webhooks and the recount of the members at its end are left out; a page is the value that the
-- route answers, with the parameters that it puts in the link.
pub mod Write
pub mod Allowed
pub mod Joined
pub mod Stored
use Prim.Native.String
use simple_directory.Tokens.Cookies.{verified}
use simple_directory.Users.Storage.{get_user_by_email}
use simple_directory.Collection.{Collection}
use simple_directory.Members.{MemberConfig, find_department, in_org}
use simple_directory.Exits.{Exit, leave, leave_if, or_leave, stay, ◌>>=◌, ◌>>◌}
use simple_directory.Common.{
  Bool, List, Option, String, [], all, any, false, filter, get_or, head?, if◌then◌else◌, includes,
  is_some, leb, ltb, map, none, not, or_null, some, starts_with, strip_prefix, true, ℕ, ◌&&◌, ◌==◌,
  ◌∷◌, nat_eq, option_eq, string_eq,
}
use simple_directory.Sites.{Site}
use simple_directory.Types.{Membership, Organization, User}
use simple_directory.Passwords.{Password}

-- what the acceptance reads of the long form of an invitation
pub record Invitation : Type 0 where
  pub email : String
  pub id : String
  pub role : String
  pub departments : Option (List String)
  pub redirect : Option String

-- verifyToken: a payload, or an error that is an expiry or not
pub data TokenCheck : Type 0 where
  valid : Invitation → TokenCheck
  expired : TokenCheck
  malformed : TokenCheck

-- a limit and its consumption
pub record Quota : Type 0 where
  pub limit : ℕ
  pub consumption : ℕ

-- The settings, the requester and the parts that are not in this file. `stored_limit` is
-- store_nb_members of the limits of an organization; a negative limit is 0 here, since only
-- positive limits are tested. `has_provider` tells that the user has an account of a provider.
pub record AcceptEnv : Type 0 where
  pub verify_token : String → TokenCheck
  pub decode_token : String → Invitation
  pub same_text : String → String → Bool
  pub get_organization : String → Option Organization
  pub stored_limit : String → Option Quota
  pub nb_members : String → ℕ
  pub default_max_nb_members : ℕ
  pub get_password : Option (String → Option Password)
  pub has_provider : String → Bool
  pub readonly : Bool
  pub passwordless : Bool
  pub always_accept : Bool
  pub site : Option Site
  pub site_url : String
  pub invitation_redirect : Option String
  pub public_origin : String
  pub logged_email : Option String
  pub members : MemberConfig

-- the parameters of a link to the login page
pub record LoginLink : Type 0 where
  pub email : String
  pub org : String
  pub dep : Option String
  pub redirect : String

pub data Page : Type 0 where
  bad_request : Page
  error_page : String → Page
  unknown_department : String → Page
  change_password : User → LoginLink → Page
  login_page : LoginLink → Page
  create_user : String → String → Page
  proceed : String → Page
  -- keepalive and switchOrganization, then the page of the invitation
  switched : String → Option String → String → String → Page
  failed : ℕ → Page

-- getInvitationRedirect
abbrev pub configured_redirect : String → String → String → String
configured_redirect origin site_url landing =
    if starts_with landing "/"
    then String.◌++◌ site_url landing
    else elim (strip_prefix origin landing) [
      | some path ↦ String.◌++◌ site_url path
      | none ↦ String.◌++◌ site_url "/simple-directory/invitation"
    ]

unfoldable pub get_invitation_redirect : String → Option String → String → Option String → String
get_invitation_redirect origin configured site_url explicit = elim (or_null explicit) [
  | some landing ↦ landing
  | none ↦ elim (or_null configured) [
    | some landing ↦ configured_redirect origin site_url landing
    | none ↦ String.◌++◌ site_url "/simple-directory/invitation"
  ]
]

-- store_nb_members of getOrgLimits, without the write of a missing document
unfoldable pub nb_members_quota : AcceptEnv → Organization → Quota
nb_members_quota env orga = elim (env.stored_limit orga.id) [
  | some quota ↦ quota
  | none ↦ record { limit = env.default_max_nb_members; consumption = env.nb_members orga.id }
]

abbrev pub is_full : Quota → Bool
is_full q = ltb 0 q.limit && leb q.limit q.consumption

-- the departments of the organization in which the user already is
unfoldable pub member_departments : Invitation → Option User → List (Option String)
member_departments invit none = []
member_departments invit (some u) =
    map (λ (o : Membership). o.department) (filter (in_org invit.id) u.organizations)

abbrev pub is_joined : List (Option String) → String → Bool
is_joined joined d = includes joined (some d)

abbrev pub invited_departments : Invitation → List String
invited_departments invit = get_or invit.departments []

abbrev pub is_empty : List String → Bool
is_empty [] = true
is_empty (_ ∷ _) = false

abbrev pub already_accepted_all : List String → List (Option String) → Bool
already_accepted_all ds joined = not (is_empty ds) && all (is_joined joined) ds

abbrev pub not_joined : List (Option String) → String → Bool
not_joined joined d = not (is_joined joined d)

-- the filter applies when the user is in one of the departments
unfoldable pub new_departments : List String → List (Option String) → List String
new_departments ds joined = if any (is_joined joined) ds then filter (not_joined joined) ds else ds

-- `for (const deptId of newDepartments)`: the first one that the organization does not have
unfoldable pub check_departments : Organization → List String → Exit Page (Unit {0})
check_departments orga [] = stay tt
check_departments orga (d ∷ ds) = do
  found ← or_leave (find_department orga d) (unknown_department d)
  check_departments orga ds

-- the first department of the invitation
abbrev pub first_department : Invitation → Option String
first_department invit = head? (invited_departments invit)

-- what the route has read when it writes
pub record Acceptance : Type 0 where
  pub invit : Invitation
  pub user : User
  pub orga : Organization
  pub departments : List String
  pub redirect : String

module _ (users : Collection User) (env : AcceptEnv) where
  -- the invitation, and whether its token is still valid
  unfoldable pub read_token : Option String → Exit Page (Invitation × Bool)
  read_token none = leave bad_request
  read_token (some token) = elim (env.verify_token token) [
    | valid invit ↦ stay (invit, true)
    | expired ↦ stay (env.decode_token token, false)
    | malformed ↦ leave (error_page "invalidInvitationToken")
  ]

  abbrev pub link : Invitation → String → LoginLink
  link invit landing = record {
    email = invit.email;
    org = invit.id;
    dep = or_null (first_department invit);
    redirect = landing;
  }

  -- the user has no means to log in yet
  abbrev pub misses_password : User → Bool
  misses_password u = elim env.get_password [
    | none ↦ false
    | some get ↦
        not env.passwordless
        && env.always_accept
        && not (is_some (get u.id))
        && not (env.has_provider u.id)
  ]

  -- the answer when the user is already in all departments
  pub already_accepted : Invitation → User → String → Page
  already_accepted invit u landing =
      if misses_password u
      then change_password u (link invit landing)
      else if not (env.logged_email == some invit.email)
      then login_page (link invit landing)
      else proceed landing

  abbrev pub leave_if_accepted : Invitation → Option User → String → Exit Page (Unit {0})
  leave_if_accepted invit none landing = stay tt
  leave_if_accepted invit (some u) landing =
      leave_if
        (already_accepted_all (invited_departments invit) (member_departments invit (some u)))
        (already_accepted invit u landing)

  abbrev pub target_of : Invitation → String
  target_of invit =
      get_invitation_redirect env.public_origin env.invitation_redirect env.site_url invit.redirect

  abbrev pub departments_to_join : Invitation → Option User → List String
  departments_to_join invit existing =
      new_departments (invited_departments invit) (member_departments invit existing)

  -- the answers that come before any write, for an invitation and the user of its email
  unfoldable pub check_invitation :
      Option String → Invitation → Bool → Option User → Exit Page Acceptance
  check_invitation token invit verified existing = do
    leave_if (not (is_some existing) && env.readonly) (error_page "userUnknown")
    orga ← or_leave (env.get_organization invit.id) (error_page "orgaUnknown")
    leave_if_accepted invit existing (target_of invit)
    leave_if (not verified) (error_page "expiredInvitationToken")
    check_departments orga (departments_to_join invit existing)
    leave_if (is_full (nb_members_quota env orga)) (error_page "maxNbMembers")
    user ← or_leave existing (create_user (get_or token "") (target_of invit))
    stay (record {
      invit = invit;
      user = user;
      orga = orga;
      departments = departments_to_join invit existing;
      redirect = target_of invit;
    })

  unfoldable pub check_acceptance : Option String → users.Store → Exit Page Acceptance
  check_acceptance token s = do
    read ← read_token token
    check_invitation token read.0 read.1
        (get_user_by_email users env.same_text read.0.email env.site s)
