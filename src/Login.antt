-- ===== src/Login.antt =====
-- The login by password: POST /password of api/src/auth/router.ts. What a handler does last is in
-- its outcome: see Login.Session for the session that a login opens.
pub mod Passwordless
pub mod Mailed
pub mod Allowed
pub mod Superadmin
pub mod Entry
pub mod Uniform
mod Tests
use mathlib.Core.Option
use simple_directory.Types.{Department, Membership, Organization, User}
use simple_directory.Tokens.{Owner, SessionUser, TokenConfig, get_token_payload}
use simple_directory.Passwords.{
  Password, PasswordRules, TwoFa, check_2fa_session, check_password, is_2fa_required, is_2fa_valid,
  is_active, validate_password,
}
use simple_directory.Exits.{Exit, leave, leave_if, or_leave, stay, ◌>>=◌, ◌>>◌}
use simple_directory.Sites.{Site}
use simple_directory.Common.{
  Bool, Option, String, any, false, get_or, if◌then◌else◌, is_some, none, not, or_null, some, true,
  truthy, ℕ, ◌&&◌, ◌==◌, ◌||◌, nat_eq, option_eq, string_eq,
}

-- the methods of SdStorage that a login reads; one of get_password and check_password_of is there
pub record LoginStorage : Type 0 where
  pub find_by_email : String → Option Site → Option User
  pub get_password : Option (String → Option Password)
  pub check_password_of : Option (String → String → Bool)
  pub get_2fa : String → Option TwoFa
  pub required_2fa : User → Bool
  pub is_password_outdated : User → Bool

-- config.adminCredentials
pub record AdminCredentials : Type 0 where
  pub email : String
  pub password : Password

-- The settings, the storages and what comes from libraries: the texts of the language, the rate
-- limiter (`limit` takes a point and tells whether there was one), the key derivation, one-time
-- codes, and the user of a valid token of the second factor.
pub record LoginEnv : Type 0 where
  pub trim : String → String
  pub lower : String → String
  pub is_email : String → Bool
  pub limit : String → Bool
  pub derive : String → String → String
  pub check_totp : String → String → Bool
  pub verify_2fa : String → Option String
  pub global_storage : LoginStorage
  pub org_storage : Organization → Option LoginStorage
  pub get_organization : String → Option Organization
  pub tokens : TokenConfig
  pub superadmin : User
  pub admin_credentials : Option AdminCredentials
  pub rules : PasswordRules
  pub is_forbidden : String → Bool
  pub validate_on_login : Bool
  pub passwordless : Bool

-- the request: its body, its cookie of the second factor and the site that it is made on
pub record LoginRequest : Type 0 where
  pub ip : String
  pub has_idp_session : Bool
  pub email : Option String
  pub password : Option String
  pub org : Option String
  pub dep : Option String
  pub wants_org_storage : Bool
  pub members_only : Bool
  pub admin_mode : Bool
  pub remember_me : Bool
  pub offer_admin_mode : Bool
  pub two_fa : Option String
  pub two_fa_cookie : Option String
  pub site : Option Site

-- ActionPayload of a transfer to another site
pub record HostChange : Type 0 where
  pub id : String
  pub email : String
  pub host : String
  pub path : Option String

-- The answers that open no session: an error and its status; the recovery of the second factor, which
-- is dropped from the record of the user; the mail of confirmation.
pub data Refusal : Type 0 where
  refused : String → ℕ → Refusal
  recovery_used : String → Refusal
  unconfirmed : SessionUser → Refusal

-- The other answers. The Boolean tells whether the cookie of the second factor is set.
pub data LoginOutcome : Type 0 where
  superadmin_in : SessionUser → LoginOutcome
  host_change : HostChange → LoginOutcome
  admin_offer : Bool → LoginOutcome
  logged_in : User → SessionUser → Bool → LoginOutcome

abbrev pub bad_credentials : Refusal
bad_credentials = refused "badCredentials" 400

-- the organization and the department that are asked for
abbrev pub has_department : Option String → Organization → Bool
has_department dep org =
    not (truthy dep) || any (λ (d : Department). some d.id == dep) org.departments

abbrev pub owner_of : Option Site → Option Owner
owner_of = Option.map (λ (s : Site). s.owner)

abbrev pub is_member_of : Organization → User → Bool
is_member_of org u = any (λ (o : Membership). o.id == org.id) u.organizations

abbrev pub is_outsider : Option Organization → Bool → User → Bool
is_outsider none members_only u = false
is_outsider (some org) members_only u = members_only && not (is_member_of org u)

abbrev pub secret_of : Option TwoFa → Option String
secret_of = Option.map (λ (t : TwoFa). t.secret)

abbrev pub recovery_of : Option TwoFa → Option Password
recovery_of none = none
recovery_of (some t) = t.recovery

module _ (env : LoginEnv) where
  pub target_org : Option String → Option String → Exit Refusal (Option Organization)
  target_org org dep = elim (or_null org) [
    | none ↦ stay none
    | some id ↦ do
      o ← or_leave (env.get_organization id) bad_credentials
      leave_if (not (has_department dep o)) bad_credentials
      stay (some o)
  ]

  -- `createOrgStorage(org) ?? storage`
  abbrev pub storage_for : Bool → Option Organization → LoginStorage
  storage_for wanted none = env.global_storage
  storage_for wanted (some org) =
      if wanted then get_or (env.org_storage org) env.global_storage else env.global_storage

  abbrev pub matching_admin : String → Option AdminCredentials
  matching_admin email = elim env.admin_credentials [
    | none ↦ none
    | some c ↦ if c.email == email then some c else none
  ]

  abbrev pub superadmin_login : Option Site → String → AdminCredentials → Exit Refusal LoginOutcome
  superadmin_login site password c = do
    leave_if (not (check_password env.derive password (some c.password))) bad_credentials
    stay (
        superadmin_in
          (record (get_token_payload env.lower env.tokens env.superadmin (owner_of site)) {
            admin_mode = true;
          }))

  -- A user of the site, else one of the main site; the Boolean is userFromMainHost.
  abbrev pub is_usable : Option User → Bool
  is_usable none = false
  is_usable (some u) = u.email_confirmed

  pub login_user : LoginStorage → Option Site → String → Exit Refusal (User × Bool)
  login_user storage site email =
      let here = storage.find_by_email email site in
      if is_usable here || not (is_some site)
      then (or_leave here bad_credentials >>= λ u. stay (u, false))
      else (or_leave (storage.find_by_email email none) bad_credentials >>= λ u. stay (u, true))

  abbrev pub is_password_of : LoginStorage → User → String → Bool
  is_password_of storage u password = elim storage.get_password [
    | some get ↦ check_password env.derive password (get u.id)
    | none ↦ elim storage.check_password_of [ some check ↦ check u.id password | none ↦ false ]
  ]

  -- the rules of passwords are checked at the login where the settings say so
  abbrev pub check_rules : String → Exit Refusal (Unit {0})
  check_rules password = elim (validate_password env.rules env.is_forbidden password) [
    | none ↦ stay tt
    | some error ↦ leave_if env.validate_on_login (refused error 400)
  ]

  pub check_credentials : LoginStorage → User → String → Exit Refusal (Unit {0})
  check_credentials storage u password = do
    leave_if (not (is_some storage.get_password) && not (is_some storage.check_password_of))
        (refused "missing password verification implementation" 500)
    leave_if (is_some storage.get_password && storage.is_password_outdated u)
        (refused "updatePassword" 400)
    leave_if (not (is_password_of storage u password)) bad_credentials
    if is_some storage.get_password then check_rules password else stay tt

  -- a transfer of the account to the site; an administrator would lose the rights
  pub offer_host_change : User → Site → Exit Refusal LoginOutcome
  offer_host_change u s = do
    leave_if u.is_admin (refused "adminChangeHostBlocked" 403)
    stay (host_change (record { id = u.id; email = u.email; host = s.host; path = s.path }))

  abbrev pub may_be_admin : Option Site → SessionUser → Bool
  may_be_admin site payload =
      payload.is_admin && (not (is_some site) || env.tokens.admin_mode_on_sites)

  abbrev pub admin_payload : Option Site → SessionUser → Exit Refusal SessionUser
  admin_payload site payload = do
    leave_if (is_some site && not (env.tokens.admin_mode_on_sites && payload.is_admin))
        (refused "adminModeOnly" 403)
    leave_if (not payload.is_admin) (refused "adminModeOnly" 403)
    stay (record payload { admin_mode = true })

  pub with_mode : LoginRequest → SessionUser → Exit Refusal SessionUser
  with_mode r payload =
      if r.admin_mode
      then admin_payload r.site payload
      else stay (record payload { remember_me = r.remember_me })

  -- a code of the second factor, or the recovery code, which drops the second factor
  abbrev pub check_code : User → Option TwoFa → String → Exit Refusal Bool
  check_code u t token =
      if is_2fa_valid env.check_totp (secret_of t) (env.trim token)
      then stay true
      else leave (
          if check_password env.derive (env.trim token) (recovery_of t)
          then recovery_used u.id
          else refused "2fa-bad-token" 403)

  pub second_factor : LoginStorage → User → LoginRequest → Exit Refusal Bool
  second_factor storage u r =
      let t = storage.get_2fa u.id in
      if not (is_2fa_required (storage.required_2fa u) t)
      then stay false
      else if not r.admin_mode && check_2fa_session env.verify_2fa r.two_fa_cookie u.id
      then stay false
      else elim (or_null r.two_fa) [
        | some token ↦ check_code u t token
        | none ↦ leave (refused (if is_active t then "2fa-required" else "2fa-missing") 403)
      ]

  -- the end of the login of a user, once the password is right
  pub open_login : LoginStorage → User → LoginRequest → Exit Refusal LoginOutcome
  open_login storage u r = do
    payload ← with_mode r (get_token_payload env.lower env.tokens u (owner_of r.site))
    cookie ← second_factor storage u r
    stay (
        if r.offer_admin_mode && not r.admin_mode && may_be_admin r.site payload
        then admin_offer cookie
        else logged_in u payload cookie)

  abbrev pub moved_or_open :
      LoginStorage → LoginRequest → User → Bool → Option Site → Exit Refusal LoginOutcome
  moved_or_open storage r u true (some s) = offer_host_change u s
  moved_or_open storage r u true none = open_login storage u r
  moved_or_open storage r u false site = open_login storage u r

  pub user_login :
      LoginStorage
      → LoginRequest
      → Option Organization
      → String
      → String
      → Exit Refusal LoginOutcome
  user_login storage r org email password = do
    found ← login_user storage r.site email
    leave_if found.0.core_id_provider bad_credentials
    check_credentials storage found.0 password
    leave_if (is_outsider org r.members_only found.0) bad_credentials
    leave_if (not found.0.email_confirmed)
        (unconfirmed (get_token_payload env.lower env.tokens found.0 (owner_of r.site)))
    moved_or_open storage r found.0 found.1 r.site

  pub password_login : LoginRequest → Exit Refusal LoginOutcome
  password_login r = do
    leave_if r.has_idp_session (refused "core identity provider" 403)
    given ← or_leave (or_null r.email) (refused "badEmail" 400)
    leave_if (not (env.is_email (env.trim given))) (refused "badEmail" 400)
    password ← or_leave (or_null r.password) bad_credentials
    leave_if (not (env.limit r.ip) || not (env.limit (env.trim given)))
        (refused "rateLimitAuth" 429)
    org ← target_org r.org r.dep
    elim (matching_admin (env.trim given)) [
      | some c ↦ superadmin_login r.site password c
      | none ↦ user_login (storage_for r.wants_org_storage org) r org (env.trim given) password
    ]
