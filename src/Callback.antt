-- ===== src/Callback.antt =====
-- The end of a login: prepareCallbackUrl of api/src/tokens/service.ts makes the link that carries
-- the temporary token, and GET /token_callback of api/src/auth/router.ts opens the session.
pub mod Route
pub mod Single
pub mod Sound
mod Tests
use mathlib.Core.Option
use Prim.Native.String
use simple_directory.Tokens.{OrgRequest, Owner, SessionUser, TokenConfig, get_token_payload}
use simple_directory.Types.{Membership, Organization, ServerSession, User}
use simple_directory.Exits.{Exit, or_leave, stay, ◌>>=◌}
use simple_directory.Sites.{Site, get_redirect_site}
use simple_directory.Common.{
  Bool, Option, Result, String, err, false, if◌then◌else◌, is_some, none, not, ok, or_null, some,
  starts_with, true, truthy, ℕ, ◌&&◌, ◌+◌, ◌/◌, ◌==◌, nat_eq, option_eq, string_eq,
}

-- What the code reads of a decoded token. Its payload is the one of a session, of which the
-- callback reads the user and two marks.
pub record CallbackToken : Type 0 where
  pub id : String
  pub email_confirmed : Bool
  pub admin_mode : Bool
  pub remember_me : Bool
  pub temporary : Bool
  pub action : Option String
  pub cb_jti : Option String
  pub idp_login : Option String
  pub exp : ℕ

-- the query parameters of the link
pub record CallbackQuery : Type 0 where
  pub id_token : Option String
  pub redirect : Option String
  pub id_token_org : Option String
  pub id_token_dep : Option String
  pub id_token_role : Option String

-- a document of usedCallbackTokens, and one of oauthRelayStates
pub record UsedToken : Type 0 where
  pub id : String
  pub used_at : ℕ
  pub expires_at : ℕ

pub record RelayState : Type 0 where
  pub id : String
  pub id_token : Option String
  pub provider_id : Option String
  pub site : Option String

-- `serverSession.idp`
pub record IdpSession : Type 0 where
  pub provider_id : String
  pub id_token : String
  pub site : Option String

-- What the handlers take from the libraries, the settings and the stored sites; `verify` gives the
-- content of a token whose signature and date are valid.
pub record CallbackEnv : Type 0 where
  pub verify : String → Option CallbackToken
  pub sign : CallbackToken → String
  pub get_site : String → Option Site
  pub get_organization : String → Option Organization
  pub site : Option Site
  pub site_url : String
  pub public_host : String
  pub public_origin : String
  pub default_login_redirect : Option String
  pub replace_origin : String → String → String
  pub admin_session : Bool
  pub lower : String → String
  pub tokens : TokenConfig
  pub multi_roles : Bool
  pub initial_token : ℕ

-- the storage of users that the login is made on, an interface of the service with several
-- implementations
pub record SdStorage : Type 1 where
  pub Store : Type 0
  pub readonly : Bool
  pub get_user : String → Store → Option User
  pub add_user_session : String → ServerSession → Store → Store
  pub update_logged : String → Store → Store
  pub confirm_email : String → Store → Store

pub data CallbackError : Type 0 where
  redirect_error : String → CallbackError
  forbidden : CallbackError

-- the last redirection
pub data NextStep : Type 0 where
  create_orga planned_deletion target : NextStep

-- What the handler sets the cookies of the session with (see Tokens.Cookies), and where it goes.
pub record Opened : Type 0 where
  pub user : User
  pub payload : SessionUser
  pub session : ServerSession
  pub idp : Option IdpSession
  pub user_org : Option Membership
  pub step : NextStep
  pub redirect : String

-- initServerSession, without the device and the address
abbrev pub init_server_session : String → ℕ → ServerSession
init_server_session nanoid now = record {
  id = nanoid;
  jti = none;
  previous_jti = none;
  rotated_at = none;
  last_keepalive = now;
}

abbrev pub is_ok {ℓ} : {A : Type ℓ} → Result A → Bool
is_ok (ok _) = true
is_ok (err _) = false

abbrev pub owner_of_site : Option Site → Option Owner
owner_of_site = Option.map (λ (s : Site). s.owner)

abbrev pub has_used_id : String → UsedToken → Bool
has_used_id id t = t.id == id

abbrev pub is_state_with_token : String → RelayState → Bool
is_state_with_token id r = r.id == id && is_some r.id_token

abbrev pub without_token : RelayState → RelayState
without_token r = record r { id_token = none }

abbrev pub idp_session : Option String → Option String → Option String → Option IdpSession
idp_session (some token) (some provider) at_site =
    some (record { provider_id = provider; id_token = token; site = or_null at_site })
idp_session none provider at_site = none
idp_session (some token) none at_site = none

abbrev pub idp_of : Option RelayState → Option IdpSession
idp_of none = none
idp_of (some r) = idp_session (or_null r.id_token) (or_null r.provider_id) r.site

module _ (env : CallbackEnv) where
  -- getDefaultLoginRedirect
  pub get_default_login_redirect : Option String → String
  get_default_login_redirect redirect = elim (or_null redirect) [
    | some r ↦ r
    | none ↦ elim (or_null env.default_login_redirect) [
      | none ↦ String.◌++◌ env.site_url "/simple-directory/me"
      | some d ↦
          if starts_with d "/"
          then String.◌++◌ env.site_url d
          else if starts_with d env.public_origin
          then env.replace_origin d env.site_url
          else String.◌++◌ env.site_url "/simple-directory/me"
    ]
  ]

  abbrev pub redirect_site : String → Result (Option Site)
  redirect_site =
      get_redirect_site env.get_site env.public_host env.site_url env.site env.admin_session

  -- the token of prepareCallbackUrl: single use, unless its link is sent by mail
  pub callback_token : Bool → Bool → Option String → String → ℕ → SessionUser → CallbackToken
  callback_token emailed email_confirmed idp_login nanoid now payload = record {
    id = payload.id;
    email_confirmed = email_confirmed;
    admin_mode = payload.admin_mode;
    remember_me = payload.remember_me;
    temporary = true;
    action = none;
    cb_jti = if emailed then none else some nanoid;
    idp_login = if emailed then none else or_null idp_login;
    exp = now / 1000 + env.initial_token;
  }

  -- prepareCallbackUrl: the site that the link is on, and the parameters of the link
  pub prepare_callback_url :
      Bool
      → Bool
      → Option String
      → String
      → ℕ
      → SessionUser
      → Option String
      → Option OrgRequest
      → Result (Option Site × CallbackQuery)
  prepare_callback_url emailed confirmed idp_login nanoid now payload redirect user_org =
      elim (redirect_site (get_default_login_redirect redirect)) [
        | err status ↦ err status
        | ok at_site ↦ ok (
          at_site,
          record {
            id_token =
                some (env.sign (callback_token emailed confirmed idp_login nanoid now payload));
            redirect = or_null (some (get_default_login_redirect redirect));
            id_token_org = elim user_org [ none ↦ none | some o ↦ o.org ];
            id_token_dep = elim user_org [ none ↦ none | some o ↦ or_null o.dep ];
            id_token_role =
                if env.multi_roles
                then elim user_org [ none ↦ none | some o ↦ or_null o.role ]
                else none;
          },
        )
      ]

  -- the redirection that is asked for, unless it is off-site
  pub rebound_redirect : Option String → String
  rebound_redirect redirect =
      if is_ok (redirect_site (get_default_login_redirect redirect))
      then get_default_login_redirect redirect
      else get_default_login_redirect none

  abbrev pub check_org : Option String → Exit CallbackError (Option Organization)
  check_org org = elim (or_null org) [
    | none ↦ stay none
    | some id ↦
        or_leave (env.get_organization id) (redirect_error "orgaUnknown") >>= λ o. stay (some o)
  ]

  abbrev pub next_step : CallbackToken → User → Option Organization → String → Bool → NextStep
  next_step t u org redirect may_create_orgs =
      if t.email_confirmed
        && may_create_orgs
        && not (is_some org)
        && not (starts_with redirect (String.◌++◌ env.site_url "/simple-directory/login"))
      then create_orga
      else if truthy u.planned_deletion
      then planned_deletion
      else target

  abbrev pub session_payload : CallbackToken → User → SessionUser
  session_payload t u =
      let payload = get_token_payload env.lower env.tokens u (owner_of_site env.site) in
      record payload { remember_me = t.remember_me; admin_mode = t.admin_mode && payload.is_admin }
