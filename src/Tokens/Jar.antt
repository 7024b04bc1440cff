-- ===== src/Tokens/Jar.antt =====
-- The cookies that api/src/tokens/service.ts writes for the active organization.
use Prim.Native.String
use simple_directory.Common.{
  Bool, List, Option, String, [], false, if◌then◌else◌, none, or_null, some, ℕ, ◌*◌, ◌+◌, ◌/◌, ◌∷◌,
}
use simple_directory.Types.{Membership}

pub record CookieConfig : Type 0 where
  pub admin_session_ip_binding : Bool
  pub multi_roles : Bool
  -- jwtDurations, in seconds
  pub id_token : ℕ
  pub exchange_token : ℕ
  pub admin_exchange_token : ℕ

pub record Cookie : Type 0 where
  pub name : String
  pub value : String
  pub path : String
  pub expires : Option ℕ
  pub http_only : Option Bool
  pub same_site : Option String

abbrev pub set_cookie : String → Option ℕ → Bool → String → String → Cookie
set_cookie path expires http_only name value = record {
  name = name;
  value = value;
  path = path;
  expires = expires;
  http_only = some http_only;
  same_site = some "lax";
}

-- `cookies.set(name, '', deleteOpts)`
abbrev pub clear_cookie : String → String → Cookie
clear_cookie path name = record {
  name = name;
  value = "";
  path = path;
  expires = some 0;
  http_only = none;
  same_site = none;
}

abbrev pub optional_cookie : String → Option ℕ → String → Option String → Cookie
optional_cookie path expires name none = clear_cookie path name
optional_cookie path expires name (some value) = set_cookie path expires false name value

-- the three cookies of the active organization
abbrev pub org_cookies : String → Option ℕ → String → Option String → Option String → List Cookie
org_cookies path expires org dep role =
    set_cookie path expires false "id_token_org" org
    ∷ optional_cookie path expires "id_token_dep" dep
    ∷ optional_cookie path expires "id_token_role" role
    ∷ []

abbrev pub no_org_cookies : String → List Cookie
no_org_cookies path =
    clear_cookie path "id_token_org"
    ∷ clear_cookie path "id_token_dep"
    ∷ clear_cookie path "id_token_role"
    ∷ []

pub user_org_cookies : Bool → String → Option ℕ → Option Membership → List Cookie
user_org_cookies multi_roles path expires none = no_org_cookies path
user_org_cookies multi_roles path expires (some o) =
    org_cookies path expires o.id (or_null o.department) (if multi_roles then some o.role else none)

-- `expires` of the cookies, in milliseconds, only with `rememberMe`
abbrev pub remembered : Bool → ℕ → Option ℕ
remembered remember_me exp = if remember_me then some (exp * 1000) else none

abbrev pub switched :
    Bool → String → Option ℕ → Option String → Option String → Option String → List Cookie
switched multi_roles path expires none dep role = no_org_cookies path
switched multi_roles path expires (some org) dep role =
    org_cookies path expires org (or_null dep) (if multi_roles then or_null role else none)

pub switch_organization :
    CookieConfig → ℕ → String → Bool → Option String → Option String → Option String → List Cookie
switch_organization cfg now site_path remember_me org dep role =
    switched cfg.multi_roles (String.◌++◌ site_path "/")
      (remembered remember_me (now / 1000 + cfg.exchange_token)) (or_null org) dep role
