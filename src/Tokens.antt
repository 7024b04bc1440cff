-- ===== src/Tokens.antt =====
-- The content of the session tokens: getTokenPayload and getDefaultUserOrg of
-- api/src/tokens/service.ts.
pub mod Payload
pub mod Jar
pub mod Cookies
pub mod Decision
pub mod Keepalive
mod Tests
use simple_directory.Common.{
  Bool, List, Option, String, false, find, head?, if◌then◌else◌, includes, is_some, map, none, not,
  or_null, some, true, truthy, update_first, ◌&&◌, ◌==◌, ◌||◌, nat_eq, option_eq, string_eq,
}
use simple_directory.Types.{Membership, User}

pub record Owner : Type 0 where
  pub is_organization : Bool
  pub id : String
  pub department : Option String

-- an entry of `payload.organizations`: a copy of the membership, and `dflt`
pub record TokenOrg : Type 0 where
  pub membership : Membership
  pub dflt : Bool

-- `asAdmin` and `asAdminOrg` of a session in the name of somebody else
pub record AsAdmin : Type 0 where
  pub id : String
  pub name : String
  pub org : Option Membership

-- SessionState['user']
pub record SessionUser : Type 0 where
  pub id : String
  pub email : String
  pub name : String
  pub organizations : List TokenOrg
  pub is_admin : Bool
  pub ipa : Bool
  pub pd : Option String
  pub os : Bool
  pub idp : Bool
  pub site_owner : Option Owner
  pub nhi : Bool
  pub admin_mode : Bool
  pub remember_me : Bool
  pub as_admin : Option AsAdmin
  pub bound_ip : Option String

pub record TokenConfig : Type 0 where
  pub admins : List String
  pub admin_mode_on_sites : Bool

-- the test on the membership that `dflt` marks
abbrev pub is_default : User → Membership → Bool
is_default user o =
    some o.id == user.default_org
    && (if truthy user.default_dep then o.department == user.default_dep else true)

abbrev pub mark_default : User → List TokenOrg → List TokenOrg
mark_default user l =
    if truthy user.default_org
    then update_first (λ o. is_default user o.membership) (λ o. record o { dflt = true }) l
    else l

-- `config.adminModeOnSites && (config.admins.includes(…) || user.id === '_superadmin')`
abbrev pub is_site_admin : (String → String) → TokenConfig → User → Bool
is_site_admin lower cfg user =
    cfg.admin_mode_on_sites && (includes cfg.admins (lower user.email) || user.id == "_superadmin")

-- getTokenPayload; the last argument is the owner of the site, if there is a site
unfoldable pub get_token_payload :
    (String → String) → TokenConfig → User → Option Owner → SessionUser
get_token_payload lower cfg user site_owner = record {
  id = user.id;
  email = user.email;
  name = user.name;
  organizations =
      mark_default user (map (λ o. record { membership = o; dflt = false }) user.organizations);
  is_admin = not (is_some user.nhi) && (user.is_admin || is_site_admin lower cfg user);
  ipa = user.ignore_personal_account;
  pd = or_null user.planned_deletion;
  os = user.org_storage;
  idp = user.core_id_provider;
  site_owner = site_owner;
  nhi = is_some user.nhi;
  admin_mode = false;
  remember_me = false;
  as_admin = none;
  bound_ip = none;
}

-- what the login asks for: organization, department and role
pub record OrgRequest : Type 0 where
  pub org : Option String
  pub dep : Option String
  pub role : Option String

-- `if (asked && asked !== value) return false`
abbrev pub agrees : Option String → Option String → Bool
agrees asked value = not (truthy asked) || asked == value

abbrev pub is_requested : OrgRequest → Membership → Bool
is_requested r o = some o.id == r.org && agrees r.dep o.department && agrees r.role (some o.role)

abbrev pub requested_org : OrgRequest → List Membership → Option Membership
requested_org r l = if truthy r.org then find (is_requested r) l else none

-- the membership of the site's owner
abbrev pub is_of_owner : Owner → Membership → Bool
is_of_owner owner o =
    o.id == owner.id
    && (not (truthy o.department)
        || not (truthy owner.department)
        || o.department == owner.department)

abbrev pub site_org : Option Owner → List Membership → Option Membership
site_org none l = none
site_org (some owner) l = if owner.is_organization then find (is_of_owner owner) l else none

abbrev pub is_default_org : User → Membership → Bool
is_default_org user o =
    some o.id == user.default_org && or_null o.department == or_null user.default_dep

abbrev pub default_org : User → Option Membership
default_org user =
    if truthy user.default_org then find (is_default_org user) user.organizations else none

-- `a ?? b`, of the chain of returns
abbrev pub or_else : Option Membership → Option Membership → Option Membership
or_else none b = b
or_else (some a) b = some a

abbrev pub first_org : User → Option Membership
first_org user = if user.ignore_personal_account then head? user.organizations else none

-- getDefaultUserOrg
unfoldable pub get_default_user_org : User → Option Owner → OrgRequest → Option Membership
get_default_user_org user site r =
    or_else (requested_org r user.organizations)
      (or_else (site_org site user.organizations) (or_else (default_org user) (first_org user)))
