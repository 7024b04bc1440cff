-- ===== src/Sites/Redirect.antt =====
-- Where a login may redirect to.
use Prim.Native.String
use simple_directory.Common.{
  Option, String, get_or, none, some, ◌≡◌, ◌⊎◌, nat_eq, option_eq, string_eq,
}
use simple_directory.Sites.{
  AuthMode, Site, https, only_back_office, only_other_site, sso_back_office,
}
use simple_directory.Tokens.{Owner}

-- the modes in which the accounts of a site are also reached from the back-office
pub data IsOpenMode : Option AuthMode → Type 0 where
  by_default : IsOpenMode none
  by_back_office : IsOpenMode (some only_back_office)
  by_sso : IsOpenMode (some sso_back_office)

-- the same organization or the same user, whatever the department
abbrev pub IsSameOwner : Owner → Owner → Type 0
IsSameOwner a b = (a.is_organization ≡ b.is_organization) × (a.id ≡ b.id)

-- the site has its accounts on `host`, and nowhere else
abbrev pub IsDelegated : Site → String → Type 0
IsDelegated r host = (r.auth_mode ≡ some only_other_site) × (r.auth_only_other_site ≡ some host)

module _ (get_site : String → Option Site) where
  -- the accounts of the site are on another one of the same owner, which the back-office reaches
  abbrev pub IsRelayed : Site → Type 0
  IsRelayed r =
      (host : String) × (via : Site) × IsDelegated r host
      × (get_site (https host) ≡ some via)
      × IsSameOwner via.owner r.owner
      × IsOpenMode via.auth_mode

  -- what lets a site be reached: see get_redirect_site-may_redirect
  abbrev pub IsReachable : String → Option Site → Site → Type 0
  IsReachable public_host none r =
      IsOpenMode r.auth_mode ⊎ (IsDelegated r public_host ⊎ IsRelayed r)
  IsReachable public_host (some c) r =
      IsSameOwner c.owner r.owner × IsDelegated r (String.◌++◌ c.host (get_or c.path ""))
