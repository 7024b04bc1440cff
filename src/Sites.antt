-- ===== src/Sites.antt =====
-- Secondary sites: api/src/sites/service.ts. Which site answers a request, where its accounts live,
-- and where a login may redirect to.
pub mod ByHost
pub mod Accounts
pub mod Redirect
mod Tests
use Prim.Native.String
use Prim.Native.Char.{Char, code}
use simple_directory.Common.{
  Bool, List, Option, Result, String, [], err, false, filter, get_or, if◌then◌else◌, is_some, leb,
  nat_beq, none, not, ok, or_null, some, starts_with, true, ℕ, ◌&&◌, ◌+◌, ◌==◌, ◌||◌, ◌∷◌, nat_eq,
  option_eq, string_eq,
}
use simple_directory.Collection.{Collection}
use simple_directory.Tokens.{Owner}

pub data AuthMode : Type 0 where
  only_back_office sso_back_office only_local only_other_site : AuthMode

pub record Site : Type 0 where
  pub id : String
  pub owner : Owner
  pub host : String
  pub path : Option String
  pub auth_mode : Option AuthMode
  pub auth_only_other_site : Option String
  pub is_account_main : Bool

-- `String.prototype.length`, counted in characters
abbrev pub text_length : String → ℕ
text_length String.[] = 0
text_length (String.◌∷◌ c s) = text_length s + 1

-- `replace(/\/+$/, '')`
abbrev pub push_unless_slash : Char → String → String
push_unless_slash c String.[] = if nat_beq (code c) b'/' then "" else String.◌∷◌ c ""
push_unless_slash c (String.◌∷◌ d s) = String.◌∷◌ c (String.◌∷◌ d s)

abbrev pub strip_slashes : String → String
strip_slashes String.[] = ""
strip_slashes (String.◌∷◌ c s) = push_unless_slash c (strip_slashes s)

pub site_path_prefix : Site → String
site_path_prefix s = strip_slashes (get_or s.path "")

pub site_path_matches : Site → String → Bool
site_path_matches s path =
    let prefix = site_path_prefix s in
    prefix == "" || path == prefix || starts_with path (String.◌++◌ prefix "/")

abbrev pub is_candidate : String → String → Site → Bool
is_candidate host path s = s.host == host && site_path_matches s path

-- the first element of the stable sort by descending length of the prefix
abbrev pub longer : Site → Option Site → Option Site
longer a none = some a
longer a (some b) =
    if leb (text_length (site_path_prefix b)) (text_length (site_path_prefix a))
    then some a
    else some b

abbrev pub longest : List Site → Option Site
longest [] = none
longest (s ∷ l) = longer s (longest l)

-- `const [owner.type, owner.id]` are the same
abbrev pub same_bool : Bool → Bool → Bool
same_bool true b = b
same_bool false b = not b

abbrev pub same_owner : Owner → Owner → Bool
same_owner a b = same_bool a.is_organization b.is_organization && a.id == b.id

-- `!site?.authMode || site.authMode === 'onlyBackOffice'`
abbrev pub is_in_back_office : Option AuthMode → Bool
is_in_back_office none = true
is_in_back_office (some only_back_office) = true
is_in_back_office (some sso_back_office) = false
is_in_back_office (some only_local) = false
is_in_back_office (some only_other_site) = false

-- `['onlyBackOffice', 'ssoBackOffice', undefined].includes(authMode)`
abbrev pub accepts_back_office : Option AuthMode → Bool
accepts_back_office none = true
accepts_back_office (some only_back_office) = true
accepts_back_office (some sso_back_office) = true
accepts_back_office (some only_local) = false
accepts_back_office (some only_other_site) = false

abbrev pub is_other_site : Option AuthMode → Bool
is_other_site none = false
is_other_site (some only_back_office) = false
is_other_site (some sso_back_office) = false
is_other_site (some only_local) = false
is_other_site (some only_other_site) = true

-- the url `https://` and the delegate of a site in the mode onlyOtherSite
abbrev pub delegate : Site → Option String
delegate s = if is_other_site s.auth_mode then or_null s.auth_only_other_site else none

abbrev pub https : String → String
https host = String.◌++◌ "https://" host

abbrev pub is_owner_main : Owner → Site → Bool
is_owner_main owner s = same_owner s.owner owner && s.is_account_main

abbrev pub is_site : String → Site → Bool
is_site id s = s.id == id

abbrev pub make_local : Site → Site
make_local s = record s { auth_mode = some only_local; auth_only_other_site = none }

abbrev pub make_delegating : String → Site → Site
make_delegating host s = record s {
  auth_mode = some only_other_site;
  auth_only_other_site = some host;
  is_account_main = false;
}

abbrev pub is_sibling : Site → Site → Bool
is_sibling main s = same_owner s.owner main.owner && not (s.id == main.id)

module _ (sites : Collection Site) where
  pub get_site_by_host : String → String → sites.Store → Option Site
  get_site_by_host host path s = longest (filter (is_candidate host path) (sites.docs s))

  -- `parse_url` is the URL parser of the language: the host and the path
  pub get_site_by_url : (String → String × String) → String → sites.Store → Option Site
  get_site_by_url parse_url url s = get_site_by_host ((parse_url url).0) ((parse_url url).1) s

  pub find_main_site : Owner → sites.Store → Option Site
  find_main_site owner s = sites.find_one (is_owner_main owner) s

  pub toggle_main_site : Site → sites.Store → sites.Store
  toggle_main_site main s =
      sites.update_many (is_sibling main) (make_delegating main.host)
        (sites.update_one (is_site main.id) make_local s)

-- resolveAccountMainSite; `get_site` is getSiteByUrl
abbrev pub backing_site : Option Site → Result (Option Site)
backing_site none = ok none
backing_site (some b) =
    if is_in_back_office b.auth_mode
    then ok none
    else if is_some (delegate b)
    then err 400
    else ok (some b)

module _ (get_site : String → Option Site) where
  abbrev pub resolve_delegate : Site → Option String → Result (Option Site)
  resolve_delegate s none = ok (some s)
  resolve_delegate s (some host) = backing_site (get_site (https host))

  unfoldable pub resolve_account_main_site : Option Site → Result (Option Site)
  resolve_account_main_site none = ok none
  resolve_account_main_site (some s) =
      if is_in_back_office s.auth_mode then ok none else resolve_delegate s (delegate s)

  -- the three cases of getRedirectSite without a current site
  abbrev pub via_other_site : Site → Option String → Bool
  via_other_site r none = false
  via_other_site r (some host) = elim (get_site (https host)) [
    | none ↦ false
    | some o ↦ same_owner o.owner r.owner && accepts_back_office o.auth_mode
  ]

  abbrev pub from_back_office : String → Site → Bool
  from_back_office public_host r =
      accepts_back_office r.auth_mode
      || is_other_site r.auth_mode && r.auth_only_other_site == some public_host
      || via_other_site r (delegate r)

  -- the case with a current site
  abbrev pub from_site : Site → Site → Bool
  from_site c r =
      same_owner c.owner r.owner
      && is_other_site r.auth_mode
      && r.auth_only_other_site == some (String.◌++◌ c.host (get_or c.path ""))

  abbrev pub may_redirect : String → Option Site → Site → Bool
  may_redirect public_host none r = from_back_office public_host r
  may_redirect public_host (some c) r = from_site c r

  abbrev pub checked_redirect : String → Option Site → Option Site → Result (Option Site)
  checked_redirect public_host current none = err 400
  checked_redirect public_host current (some r) =
      if may_redirect public_host current r then ok (some r) else err 400

  unfoldable pub get_redirect_site :
      String → String → Option Site → Bool → String → Result (Option Site)
  get_redirect_site public_host current_url current admin_mode redirect =
      if starts_with redirect current_url
      then ok current
      else if admin_mode
      then ok (get_site redirect)
      else checked_redirect public_host current (get_site redirect)

  -- reqSite: `internal_url` is the address of the service inside its network
  pub req_site : String → String → Bool → Bool → Option String → Result (Option Site)
  req_site public_url internal_url manage_sites accept_unknown none = ok none
  req_site public_url internal_url manage_sites accept_unknown (some url) =
      if url == "" || starts_with public_url url || url == internal_url
      then ok none
      else if not manage_sites
      then err 400
      else if not (is_some (get_site url)) && not accept_unknown
      then err 404
      else ok (get_site url)
