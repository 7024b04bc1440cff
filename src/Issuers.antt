-- ===== src/Issuers.antt =====
-- The issuers of the OAuth server and the resources of their realm: api/src/oauth-server/issuers.ts.
pub mod Realm
mod Tests
use mathlib.Core.Option
use Prim.Native.String
use simple_directory.Tokens.{Owner}
use simple_directory.Sites.{
  AuthMode, Site, only_back_office, only_local, only_other_site, resolve_account_main_site,
  sso_back_office, strip_slashes,
}
use simple_directory.Common.{
  Bool, List, Option, Result, String, [], err, false, get_or, if◌then◌else◌, is_some, none, not, ok,
  or_throw, some, starts_with, throw_if, true, ◌&&◌, ◌==◌, ◌>>=◌, ◌>>◌, ◌||◌, ◌∷◌, nat_eq,
  option_eq, string_eq,
}

-- `site` is missing for the main site
pub record IssuerContext : Type 0 where
  pub issuer : String
  pub site : Option Site
  pub site_url : String

-- `audience` is a list, also where the code has one text
pub record ResolvedResource : Type 0 where
  pub is_mcp : Bool
  pub site : Option Site
  pub site_url : String
  pub audience : List String

-- what the code reads of a URL of the language
pub record Url : Type 0 where
  pub origin : String
  pub protocol : String
  pub host : String
  pub pathname : String
  pub search : String
  pub hash : String
  pub username : String
  pub password : String

-- The URL parser (none where it throws) and toLowerCase of the language, the settings, and the
-- stored sites as getSiteByUrl and findMainSite read them.
pub record IssuerEnv : Type 0 where
  pub parse_url : String → Option Url
  pub lower : String → String
  pub public_url : String
  pub public_location : Url
  pub mcp_path : String
  pub get_site : String → Option Site
  pub main_site_of : Owner → Option Site

-- a text without an ending
abbrev pub strip_suffix : String → String → String
strip_suffix x String.[] = ""
strip_suffix x (String.◌∷◌ c s) =
    if String.◌∷◌ c s == x then "" else String.◌∷◌ c (strip_suffix x s)

-- the text before the first occurrence, where there is one: `indexOf` and `slice`
abbrev pub before : String → String → Option String
before p String.[] = if p == "" then some "" else none
before p (String.◌∷◌ c s) =
    if starts_with (String.◌∷◌ c s) p then some "" else Option.map (String.◌∷◌ c) (before p s)

abbrev pub is_only_local : Option AuthMode → Bool
is_only_local none = false
is_only_local (some only_local) = true
is_only_local (some only_back_office) = false
is_only_local (some sso_back_office) = false
is_only_local (some only_other_site) = false

-- `a?._id === b?._id`
abbrev pub same_site : Option Site → Option Site → Bool
same_site a b = Option.map (λ (s : Site). s.id) a == Option.map (λ (s : Site). s.id) b

-- any error becomes a ResourceError
abbrev pub as_resource_error {ℓ} : {A : Type ℓ} → Result A → Result A
as_resource_error (ok a) = ok a
as_resource_error (err _) = err 400

module _ (env : IssuerEnv) where
  unfoldable pub main_site_url : String
  main_site_url =
      String.◌++◌ env.public_location.origin
        (strip_suffix "/simple-directory" (strip_slashes env.public_location.pathname))

  pub is_canonical_site_url : Site → String → Bool
  is_canonical_site_url s url = elim (env.parse_url url) [
    | none ↦ false
    | some u ↦ u.host == env.lower s.host && url == String.◌++◌ u.origin (get_or s.path "")
  ]

  abbrev pub may_issue : Site → Bool
  may_issue s =
      s.is_account_main || is_only_local s.auth_mode && not (is_some (env.main_site_of s.owner))

  abbrev pub issuer_of_secondary : Site → String → Result (Option IssuerContext)
  issuer_of_secondary s url =
      if not (is_canonical_site_url s url)
      then ok none
      else if not (may_issue s)
      then ok none
      else (resolve_account_main_site env.get_site (some s) >>= λ realm. ok (
          if same_site realm (some s)
          then some (record {
            issuer = String.◌++◌ url "/simple-directory";
            site = some s;
            site_url = url;
          })
          else none))

  pub issuer_of_site : Option Site → String → Result (Option IssuerContext)
  issuer_of_site none site_url = ok (
      if strip_slashes site_url == main_site_url
      then some (record {
        issuer = strip_slashes env.public_url;
        site = none;
        site_url = strip_slashes site_url;
      })
      else none)
  issuer_of_site (some s) site_url = issuer_of_secondary s (strip_slashes site_url)

  pub canonical_site_url : String → Option String
  canonical_site_url url =
      Option.map (λ (u : Url). String.◌++◌ u.origin (strip_slashes u.pathname)) (env.parse_url url)

  -- findSite: the inner none is the main site, the outer one an unknown site
  abbrev pub exact_site : Url → Option Site → Option (Option Site)
  exact_site u none = none
  exact_site u (some s) =
      if strip_suffix "/" u.pathname == get_or s.path "" then some (some s) else none

  unfoldable pub find_site : String → Result (Option (Option Site))
  find_site url = if url == main_site_url then ok (some none) else elim (env.get_site url) [
    | none ↦ ok none
    | some s ↦ or_throw (env.parse_url url) 400 >>= λ u. ok (exact_site u (some s))
  ]

  abbrev pub resource_of : Bool → String → Option Site → ResolvedResource
  resource_of is_mcp site_url site = record {
    is_mcp = is_mcp;
    site = site;
    site_url = site_url;
    audience = if is_mcp then String.◌++◌ site_url env.mcp_path ∷ site_url ∷ [] else site_url ∷ [];
  }

  abbrev pub mcp_resource : Url → Option String → Result ResolvedResource
  mcp_resource u none = err 400
  mcp_resource u (some base) = do
    found ← find_site (String.◌++◌ u.origin (strip_slashes base))
    site ← or_throw found 400
    ok (resource_of true (String.◌++◌ u.origin (strip_slashes base)) site)

  abbrev pub located : Url → String → Option (Option Site) → Result ResolvedResource
  located u normalized (some site) = ok (resource_of false normalized site)
  located u normalized none = mcp_resource u (before (String.◌++◌ env.mcp_path "/") u.pathname)

  -- the resource that a uri names, whatever its realm
  unfoldable pub locate_resource : IssuerContext → String → Result ResolvedResource
  locate_resource ctx resource = do
    u ← or_throw (env.parse_url resource) 400
    throw_if (not (u.search == "") || not (u.hash == "")) 400
    throw_if (not (u.username == "") || not (u.password == "")) 400
    throw_if (is_some (before "//" u.pathname)) 400
    base ← or_throw (env.parse_url ctx.site_url) 400
    throw_if (not (u.protocol == base.protocol)) 400
    found ← find_site (String.◌++◌ u.origin (strip_slashes u.pathname))
    located u (String.◌++◌ u.origin (strip_slashes u.pathname)) found

  unfoldable pub do_resolve_resource : IssuerContext → Option String → Result ResolvedResource
  do_resolve_resource ctx none = ok (record {
    is_mcp = false;
    site = ctx.site;
    site_url = ctx.site_url;
    audience = ctx.site_url ∷ [];
  })
  do_resolve_resource ctx (some resource) = do
    r ← locate_resource ctx resource
    realm ← resolve_account_main_site env.get_site r.site
    throw_if (not (same_site realm ctx.site)) 400
    ok r

  unfoldable pub resolve_resource : IssuerContext → Option String → Result ResolvedResource
  resolve_resource ctx resource = as_resource_error (do_resolve_resource ctx resource)
