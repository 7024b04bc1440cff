-- ===== src/Issuers/Tests.antt =====
-- Tests of issuers, and the theorem at a concrete resource.
use simple_directory.Sites.{Site, only_local, resolve_account_main_site}
use simple_directory.Issuers.{
  IssuerContext, IssuerEnv, ResolvedResource, Url, do_resolve_resource, find_site,
  is_canonical_site_url, issuer_of_site, locate_resource, main_site_url, resolve_resource,
  same_site,
}
use simple_directory.Issuers.Realm.{IsExact, resolve_resource-realm}
use simple_directory.Common.{
  Option, [], err, if◌then◌else◌, none, ok, refl, some, starts_with, true, ◌==◌, ◌∷◌, ◌≡◌, nat_eq,
  option_eq, string_eq,
}

abbrev at_root : Url
at_root = record {
  origin = "https://e.example";
  protocol = "https:";
  host = "e.example";
  pathname = "/";
  search = "";
  hash = "";
  username = "";
  password = "";
}

abbrev portal : Site
portal = record {
  id = "portal";
  owner = record { is_organization = true; id = "acme"; department = none };
  host = "portal.example";
  path = none;
  auth_mode = some only_local;
  auth_only_other_site = none;
  is_account_main = true;
}

abbrev at_portal : Url
at_portal = record at_root { origin = "https://portal.example"; host = "portal.example" }

abbrev two_sites : IssuerEnv
two_sites = record {
  parse_url = λ url.
      if url == "https://portal.example/mcp/search"
      then some (record at_portal { pathname = "/mcp/search" })
      else if url == "https://portal.example"
      then some at_portal
      else some at_root;
  lower = λ s. s;
  public_url = "https://e.example/simple-directory";
  public_location = record at_root { pathname = "/simple-directory" };
  mcp_path = "/mcp";
  get_site = λ url. if starts_with url "https://portal.example" then some portal else none;
  main_site_of = λ o. none;
}

abbrev of_portal : IssuerContext
of_portal = record {
  issuer = "https://portal.example/simple-directory";
  site = some portal;
  site_url = "https://portal.example";
}

abbrev search : ResolvedResource
search = record {
  is_mcp = true;
  site = some portal;
  site_url = "https://portal.example";
  audience = "https://portal.example/mcp" ∷ "https://portal.example" ∷ [];
}

portal-issuer :
    issuer_of_site two_sites (some portal) "https://portal.example/" ≡ ok (some of_portal)
unfolding issuer_of_site is_canonical_site_url resolve_account_main_site
portal-issuer = refl

resolved :
    resolve_resource two_sites of_portal (some "https://portal.example/mcp/search") ≡ ok search
unfolding resolve_resource do_resolve_resource locate_resource find_site main_site_url
    resolve_account_main_site
resolved = refl

-- the main site is not in the realm of the portal
other_realm : resolve_resource two_sites of_portal (some "https://e.example") ≡ err 400
unfolding resolve_resource do_resolve_resource locate_resource find_site main_site_url
    resolve_account_main_site
other_realm = refl

resolve_resource-realm_example :
    IsExact two_sites search
    × ((realm : Option Site) × (resolve_account_main_site two_sites.get_site (some portal)
          ≡ ok realm)
        × (same_site realm (some portal) ≡ true))
resolve_resource-realm_example =
    resolve_resource-realm two_sites of_portal "https://portal.example/mcp/search" search resolved
