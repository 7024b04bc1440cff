-- ===== src/Sites/Tests.antt =====
-- Tests of the sites, and the theorems at concrete sites.
use simple_directory.Sites.Accounts.{toggle_main_site-delegates}
use simple_directory.Common.{
  All, List, Option, String, [], false, if◌then◌else◌, none, ok, refl, some, true, ◌==◌, ◌∷◌, ◌≡◌,
  nat_eq, option_eq, string_eq,
}
use simple_directory.Sites.{
  Site, get_site_by_host, is_sibling, only_local, only_other_site, resolve_account_main_site,
  site_path_matches, site_path_prefix, toggle_main_site,
}
use simple_directory.Tokens.{Owner}
use simple_directory.Collection.{Collection, list_collection}

abbrev acme_owner : Owner
acme_owner = record { is_organization = true; id = "acme"; department = none }

abbrev main_portal : Site
main_portal = record {
  id = "m";
  owner = acme_owner;
  host = "portal.example";
  path = none;
  auth_mode = some only_local;
  auth_only_other_site = none;
  is_account_main = true;
}

abbrev open_data : Site
open_data = record main_portal {
  id = "o";
  host = "data.example";
  path = some "/open/";
  auth_mode = some only_other_site;
  auth_only_other_site = some "portal.example";
  is_account_main = false;
}

abbrev whole_data : Site
whole_data = record open_data {
  id = "w";
  path = none;
  auth_mode = none;
  auth_only_other_site = none;
}

abbrev site_docs : Collection Site
site_docs = list_collection Site

abbrev all_sites : List Site
all_sites = main_portal ∷ whole_data ∷ open_data ∷ []

-- the urls of the tests are a host behind the protocol
abbrev by_url : String → Option Site
by_url url =
    if url == "https://portal.example"
    then some main_portal
    else if url == "https://data.example/open"
    then some open_data
    else none

open_data_found : get_site_by_host site_docs "data.example" "/open/page" all_sites ≡ some open_data
unfolding get_site_by_host site_path_matches site_path_prefix
open_data_found = refl

-- a prefix matches whole segments
other_segment : get_site_by_host site_docs "data.example" "/opened" all_sites ≡ some whole_data
unfolding get_site_by_host site_path_matches site_path_prefix
other_segment = refl

folded : resolve_account_main_site by_url (some open_data) ≡ ok (some main_portal)
unfolding resolve_account_main_site
folded = refl

toggle_main_site-delegates_example :
    All
      (λ x.
        is_sibling main_portal x ≡ true
        → (x.is_account_main ≡ false)
          × (resolve_account_main_site by_url (some x) ≡ ok (some main_portal)))
      (toggle_main_site site_docs main_portal all_sites)
toggle_main_site-delegates_example =
    toggle_main_site-delegates site_docs by_url main_portal all_sites main_portal refl refl refl
