-- ===== src/Clients/Tests.antt =====
-- Concrete redirection uris and registrations of dynamic clients.
use simple_directory.Clients.{
  ClientMetadata, Url, application_type_of, check_dynamic_metadata, check_redirect_uris,
  client_kind, count_uris, dynamic_redirect_uri_allowed, is_loopback_redirect_uri, kind_nhi,
  strings, text_value,
}
use simple_directory.Clients.Metadata.{IsChecked, check_dynamic_metadata-IsChecked}
use simple_directory.Exits.{stay}
use simple_directory.Common.{
  Option, String, [], false, if◌then◌else◌, none, refl, some, true, ◌==◌, ◌∷◌, ◌≡◌, nat_eq,
  option_eq, string_eq,
}

abbrev url : String → String → Option Url
url protocol hostname = some (record {
  protocol = protocol;
  hostname = hostname;
  username = "";
  password = "";
  hash = "";
  origin = "";
})

abbrev parse : String → Option Url
parse s =
    if s == "http://localhost:3000/cb"
    then url "http:" "localhost"
    else if s == "https://app.example.org/cb"
    then url "https:" "app.example.org"
    else if s == "com.example.app:/cb"
    then url "com.example.app:" ""
    else if s == "javascript:alert(1)"
    then url "javascript:" ""
    else none

private_use : dynamic_redirect_uri_allowed parse "com.example.app:/cb" ≡ true
unfolding dynamic_redirect_uri_allowed
private_use = refl

script : dynamic_redirect_uri_allowed parse "javascript:alert(1)" ≡ false
unfolding dynamic_redirect_uri_allowed
script = refl

kinds : client_kind "nhi-1" ≡ kind_nhi
unfolding client_kind
kinds = refl

abbrev registration : ClientMetadata
registration = record {
  has_sector_identifier = false;
  scope = some (text_value "openid data:read");
  token_endpoint_auth_method = none;
  grant_types = none;
  response_types = none;
  web_uri = λ _. none;
  redirect_uris = some (text_value "http://localhost:3000/cb" ∷ []);
  application_type = none;
}

abbrev registered : ClientMetadata
registered = record registration {
  scope = some (text_value "openid");
  token_endpoint_auth_method = some "none";
  grant_types = some (strings ("authorization_code" ∷ "refresh_token" ∷ []));
  response_types = some (strings ("code" ∷ []));
  application_type = some "native";
}

accepted : check_dynamic_metadata parse registration ≡ stay registered
unfolding check_dynamic_metadata check_redirect_uris dynamic_redirect_uri_allowed
    is_loopback_redirect_uri application_type_of count_uris
accepted = refl

check_dynamic_metadata-IsChecked_example : IsChecked parse registered
check_dynamic_metadata-IsChecked_example =
    check_dynamic_metadata-IsChecked parse registration registered accepted
