-- ===== src/Clients.antt =====
-- The clients of the OAuth server: api/src/oauth-server/clients.ts, and the rules on dynamic clients
-- of api/src/oauth-server/dynamic-clients.ts. `parse_url` is the URL parser of the language.
pub mod Metadata
mod Tests
use Prim.Native.String
use Prim.Native.Char.{Char, code}
use simple_directory.Exits.{Exit, leave, leave_if, or_leave, stay, ◌>>=◌, ◌>>◌}
use simple_directory.Common.{
  Bool, List, Option, String, [], all, any, false, filter, get_or, if◌then◌else◌, includes, leb,
  length, ltb, nat_beq, none, not, some, split_on, starts_with, true, ℕ, ◌&&◌, ◌==◌, ◌||◌, ◌∷◌,
  nat_eq, option_eq, string_eq,
}

pub record Url : Type 0 where
  pub protocol : String
  pub hostname : String
  pub username : String
  pub password : String
  pub hash : String
  pub origin : String

pub data SdClientKind : Type 0 where
  kind_nhi kind_site kind_cimd kind_dcr : SdClientKind

-- the kind of a client, from the shape of its identifier
pub client_kind : String → SdClientKind
client_kind id =
    if starts_with id "nhi-"
    then kind_nhi
    else if starts_with id "site-"
    then kind_site
    else if starts_with id "https://"
    then kind_cimd
    else kind_dcr

abbrev pub is_loopback_host : String → Bool
is_loopback_host host = includes ("localhost" ∷ "127.0.0.1" ∷ "[::1]" ∷ []) host

-- `s.includes('#')`
abbrev pub has_hash : String → Bool
has_hash String.[] = false
has_hash (String.◌∷◌ c s) = nat_beq (code c) 35 || has_hash s

abbrev pub is_between : ℕ → ℕ → Char → Bool
is_between low high c = leb low (code c) && leb (code c) high

-- `[a-z0-9+-]`
abbrev pub is_scheme_char : Char → Bool
is_scheme_char c =
    is_between 97 122 c || is_between 48 57 c || nat_beq (code c) 43 || nat_beq (code c) 45

abbrev pub is_dot : Char → Bool
is_dot c = nat_beq (code c) 46

-- `[a-z0-9+.-]+:$`, once a character of it was seen
abbrev pub is_scheme_end : Bool → String → Bool
is_scheme_end seen String.[] = false
is_scheme_end seen (String.◌∷◌ c String.[]) = nat_beq (code c) 58 && seen
is_scheme_end seen (String.◌∷◌ c (String.◌∷◌ d s)) =
    (is_scheme_char c || is_dot c) && is_scheme_end true (String.◌∷◌ d s)

-- `[a-z0-9+-]*\.` and what follows
abbrev pub is_scheme_rest : String → Bool
is_scheme_rest String.[] = false
is_scheme_rest (String.◌∷◌ c s) =
    if is_dot c then is_scheme_end false s else is_scheme_char c && is_scheme_rest s

-- the regular expression privateUseScheme
abbrev pub is_private_use_scheme : String → Bool
is_private_use_scheme String.[] = false
is_private_use_scheme (String.◌∷◌ c s) = is_between 97 122 c && is_scheme_rest s

abbrev pub is_forbidden_scheme : String → Bool
is_forbidden_scheme scheme =
    includes ("javascript:" ∷ "data:" ∷ "file:" ∷ "vbscript:" ∷ "blob:" ∷ "about:" ∷ []) scheme

abbrev pub is_empty_text : String → Bool
is_empty_text s = s == ""

abbrev pub has_credentials : Url → Bool
has_credentials url = not (is_empty_text url.username) || not (is_empty_text url.password)

-- a field of the body of a registration
pub data Value : Type 0 where
  text_value : String → Value
  other_value : Value

pub data Strings : Type 0 where
  strings : List String → Strings
  not_strings : Strings

-- The metadata of a client. `web_uri` gives the value of each of the five keys of webUriKeys.
pub record ClientMetadata : Type 0 where
  pub has_sector_identifier : Bool
  pub scope : Option Value
  pub token_endpoint_auth_method : Option String
  pub grant_types : Option Strings
  pub response_types : Option Strings
  pub web_uri : String → Option Value
  pub redirect_uris : Option (List Value)
  pub application_type : Option String

pub data MetadataError : Type 0 where
  invalid_client_metadata : String → MetadataError
  invalid_redirect_uri : String → MetadataError

abbrev pub is_oidc_scope : String → Bool
is_oidc_scope s = includes ("openid" ∷ "profile" ∷ "email" ∷ "offline_access" ∷ []) s

-- `l.join(' ')`
abbrev pub join_words : List String → String
join_words [] = ""
join_words (w ∷ []) = w
join_words (w ∷ w' ∷ ws) = String.◌++◌ w (String.◌++◌ " " (join_words (w' ∷ ws)))

-- the scopes that the provider knows, or none
abbrev pub oidc_scope : Option Value → Option Value
oidc_scope none = none
oidc_scope (some other_value) = some other_value
oidc_scope (some (text_value s)) =
    let kept = join_words (filter is_oidc_scope (split_on 32 s)) in
    if is_empty_text kept then none else some (text_value kept)

abbrev pub allowed_auth_methods : List String
allowed_auth_methods = "none" ∷ "private_key_jwt" ∷ []

abbrev pub allowed_grant_types : List String
allowed_grant_types = "authorization_code" ∷ "refresh_token" ∷ []

abbrev pub allowed_response_types : List String
allowed_response_types = "code" ∷ []

-- a field that is an array of allowed texts, all of them when it is missing
abbrev pub allowed_strings : List String → Option Strings → Exit MetadataError (List String)
allowed_strings allowed none = stay allowed
allowed_strings allowed (some not_strings) =
    leave (invalid_client_metadata "must be an array of strings")
allowed_strings allowed (some (strings l)) =
    if all (includes allowed) l then stay l else leave (invalid_client_metadata "can only contain")

module _ (parse_url : String → Option Url) where
  pub is_loopback_redirect_uri : String → Bool
  is_loopback_redirect_uri uri = elim (parse_url uri) [
    | none ↦ false
    | some url ↦ url.protocol == "http:" && is_loopback_host url.hostname
  ]

  pub site_redirect_uri_allowed : String → Bool
  site_redirect_uri_allowed uri = elim (parse_url uri) [
    | none ↦ false
    | some url ↦
        if not (is_empty_text url.hash) || has_hash uri || has_credentials url
        then false
        else url.protocol == "https:" || is_loopback_redirect_uri uri
  ]

  -- redirectUriCORS, for a client with its method and its redirection uris
  pub redirect_uri_cors : String → Option String → List String → Bool
  redirect_uri_cors origin method uris =
      not (origin == "null")
      && method == some "none"
      && any (λ uri. elim (parse_url uri) [ none ↦ false | some url ↦ url.origin == origin ]) uris

  pub dynamic_redirect_uri_allowed : String → Bool
  dynamic_redirect_uri_allowed uri = if has_hash uri then false else elim (parse_url uri) [
    | none ↦ false
    | some url ↦
        if has_credentials url
        then false
        else if url.protocol == "https:"
        then not (is_loopback_host url.hostname)
        else if url.protocol == "http:"
        then is_loopback_redirect_uri uri
        else if is_forbidden_scheme url.protocol
        then false
        else is_private_use_scheme url.protocol
  ]

  abbrev pub is_https : String → Bool
  is_https uri = elim (parse_url uri) [ none ↦ false | some url ↦ url.protocol == "https:" ]

  -- the test that counts the private-use uris
  abbrev pub is_private_use : String → Bool
  is_private_use uri = not (is_https uri) && not (is_loopback_redirect_uri uri)

  abbrev pub is_web_uri : Option Value → Bool
  is_web_uri none = true
  is_web_uri (some other_value) = false
  is_web_uri (some (text_value s)) = is_https s

  abbrev pub web_uri_keys : List String
  web_uri_keys = "logo_uri" ∷ "client_uri" ∷ "policy_uri" ∷ "tos_uri" ∷ "jwks_uri" ∷ []

  -- `for (const uri of redirectUris)`: the first one that is not allowed
  pub check_redirect_uris : List Value → Exit MetadataError (List String)
  check_redirect_uris [] = stay []
  check_redirect_uris (other_value ∷ us) = leave (invalid_redirect_uri "not allowed")
  check_redirect_uris (text_value uri ∷ us) = do
    leave_if (not (dynamic_redirect_uri_allowed uri)) (invalid_redirect_uri "not allowed")
    rest ← check_redirect_uris us
    stay (uri ∷ rest)

  -- `redirectUris.filter(…).length`
  pub count_uris : (String → Bool) → List String → ℕ
  count_uris p uris = length (filter p uris)

  pub application_type_of : List String → String
  application_type_of uris =
      if nat_beq (count_uris is_loopback_redirect_uri uris) (length uris)
        || ltb 0 (count_uris is_private_use uris)
      then "native"
      else "web"

  pub check_dynamic_metadata : ClientMetadata → Exit MetadataError ClientMetadata
  check_dynamic_metadata m = do
    leave_if m.has_sector_identifier (invalid_client_metadata "sector_identifier_uri")
    leave_if (not (includes allowed_auth_methods (get_or m.token_endpoint_auth_method "none")))
        (invalid_client_metadata "token_endpoint_auth_method")
    grant_types ← allowed_strings allowed_grant_types m.grant_types
    response_types ← allowed_strings allowed_response_types m.response_types
    leave_if (not (all (λ key. is_web_uri (m.web_uri key)) web_uri_keys))
        (invalid_client_metadata "must be an https url")
    given ← or_leave m.redirect_uris (invalid_redirect_uri "must be a non empty array")
    leave_if (nat_beq (length given) 0) (invalid_redirect_uri "must be a non empty array")
    uris ← check_redirect_uris given
    leave_if
        (ltb 0 (count_uris is_loopback_redirect_uri uris) && ltb 0 (count_uris is_private_use uris))
        (invalid_redirect_uri "cannot be mixed")
    stay (record m {
      scope = oidc_scope m.scope;
      token_endpoint_auth_method = some (get_or m.token_endpoint_auth_method "none");
      grant_types = some (strings grant_types);
      response_types = some (strings response_types);
      application_type = some (application_type_of uris);
    })
