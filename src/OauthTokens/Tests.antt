-- ===== src/OauthTokens/Tests.antt =====
-- Tests of the tokens of identity providers, and the theorem at a concrete token.
use simple_directory.OauthTokens.Last.{read_oauth_token-write_all, write_all}
use simple_directory.Common.{List, [], false, none, refl, some, ◌∷◌, ◌≡◌}
use simple_directory.Collection.{Collection, list_collection}
use simple_directory.OauthTokens.{
  OauthToken, logout_oauth_token, read_oauth_token, replace_token, write_oauth_token,
}

abbrev legacy : OauthToken
legacy = record {
  user_id = "ada";
  provider_id = "google";
  site = none;
  token = "old";
  offline_refresh_token = false;
  logged_out = none;
  session_state = some "state";
  sid = none;
  sub = none;
}

abbrev at_portal : OauthToken
at_portal = record legacy { site = some "portal"; token = "new" }

abbrev oauth_docs : Collection OauthToken
oauth_docs = list_collection OauthToken

-- a token with a site replaces the one without
legacy_dropped : write_oauth_token oauth_docs at_portal (legacy ∷ []) ≡ at_portal ∷ []
unfolding write_oauth_token replace_token
legacy_dropped = refl

legacy_read : read_oauth_token oauth_docs "ada" "google" (some "portal") (legacy ∷ []) ≡ some legacy
unfolding read_oauth_token
legacy_read = refl

logged_out_by_state :
    logout_oauth_token oauth_docs 5000 "google" none (some "state") none (legacy ∷ [])
    ≡ record legacy { logged_out = some 5000 } ∷ []
unfolding logout_oauth_token
logged_out_by_state = refl

-- later logins: of somebody else, of the same user at another site, and without a site
abbrev later : List OauthToken
later =
    record at_portal { user_id = "bob" }
    ∷ record at_portal { site = some "shop"; token = "shop" }
    ∷ legacy
    ∷ []

read_oauth_token-write_all_example :
    read_oauth_token oauth_docs "ada" "google"
      (some "portal")
      (write_all oauth_docs later (write_oauth_token oauth_docs at_portal (legacy ∷ [])))
    ≡ some at_portal
read_oauth_token-write_all_example =
    read_oauth_token-write_all oauth_docs at_portal later (legacy ∷ []) (refl, (refl, (refl, tt)))

-- a token without a site does not outlive a login at a site
legacy_is_lost :
    read_oauth_token oauth_docs "ada" "google" none
      (write_oauth_token oauth_docs at_portal (write_oauth_token oauth_docs legacy []))
    ≡ none
unfolding read_oauth_token write_oauth_token replace_token
legacy_is_lost = refl
