-- ===== src/Users/Storage/Removed.antt =====
-- What the deletion of a user leaves, over deleteUser of api/src/storages/mongo.ts.
use simple_directory.Common.{
  String, any, any-filter-not, arith, false, none, ok, refl, remove_first, some, true, truthy, ◌≡◌,
}
use simple_directory.Grants.Revoke.{IsDistinct, revoke_grants-matching}
use simple_directory.Grants.{GrantDoc, TokenDoc, matches_filter}
use simple_directory.Types.{User}
use simple_directory.Members.{has_user_id}
use simple_directory.OauthTokens.{OauthToken}
use simple_directory.Collection.{Collection}
use simple_directory.Users.Storage.{UserStores, delete_user, is_token_of_user, of_subject}

module _ (users : Collection User) (tokens : Collection OauthToken) (grants : Collection GrantDoc)
    (refresh codes : Collection TokenDoc) where
  -- The deletion of a user with an id succeeds when the ids of the grants are distinct. It deletes
  -- the first user with that id, and afterwards no token of an identity provider is of that user and
  -- no grant has that user as its subject.
  pub delete_user-removes :
      (id : String) (s : UserStores users tokens grants refresh codes)
      → truthy (some id) ≡ true
      → IsDistinct (grants.docs s.oauth.in_grants)
      → (s' : UserStores users tokens grants refresh codes) × (delete_user users tokens grants
            refresh codes id s
          ≡ ok s')
        × (users.docs s'.in_users ≡ remove_first (has_user_id id) (users.docs s.in_users))
        × (any (is_token_of_user id) (tokens.docs s'.in_tokens) ≡ false)
        × (any (matches_filter (of_subject id none)) (grants.docs s'.oauth.in_grants) ≡ false)
  unfolding delete_user
  delete_user-removes id s given distinct =
      let (n, g, done, left, _, _) =
        revoke_grants-matching grants refresh codes (of_subject id none) s.oauth distinct
          (ground arith) in
      (
        record {
          in_users = users.delete_one (has_user_id id) s.in_users;
          in_tokens = tokens.delete_many (is_token_of_user id) s.in_tokens;
          oauth = g;
        },
        rw done refl,
        users.docs-delete_one (has_user_id id) s.in_users,
        rw (tokens.docs-delete_many (is_token_of_user id) s.in_tokens)
            (any-filter-not (is_token_of_user id) (tokens.docs s.in_tokens)),
        rw left
            (any-filter-not (matches_filter (of_subject id none)) (grants.docs s.oauth.in_grants)),
      )
