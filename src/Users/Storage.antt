-- ===== src/Users/Storage.antt =====
-- Methods of users of api/src/storages/mongo.ts, and the routes of api/src/nhis/router.ts that
-- delete an identity or revoke its grants.
pub mod Removed
mod Tests
use simple_directory.Issuers.{before}
use simple_directory.Members.{has_user_id}
use simple_directory.Sessions.{has_session_id}
use simple_directory.Nhis.Records.{the_nhi}
use simple_directory.Common.{
  Bool, Bool-cases, List, Option, Result, String, [], and_split, arith, false, filter, head?, inl,
  inr, is_some, none, not, ok, or_throw, some, some_inj, throw_if, true, truthy, update_all, ℕ,
  ◌&&◌, ◌==◌, ◌>>=◌, ◌>>◌, ◌∷◌, ◌≡◌, nat_eq, option_eq, string_eq,
}
use simple_directory.Types.{ServerSession, User}
use simple_directory.Collection.{Collection}
use simple_directory.Grants.{
  GrantDoc, GrantFilter, GrantRecord, GrantStores, TokenDoc, get_grant_record, list_grant_records,
  revoke_grant, revoke_grants,
}
use simple_directory.OauthTokens.{OauthToken}
use simple_directory.Sites.{Site}

abbrev pub same_option : (String → String → Bool) → Option String → Option String → Bool
same_option same none none = true
same_option same (some a) (some b) = same a b
same_option same none (some _) = false
same_option same (some _) none = false

-- The filter of getUserByEmail: never an identity that is not human, and only users of the site.
-- `same_text` compares as the collation of the query does, without case.
abbrev pub is_of_site : (String → String → Bool) → Option Site → User → Bool
is_of_site same_text none u = not (is_some u.host)
is_of_site same_text (some s) u =
    same_option same_text u.host (some s.host) && same_option same_text u.path s.path

abbrev pub is_by_email : (String → String → Bool) → String → Option Site → User → Bool
is_by_email same_text email at_site u =
    same_text u.email email && not (is_some u.nhi) && is_of_site same_text at_site u

abbrev pub touch_user_session : String → (ServerSession → ServerSession) → User → User
touch_user_session id patch u = record u {
  sessions = update_all (has_session_id id) patch u.sessions;
}

abbrev pub is_token_of_user : String → OauthToken → Bool
is_token_of_user id t = t.user_id == id

abbrev pub of_subject : String → Option String → GrantFilter
of_subject id client = record { subject_id = some id; client_id = client; session_id = none }

-- the filter of findUsersToDelete; days are texts, which the language compares in order
abbrev pub is_to_delete : (String → String → Bool) → String → User → Bool
is_to_delete before today u =
    not (is_some u.nhi) && (elim u.planned_deletion [ none ↦ false | some day ↦ before day today ])

module _ (users : Collection User) where
  unfoldable pub get_user_by_email :
      (String → String → Bool) → String → Option Site → users.Store → Option User
  get_user_by_email same_text email at_site s =
      head? (filter (is_by_email same_text email at_site) (users.docs s))

  pub confirm_email : String → users.Store → users.Store
  confirm_email id s =
      users.update_one (has_user_id id) (λ u. record u { email_confirmed = true }) s

  pub update_user_session :
      String → String → (ServerSession → ServerSession) → users.Store → users.Store
  update_user_session user_id id patch s =
      users.update_one (has_user_id user_id) (touch_user_session id patch) s

  pub find_users_to_delete : (String → String → Bool) → String → users.Store → List User
  find_users_to_delete before today s = filter (is_to_delete before today) (users.docs s)

  head-filter :
      (p : User → Bool) (l : List User) (u : User) → head? (filter p l) ≡ some u → p u ≡ true
  head-filter p [] u e = cc
  head-filter p (x ∷ l) u e = elim (Bool-cases (p x)) [
    | inl b ↦ let same : some x ≡ some u = rw b at e in rw (← (some_inj x u same)) b
    | inr b ↦ head-filter p l u (rw b at e)
  ]

  -- A login by email never finds an identity that is not human, nor a user of another site than the
  -- one that is asked for: on the main site it only finds users without a host.
  pub get_user_by_email-is_of_site :
      (same_text : String → String → Bool) (email : String) (at_site : Option Site)
      (s : users.Store) (u : User)
      → get_user_by_email same_text email at_site s ≡ some u
      → (same_text u.email email ≡ true)
        × (is_some u.nhi ≡ false)
        × (is_of_site same_text at_site u ≡ true)
  unfolding get_user_by_email
  get_user_by_email-is_of_site same_text email at_site s u e =
      let h = head-filter (is_by_email same_text email at_site) (users.docs s) u e in
      let (a, b) =
        and_split (same_text u.email email && not (is_some u.nhi)) (is_of_site same_text at_site u)
          h in
      let (c, d) = and_split (same_text u.email email) (not (is_some u.nhi)) a in
      (c, not_true (is_some u.nhi) d, b)
    where
      not_true : (p : Bool) → not p ≡ true → p ≡ false
      not_true p k = ground arith

module _ (users : Collection User) (tokens : Collection OauthToken) (grants : Collection GrantDoc)
    (refresh codes : Collection TokenDoc) where
  pub record UserStores : Type 0 where
    pub in_users : users.Store
    pub in_tokens : tokens.Store
    pub oauth : GrantStores grants refresh codes

  -- deleteUser, without the avatars; what is left when the revocation throws is not modelled
  unfoldable pub delete_user : String → UserStores → Result UserStores
  delete_user id s = do
    done ← revoke_grants grants refresh codes (of_subject id none) s.oauth
    ok (record {
      in_users = users.delete_one (has_user_id id) s.in_users;
      in_tokens = tokens.delete_many (is_token_of_user id) s.in_tokens;
      oauth = done.1;
    })

  -- DELETE of an identity
  pub delete_nhi : Bool → String → String → UserStores → Result UserStores
  delete_nhi is_org_admin org_id id s = do
    throw_if (not is_org_admin) 403
    user ← the_nhi org_id (users.find_one (has_user_id id) s.in_users)
    delete_user user.id s

  -- DELETE of the grants of a client
  pub revoke_nhi_client : Bool → String → String → Option String → UserStores → Result UserStores
  revoke_nhi_client is_org_admin org_id id client s = do
    throw_if (not is_org_admin) 403
    user ← the_nhi org_id (users.find_one (has_user_id id) s.in_users)
    throw_if (not (truthy client)) 400
    done ← revoke_grants grants refresh codes (of_subject user.id client) s.oauth
    ok (record s { oauth = done.1 })

  abbrev pub is_grant_of_nhi : String → GrantRecord → Bool
  is_grant_of_nhi id r = r.subject_is_nhi && r.subject_id == id

  -- DELETE of one grant
  pub revoke_nhi_grant : Bool → ℕ → String → String → String → UserStores → Result UserStores
  revoke_nhi_grant is_org_admin now org_id id grant_id s = do
    throw_if (not is_org_admin) 403
    user ← the_nhi org_id (users.find_one (has_user_id id) s.in_users)
    r ← or_throw (get_grant_record grants refresh codes now grant_id s.oauth) 404
    throw_if (not (is_grant_of_nhi user.id r)) 404
    ok (record s { oauth = (revoke_grant grants refresh codes grant_id s.oauth).1 })

  -- GET of the connections of an identity, the records without their order
  abbrev pub is_nhi_doc : GrantDoc → Bool
  is_nhi_doc d = elim d.sd [ none ↦ false | some r ↦ r.subject_is_nhi ]

  pub nhi_grants : Bool → ℕ → String → String → UserStores → Result (List GrantDoc)
  nhi_grants is_org_admin now org_id id s = do
    throw_if (not is_org_admin) 403
    user ← the_nhi org_id (users.find_one (has_user_id id) s.in_users)
    ok (
        filter is_nhi_doc
          (list_grant_records grants refresh codes now (of_subject user.id none) s.oauth))
