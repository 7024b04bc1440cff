-- ===== src/Sessions.antt =====
-- Server sessions and their single use exchange tokens: api/src/tokens/service.ts, and the session
-- methods of api/src/storages/index.ts and api/src/storages/mongo.ts.
pub mod History
pub mod Sole
pub mod Stored
pub mod Swap
pub mod Race
mod Tests
use simple_directory.Common.{
  Bool, List, Option, Result, String, [], any, err, false, filter, find, if◌then◌else◌, is_some,
  ltb, none, not, ok, or_null, some, true, truthy, update_first, ℕ, ◌&&◌, ◌++◌, ◌+◌, ◌==◌, ◌||◌,
  ◌∷◌, ◌≡◌, nat_eq, option_eq, string_eq,
}
use simple_directory.Collection.{Collection}
use simple_directory.Types.{ServerSession}

-- `exchangeTokenGrace`, in milliseconds
abbrev pub exchange_token_grace : ℕ
exchange_token_grace = 60000

-- `!!rotatedAt && (now - rotatedAt) < exchangeTokenGrace`
abbrev pub in_grace_window : ℕ → Option ℕ → Bool
in_grace_window now none = false
in_grace_window now (some rotated_at) = ltb now (rotated_at + exchange_token_grace)

-- exchangeTokenCurrent; `now` is `Date.now()`
unfoldable pub exchange_token_current : ℕ → ServerSession → Option String → Bool
exchange_token_current now s jti =
    if not (truthy s.jti) || jti == s.jti
    then true
    else truthy jti && jti == s.previous_jti && in_grace_window now s.rotated_at

-- what a rotation writes on the session
pub record Rotation : Type 0 where
  pub jti : String
  pub rotated_at : ℕ
  pub previous_jti : Option String

abbrev pub rotate : Rotation → ServerSession → ServerSession
rotate r s = record s {
  jti = some r.jti;
  rotated_at = some r.rotated_at;
  previous_jti = elim r.previous_jti [ none ↦ s.previous_jti | some j ↦ some j ];
}

-- the `sessionPatch` of setSessionCookies
abbrev pub rotation_for : ℕ → Option String → String → Rotation
rotation_for now superseded new_jti = record {
  jti = new_jti;
  rotated_at = now;
  previous_jti = or_null superseded;
}

abbrev pub has_session_id : String → ServerSession → Bool
has_session_id id s = s.id == id

-- the element that the filter of updateSessionById matches
abbrev pub is_expected : String → Option String → ServerSession → Bool
is_expected id none s = s.id == id
is_expected id (some jti) s = s.id == id && s.jti == some jti

-- A collection whose documents hold sessions: mongo.users, mongo.ldapUserSessions or
-- mongo.fileUserSessions.
pub record Holder : Type 1 where
  pub Doc : Type 0
  pub collection : Collection Doc
  pub id : Doc → String
  pub sessions : Doc → List ServerSession
  pub set_sessions : List ServerSession → Doc → Doc
  pub sessions-set_sessions : (l : List ServerSession) (d : Doc) → sessions (set_sessions l d) ≡ l

module _ (h : Holder) where
  abbrev pub HolderStore : Type 0
  HolderStore = h.collection.Store

  abbrev pub holds : (ServerSession → Bool) → h.Doc → Bool
  holds p d = any p (h.sessions d)

  -- `matchedCount > 0`
  pub matched : (ServerSession → Bool) → HolderStore → Bool
  matched p s = is_some (h.collection.find_one (holds p) s)

  -- `$set` through the positional operator: the first element that matched
  pub set_matched :
      (ServerSession → Bool) → (ServerSession → ServerSession) → HolderStore → HolderStore
  set_matched p f s =
      h.collection.update_one (holds p) (λ d. h.set_sessions (update_first p f (h.sessions d)) d) s

  abbrev pub session_of : (ServerSession → Bool) → Option h.Doc → Option ServerSession
  session_of p none = none
  session_of p (some d) = find p (h.sessions d)

  pub read_session : String → HolderStore → Option ServerSession
  read_session id s =
      session_of (has_session_id id) (h.collection.find_one (holds (has_session_id id)) s)

  -- `$pull` of one session, on the first document that holds it
  pub pull_session : String → HolderStore → HolderStore
  pull_session id s =
      h.collection.update_one (holds (has_session_id id))
        (λ d. h.set_sessions (filter (λ x. not (x.id == id)) (h.sessions d)) d) s

  abbrev pub is_doc : String → h.Doc → Bool
  is_doc user_id d = h.id d == user_id

  -- addUserSession, deleteUserSession and deleteUserSessions of one storage
  pub add_user_session : String → ServerSession → HolderStore → HolderStore
  add_user_session user_id x s =
      h.collection.update_one (is_doc user_id) (λ d. h.set_sessions (h.sessions d ++ x ∷ []) d) s

  pub delete_user_session : String → String → HolderStore → HolderStore
  delete_user_session user_id id s =
      h.collection.update_one (is_doc user_id)
        (λ d. h.set_sessions (filter (λ x. not (x.id == id)) (h.sessions d)) d) s

  pub delete_user_sessions : String → HolderStore → HolderStore
  delete_user_sessions user_id s =
      h.collection.update_one (is_doc user_id) (λ d. h.set_sessions [] d) s

  -- the `$pull` of the cleanup task: sessions that were not kept alive since a date
  pub pull_old_sessions : ℕ → HolderStore → HolderStore
  pull_old_sessions date s =
      h.collection.update_many (holds (λ x. ltb x.last_keepalive date))
        (λ d. h.set_sessions (filter (λ x. not (ltb x.last_keepalive date)) (h.sessions d)) d) s

-- the first result of a loop that returns as soon as it has one
abbrev pub first_some : Option ServerSession → Option ServerSession → Option ServerSession
first_some none b = b
first_some (some x) b = some x

module _ (users ldap file : Holder) where
  pub record SessionStores : Type 0 where
    pub in_users : HolderStore users
    pub in_ldap : HolderStore ldap
    pub in_file : HolderStore file

  pub update_session_by_id :
      String
      → (ServerSession → ServerSession)
      → Option String
      → SessionStores
      → Bool × SessionStores
  update_session_by_id id patch expected_jti s =
      let p = is_expected id (or_null expected_jti) in
      (
        matched users p s.in_users || matched ldap p s.in_ldap || matched file p s.in_file,
        record {
          in_users = set_matched users p patch s.in_users;
          in_ldap = set_matched ldap p patch s.in_ldap;
          in_file = set_matched file p patch s.in_file;
        },
      )

  pub get_session_by_id : String → SessionStores → Option ServerSession
  get_session_by_id id s =
      first_some (read_session users id s.in_users)
        (first_some (read_session ldap id s.in_ldap) (read_session file id s.in_file))

  pub delete_session_by_id : String → SessionStores → SessionStores
  delete_session_by_id id s = record {
    in_users = pull_session users id s.in_users;
    in_ldap = pull_session ldap id s.in_ldap;
    in_file = pull_session file id s.in_file;
  }

  -- the text of `current.jti`, where it is not empty
  abbrev pub current_jti : Option ServerSession → Option String
  current_jti none = none
  current_jti (some x) = or_null x.jti

  -- the token id that was read back, or the 401 where there is none
  abbrev pub served : Option String → SessionStores → Result (String × SessionStores)
  served none s = err 401
  served (some jti) s = ok (jti, s)

  -- the two branches on what updateSessionById returned
  pub after_swap : String → String → Bool → SessionStores → Result (String × SessionStores)
  after_swap id new_jti true s = ok (new_jti, s)
  after_swap id new_jti false s = served (current_jti (get_session_by_id id s)) s

  -- The end of setSessionCookies: the id of the exchange token that is sent. `superseded` is the id
  -- of the presented token if it belongs to this session, and `new_jti` is the `nanoid()`.
  pub issue_exchange_token :
      ℕ
      → String
      → Option String
      → Option String
      → String
      → SessionStores
      → Result (String × SessionStores)
  issue_exchange_token now id superseded keep new_jti s = elim (or_null keep) [
    | some jti ↦ ok (jti, s)
    | none ↦
        let done =
          update_session_by_id id (rotate (rotation_for now superseded new_jti)) superseded s in
        after_swap id new_jti (done.0) (done.1)
  ]
