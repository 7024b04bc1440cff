-- ===== src/Callback/Route.antt =====
-- The route GET /token_callback of api/src/auth/router.ts: the use of a link that opens a session.
use simple_directory.Tokens.{get_default_user_org}
use simple_directory.Collection.{Collection}
use simple_directory.Callback.{
  CallbackEnv, CallbackError, CallbackQuery, CallbackToken, Opened, RelayState, SdStorage,
  UsedToken, check_org, forbidden, has_used_id, idp_of, init_server_session, is_state_with_token,
  next_step, owner_of_site, rebound_redirect, redirect_error, session_payload, without_token,
}
use simple_directory.Exits.{Exit, leave, leave_if, or_leave, stay, ◌>>=◌, ◌>>◌}
use simple_directory.Types.{Organization, User}
use simple_directory.Common.{
  Bool, Option, String, if◌then◌else◌, is_some, none, not, or_null, some, truthy, ℕ, ◌&&◌, ◌*◌,
  ◌||◌,
}

module _ (env : CallbackEnv) (storage : SdStorage) (used : Collection UsedToken)
    (relays : Collection RelayState) where
  pub record CallbackStores : Type 0 where
    pub in_users : storage.Store
    pub in_used : used.Store
    pub in_relays : relays.Store

  -- the token of the link, which is taken where it is single use: the insertion of an id that is
  -- there is an error of the database
  abbrev pub take : ℕ → CallbackToken → CallbackStores → Exit CallbackError CallbackStores
  take now t s = elim (or_null t.cb_jti) [
    | none ↦ stay s
    | some jti ↦ do
      leave_if (is_some (used.find_one (has_used_id jti) s.in_used)) (redirect_error "invalidToken")
      stay (record s {
        in_used =
            used.insert_one (record { id = jti; used_at = now; expires_at = t.exp * 1000 })
              s.in_used;
      })
  ]

  unfoldable pub take_token :
      ℕ → Option String → CallbackStores → Exit CallbackError (CallbackToken × CallbackStores)
  take_token now id_token s = do
    given ← or_leave (or_null id_token) (redirect_error "missingToken")
    t ← or_leave (env.verify given) (redirect_error "invalidToken")
    leave_if (not t.temporary || truthy t.action) (redirect_error "invalidToken")
    s' ← take now t s
    stay (t, s')

  -- the user of the token, confirmed or confirmed by this very link, and never an identity that is
  -- not human
  unfoldable pub callback_user : CallbackToken → CallbackStores → Exit CallbackError User
  callback_user t s = do
    u ← or_leave (storage.get_user t.id s.in_users) (redirect_error "badCredentials")
    leave_if (not t.email_confirmed && not u.email_confirmed) (redirect_error "badCredentials")
    leave_if (is_some u.nhi) forbidden
    stay u

  abbrev pub relay_state : Option String → CallbackStores → Option RelayState
  relay_state none s = none
  relay_state (some id) s = relays.find_one (is_state_with_token id) s.in_relays

  -- the id token is moved from the relay state
  abbrev pub move_id_token : Option String → CallbackStores → CallbackStores
  move_id_token none s = s
  move_id_token (some id) s = record s {
    in_relays = relays.update_one (is_state_with_token id) without_token s.in_relays;
  }

  abbrev pub opened :
      Bool
      → String
      → ℕ
      → CallbackQuery
      → CallbackToken
      → Option Organization
      → User
      → CallbackStores
      → Opened
  opened may_create_orgs nanoid now q t org u s = record {
    user = u;
    payload = session_payload env t u;
    session = init_server_session nanoid now;
    idp = idp_of (relay_state (or_null t.idp_login) s);
    user_org =
        get_default_user_org u (owner_of_site env.site)
          (record { org = q.id_token_org; dep = q.id_token_dep; role = q.id_token_role });
    step = next_step env t u org (rebound_redirect env q.redirect) may_create_orgs;
    redirect = rebound_redirect env q.redirect;
  }

  -- confirmLog
  abbrev pub confirm_log : User → storage.Store → storage.Store
  confirm_log u s =
      if storage.readonly
      then s
      else if not u.email_confirmed
      then storage.confirm_email u.id (storage.update_logged u.id s)
      else storage.update_logged u.id s

  abbrev pub write_session : CallbackToken → Opened → CallbackStores → CallbackStores
  write_session t o s =
      let s' = move_id_token (or_null t.idp_login) s in
      record s' {
        in_users = confirm_log o.user (storage.add_user_session o.user.id o.session s'.in_users);
      }

  abbrev pub answer :
      Bool → String → ℕ → CallbackQuery → CallbackToken → CallbackStores → Exit CallbackError Opened
  answer may_create_orgs nanoid now q t s = do
    org ← check_org env q.id_token_org
    u ← callback_user t s
    stay (opened may_create_orgs nanoid now q t org u s)

  abbrev pub finish :
      CallbackToken
      → CallbackStores
      → Exit CallbackError Opened
      → CallbackStores × Exit CallbackError Opened
  finish t s (leave e) = (s, leave e)
  finish t s (stay o) = (write_session t o s, stay o)

  abbrev pub after_take :
      Bool
      → String
      → ℕ
      → CallbackQuery
      → CallbackStores
      → Exit CallbackError (CallbackToken × CallbackStores)
      → CallbackStores × Exit CallbackError Opened
  after_take may_create_orgs nanoid now q s (leave e) = (s, leave e)
  after_take may_create_orgs nanoid now q s (stay (t, s')) =
      finish t s' (answer may_create_orgs nanoid now q t s')

  -- The handler: `may_create_orgs` is the quota of created organizations, `nanoid` the id of the new
  -- session. A token that was taken stays taken where the handler fails later.
  unfoldable pub token_callback :
      Bool
      → String
      → ℕ
      → CallbackQuery
      → CallbackStores
      → CallbackStores × Exit CallbackError Opened
  token_callback may_create_orgs nanoid now q s =
      after_take may_create_orgs nanoid now q s (take_token now q.id_token s)
