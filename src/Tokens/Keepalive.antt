-- ===== src/Tokens/Keepalive.antt =====
-- keepalive and logout of api/src/tokens/service.ts: whether a session is renewed, and what happens
-- to it otherwise.
pub mod Reuse
use Prim.Native.String
use simple_directory.Tokens.Decision.{
  Decision, KeepaliveRequest, cookie_org, decide, ignored, logged_out, refused, renewed,
  renewed_payload, reused,
}
use simple_directory.Members.{has_user_id}
use simple_directory.Common.{
  Bool, List, Option, Result, String, [], err, false, filter, none, not, ok, or_null, refl, some,
  true, update_all, ℕ, ◌==◌, ◌∷◌, nat_eq, option_eq, string_eq,
}
use simple_directory.Types.{ServerSession, User}
use simple_directory.Collection.{Collection}
use simple_directory.Tokens.{Owner, TokenConfig, get_token_payload}
use simple_directory.Tokens.Jar.{Cookie, CookieConfig, clear_cookie}
use simple_directory.Tokens.Cookies.{SessionInfo, Signer, set_session_cookies}
use simple_directory.Sessions.{Holder, SessionStores, has_session_id}
use simple_directory.Grants.{GrantDoc, GrantStores, TokenDoc, revoke_grants}

-- the cookies that logout clears
pub logout_cookies : String → List Cookie
logout_cookies site_path =
    let clear : String → Cookie = clear_cookie (String.◌++◌ site_path "/") in
    clear "id_token"
    ∷ record (clear "id_token_sign") { http_only = some true }
    ∷ clear "id_token_org"
    ∷ clear "id_token_dep"
    ∷ clear "id_token_role"
    ∷ record (clear_cookie (String.◌++◌ site_path "/simple-directory/") "id_token_ex") {
      http_only = some true;
    }
    ∷ []

abbrev pub drop_session : String → User → User
drop_session id u = record u {
  sessions = filter (λ (x : ServerSession). not (x.id == id)) u.sessions;
}

abbrev pub keep_alive : ℕ → ServerSession → ServerSession
keep_alive now s = record s { last_keepalive = now }

-- `sessions.$[currentSession]`: every element with the id
abbrev pub touch_session : String → ℕ → User → User
touch_session id now u = record u {
  sessions = update_all (has_session_id id) (keep_alive now) u.sessions;
}

-- users are documents that hold sessions
abbrev pub user_holder : Collection User → Holder
user_holder users = record {
  Doc = User;
  collection = users;
  id = λ u. u.id;
  sessions = λ u. u.sessions;
  set_sessions = λ l u. record u { sessions = l };
  sessions-set_sessions = λ l u. refl;
}

module _ (users : Collection User) (ldap file : Holder) (grants : Collection GrantDoc)
    (refresh codes : Collection TokenDoc) where
  pub record KeepaliveState : Type 0 where
    pub stores : SessionStores (user_holder users) ldap file
    pub oauth : GrantStores grants refresh codes
    pub cookies : List Cookie

  abbrev pub get_user_of : KeepaliveState → String → Option User
  get_user_of st id = users.find_one (has_user_id id) st.stores.in_users

  abbrev pub write_users : (users.Store → users.Store) → KeepaliveState → KeepaliveState
  write_users f st = record st { stores = record st.stores { in_users = f st.stores.in_users } }

  -- `decode_session` reads the session of a token without verifying it
  abbrev pub delete_decoded : String → Option String → KeepaliveState → KeepaliveState
  delete_decoded user_id none st = st
  delete_decoded user_id (some session) st =
      write_users (users.update_one (has_user_id user_id) (drop_session session)) st

  abbrev pub decoded : (String → Option String) → Option String → Option String
  decoded decode_session none = none
  decoded decode_session (some token) = decode_session token

  pub logout :
      (String → Option String) → String → String → Option String → KeepaliveState → KeepaliveState
  logout decode_session site_path user_id cookie st =
      record (delete_decoded user_id (decoded decode_session (or_null cookie)) st) {
        cookies = logout_cookies site_path;
      }

  -- revokeGrants is called with a rejection that is only logged
  abbrev pub with_grants :
      KeepaliveState → Result (ℕ × GrantStores grants refresh codes) → KeepaliveState
  with_grants st (ok done) = record st { oauth = done.1 }
  with_grants st (err _) = st

  abbrev pub revoke_session_grants : String → KeepaliveState → KeepaliveState
  revoke_session_grants id st = with_grants st (
      revoke_grants grants refresh codes
        (record { subject_id = none; client_id = none; session_id = some id }) st.oauth)

  abbrev pub with_cookies :
      KeepaliveState
      → Result (List Cookie × SessionStores (user_holder users) ldap file)
      → Result (Unit {0}) × KeepaliveState
  with_cookies st (err status) = (err status, st)
  with_cookies st (ok done) = (ok tt, record st { cookies = done.0; stores = done.1 })

  module _ (signer : Signer) (cfg : CookieConfig) (tokens : TokenConfig)
      (lower decode : String → String) (decode_session : String → Option String)
      (has_org : String → Bool) where
    abbrev pub renew :
        KeepaliveRequest
        → Option Owner
        → String
        → SessionInfo
        → Option String
        → User
        → KeepaliveState
        → Result (Unit {0}) × KeepaliveState
    renew r site nanoid info keep user st =
        let touched =
          write_users (users.update_one (has_user_id info.user) (touch_session info.session r.now))
            st in
        with_cookies touched (
          set_session_cookies (user_holder users) ldap file signer cfg r.now r.req_ip r.site_path
            r.exchange_cookie (renewed_payload r (get_token_payload lower tokens user site))
            (some info.session) (cookie_org decode r user.organizations)
            (record { skip_exchange_token = false; exp = none; keep_exchange_jti = keep }) nanoid
            touched.stores)

    abbrev pub renew_user :
        KeepaliveRequest
        → Option Owner
        → String
        → SessionInfo
        → Option String
        → Option User
        → KeepaliveState
        → Result (Unit {0}) × KeepaliveState
    renew_user r site nanoid info keep none st = (err 401, st)
    renew_user r site nanoid info keep (some user) st = renew r site nanoid info keep user st

    abbrev pub leave : KeepaliveRequest → KeepaliveState → KeepaliveState
    leave r st = logout decode_session r.site_path r.user.id r.exchange_cookie st

    abbrev pub act :
        KeepaliveRequest
        → Option Owner
        → String
        → KeepaliveState
        → Decision
        → Result (Unit {0}) × KeepaliveState
    act r site nanoid st ignored = (ok tt, st)
    act r site nanoid st logged_out = (err 401, leave r st)
    act r site nanoid st refused = (err 401, st)
    act r site nanoid st (reused id) = (err 401, revoke_session_grants id (leave r st))
    act r site nanoid st (renewed info keep) =
        renew_user r site nanoid info keep (get_user_of st r.user.id) st

    pub keepalive :
        KeepaliveRequest
        → Option Owner
        → String
        → KeepaliveState
        → Result (Unit {0}) × KeepaliveState
    keepalive r site nanoid st = act r site nanoid st (decide (get_user_of st) has_org signer r)
