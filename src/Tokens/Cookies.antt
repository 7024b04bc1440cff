-- ===== src/Tokens/Cookies.antt =====
-- setSessionCookies of api/src/tokens/service.ts: the cookies of a session,
-- and the content and the expiry of its exchange token.
pub mod Expiry
use Prim.Native.String
use simple_directory.Tokens.Jar.{
  Cookie, CookieConfig, clear_cookie, remembered, set_cookie, user_org_cookies,
}
use simple_directory.Common.{
  Bool, List, Option, Result, String, [], err, false, get_or, if◌then◌else◌, none, not, ok, or_null,
  some, true, truthy, ℕ, ◌&&◌, ◌*◌, ◌++◌, ◌+◌, ◌/◌, ◌==◌, ◌>>=◌, ◌∷◌, nat_eq, option_eq, string_eq,
}
use simple_directory.Types.{Membership}
use simple_directory.Sessions.{Holder, SessionStores, delete_session_by_id, issue_exchange_token}
use simple_directory.Tokens.{SessionUser}

-- SessionInfoPayload, the content of an exchange token, with the `exp` that its signature adds
pub record SessionInfo : Type 0 where
  pub session : String
  pub user : String
  pub admin_mode : Bool
  pub ip : Option String
  pub jti : Option String
  pub exp : Option ℕ

pub record CookieOptions : Type 0 where
  pub skip_exchange_token : Bool
  pub exp : Option ℕ
  pub keep_exchange_jti : Option String

-- What the code takes from the libraries that sign: the three parts of an id token, the text of an
-- exchange token, and its content as long as it has not expired.
pub record Signer : Type 0 where
  pub sign_user : SessionUser → ℕ → String × String × String
  pub sign_info : SessionInfo → ℕ → String
  pub verify_info : ℕ → String → Option SessionInfo

-- `!!options?.exp`
abbrev pub has_exp : Option ℕ → Bool
has_exp none = false
has_exp (some n) = not (n == 0)

-- `sessionInfo`, with the case of asAdmin
abbrev pub session_info : String → SessionUser → Option SessionInfo → SessionInfo
session_info id payload existing =
    let own : SessionInfo = record {
      session = id;
      user = payload.id;
      admin_mode = payload.admin_mode;
      ip = none;
      jti = none;
      exp = none;
    } in
    elim existing [
      | none ↦ own
      | some e ↦
          if e.admin_mode && not (payload.id == e.user)
          then record own { admin_mode = true; user = e.user }
          else own
    ]

-- the address of an administrator's session: the one of its first token
abbrev pub bound_address : String → Option SessionInfo → SessionInfo → Option String
bound_address req_ip none info = some req_ip
bound_address req_ip (some e) info =
    if truthy e.ip && e.session == info.session then e.ip else some req_ip

abbrev pub bind_ip : CookieConfig → String → Option SessionInfo → SessionInfo → SessionInfo
bind_ip cfg req_ip existing info =
    if info.admin_mode && cfg.admin_session_ip_binding
    then record info { ip = bound_address req_ip existing info }
    else info

-- the expiry that is kept by the renewal of an administrator's session, if there is one
abbrev pub kept_exp : Option SessionInfo → SessionInfo → Option ℕ
kept_exp none info = none
kept_exp (some e) info =
    if e.admin_mode && e.session == info.session && has_exp e.exp then e.exp else none

pub exchange_exp : CookieConfig → ℕ → Option SessionInfo → SessionInfo → ℕ
exchange_exp cfg now existing info =
    if info.admin_mode
    then get_or (kept_exp existing info) (now / 1000 + cfg.admin_exchange_token)
    else now / 1000 + cfg.exchange_token

-- `sessionInfo` as it is signed, but for its `jti`
unfoldable pub exchange_info :
    CookieConfig → String → String → SessionUser → Option SessionInfo → SessionInfo
exchange_info cfg req_ip id payload existing =
    bind_ip cfg req_ip existing (session_info id payload existing)

-- `payload.boundIp`
abbrev pub bind_payload : CookieConfig → SessionInfo → SessionUser → SessionUser
bind_payload cfg info payload =
    if info.admin_mode && cfg.admin_session_ip_binding
    then record payload { bound_ip = info.ip }
    else payload

abbrev pub verified : Signer → ℕ → Option String → Option SessionInfo
verified signer now none = none
verified signer now (some token) = signer.verify_info (now / 1000) token

-- `existingServerSessionInfo`
abbrev pub existing_info : Signer → ℕ → Option ℕ → Option String → Option SessionInfo
existing_info signer now exp cookie =
    if has_exp exp then none else verified signer now (or_null cookie)

-- `serverSessionId`; with an `exp` the caller always gives one
abbrev pub used_session : Option ℕ → Option String → Option SessionInfo → Result String
used_session exp id existing = if has_exp exp then ok (get_or id "") else elim (or_null id) [
  | some i ↦ ok i
  | none ↦ elim existing [ none ↦ err 400 | some e ↦ ok e.session ]
]

abbrev pub superseded_jti : String → Option SessionInfo → Option String
superseded_jti id none = none
superseded_jti id (some e) = if e.session == id then e.jti else none

abbrev pub token_cookies :
    Signer → CookieConfig → String → ℕ → ℕ → SessionUser → Option Membership → List Cookie
token_cookies signer cfg path exp ex_exp payload user_org =
    let (header, body, signature) = signer.sign_user payload exp in
    let expires = remembered payload.remember_me ex_exp in
    set_cookie path expires false "id_token" (String.◌++◌ header (String.◌++◌ "." body))
    ∷ set_cookie path (some (exp * 1000)) true "id_token_sign" signature
    ∷ user_org_cookies cfg.multi_roles path expires user_org

abbrev pub exchange_path : String → String
exchange_path site_path = String.◌++◌ site_path "/simple-directory/"

module _ (users ldap file : Holder) where
  -- the session of a cookie that persisted is dropped
  abbrev pub drop_deprecated :
      String → Option SessionInfo → SessionStores users ldap file → SessionStores users ldap file
  drop_deprecated id none s = s
  drop_deprecated id (some e) s =
      if e.session == id then s else delete_session_by_id users ldap file e.session s

  -- the last cookie, and the rotation
  pub exchange_cookie :
      Signer
      → ℕ
      → String
      → ℕ
      → SessionInfo
      → Option SessionInfo
      → CookieOptions
      → String
      → SessionStores users ldap file
      → Result (Cookie × SessionStores users ldap file)
  exchange_cookie signer now site_path ex_exp info existing options nanoid s =
      if options.skip_exchange_token
      then ok (
        record (clear_cookie (exchange_path site_path) "id_token_ex") { http_only = some true },
        s,
      )
      else (issue_exchange_token users ldap file now info.session
            (superseded_jti info.session existing) options.keep_exchange_jti nanoid s
          >>= λ issued. ok (
            set_cookie (exchange_path site_path) (some (ex_exp * 1000)) true "id_token_ex"
                (signer.sign_info (record info { jti = some (issued.0) }) ex_exp),
            issued.1,
          ))

  -- setSessionCookies; `now` is `Date.now()`, `cookie` the exchange token of the request
  pub set_session_cookies :
      Signer
      → CookieConfig
      → ℕ
      → String
      → String
      → Option String
      → SessionUser
      → Option String
      → Option Membership
      → CookieOptions
      → String
      → SessionStores users ldap file
      → Result (List Cookie × SessionStores users ldap file)
  set_session_cookies signer cfg now req_ip site_path cookie payload id user_org options nanoid s =
      let existing = existing_info signer now options.exp cookie in
      used_session options.exp id existing >>= λ session.
      let info = exchange_info cfg req_ip session payload existing in
      let ex_exp = exchange_exp cfg now existing info in
      exchange_cookie signer now site_path ex_exp info existing options nanoid
        (drop_deprecated session existing s)
      >>= λ last. ok (
        token_cookies signer cfg (String.◌++◌ site_path "/")
              (get_or options.exp (now / 1000 + cfg.id_token)) ex_exp
              (bind_payload cfg info payload) user_org
            ++ last.0 ∷ [],
        last.1,
      )
