-- ===== src/Tokens/Decision.antt =====
-- The checks of keepalive in api/src/tokens/service.ts, and what a renewed session contains.
pub mod Sound
use simple_directory.Common.{
  Bool, List, Option, String, false, find, if◌then◌else◌, none, not, or_null, some, true, truthy, ℕ,
  ◌&&◌, ◌/◌, ◌==◌, nat_eq, option_eq, string_eq,
}
use simple_directory.Types.{Membership, ServerSession, User}
use simple_directory.Tokens.{AsAdmin, SessionUser}
use simple_directory.Tokens.Cookies.{SessionInfo, Signer}
use simple_directory.Sessions.{exchange_token_current, has_session_id}

-- the session state and the cookies of the request
pub record KeepaliveRequest : Type 0 where
  pub now : ℕ
  pub req_ip : String
  pub site_path : String
  pub user : SessionUser
  pub org : Option String
  pub exchange_cookie : Option String
  pub org_cookie : Option String
  pub dep_cookie : Option String
  pub role_cookie : Option String
  pub remove_admin_mode : Bool

-- How the handler goes on: it returns at once, it logs out and throws a 401, it only throws the
-- 401, it also revokes the grants of the session, or it renews the session with the content of the
-- token, in which the last argument is `keepExchangeJti`.
pub data Decision : Type 0 where
  ignored logged_out refused : Decision
  reused : String → Decision
  renewed : SessionInfo → Option String → Decision

abbrev pub keep_jti : ServerSession → SessionInfo → Option String
keep_jti s info = if truthy s.jti && not (info.jti == s.jti) then s.jti else none

abbrev pub decide_current : ℕ → SessionInfo → Option ServerSession → Decision
decide_current now info none = logged_out
decide_current now info (some s) =
    if exchange_token_current now s info.jti then renewed info (keep_jti s info) else reused s.id

-- `owner` is the user, or the administrator of the asAdmin mode
abbrev pub decide_session : ℕ → SessionInfo → User → Decision
decide_session now info owner =
    if info.user == owner.id
    then decide_current now info (find (has_session_id info.session) owner.sessions)
    else logged_out

abbrev pub decide_admin : ℕ → SessionInfo → Option User → Decision
decide_admin now info none = refused
decide_admin now info (some admin) =
    if admin.is_admin then decide_session now info admin else refused

module _ (get_user : String → Option User) (has_org : String → Bool) (signer : Signer) where
  abbrev pub decide_owner : ℕ → SessionInfo → User → Option AsAdmin → Decision
  decide_owner now info user none = decide_session now info user
  decide_owner now info user (some a) = decide_admin now info (get_user a.id)

  abbrev pub decide_info : KeepaliveRequest → User → Option SessionInfo → Decision
  decide_info r user none = logged_out
  decide_info r user (some info) =
      if truthy info.ip && not (info.ip == some r.req_ip)
      then logged_out
      else decide_owner r.now info user r.user.as_admin

  abbrev pub decide_cookie : KeepaliveRequest → User → Option String → Decision
  decide_cookie r user none = logged_out
  decide_cookie r user (some token) = decide_info r user (signer.verify_info (r.now / 1000) token)

  abbrev pub decide_user : KeepaliveRequest → Option User → Decision
  decide_user r none = logged_out
  decide_user r (some user) = decide_cookie r user (or_null r.exchange_cookie)

  abbrev pub org_is_known : Option String → Bool
  org_is_known none = true
  org_is_known (some org) = has_org org

  -- the checks of keepalive, in their order
  unfoldable pub decide : KeepaliveRequest → Decision
  decide r =
      if r.user.nhi
      then ignored
      else if not (org_is_known r.org)
      then logged_out
      else decide_user r (get_user r.user.id)

-- what the handler adds to the payload of the user
pub renewed_payload : KeepaliveRequest → SessionUser → SessionUser
renewed_payload r payload =
    let kept : SessionUser = record payload {
      admin_mode = r.user.is_admin && r.user.admin_mode && not r.remove_admin_mode;
      remember_me = r.user.remember_me;
    } in
    elim r.user.as_admin [
      | none ↦ kept
      | some a ↦ record kept { as_admin = some a; name = r.user.name; is_admin = false }
    ]

-- the test on the organization of the cookies; `decode` is decodeURIComponent
abbrev pub is_cookie_org : (String → String) → KeepaliveRequest → Membership → Bool
is_cookie_org decode r o =
    some o.id == r.org_cookie
    && (elim (or_null r.dep_cookie) [ none ↦ true | some d ↦ some (decode d) == o.department ])
    && (elim (or_null r.role_cookie) [ none ↦ true | some role ↦ role == o.role ])

pub cookie_org : (String → String) → KeepaliveRequest → List Membership → Option Membership
cookie_org decode r l = if truthy r.org_cookie then find (is_cookie_org decode r) l else none
