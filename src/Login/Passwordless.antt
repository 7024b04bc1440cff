-- ===== src/Login/Passwordless.antt =====
-- The login by a link in a mail: POST /passwordless of api/src/auth/router.ts.
use simple_directory.Passwords.{is_2fa_required}
use simple_directory.Login.{
  LoginEnv, LoginRequest, LoginStorage, Refusal, is_outsider, owner_of, refused, storage_for,
}
use simple_directory.Types.{Organization, User}
use simple_directory.Tokens.{SessionUser, get_token_payload}
use simple_directory.Exits.{Exit, leave_if, or_leave, stay, ◌>>=◌, ◌>>◌}
use simple_directory.Common.{Option, String, if◌then◌else◌, is_some, none, not, or_null, some, ◌&&◌}

-- The answers, which all have the status 204: a mail that says that there is no account, no mail, and
-- the link with the payload of its token.
pub data MailOutcome : Type 0 where
  no_account : MailOutcome
  no_mail : MailOutcome
  link_sent : User → SessionUser → MailOutcome

module _ (env : LoginEnv) where
  abbrev pub known_org : Option String → Exit Refusal (Option Organization)
  known_org org = elim (or_null org) [
    | none ↦ stay none
    | some id ↦
        or_leave (env.get_organization id) (refused "orgaUnknown" 404) >>= λ o. stay (some o)
  ]

  abbrev pub sent_link : LoginStorage → LoginRequest → User → Exit Refusal MailOutcome
  sent_link storage r u = do
    leave_if (is_2fa_required (storage.required_2fa u) (storage.get_2fa u.id))
        (refused "passwordless2FA" 400)
    stay (
        link_sent u (record (get_token_payload env.lower env.tokens u (owner_of r.site)) {
          remember_me = r.remember_me;
        }))

  -- the test for members only refuses nobody: it asks again whether the organization is unknown
  unfoldable pub mail_for :
      LoginStorage → LoginRequest → Option Organization → Option User → Exit Refusal MailOutcome
  mail_for storage r org none = stay no_account
  mail_for storage r org (some u) =
      if not u.email_confirmed
      then stay no_account
      else if u.core_id_provider
      then stay no_mail
      else (leave_if (is_outsider org r.members_only u && not (is_some org))
            (refused "orgaUnknown" 404)
          >> sent_link storage r u)

  unfoldable pub passwordless_login : LoginRequest → Exit Refusal MailOutcome
  passwordless_login r = do
    leave_if r.has_idp_session (refused "core identity provider" 403)
    leave_if (not env.passwordless) (refused "noPasswordless" 400)
    given ← or_leave (or_null r.email) (refused "badEmail" 400)
    leave_if (not (env.is_email (env.trim given))) (refused "badEmail" 400)
    leave_if (not (env.limit r.ip)) (refused "rateLimitAuth" 429)
    org ← known_org r.org
    mail_for (storage_for env r.wants_org_storage org) r org
        ((storage_for env r.wants_org_storage org).find_by_email (env.trim given) r.site)
