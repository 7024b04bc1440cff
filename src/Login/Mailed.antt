-- ===== src/Login/Mailed.antt =====
-- Who gets the link of a login by mail.
use mathlib.Core.Path.{subst}
use simple_directory.Login.Allowed.{negated}
use simple_directory.Login.Passwordless.{
  MailOutcome, known_org, link_sent, mail_for, no_account, no_mail, passwordless_login, sent_link,
}
use simple_directory.Passwords.{is_2fa_required}
use simple_directory.Login.{
  LoginEnv, LoginRequest, LoginStorage, Refusal, is_outsider, owner_of, refused, storage_for,
}
use simple_directory.Types.{Organization, User}
use simple_directory.Tokens.{SessionUser, get_token_payload}
use simple_directory.Exits.{
  >>=-eq-stay, Exit, leave_if, leave_if-false, leave_if-stay, or_leave, or_leave-some,
  or_leave-stay, stay, stay->>=, stay_inj, ◌>>◌,
}
use simple_directory.Common.{
  Bool, Option, Option-cases, String, ap, arith, false, if◌then◌else◌, inl, inr, is_some, none, not,
  or_null, refl, some, sym, true, ◌&&◌, ◌↔◌, ◌∙◌, ◌≡◌,
}

-- the tests of the user
abbrev mailed : Bool → Bool → Exit Refusal MailOutcome → Exit Refusal MailOutcome
mailed confirmed bound rest =
    if not confirmed then stay no_account else if bound then stay no_mail else rest

mailed-stay :
    (confirmed bound : Bool) (rest : Exit Refusal MailOutcome) (u : User) (payload : SessionUser)
    → mailed confirmed bound rest ≡ stay (link_sent u payload)
    → (confirmed ≡ true) × (bound ≡ false) × (rest ≡ stay (link_sent u payload))
mailed-stay false bound rest u payload e = cc
mailed-stay true true rest u payload e = cc
mailed-stay true false rest u payload e = (refl, refl, e)

stay-mailed :
    (confirmed bound : Bool) (rest : Exit Refusal MailOutcome)
    → confirmed ≡ true
    → bound ≡ false
    → mailed confirmed bound rest ≡ rest
stay-mailed true false rest h k = refl
stay-mailed true true rest h k = cc
stay-mailed false bound rest h k = cc

guard_passes :
    (org : Option Organization) (members_only : Bool) (u : User)
    → (is_outsider org members_only u && not (is_some org)) ≡ false
guard_passes none members_only u = refl
guard_passes (some o) members_only u = ground arith

module _ (env : LoginEnv) where
  abbrev pub link_payload : LoginRequest → User → SessionUser
  link_payload r u = record (get_token_payload env.lower env.tokens u (owner_of r.site)) {
    remember_me = r.remember_me;
  }

  -- a user with the address, confirmed, with no core identity provider and no second factor
  abbrev pub IsMailed : LoginStorage → LoginRequest → String → User → SessionUser → Type 0
  IsMailed storage r email u payload =
      (storage.find_by_email email r.site ≡ some u)
      × (u.email_confirmed ≡ true)
      × (u.core_id_provider ≡ false)
      × (is_2fa_required (storage.required_2fa u) (storage.get_2fa u.id) ≡ false)
      × (payload ≡ link_payload r u)

  -- no organization is asked for, or it is there
  abbrev pub IsKnownOrg : Option String → Option Organization → Type 0
  IsKnownOrg org none = or_null org ≡ none
  IsKnownOrg org (some o) =
      (id : String) × (or_null org ≡ some id) × (env.get_organization id ≡ some o)

  -- what a link needs: see passwordless_login-IsLinked
  abbrev pub IsLinked : LoginRequest → User → SessionUser → Type 0
  IsLinked r u payload =
      (email : String) × (org : Option Organization) × (r.has_idp_session ≡ false)
      × (env.passwordless ≡ true)
      × (or_null r.email ≡ some email)
      × (env.is_email (env.trim email) ≡ true)
      × (env.limit r.ip ≡ true)
      × IsKnownOrg r.org org
      × IsMailed (storage_for env r.wants_org_storage org) r (env.trim email) u payload

  known_org-stay :
      (org : Option String) (o : Option Organization)
      → known_org env org ≡ stay o
      → IsKnownOrg org o
  known_org-stay org o e = elim (Option-cases (or_null org)) [
    | inl n ↦ subst (IsKnownOrg org) (stay_inj (rw (known_org, n) at e)) n
    | inr (id, given) ↦
        let (x, found, k) =
          >>=-eq-stay (or_leave (env.get_organization id) (refused "orgaUnknown" 404)) _
            (rw (known_org, given) at e) in
        subst (IsKnownOrg org) (stay_inj k)
          (id, given, or_leave-stay (env.get_organization id) (refused "orgaUnknown" 404) found)
  ]

  stay-known_org :
      (org : Option String) (o : Option Organization)
      → IsKnownOrg org o
      → known_org env org ≡ stay o
  stay-known_org org none n = rw (known_org, n) refl
  stay-known_org org (some o) (id, given, found) = rw (known_org, given) (rw found refl)

  sent_link-stay :
      (storage : LoginStorage) (r : LoginRequest) (v u : User) (payload : SessionUser)
      → sent_link env storage r v ≡ stay (link_sent u payload)
      → (is_2fa_required (storage.required_2fa u) (storage.get_2fa u.id) ≡ false)
        × (v ≡ u)
        × (payload ≡ link_payload r u)
  sent_link-stay storage r v u payload e =
      let (_, plain, k) =
        >>=-eq-stay
          (leave_if (is_2fa_required (storage.required_2fa v) (storage.get_2fa v.id))
            (refused "passwordless2FA" 400))
          _ e in
      let sent : link_sent v (link_payload r v) ≡ link_sent u payload = stay_inj k in
      let same : v ≡ u = cc in
      let content : link_payload r v ≡ payload = cc in
      (
        subst (λ x. is_2fa_required (storage.required_2fa x) (storage.get_2fa x.id) ≡ false) same
            (leave_if-stay (is_2fa_required (storage.required_2fa v) (storage.get_2fa v.id))
              (refused "passwordless2FA" 400) plain),
        same,
        sym content ∙ ap (link_payload r) same,
      )

  mail_for-stay :
      (storage : LoginStorage) (r : LoginRequest) (org : Option Organization) (email : String)
      (u : User) (payload : SessionUser)
      → mail_for env storage r org (storage.find_by_email email r.site) ≡ stay (link_sent u payload)
      → IsMailed storage r email u payload
  unfolding mail_for
  mail_for-stay storage r org email u payload e =
      elim (Option-cases (storage.find_by_email email r.site)) [
        | inl absent ↦ cc (rw absent at e)
        | inr (v, found) ↦
            let (sure, free, e1) =
              mailed-stay v.email_confirmed v.core_id_provider (sent v) u payload (rw found at e) in
            let (_, _, k) =
              >>=-eq-stay
                (leave_if (is_outsider org r.members_only v && not (is_some org))
                  (refused "orgaUnknown" 404))
                _ e1 in
            let (factor, same, content) = sent_link-stay storage r v u payload k in
            let (at, sure', free') =
              subst
                (λ x.
                  (storage.find_by_email email r.site ≡ some x)
                  × (x.email_confirmed ≡ true)
                  × (x.core_id_provider ≡ false))
                same (found, sure, free) in
            (at, sure', free', factor, content)
      ]
    where
      sent : User → Exit Refusal MailOutcome
      sent v =
          leave_if (is_outsider org r.members_only v && not (is_some org))
            (refused "orgaUnknown" 404)
          >> sent_link env storage r v

  stay-mail_for :
      (storage : LoginStorage) (r : LoginRequest) (org : Option Organization) (email : String)
      (u : User) (payload : SessionUser)
      → IsMailed storage r email u payload
      → mail_for env storage r org (storage.find_by_email email r.site) ≡ stay (link_sent u payload)
  unfolding mail_for
  stay-mail_for storage r org email u payload (found, sure, free, factor, content) =
      ap (mail_for env storage r org) found
      ∙ stay-mailed u.email_confirmed u.core_id_provider _ sure free
      ∙ ap (λ b. leave_if b (refused "orgaUnknown" 404) >> sent_link env storage r u)
          (guard_passes org r.members_only u)
      ∙ ap
          (λ b. leave_if b (refused "passwordless2FA" 400) >> stay (link_sent u (link_payload r u)))
          factor
      ∙ ap (λ p. stay (link_sent u p)) (sym content)

  pub passwordless_login-IsLinked :
      (r : LoginRequest) (u : User) (payload : SessionUser)
      → (passwordless_login env r ≡ stay (link_sent u payload)) ↔ IsLinked r u payload
  unfolding passwordless_login
  passwordless_login-IsLinked r u payload = (linked, sends)
    where
      linked : passwordless_login env r ≡ stay (link_sent u payload) → IsLinked r u payload
      linked e =
          let (_, idp, e1) = >>=-eq-stay (leave_if r.has_idp_session _) _ e in
          let (_, set, e2) = >>=-eq-stay (leave_if (not env.passwordless) _) _ e1 in
          let (email, given, e3) =
            >>=-eq-stay (or_leave (or_null r.email) (refused "badEmail" 400)) _ e2 in
          let (_, well, e4) = >>=-eq-stay (leave_if (not (env.is_email (env.trim email))) _) _ e3 in
          let (_, point, e5) = >>=-eq-stay (leave_if (not (env.limit r.ip)) _) _ e4 in
          let (org, there, e6) = >>=-eq-stay (known_org env r.org) _ e5 in
          (
            email,
            org,
            leave_if-stay r.has_idp_session _ idp,
            negated env.passwordless (leave_if-stay (not env.passwordless) _ set),
            or_leave-stay (or_null r.email) (refused "badEmail" 400) given,
            negated (env.is_email (env.trim email))
                (leave_if-stay (not (env.is_email (env.trim email))) _ well),
            negated (env.limit r.ip) (leave_if-stay (not (env.limit r.ip)) _ point),
            known_org-stay r.org org there,
            mail_for-stay (storage_for env r.wants_org_storage org) r org (env.trim email) u payload
                e6,
          )

      sends : IsLinked r u payload → passwordless_login env r ≡ stay (link_sent u payload)
      sends (email, org, idp, set, given, well, point, there, mailed) =
          leave_if-false r.has_idp_session _ _ idp
          ∙ leave_if-false (not env.passwordless) _ _ (rw set refl)
          ∙ or_leave-some (or_null r.email) _ _ email given
          ∙ leave_if-false (not (env.is_email (env.trim email))) _ _ (rw well refl)
          ∙ leave_if-false (not (env.limit r.ip)) _ _ (rw point refl)
          ∙ stay->>= (known_org env r.org) _ org (stay-known_org r.org org there)
          ∙ stay-mail_for (storage_for env r.wants_org_storage org) r org (env.trim email) u payload
              mailed
