-- ===== src/Login/Allowed.antt =====
-- What a login by password needs to open a session.
use mathlib.Core.Path.{subst}
use simple_directory.Tokens.Payload.{is_session_admin}
use simple_directory.Tokens.{SessionUser, get_token_payload}
use simple_directory.Sites.{Site}
use simple_directory.Login.{
  LoginEnv, LoginRequest, LoginStorage, admin_offer, bad_credentials, check_code, check_credentials,
  is_outsider, is_password_of, is_usable, logged_in, login_user, may_be_admin, moved_or_open,
  offer_host_change, open_login, owner_of, refused, second_factor, secret_of, with_mode,
}
use simple_directory.Passwords.{TwoFa, check_2fa_session, is_2fa_required, is_2fa_valid}
use simple_directory.Types.{Organization, User}
use simple_directory.Exits.{
  >>=-eq-stay, leave_if, leave_if-stay, or_leave, or_leave-stay, stay, stay_inj,
}
use simple_directory.Common.{
  Bool, Bool-cases, Option, Option-cases, String, ap, arith, false, if◌then◌else◌, inl, inr,
  is_some, none, not, or_null, refl, some, sym, true, ◌&&◌, ◌||◌, ◌∙◌, ◌≡◌, ◌⊎◌,
}

pub negated : (p : Bool) → not p ≡ false → p ≡ true
negated p h = ground arith

module _ (env : LoginEnv) where
  -- a code of the second factor that was sent with the login
  abbrev pub has_code : Option TwoFa → LoginRequest → Bool
  has_code t r = elim (or_null r.two_fa) [
    | none ↦ false
    | some token ↦ is_2fa_valid env.check_totp (secret_of t) (env.trim token)
  ]

  abbrev pub needs_no_factor : LoginStorage → User → Bool
  needs_no_factor storage u = not (is_2fa_required (storage.required_2fa u) (storage.get_2fa u.id))

  -- the second factor is not required, or it is in a cookie, or its code was sent: never only the
  -- cookie to enter the administrator mode
  abbrev pub is_second_factor : LoginStorage → User → LoginRequest → Bool
  is_second_factor storage u r =
      needs_no_factor storage u
      || (not r.admin_mode && check_2fa_session env.verify_2fa r.two_fa_cookie u.id)
      || has_code (storage.get_2fa u.id) r

  has_code_intro :
      (t : Option TwoFa) (r : LoginRequest) (token : String)
      → or_null r.two_fa ≡ some token
      → is_2fa_valid env.check_totp (secret_of t) (env.trim token) ≡ true
      → has_code t r ≡ true
  has_code_intro t r token d v = rw (d, has_code) v

  second_factor-is_second_factor :
      (storage : LoginStorage) (u : User) (r : LoginRequest) (cookie : Bool)
      → second_factor env storage u r ≡ stay cookie
      → is_second_factor storage u r ≡ true
  unfolding second_factor
  second_factor-is_second_factor storage u r cookie e =
      elim (Bool-cases (needs_no_factor storage u)) [
        | inl b ↦ ground (arith, b)
        | inr b ↦
            elim (Bool-cases
              (not r.admin_mode && check_2fa_session env.verify_2fa r.two_fa_cookie u.id)) [
                | inl c ↦ ground (arith, c)
                | inr c ↦ elim (Option-cases (or_null r.two_fa)) [
                  | inl d ↦ cc (rw (b, c, d) at e)
                  | inr (token, d) ↦ code token d (rw (b, c, d) at e)
                ]
              ]
      ]
    where
      code :
          (token : String)
          → or_null r.two_fa ≡ some token
          → check_code env u (storage.get_2fa u.id) token ≡ stay cookie
          → is_second_factor storage u r ≡ true
      code token d k =
          elim (Bool-cases
            (is_2fa_valid env.check_totp (secret_of (storage.get_2fa u.id)) (env.trim token))) [
              | inl v ↦ ground (arith, has_code_intro (storage.get_2fa u.id) r token d v)
              | inr v ↦ cc (rw v at k)
            ]

  -- a user who may have the administrator mode on a site, or without one
  abbrev pub is_admin_on : Option Site → User → Bool
  is_admin_on at_site u =
      is_session_admin env.lower env.tokens u
      && (not (is_some at_site) || env.tokens.admin_mode_on_sites)

  -- what holds of a login of a user: see password_login-IsAllowed
  abbrev pub IsAllowed :
      LoginStorage
      → Option Organization
      → String
      → String
      → LoginRequest
      → User
      → SessionUser
      → Type 0
  IsAllowed storage org email password r u payload =
      (storage.find_by_email email r.site ≡ some u)
      × (is_password_of env storage u password ≡ true)
      × (u.core_id_provider ≡ false)
      × (u.email_confirmed ≡ true)
      × (is_outsider org r.members_only u ≡ false)
      × (is_second_factor storage u r ≡ true)
      × (payload.id ≡ u.id)
      × (payload.admin_mode ≡ r.admin_mode)
      × (payload.is_admin ≡ is_session_admin env.lower env.tokens u)
      × ((not r.admin_mode || is_admin_on r.site u) ≡ true)

  pub login_user_cases :
      (storage : LoginStorage) (at_site : Option Site) (email : String) (u : User) (moved : Bool)
      → login_user env storage at_site email ≡ stay (u, moved)
      → ((moved ≡ false) × (storage.find_by_email email at_site ≡ some u))
        ⊎ ((moved ≡ true) × (is_some at_site ≡ true))
  unfolding login_user
  login_user_cases storage at_site email u moved e =
      elim (Bool-cases
        (is_usable env (storage.find_by_email email at_site) || not (is_some at_site))) [
          | inl b ↦
              let (x, found, k) =
                >>=-eq-stay (or_leave (storage.find_by_email email at_site) bad_credentials)
                  (λ v. stay (v, false)) (rw b at e) in
              let same : ◌≡◌ {A = User × Bool} (x, false) (u, moved) = stay_inj k in
              inl (
                sym (ap (λ (p : User × Bool). p.1) same),
                or_leave-stay (storage.find_by_email email at_site) bad_credentials found
                    ∙ ap (λ (p : User × Bool). some p.0) same,
              )
          | inr b ↦
              let (x, _, k) =
                >>=-eq-stay (or_leave (storage.find_by_email email none) bad_credentials)
                  (λ v. stay (v, true)) (rw b at e) in
              let same : ◌≡◌ {A = User × Bool} (x, true) (u, moved) = stay_inj k in
              inr (sym (ap (λ (p : User × Bool). p.1) same), ground (arith, b))
        ]

  with_mode_lem :
      (r : LoginRequest) (payload payload' : SessionUser)
      → payload.admin_mode ≡ false
      → with_mode env r payload ≡ stay payload'
      → (payload'.id ≡ payload.id)
        × (payload'.admin_mode ≡ r.admin_mode)
        × (payload'.is_admin ≡ payload.is_admin)
        × ((not r.admin_mode || may_be_admin env r.site payload') ≡ true)
  unfolding with_mode
  with_mode_lem r payload payload' plain e = elim (Bool-cases r.admin_mode) [
    | inl b ↦
        let (_, main, e1) =
          >>=-eq-stay
            (leave_if (is_some r.site && not (env.tokens.admin_mode_on_sites && payload.is_admin))
              (refused "adminModeOnly" 403))
            _ (rw b at e) in
        let (_, admin, e2) =
          >>=-eq-stay (leave_if (not payload.is_admin) (refused "adminModeOnly" 403)) _ e1 in
        let same : record payload { admin_mode = true } ≡ payload' = stay_inj e2 in
        let rights =
          rights_of r.site payload.is_admin
            (leave_if-stay
              (is_some r.site && not (env.tokens.admin_mode_on_sites && payload.is_admin))
              (refused "adminModeOnly" 403) main)
            (leave_if-stay (not payload.is_admin) (refused "adminModeOnly" 403) admin) in
        rw (b, ← same) (refl, refl, refl, rights)
    | inr b ↦
        let same : record payload { remember_me = r.remember_me } ≡ payload' =
          stay_inj (rw b at e) in
        rw (b, ← same) (refl, plain, refl, refl)
  ]
    where
      rights_of :
          (at_site : Option Site) (is_admin : Bool)
          → (is_some at_site && not (env.tokens.admin_mode_on_sites && is_admin)) ≡ false
          → not is_admin ≡ false
          → (is_admin && (not (is_some at_site) || env.tokens.admin_mode_on_sites)) ≡ true
      rights_of at_site is_admin h k = ground arith

  pub open_login_lem :
      (storage : LoginStorage) (r : LoginRequest) (u v : User) (payload : SessionUser)
      (cookie : Bool)
      → open_login env storage v r ≡ stay (logged_in u payload cookie)
      → (v ≡ u)
        × (is_second_factor storage u r ≡ true)
        × (payload.id ≡ u.id)
        × (payload.admin_mode ≡ r.admin_mode)
        × (payload.is_admin ≡ is_session_admin env.lower env.tokens u)
        × ((not r.admin_mode || is_admin_on r.site u) ≡ true)
  unfolding open_login get_token_payload
  open_login_lem storage r u v payload cookie e =
      let (p, mode, e1) =
        >>=-eq-stay (with_mode env r (get_token_payload env.lower env.tokens v (owner_of r.site))) _
          e in
      let (c, factor, e2) = >>=-eq-stay (second_factor env storage v r) _ e1 in
      let (kept, same_p) = last p c (stay_inj e2) in
      let (i, m, d, a) =
        with_mode_lem r (get_token_payload env.lower env.tokens v (owner_of r.site)) p refl mode in
      subst
        (λ x.
          (v ≡ x)
          × (is_second_factor storage x r ≡ true)
          × (payload.id ≡ x.id)
          × (payload.admin_mode ≡ r.admin_mode)
          × (payload.is_admin ≡ is_session_admin env.lower env.tokens x)
          × ((not r.admin_mode || is_admin_on r.site x) ≡ true))
        kept
        (
          refl,
          second_factor-is_second_factor storage v r c factor,
          rw (← same_p) i,
          rw (← same_p) m,
          rw (← same_p) d,
          rw d at a,
        )
    where
      last :
          (p : SessionUser) (c : Bool)
          → (if r.offer_admin_mode && not r.admin_mode && may_be_admin env r.site p
              then admin_offer c
              else logged_in v p c)
            ≡ logged_in u payload cookie
          → (v ≡ u) × (p ≡ payload)
      last p c k =
          elim (Bool-cases (r.offer_admin_mode && not r.admin_mode && may_be_admin env r.site p)) [
            | inl b ↦ cc (rw b at k)
            | inr b ↦ let s : logged_in v p c ≡ logged_in u payload cookie = rw b at k in (cc, cc)
          ]

  pub no_move :
      (r : LoginRequest) (v : User) (at_site : Option Site) {u : User} {payload : SessionUser}
      {cookie : Bool} (storage : LoginStorage)
      → is_some at_site ≡ true
      → moved_or_open env storage r v true at_site ≡ stay (logged_in u payload cookie)
      → ⊥
  unfolding offer_host_change
  no_move r v none storage h k = cc
  no_move r v (some s) storage h k = elim (Bool-cases v.is_admin) [
    | inl b ↦ cc (rw b at k)
    | inr b ↦ cc (rw b at k)
  ]

  pub check_credentials-is_password_of :
      (storage : LoginStorage) (u : User) (password : String) {t : Unit {0}}
      → check_credentials env storage u password ≡ stay t
      → is_password_of env storage u password ≡ true
  unfolding check_credentials
  check_credentials-is_password_of storage u password e =
      let (_, _, e1) =
        >>=-eq-stay
          (leave_if (not (is_some storage.get_password) && not (is_some storage.check_password_of))
            _)
          _ e in
      let (_, _, e2) =
        >>=-eq-stay (leave_if (is_some storage.get_password && storage.is_password_outdated u) _) _
          e1 in
      let (_, right, _) =
        >>=-eq-stay (leave_if (not (is_password_of env storage u password)) bad_credentials) _ e2 in
      negated (is_password_of env storage u password)
        (leave_if-stay (not (is_password_of env storage u password)) bad_credentials right)
