-- ===== src/Callback/Sound.antt =====
-- What a callback that opens a session has checked.
use text.Mathlib.TextPositions.{eq_refl}
use mathlib.Core.Path.{subst}
use simple_directory.Callback.Route.{
  CallbackStores, after_take, answer, callback_user, confirm_log, finish, move_id_token, opened,
  take, take_token, token_callback, write_session,
}
use simple_directory.Collection.{Collection}
use simple_directory.Callback.{
  CallbackEnv, CallbackError, CallbackQuery, CallbackToken, Opened, RelayState, SdStorage,
  UsedToken, check_org, forbidden, get_default_login_redirect, has_used_id, init_server_session,
  is_ok, rebound_redirect, redirect_error, redirect_site,
}
use simple_directory.Tokens.Payload.{is_session_admin}
use simple_directory.Tokens.{get_token_payload}
use simple_directory.Exits.{
  >>=-eq-stay, Exit, leave, leave_if, leave_if-stay, or_leave, or_leave-stay, stay, stay_inj,
}
use simple_directory.Common.{
  Bool, Bool-cases, Option, Option-cases, String, ap, arith, false, inl, inr, is_some, none, not,
  or_null, refl, some, sym, true, truthy, ℕ, ◌&&◌, ◌==◌, ◌||◌, ◌∙◌, ◌≡◌, nat_eq, option_eq,
  string_eq,
}

abbrev pub ordinary : CallbackToken → Bool
ordinary t = t.temporary && not (truthy t.action)

module _ (env : CallbackEnv) (storage : SdStorage) (used : Collection UsedToken)
    (relays : Collection RelayState) where
  pub take_token-stay :
      (now : ℕ) (id_token : Option String) (s s' : CallbackStores env storage used relays)
      (t : CallbackToken)
      → take_token env storage used relays now id_token s ≡ stay (t, s')
      → (text : String) × (or_null id_token ≡ some text)
        × (env.verify text ≡ some t)
        × (ordinary t ≡ true)
        × (take env storage used relays now t s ≡ stay s')
  unfolding take_token
  take_token-stay now id_token s s' t e =
      let (text, given, e1) =
        >>=-eq-stay (or_leave (or_null id_token) (redirect_error "missingToken")) _ e in
      let (t', valid, e2) =
        >>=-eq-stay (or_leave (env.verify text) (redirect_error "invalidToken")) _ e1 in
      let (_, fit, e3) =
        >>=-eq-stay
          (leave_if (not t'.temporary || truthy t'.action) (redirect_error "invalidToken")) _ e2 in
      let (s2, taken, e4) = >>=-eq-stay (take env storage used relays now t' s) _ e3 in
      let same = stay_inj e4 in
      let same_t : t' ≡ t =
        ap (λ (p : CallbackToken × CallbackStores env storage used relays). p.0) same in
      let same_s : s2 ≡ s' =
        ap (λ (p : CallbackToken × CallbackStores env storage used relays). p.1) same in
      (
        text,
        or_leave-stay (or_null id_token) (redirect_error "missingToken") given,
        or_leave-stay (env.verify text) (redirect_error "invalidToken") valid ∙ ap some same_t,
        subst (λ x. (x.temporary && not (truthy x.action)) ≡ true) same_t
            (both t'.temporary (truthy t'.action) (
              leave_if-stay (not t'.temporary || truthy t'.action) (redirect_error "invalidToken")
                fit)),
        subst (λ x. take env storage used relays now x s ≡ stay s') same_t (taken ∙ ap stay same_s),
      )
    where
      both : (p q : Bool) → (not p || q) ≡ false → (p && not q) ≡ true
      both p q h = ground arith

  pub token_callback-stay :
      (may : Bool) (nanoid : String) (now : ℕ) (q : CallbackQuery)
      (s s1 : CallbackStores env storage used relays) (o : Opened)
      → token_callback env storage used relays may nanoid now q s ≡ (s1, stay o)
      → (t : CallbackToken) × (s' : CallbackStores env storage used relays) × (take_token env
            storage used relays now q.id_token s
          ≡ stay (t, s'))
        × (answer env storage used relays may nanoid now q t s' ≡ stay o)
        × (s1 ≡ write_session env storage used relays t o s')
  unfolding token_callback
  token_callback-stay may nanoid now q s s1 o e =
      taken (take_token env storage used relays now q.id_token s) e
    where
      finished :
          (t : CallbackToken) (s' : CallbackStores env storage used relays)
          (x : Exit CallbackError Opened)
          → finish env storage used relays t s' x ≡ (s1, stay o)
          → (x ≡ stay o) × (s1 ≡ write_session env storage used relays t o s')
      finished t s' (leave fault) k = cc
      finished t s' (stay o') k =
          let same : o' ≡ o = stay_inj {O = CallbackError} (
            ap (λ (p : CallbackStores env storage used relays × Exit CallbackError Opened). p.1)
              k) in
          (
            ap stay same,
            sym (
                  ap
                    (λ (p : CallbackStores env storage used relays × Exit CallbackError Opened).
                      p.0)
                    k)
                ∙ ap (λ v. write_session env storage used relays t v s') same,
          )

      taken :
          (x : Exit CallbackError (CallbackToken × CallbackStores env storage used relays))
          → after_take env storage used relays may nanoid now q s x ≡ (s1, stay o)
          → (t : CallbackToken) × (s' : CallbackStores env storage used relays) × (x ≡ stay (t, s'))
            × (answer env storage used relays may nanoid now q t s' ≡ stay o)
            × (s1 ≡ write_session env storage used relays t o s')
      taken (leave fault) k = cc
      taken (stay (t, s')) k =
          let (a, b) = finished t s' (answer env storage used relays may nanoid now q t s') k in
          (t, s', refl, a, b)

  take-in_users :
      (now : ℕ) (t : CallbackToken) (s s' : CallbackStores env storage used relays)
      → take env storage used relays now t s ≡ stay s'
      → s'.in_users ≡ s.in_users
  take-in_users now t s s' e = elim (Option-cases (or_null t.cb_jti)) [
    | inl j ↦
        ap (λ (x : CallbackStores env storage used relays). x.in_users)
          (sym (stay_inj {O = CallbackError} (rw (j, take) at e)))
    | inr (jti, j) ↦
        let (_, _, k) =
          >>=-eq-stay
            (leave_if (is_some (used.find_one (has_used_id jti) s.in_used))
              (redirect_error "invalidToken"))
            _ (rw (j, take) at e) in
        ap (λ (x : CallbackStores env storage used relays). x.in_users)
          (sym (stay_inj {O = CallbackError} k))
  ]

  moved-in_users :
      (id : Option String) (s : CallbackStores env storage used relays)
      → (move_id_token env storage used relays id s).in_users ≡ s.in_users
  moved-in_users none s = refl
  moved-in_users (some id) s = refl

  rebound_redirect_lem :
      (redirect : Option String)
      → (is_ok (redirect_site env (rebound_redirect env redirect))
          || rebound_redirect env redirect == get_default_login_redirect env none)
        ≡ true
  unfolding rebound_redirect
  rebound_redirect_lem redirect =
      elim (Bool-cases (is_ok (redirect_site env (get_default_login_redirect env redirect)))) [
        | inl b ↦ rw b (rw b refl)
        | inr b ↦ rw b (rw (eq_refl (get_default_login_redirect env none)) (either _))
      ]
    where
      either : (p : Bool) → (p || true) ≡ true
      either p = ground arith

  -- what holds of a session that a callback opens: see token_callback-IsSound
  abbrev pub IsSound : CallbackToken → CallbackStores env storage used relays → Opened → Type 0
  IsSound t s o =
      (ordinary t ≡ true)
      × (storage.get_user t.id s.in_users ≡ some o.user)
      × ((t.email_confirmed || o.user.email_confirmed) ≡ true)
      × (is_some o.user.nhi ≡ false)
      × (o.payload.id ≡ o.user.id)
      × (o.payload.is_admin ≡ is_session_admin env.lower env.tokens o.user)
      × (o.payload.admin_mode ≡ (t.admin_mode && is_session_admin env.lower env.tokens o.user))
      × ((is_ok (redirect_site env o.redirect) || o.redirect == get_default_login_redirect env none)
          ≡ true)

  -- A callback opens a session only with a valid token that was made for it, not with a token of a
  -- session or of an action. The session is the one of the user of the token, who exists, is confirmed
  -- or confirmed by this link, and is human; it is one of an administrator exactly if the token says
  -- so and the user is one now, by the record that is read or by the settings. The redirection stays on the sites that are allowed, or is the default.
  -- The session is added to the record of the user.
  pub token_callback-IsSound :
      (may : Bool) (nanoid : String) (now : ℕ) (q : CallbackQuery)
      (s s1 : CallbackStores env storage used relays) (o : Opened)
      → token_callback env storage used relays may nanoid now q s ≡ (s1, stay o)
      → (text : String) × (t : CallbackToken) × (or_null q.id_token ≡ some text)
        × (env.verify text ≡ some t)
        × IsSound t s o
        × (s1.in_users
            ≡ confirm_log env storage used relays o.user
                (storage.add_user_session o.user.id (init_server_session nanoid now) s.in_users))
  unfolding callback_user rebound_redirect get_token_payload
  token_callback-IsSound may nanoid now q s s1 o e =
      let (t, s', taken, ans, w) = token_callback-stay may nanoid now q s s1 o e in
      let (text, given, valid, fit, kept) = take_token-stay now q.id_token s s' t taken in
      let same_users = take-in_users now t s s' kept in
      let (org, _, e1) = >>=-eq-stay (check_org env q.id_token_org) _ ans in
      let (u, who, e2) = >>=-eq-stay (callback_user env storage used relays t s') _ e1 in
      let (u', found, e3) =
        >>=-eq-stay (or_leave (storage.get_user t.id s'.in_users) (redirect_error "badCredentials"))
          _ who in
      let (_, sure, e4) =
        >>=-eq-stay
          (leave_if (not t.email_confirmed && not u'.email_confirmed)
            (redirect_error "badCredentials"))
          _ e3 in
      let (_, human, e5) = >>=-eq-stay (leave_if (is_some u'.nhi) forbidden) _ e4 in
      let same_u : u' ≡ u = stay_inj e5 in
      let facts =
        subst
          (λ x.
            (storage.get_user t.id s.in_users ≡ some x)
            × ((t.email_confirmed || x.email_confirmed) ≡ true)
            × (is_some x.nhi ≡ false))
          same_u
          (
            ap (storage.get_user t.id) (sym same_users)
                ∙ or_leave-stay (storage.get_user t.id s'.in_users)
                    (redirect_error "badCredentials") found,
            either t.email_confirmed u'.email_confirmed (
                leave_if-stay (not t.email_confirmed && not u'.email_confirmed)
                  (redirect_error "badCredentials") sure),
            leave_if-stay (is_some u'.nhi) forbidden human,
          ) in
      let same_o : opened env storage used relays may nanoid now q t org u s' ≡ o = stay_inj e2 in
      (
        text,
        t,
        given,
        valid,
        subst (IsSound t s) same_o
            (fit, facts.0, facts.1, facts.2, refl, refl, refl, rebound_redirect_lem q.redirect),
        ap (λ (x : CallbackStores env storage used relays). x.in_users) w
            ∙ subst
                (λ x.
                  confirm_log env storage used relays x.user (
                    storage.add_user_session x.user.id x.session
                      (move_id_token env storage used relays (or_null t.idp_login) s').in_users)
                  ≡ confirm_log env storage used relays x.user (
                      storage.add_user_session x.user.id (init_server_session nanoid now)
                        s.in_users))
                same_o
                (ap
                  (λ v.
                    confirm_log env storage used relays u
                      (storage.add_user_session u.id (init_server_session nanoid now) v))
                  (moved-in_users (or_null t.idp_login) s' ∙ same_users)),
      )
    where
      either : (p q : Bool) → (not p && not q) ≡ false → (p || q) ≡ true
      either p q h = ground arith
