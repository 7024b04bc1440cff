-- ===== src/Callback/Single.antt =====
-- The temporary token of a redirection opens one session and no more.
use text.Mathlib.TextPositions.{eq_refl}
use simple_directory.Callback.Route.{
  CallbackStores, move_id_token, take, take_token, token_callback,
}
use simple_directory.Callback.Sound.{take_token-stay, token_callback-stay}
use simple_directory.Collection.{Collection}
use simple_directory.Callback.{
  CallbackEnv, CallbackQuery, CallbackToken, Opened, RelayState, SdStorage, UsedToken, has_used_id,
  redirect_error,
}
use simple_directory.Exits.{>>=-eq-stay, leave, leave_if, stay, stay_inj}
use simple_directory.Common.{
  Bool, Bool-cases, List, Option, String, [], any, any-eq-is_some-find, ap, arith, inl, inr,
  is_some, none, not, or_null, refl, some, some_inj, sym, true, truthy, ℕ, ◌*◌, ◌++◌, ◌||◌, ◌∙◌,
  ◌∷◌, ◌≡◌,
}

any-last :
    (p : UsedToken → Bool) (l : List UsedToken) (t : UsedToken)
    → p t ≡ true
    → any p (l ++ t ∷ []) ≡ true
any-last p [] t h = rw h refl
any-last p (x ∷ l) t h = ground (arith, any-last p l t h)

module _ (env : CallbackEnv) (storage : SdStorage) (used : Collection UsedToken)
    (relays : Collection RelayState) where
  abbrev is_used : String → CallbackStores env storage used relays → Bool
  is_used jti s = is_some (used.find_one (has_used_id jti) s.in_used)

  take-is_used :
      (now : ℕ) (t : CallbackToken) (s s' : CallbackStores env storage used relays) (jti : String)
      → or_null t.cb_jti ≡ some jti
      → take env storage used relays now t s ≡ stay s'
      → is_used jti s' ≡ true
  take-is_used now t s s' jti j e =
      let (_, _, k) =
        >>=-eq-stay
          (leave_if (is_some (used.find_one (has_used_id jti) s.in_used))
            (redirect_error "invalidToken"))
          _ (rw (j, take) at e) in
      rw (← (stay_inj k))
        (inserted (record { id = jti; used_at = now; expires_at = t.exp * 1000 }) (eq_refl jti))
    where
      inserted :
          (x : UsedToken)
          → has_used_id jti x ≡ true
          → is_some (used.find_one (has_used_id jti) (used.insert_one x s.in_used)) ≡ true
      inserted x h =
          ap is_some (used.find_one_lem _ _)
          ∙ sym (any-eq-is_some-find (has_used_id jti) _)
          ∙ ap (any (has_used_id jti)) (used.docs-insert_one x s.in_used)
          ∙ any-last (has_used_id jti) (used.docs s.in_used) x h

  take-used :
      (now : ℕ) (t : CallbackToken) (s : CallbackStores env storage used relays) (jti : String)
      → or_null t.cb_jti ≡ some jti
      → is_used jti s ≡ true
      → take env storage used relays now t s ≡ leave (redirect_error "invalidToken")
  take-used now t s jti j h = rw (j, take) (rw h refl)

  take_token-leaves :
      (now : ℕ) (id_token : Option String) (s : CallbackStores env storage used relays)
      (text jti : String) (t : CallbackToken)
      → or_null id_token ≡ some text
      → env.verify text ≡ some t
      → or_null t.cb_jti ≡ some jti
      → is_used jti s ≡ true
      → take_token env storage used relays now id_token s ≡ leave (redirect_error "invalidToken")
  unfolding take_token
  take_token-leaves now id_token s text jti t given checks_out j h = rw given (
      rw checks_out (elim (Bool-cases (not t.temporary || truthy t.action)) [
        | inl b ↦ rw b refl
        | inr b ↦ rw b (rw (take-used now t s jti j h) refl)
      ]))

  token_callback-is_used :
      (may : Bool) (nanoid : String) (now : ℕ) (q : CallbackQuery)
      (s s1 : CallbackStores env storage used relays) (o : Opened) (text jti : String)
      (t : CallbackToken)
      → or_null q.id_token ≡ some text
      → env.verify text ≡ some t
      → or_null t.cb_jti ≡ some jti
      → token_callback env storage used relays may nanoid now q s ≡ (s1, stay o)
      → is_used jti s1 ≡ true
  unfolding token_callback take_token
  token_callback-is_used may nanoid now q s s1 o text jti t given checks_out j e =
      let (t', s', taken, _, w) =
        token_callback-stay env storage used relays may nanoid now q s s1 o e in
      let (text', given', checks_out', _, kept) =
        take_token-stay env storage used relays now q.id_token s s' t' taken in
      let same_text : text' ≡ text = some_inj text' text (sym given' ∙ given) in
      let same : t' ≡ t = some_inj t' t (sym checks_out' ∙ ap env.verify same_text ∙ checks_out) in
      rw w (
        moved (or_null t'.idp_login) s' (
          take-is_used now t' s s' jti (ap (λ (x : CallbackToken). or_null x.cb_jti) same ∙ j)
            kept))
    where
      moved :
          (id : Option String) (s' : CallbackStores env storage used relays)
          → is_used jti s' ≡ true
          → is_used jti (move_id_token env storage used relays id s') ≡ true
      moved none s' h = h
      moved (some id) s' h = h

  -- The link of a redirection opens one session: after a callback that opened a session with a token
  -- that is single use, every later callback with that token is refused, also while it is valid.
  pub token_callback_twice :
      (may may' : Bool) (nanoid nanoid' : String) (now later : ℕ) (q q' : CallbackQuery)
      (s s1 : CallbackStores env storage used relays) (o : Opened) (text jti : String)
      (t : CallbackToken)
      → or_null q.id_token ≡ some text
      → env.verify text ≡ some t
      → or_null t.cb_jti ≡ some jti
      → token_callback env storage used relays may nanoid now q s ≡ (s1, stay o)
      → q'.id_token ≡ q.id_token
      → token_callback env storage used relays may' nanoid' later q' s1
        ≡ (s1, leave (redirect_error "invalidToken"))
  unfolding token_callback
  token_callback_twice may may' nanoid nanoid' now later q q' s s1 o text jti t given checks_out j e
        same =
      rw
        (take_token-leaves later q'.id_token s1 text jti t (rw same given) checks_out j
          (token_callback-is_used may nanoid now q s s1 o text jti t given checks_out j e))
        refl
