-- ===== src/OauthTokens.antt =====
-- The tokens that identity providers gave for the users: api/src/oauth-tokens/service.ts.
pub mod Last
mod Tests
use mathlib.Core.Option
use text.Mathlib.TextPositions.{eq_refl}
use simple_directory.Common.{
  Bool, Bool-cases, List, Option, Option-cases, String, [], and_split, ap, arith, false, find,
  if◌then◌else◌, inl, inr, is_some, none, option_beq_iff, or_null, refl, some, sym, true, ℕ, ◌&&◌,
  ◌++◌, ◌==◌, ◌||◌, ◌∙◌, ◌∷◌, ◌≡◌, nat_eq, option_eq, string_eq,
}
use simple_directory.Collection.{Collection, find-remove_first_other, find_one-update_one_self}

-- OAuthToken; `site` is null for a token of the main site and for those of before sites
pub record OauthToken : Type 0 where
  pub user_id : String
  pub provider_id : String
  pub site : Option String
  pub token : String
  pub offline_refresh_token : Bool
  pub logged_out : Option ℕ
  pub session_state : Option String
  pub sid : Option String
  pub sub : Option String

-- the filter of the user, the provider and the site
abbrev pub is_token_of : String → String → Option String → OauthToken → Bool
is_token_of user provider at_site t =
    t.user_id == user && t.provider_id == provider && t.site == at_site

abbrev pub is_provider_of : String → Option String → OauthToken → Bool
is_provider_of provider at_site t = t.provider_id == provider && t.site == at_site

-- the filter of the back-channel logout: none without a session nor a subject
abbrev pub logout_filter :
    String → Option String → Option String → Option String → Option (OauthToken → Bool)
logout_filter provider at_site (some sid) sub =
    some
      (λ t. is_provider_of provider at_site t && (t.sid == some sid || t.session_state == some sid))
logout_filter provider at_site none (some sub) =
    some (λ t. is_provider_of provider at_site t && t.sub == some sub)
logout_filter provider at_site none none = none

abbrev pub log_out : ℕ → OauthToken → OauthToken
log_out now t = record t { logged_out = some now }

module _ (tokens : Collection OauthToken) where
  -- `replaceOne` with `upsert`
  pub replace_token : (OauthToken → Bool) → OauthToken → tokens.Store → tokens.Store
  replace_token p t s =
      if is_some (tokens.find_one p s)
      then tokens.update_one p (λ _. t) s
      else tokens.insert_one t s

  -- a token without a site is dropped once there is one with a site
  abbrev pub drop_legacy : String → String → Option String → tokens.Store → tokens.Store
  drop_legacy user provider none s = s
  drop_legacy user provider (some _) s = tokens.delete_one (is_token_of user provider none) s

  pub write_oauth_token : OauthToken → tokens.Store → tokens.Store
  write_oauth_token t s =
      drop_legacy t.user_id t.provider_id t.site
        (replace_token (is_token_of t.user_id t.provider_id t.site) t s)

  abbrev pub or_legacy :
      String → String → Option String → tokens.Store → Option OauthToken → Option OauthToken
  or_legacy user provider at_site s (some t) = some t
  or_legacy user provider none s none = none
  or_legacy user provider (some _) s none = tokens.find_one (is_token_of user provider none) s

  pub read_oauth_token : String → String → Option String → tokens.Store → Option OauthToken
  read_oauth_token user provider at_site s =
      or_legacy user provider at_site s (tokens.find_one (is_token_of user provider at_site) s)

  pub delete_oauth_token : String → String → Option String → tokens.Store → tokens.Store
  delete_oauth_token user provider at_site s =
      drop_legacy user provider at_site (tokens.delete_one (is_token_of user provider at_site) s)

  abbrev pub update_matching : ℕ → Option (OauthToken → Bool) → tokens.Store → tokens.Store
  update_matching now none s = s
  update_matching now (some p) s = tokens.update_many p (log_out now) s

  pub logout_oauth_token :
      ℕ → String → Option String → Option String → Option String → tokens.Store → tokens.Store
  logout_oauth_token now provider at_site sid sub s =
      update_matching now (logout_filter provider at_site (or_null sid) (or_null sub)) s

find-append_last :
    (p : OauthToken → Bool) (l : List OauthToken) (t : OauthToken)
    → find p l ≡ none
    → p t ≡ true
    → find p (l ++ t ∷ []) ≡ some t
find-append_last p [] t h e = rw e refl
find-append_last p (x ∷ l) t h e = elim (Bool-cases (p x)) [
  | inl b ↦ cc (rw b at h)
  | inr b ↦ rw b (find-append_last p l t (rw b at h) e)
]

own_key : (t : OauthToken) → is_token_of t.user_id t.provider_id t.site t ≡ true
own_key t = ground (arith, eq_refl t.user_id, eq_refl t.provider_id, option_beq_iff t.site t.site)

module _ (tokens : Collection OauthToken) where
  find_one-replace_token :
      (p : OauthToken → Bool) (t : OauthToken) (s : tokens.Store)
      → p t ≡ true
      → tokens.find_one p (replace_token tokens p t s) ≡ some t
  unfolding replace_token
  find_one-replace_token p t s e = elim (Option-cases (tokens.find_one p s)) [
    | inr (x, found) ↦
        rw found
          (find_one-update_one_self tokens p (λ _. t) s (λ d h. e) ∙ ap (Option.map (λ _. t)) found)
    | inl absent ↦ rw absent (
        tokens.find_one_lem p (tokens.insert_one t s)
        ∙ ap (find p) (tokens.docs-insert_one t s)
        ∙ find-append_last p (tokens.docs s) t (sym (tokens.find_one_lem p s) ∙ absent) e)
  ]

  pub find_one-write_oauth_token :
      (t : OauthToken) (s : tokens.Store)
      → tokens.find_one (is_token_of t.user_id t.provider_id t.site) (write_oauth_token tokens t s)
        ≡ some t
  unfolding write_oauth_token
  find_one-write_oauth_token t s = kept t.site refl
    where
      off : (a b : Bool) → b ≡ false → (a && b) ≡ false
      off a b h = ground arith

      apart :
          (u : OauthToken)
          → (u.site == none) ≡ true
          → (x : String) → some x ≡ t.site
          → is_token_of t.user_id t.provider_id t.site u ≡ false
      apart u h x e =
          off (u.user_id == t.user_id && u.provider_id == t.provider_id) (u.site == t.site)
            (rw ((option_beq_iff u.site none).0 h) (rw (← e) refl))

      kept :
          (at_site : Option String)
          → at_site ≡ t.site
          → tokens.find_one (is_token_of t.user_id t.provider_id t.site) (
              drop_legacy tokens t.user_id t.provider_id at_site
                (replace_token tokens (is_token_of t.user_id t.provider_id t.site) t s))
            ≡ some t
      kept none e = find_one-replace_token _ t s (own_key t)
      kept (some x) e =
          tokens.find_one_lem _ _
          ∙ ap (find _) (tokens.docs-delete_one _ _)
          ∙ find-remove_first_other _ _ _ (λ u h. apart u (and_split _ _ h).1 x e)
          ∙ sym (tokens.find_one_lem _ _)
          ∙ find_one-replace_token _ t s (own_key t)

  -- a token that was just written is read
  pub read_oauth_token-write_oauth_token :
      (t : OauthToken) (s : tokens.Store)
      → read_oauth_token tokens t.user_id t.provider_id t.site (write_oauth_token tokens t s)
        ≡ some t
  unfolding read_oauth_token
  read_oauth_token-write_oauth_token t s =
      ap (or_legacy tokens t.user_id t.provider_id t.site _) (find_one-write_oauth_token t s)
