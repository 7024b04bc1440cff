-- ===== src/OauthTokens/Last.antt =====
-- The token of a user at an identity provider, through the writes of other tokens.
use text.Mathlib.TextEquality.{eq_iff}
use simple_directory.Common.{
  All, Bool, Bool-cases, List, Option, String, [], and_split, ap, arith, false, find, inl, inr,
  is_some, none, not, option_beq_iff, refl, some, sym, true, ◌&&◌, ◌==◌, ◌||◌, ◌∙◌, ◌∷◌, ◌≡◌,
  nat_eq, option_eq, string_eq,
}
use simple_directory.Collection.{
  Collection, find-append_other, find-remove_first_other, find_one-update_one_other,
}
use simple_directory.OauthTokens.{
  OauthToken, drop_legacy, find_one-write_oauth_token, is_token_of, or_legacy, read_oauth_token,
  replace_token, write_oauth_token,
}

-- A write of `u` leaves the token `t` alone: it is of another user or another provider, or of another
-- site where `t` has one. A token without a site goes with any token of its user and provider.
abbrev pub leaves : OauthToken → OauthToken → Bool
leaves t u = not (
    u.user_id == t.user_id
    && u.provider_id == t.provider_id
    && (u.site == t.site || not (is_some t.site)))

abbrev key_of : OauthToken → OauthToken → Bool
key_of t = is_token_of t.user_id t.provider_id t.site

-- a document with the user and the provider of `u`, and a site of its own
same_key :
    (t u d : OauthToken) (at_site : Option String)
    → is_token_of u.user_id u.provider_id at_site d ≡ true
    → (u.user_id == t.user_id && u.provider_id == t.provider_id && at_site == t.site) ≡ false
    → key_of t d ≡ false
same_key t u d at_site h other =
    let (both, site) =
      and_split (d.user_id == u.user_id && d.provider_id == u.provider_id) (d.site == at_site) h in
    let (user, provider) =
      and_split (d.user_id == u.user_id) (d.provider_id == u.provider_id) both in
    rw
      (
        (eq_iff d.user_id u.user_id).0 user,
        (eq_iff d.provider_id u.provider_id).0 provider,
        (option_beq_iff d.site at_site).0 site,
      )
      other

leaves-other :
    (t u : OauthToken)
    → leaves t u ≡ true
    → (u.user_id == t.user_id && u.provider_id == t.provider_id && u.site == t.site) ≡ false
leaves-other t u h =
    off (u.user_id == t.user_id) (u.provider_id == t.provider_id) (u.site == t.site) _ h
  where
    off : (a b c d : Bool) → not (a && b && (c || d)) ≡ true → (a && b && c) ≡ false
    off a b c d k = ground arith

leaves-legacy :
    (t u : OauthToken)
    → leaves t u ≡ true
    → (u.user_id == t.user_id && u.provider_id == t.provider_id && none == t.site) ≡ false
leaves-legacy t u h = by_site t.site (ground arith)
  where
    by_site :
        (site : Option String)
        → not (u.user_id == t.user_id && u.provider_id == t.provider_id && not (is_some site))
          ≡ true
        → (u.user_id == t.user_id && u.provider_id == t.provider_id && none == site) ≡ false
    by_site none k = ground arith
    by_site (some x) k = ground arith

module _ (tokens : Collection OauthToken) where
  replace_token-other :
      (p q : OauthToken → Bool) (u : OauthToken) (s : tokens.Store)
      → ((d : OauthToken) → p d ≡ true → q d ≡ false)
      → q u ≡ false
      → tokens.find_one q (replace_token tokens p u s) ≡ tokens.find_one q s
  unfolding replace_token
  replace_token-other p q u s apart off = elim (Bool-cases (is_some (tokens.find_one p s))) [
    | inl b ↦ rw b (find_one-update_one_other tokens p q (λ _. u) s (λ d h. (apart d h, off)))
    | inr b ↦ rw b (
        tokens.find_one_lem q (tokens.insert_one u s)
        ∙ ap (find q) (tokens.docs-insert_one u s)
        ∙ find-append_other q u (tokens.docs s) off
        ∙ sym (tokens.find_one_lem q s))
  ]

  drop_legacy-other :
      (q : OauthToken → Bool) (user provider : String) (at_site : Option String) (s : tokens.Store)
      → ((d : OauthToken) → is_token_of user provider none d ≡ true → q d ≡ false)
      → tokens.find_one q (drop_legacy tokens user provider at_site s) ≡ tokens.find_one q s
  drop_legacy-other q user provider none s apart = refl
  drop_legacy-other q user provider (some x) s apart =
      tokens.find_one_lem q (tokens.delete_one (is_token_of user provider none) s)
      ∙ ap (find q) (tokens.docs-delete_one (is_token_of user provider none) s)
      ∙ find-remove_first_other (is_token_of user provider none) q (tokens.docs s) apart
      ∙ sym (tokens.find_one_lem q s)

  write_oauth_token-other :
      (t u : OauthToken) (s : tokens.Store)
      → leaves t u ≡ true
      → tokens.find_one (key_of t) (write_oauth_token tokens u s) ≡ tokens.find_one (key_of t) s
  unfolding write_oauth_token
  write_oauth_token-other t u s h =
      drop_legacy-other (key_of t) u.user_id u.provider_id u.site
        (replace_token tokens (key_of u) u s) (λ d k. same_key t u d none k (leaves-legacy t u h))
      ∙ replace_token-other (key_of u) (key_of t) u s
          (λ d k. same_key t u d u.site k (leaves-other t u h)) (leaves-other t u h)

  -- a sequence of logins, each of which writes its token
  pub write_all : List OauthToken → tokens.Store → tokens.Store
  write_all [] s = s
  write_all (u ∷ us) s = write_all us (write_oauth_token tokens u s)

  write_all-other :
      (t : OauthToken) (us : List OauthToken) (s : tokens.Store)
      → All (λ u. leaves t u ≡ true) us
      → tokens.find_one (key_of t) (write_all us s) ≡ tokens.find_one (key_of t) s
  unfolding write_all
  write_all-other t [] s h = refl
  write_all-other t (u ∷ us) s (h, hs) =
      write_all-other t us (write_oauth_token tokens u s) hs ∙ write_oauth_token-other t u s h

  -- The token that was written last for a user, a provider and a site is the one that is read there,
  -- also after any writes of tokens for other users, providers and sites. A token without a site is
  -- dropped by a write for its user and provider at a site, so that none of these may come later.
  pub read_oauth_token-write_all :
      (t : OauthToken) (us : List OauthToken) (s : tokens.Store)
      → All (λ u. leaves t u ≡ true) us
      → read_oauth_token tokens t.user_id t.provider_id t.site
          (write_all us (write_oauth_token tokens t s))
        ≡ some t
  unfolding read_oauth_token
  read_oauth_token-write_all t us s h = ap (or_legacy tokens t.user_id t.provider_id t.site _) (
      write_all-other t us (write_oauth_token tokens t s) h ∙ find_one-write_oauth_token tokens t s)
