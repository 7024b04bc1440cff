-- ===== src/Subjects/Issued.antt =====
-- What a token that is issued on a grant can give.
use text.Mathlib.TextEquality.{eq_iff}
use mathlib.Core.Path.{subst}
use simple_directory.Issuers.{IssuerContext, resolve_resource}
use simple_directory.Nhis.Scopes.{join_spaces}
use simple_directory.Nhis.Scopes.Narrow.{narrow_scope_iff, passes}
use simple_directory.Common.{
  >>=-eq-ok, Bool, Bool-cases, List, Option, String, [], all, all_intro, arith, false, find,
  find_passes, includes, inl, inr, is_some, leb, none, not, ok, ok_inj, or_split, or_throw,
  or_throw-ok, refl, some, split_on, sym, throw_if, throw_if-ok, true, ℕ, ◌&&◌, ◌<◌, ◌==◌, ◌||◌,
  ◌∙◌, ◌∷◌, ◌≡◌, ◌⊎◌, nat_eq, option_eq, string_eq,
}
use simple_directory.Types.{Nhi, User}
use simple_directory.Grants.{GrantAccount, GrantRecord}
use simple_directory.Sites.{same_bool}
use simple_directory.Tokens.{TokenOrg}
use simple_directory.Subjects.{
  GrantSubject, SubjectEnv, bound_orgs, check_authorizer, check_grant_subject, is_admin_account,
  is_bound_org, is_site_kind, narrowed_scope, only_resource, sd_claims, subject_max,
}

-- the organizations of a token: the bound membership and no other, or none
abbrev pub IsBound : User → GrantAccount → List TokenOrg → Type 0
IsBound user account l =
    ((account.is_organization ≡ true)
      × ((o : TokenOrg) × (l ≡ o ∷ []) × (is_bound_org account o ≡ true)))
    ⊎ ((account.is_organization ≡ false) × (l ≡ []) × (user.nhi ≡ none) × (account.id ≡ user.id))

bound_orgs-IsBound :
    (user : User) (account : GrantAccount) (l l' : List TokenOrg)
    → bound_orgs user account l ≡ ok l'
    → IsBound user account l'
unfolding bound_orgs
bound_orgs-IsBound user account l l' e = elim (Bool-cases account.is_organization) [
  | inl org ↦
      let (o, found, e') =
        >>=-eq-ok (or_throw (find (is_bound_org account) l) 400) _ (rw org at e) in
      inl (
        org,
        (
          o,
          sym (ok_inj e'),
          find_passes (is_bound_org account) l o
              (or_throw-ok (find (is_bound_org account) l) 400 found),
        ),
      )
  | inr personal ↦
      let (_, fine, e') =
        >>=-eq-ok (throw_if (is_some user.nhi || not (account.id == user.id)) 400) _
          (rw personal at e) in
      let (human, own) =
        or_split (is_some user.nhi) (not (account.id == user.id))
          (throw_if-ok (is_some user.nhi || not (account.id == user.id)) 400 fine) in
      inr (
        personal,
        sym (ok_inj e'),
        no_nhi user.nhi human,
        (eq_iff account.id user.id).0 (ground (arith, own)),
      )
]
  where
    no_nhi : (n : Option Nhi) → is_some n ≡ false → n ≡ none
    no_nhi none h = refl
    no_nhi (some n) h = cc

module _ (env : SubjectEnv) where
  -- a scope that was granted and that the maximum covers
  abbrev pub is_within : GrantRecord → Option (List String) → String → Bool
  is_within r max s =
      includes (split_on b' ' r.scope) s && passes env.scope_lib max env.known_scopes s

  -- what holds of a token that is issued
  abbrev pub IsIssued : ℕ → GrantRecord → IssuerContext → String → GrantSubject → Type 0
  IsIssued now r ctx ip g =
      (now < r.expires_at)
      × (r.issuer ≡ ctx.issuer)
      × (env.get_user r.subject_id ≡ some g.user)
      × ((max : Option (List String)) × (subject_max env r ctx ip g.resource g.user.organizations
              g.user.nhi
            ≡ ok max)
          × (g.scope ≡ join_spaces (narrowed_scope env r max))
          × ((g.scope == "") ≡ false)
          × (all (is_within r max) (narrowed_scope env r max) ≡ true))
      × IsBound g.user r.account g.claims.organizations
      × (g.claims.is_admin ≡ false)
      × (g.claims.admin_mode ≡ false)
      × ((not (is_some g.user.nhi)
            || is_admin_account env (env.get_user r.authorized_by) r.account.id)
          ≡ true)

  narrowed_scope-is_within :
      (r : GrantRecord) (max : Option (List String))
      → all (is_within r max) (narrowed_scope env r max) ≡ true
  unfolding narrowed_scope
  narrowed_scope-is_within r max = all_intro (is_within r max) (narrowed_scope env r max) (λ s h.
      sym (narrow_scope_iff env.scope_lib max env.known_scopes (split_on b' ' r.scope) s) ∙ h)

  authorized :
      (r : GrantRecord) (n : Option Nhi)
      → check_authorizer env r n ≡ ok tt
      → (not (is_some n) || is_admin_account env (env.get_user r.authorized_by) r.account.id) ≡ true
  authorized r none e = refl
  authorized r (some n) e =
      let kept =
        throw_if-ok (not (is_admin_account env (env.get_user r.authorized_by) r.account.id)) 400
          e in
      ground (arith, kept)

  negated : (p : Bool) → not p ≡ false → p ≡ true
  negated p h = ground arith

  later : (n m : ℕ) → leb n m ≡ false → m < n
  later n m h = ground arith

  -- A token is issued on a grant only by its issuer, as long as the grant lasts and its subject
  -- exists. Its scope is not empty and holds only scopes that were granted, and that the maximum of
  -- the identity or of the client covers (without one, that are known). It names no organization but
  -- the bound one, and it gives no administration rights. When the subject is an identity that is not
  -- human, the user who authorized the client still administers the organization of the grant.
  pub check_grant_subject-IsIssued :
      (now : ℕ) (r : GrantRecord) (ctx : IssuerContext) (ip : String) (g : GrantSubject)
      → check_grant_subject env now r ctx ip ≡ ok g
      → IsIssued now r ctx ip g
  unfolding check_grant_subject sd_claims
  check_grant_subject-IsIssued now r ctx ip g e =
      let (_, lasts, e1) = >>=-eq-ok (throw_if (leb r.expires_at now) 400) _ e in
      let (_, issuer, e2) = >>=-eq-ok (throw_if (not (r.issuer == ctx.issuer)) 400) _ e1 in
      let (_, _, e3) =
        >>=-eq-ok (throw_if (same_bool r.subject_is_nhi (is_site_kind r.client_kind)) 400) _ e2 in
      let (user, found, e4) = >>=-eq-ok (or_throw (env.get_user r.subject_id) 400) _ e3 in
      let (_, _, e5) =
        >>=-eq-ok (throw_if (not (same_bool (is_some user.nhi) r.subject_is_nhi)) 400) _ e4 in
      let (uri, _, e6) = >>=-eq-ok (or_throw (only_resource r.resources) 400) _ e5 in
      let (resource, _, e7) = >>=-eq-ok (resolve_resource env.issuers ctx (some uri)) _ e6 in
      let (max, within, e8) =
        >>=-eq-ok (subject_max env r ctx ip resource user.organizations user.nhi) _ e7 in
      let (_, full, e9) =
        >>=-eq-ok (throw_if (join_spaces (narrowed_scope env r max) == "") 400) _ e8 in
      let (orgs, bound, e10) = >>=-eq-ok (bound_orgs user r.account _) _ e9 in
      let (_, authorizer, e11) = >>=-eq-ok (check_authorizer env r user.nhi) _ e10 in
      subst (IsIssued now r ctx ip) (ok_inj e11) (
        later r.expires_at now (throw_if-ok (leb r.expires_at now) 400 lasts),
        (eq_iff r.issuer ctx.issuer).0 (
            negated (r.issuer == ctx.issuer)
              (throw_if-ok (not (r.issuer == ctx.issuer)) 400 issuer)),
        or_throw-ok (env.get_user r.subject_id) 400 found,
        (
          max,
          within,
          refl,
          throw_if-ok (join_spaces (narrowed_scope env r max) == "") 400 full,
          narrowed_scope-is_within r max,
        ),
        bound_orgs-IsBound user r.account _ orgs bound,
        refl,
        refl,
        authorized r user.nhi authorizer,
      )
