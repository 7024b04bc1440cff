-- ===== src/Nhis/Exchange.antt =====
-- The token exchange of non-human identities: api/src/nhis/exchange.ts, with the ownership of sites
-- of api/src/oauth-server/issuers.ts.
use text.Mathlib.TextEquality.{eq_iff}
use mathlib.Core.Path.{subst}
use simple_directory.Members.{has_user_id}
use simple_directory.Common.{
  >>=-eq-ok, Bool, List, Option, Result, String, [], and_split, ap, arith, false, find_passes,
  if◌then◌else◌, is_some, leb, none, not, ok, ok_inj, or_throw, or_throw-ok, some, some_inj, sym,
  throw_if, throw_if-ok, true, truthy, ℕ, ◌&&◌, ◌+◌, ◌/◌, ◌==◌, ◌>>=◌, ◌>>◌, ◌||◌, ◌∙◌, ◌∷◌, ◌≡◌,
  ◌≢◌, nat_eq, option_eq, string_eq,
}
use simple_directory.Types.{Membership, Nhi, User}
use simple_directory.Collection.{Collection}
use simple_directory.Sites.{Site}
use simple_directory.Tokens.{is_of_owner}

-- siteOwnedByNhiOrg
pub site_owned_by_nhi_org : Site → Membership → Bool
site_owned_by_nhi_org s o = s.owner.is_organization && is_of_owner s.owner o

abbrev pub target_is_owned : Option Site → Membership → Bool
target_is_owned none o = true
target_is_owned (some s) o = site_owned_by_nhi_org s o

-- nhiMayTarget, where the membership is undefined too
unfoldable pub nhi_may_target : Option Membership → Option Site → Bool
nhi_may_target o none = true
nhi_may_target none (some s) = false
nhi_may_target (some o) (some s) = site_owned_by_nhi_org s o

-- `allowedIps?.length && !ipAllowed(…)`; `ip_allowed` is node's BlockList
abbrev pub ip_is_refused : (String → List String → Bool) → String → Option (List String) → Bool
ip_is_refused ip_allowed ip none = false
ip_is_refused ip_allowed ip (some []) = false
ip_is_refused ip_allowed ip (some (a ∷ l)) = not (ip_allowed ip (a ∷ l))

abbrev pub only_membership : List Membership → Option Membership
only_membership [] = none
only_membership (o ∷ []) = some o
only_membership (_ ∷ _ ∷ _) = none

-- `!user.nhi.provider || !user.nhi.subject`
abbrev pub is_unbound : Nhi → Bool
is_unbound n = not (is_some n.provider) || not (truthy n.subject)

owner_of :
    (t : Site) (o : Membership)
    → site_owned_by_nhi_org t o ≡ true
    → (o.id ≡ t.owner.id) × (t.owner.is_organization ≡ true)
unfolding site_owned_by_nhi_org
owner_of t o h =
    let (org, is_of) = and_split t.owner.is_organization (is_of_owner t.owner o) h in
    ((eq_iff o.id t.owner.id).0 (and_split (o.id == t.owner.id) _ is_of).0, org)

-- a NhiExchangeError, which the callers answer with a 401
module _ (users : Collection User) (ip_allowed : String → List String → Bool) where
  unfoldable pub load_exchange_nhi : String → Option Site → String → users.Store → Result User
  load_exchange_nhi client_id target ip s = do
    user ← or_throw (users.find_one (has_user_id client_id) s) 401
    n ← or_throw user.nhi 401
    o ← or_throw (only_membership user.organizations) 401
    throw_if (is_unbound n) 401
    throw_if (not (target_is_owned target o)) 401
    throw_if (ip_is_refused ip_allowed ip n.allowed_ips) 401
    ok user

  -- An identity is loaded for an exchange only if it is stored under the client id, is not human,
  -- has a whole key binding and one membership, whose organization owns the target site, if any, and
  -- asks from an address that it allows, if it allows any.
  pub load_exchange_nhi-owned :
      (client_id ip : String) (target : Option Site) (s : users.Store) (u : User)
      → load_exchange_nhi client_id target ip s ≡ ok u
      → (u.id ≡ client_id)
        × (n : Nhi) × (o : Membership) × (u.nhi ≡ some n)
        × (is_some n.provider && truthy n.subject ≡ true)
        × (u.organizations ≡ o ∷ [])
        × ((t : Site) → target ≡ some t → (o.id ≡ t.owner.id) × (t.owner.is_organization ≡ true))
        × ((l : List String) → n.allowed_ips ≡ some l → l ≢ [] → ip_allowed ip l ≡ true)
  unfolding load_exchange_nhi
  load_exchange_nhi-owned client_id ip target s u e =
      let (user, found, e1) =
        >>=-eq-ok (or_throw (users.find_one (has_user_id client_id) s) 401) _ e in
      let (n, nhi, e2) = >>=-eq-ok (or_throw user.nhi 401) _ e1 in
      let (o, only, e3) = >>=-eq-ok (or_throw (only_membership user.organizations) 401) _ e2 in
      let (_, bound, e4) = >>=-eq-ok (throw_if (is_unbound n) 401) _ e3 in
      let (_, owned, e5) = >>=-eq-ok (throw_if (not (target_is_owned target o)) 401) _ e4 in
      let (_, near, e6) =
        >>=-eq-ok (throw_if (ip_is_refused ip_allowed ip n.allowed_ips) 401) _ e5 in
      let same : user ≡ u = ok_inj e6 in
      (
        sym (ap (λ v. v.id) same)
            ∙ (eq_iff user.id client_id).0 (
                find_passes (has_user_id client_id) (users.docs s) user (
                  sym (users.find_one_lem (has_user_id client_id) s)
                  ∙ or_throw-ok (users.find_one (has_user_id client_id) s) 401 found)),
        n,
        o,
        sym (ap (λ v. v.nhi) same) ∙ or_throw-ok user.nhi 401 nhi,
        whole (is_some n.provider) (truthy n.subject) (throw_if-ok (is_unbound n) 401 bound),
        sym (ap (λ v. v.organizations) same)
            ∙ alone user.organizations o
                (or_throw-ok (only_membership user.organizations) 401 only),
        target_owner target o (throw_if-ok (not (target_is_owned target o)) 401 owned),
        allowed n.allowed_ips (throw_if-ok (ip_is_refused ip_allowed ip n.allowed_ips) 401 near),
      )
    where
      whole : (p q : Bool) → (not p || not q) ≡ false → (p && q) ≡ true
      whole p q h = ground arith

      alone : (l : List Membership) (o : Membership) → only_membership l ≡ some o → l ≡ o ∷ []
      alone [] o h = cc
      alone (x ∷ []) o h = ap (λ m. m ∷ []) (some_inj x o h)
      alone (x ∷ y ∷ l) o h = cc

      target_owner :
          (target : Option Site) (o : Membership)
          → not (target_is_owned target o) ≡ false
          → (t : Site) → target ≡ some t
          → (o.id ≡ t.owner.id) × (t.owner.is_organization ≡ true)
      target_owner none o h t k = cc
      target_owner (some x) o h t k =
          subst (λ y. (o.id ≡ y.owner.id) × (y.owner.is_organization ≡ true)) (some_inj x t k)
            (owner_of x o (ground arith))

      allowed :
          (ips : Option (List String))
          → ip_is_refused ip_allowed ip ips ≡ false
          → (l : List String) → ips ≡ some l
          → l ≢ []
          → ip_allowed ip l ≡ true
      allowed none h l k ne = cc
      allowed (some []) h l k ne = absurd (ne (sym (some_inj [] l k)))
      allowed (some (a ∷ rest)) h l k ne =
          subst (λ m. ip_allowed ip m ≡ true) (some_inj (a ∷ rest) l k) (ground arith)

-- the expiry of the session: the one of the assertion, and never later than the duration allows
pub exchange_session_exp : ℕ → ℕ → ℕ → ℕ
exchange_session_exp assertion_exp now nhi_token =
    if leb assertion_exp (now / 1000 + nhi_token) then assertion_exp else now / 1000 + nhi_token
