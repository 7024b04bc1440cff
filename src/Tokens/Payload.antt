-- ===== src/Tokens/Payload.antt =====
-- Which organization a token marks as the default one, and which one becomes active.
use simple_directory.Common.{
  All, Bool, Bool-cases, List, Option, Option-cases, String, [], any, any-eq-is_some-find, ap,
  false, filter, find, find_passes, head?, if◌then◌else◌, includes, inl, inr, is_some, length, map,
  none, not, refl, some, some_inj, suc, true, truthy, update_first, ℕ, ◌&&◌, ◌==◌, ◌||◌, ◌∷◌, ◌≡◌,
  ◌⊎◌, nat_eq, option_eq, string_eq,
}
use mathlib.Core.Path.{subst}
use simple_directory.Types.{Membership, User}
use simple_directory.Tokens.{
  OrgRequest, Owner, TokenConfig, TokenOrg, default_org, first_org, get_default_user_org,
  get_token_payload, is_default, is_default_org, is_of_owner, is_requested, or_else, requested_org,
  site_org,
}

-- Who is an administrator in a session: a human who is one by the record, or whom the settings name
-- where they allow administrators on sites.
abbrev pub is_session_admin : (String → String) → TokenConfig → User → Bool
is_session_admin lower cfg user =
    not (is_some user.nhi)
    && (user.is_admin
        || cfg.admin_mode_on_sites
          && (includes cfg.admins (lower user.email) || user.id == "_superadmin"))

abbrev count_default : List TokenOrg → ℕ
count_default l = length (filter (λ o. o.dflt) l)

abbrev unmarked : List Membership → List TokenOrg
unmarked l = map (λ o. record { membership = o; dflt = false }) l

count_unmarked : (l : List Membership) → count_default (unmarked l) ≡ 0
count_unmarked [] = refl
count_unmarked (o ∷ l) = count_unmarked l

abbrev mark : (Membership → Bool) → List TokenOrg → List TokenOrg
mark p l = update_first (λ o. p o.membership) (λ o. record o { dflt = true }) l

memberships-mark :
    (p : Membership → Bool) (l : List Membership)
    → map (λ (o : TokenOrg). o.membership) (mark p (unmarked l)) ≡ l
memberships-mark p [] = refl
memberships-mark p (o ∷ l) = elim (Bool-cases (p o)) [
  | inl b ↦ rw b (ap (λ t. o ∷ t) (memberships-unmarked l))
  | inr b ↦ rw b (ap (λ t. o ∷ t) (memberships-mark p l))
]
  where
    memberships-unmarked :
        (k : List Membership) → map (λ (o : TokenOrg). o.membership) (unmarked k) ≡ k
    memberships-unmarked [] = refl
    memberships-unmarked (x ∷ k) = ap (λ t. x ∷ t) (memberships-unmarked k)

count-mark :
    (p : Membership → Bool) (l : List Membership)
    → count_default (mark p (unmarked l)) ≡ (if any p l then 1 else 0)
count-mark p [] = refl
count-mark p (o ∷ l) = elim (Bool-cases (p o)) [
  | inl b ↦ rw b (ap suc (count_unmarked l))
  | inr b ↦ rw b (count-mark p l)
]

memberships-unmarked : (l : List Membership) → map (λ (o : TokenOrg). o.membership) (unmarked l) ≡ l
memberships-unmarked [] = refl
memberships-unmarked (o ∷ l) = ap (λ t. o ∷ t) (memberships-unmarked l)

-- A token lists the memberships of the user as they are, and marks one of them as the default, or
-- none: one exactly if the settings name an organization (and a department) that the user is a
-- member of. The token of an identity that is not human never gives administration rights.
pub get_token_payload-organizations :
    (lower : String → String) (cfg : TokenConfig) (user : User) (owner : Option Owner)
    → (map (λ (o : TokenOrg). o.membership) (get_token_payload lower cfg user owner).organizations
        ≡ user.organizations)
      × (length (filter (λ o. o.dflt) (get_token_payload lower cfg user owner).organizations)
          ≡ (if truthy user.default_org && any (is_default user) user.organizations then 1 else 0))
      × (is_some user.nhi ≡ true → (get_token_payload lower cfg user owner).is_admin ≡ false)
unfolding get_token_payload
get_token_payload-organizations lower cfg user owner = elim (Bool-cases (truthy user.default_org)) [
  | inl b ↦ (
    rw b (memberships-mark (is_default user) user.organizations),
    rw b (count-mark (is_default user) user.organizations),
    λ nhi. rw nhi refl,
  )
  | inr b ↦ (
    rw b (memberships-unmarked user.organizations),
    rw b (count_unmarked user.organizations),
    λ nhi. rw nhi refl,
  )
]

or_else-cases :
    (a b : Option Membership) (o : Membership) → or_else a b ≡ some o → (a ≡ some o) ⊎ (b ≡ some o)
or_else-cases none b o e = inr e
or_else-cases (some x) b o e = inl e

All-find :
    (P : Membership → Type 0) (p : Membership → Bool) (l : List Membership) (o : Membership)
    → All P l
    → find p l ≡ some o
    → P o
All-find P p [] o h e = cc
All-find P p (x ∷ l) o (h, hs) e = elim (Bool-cases (p x)) [
  | inl b ↦ subst P (some_inj x o (rw b at e)) h
  | inr b ↦ All-find P p l o hs (rw b at e)
]

All-find_if :
    (P : Membership → Type 0) (c : Bool) (p : Membership → Bool) (l : List Membership)
    (o : Membership)
    → All P l
    → (if c then find p l else none) ≡ some o
    → P o
All-find_if P true p l o h e = All-find P p l o h e
All-find_if P false p l o h e = cc

All-site_org :
    (P : Membership → Type 0) (site : Option Owner) (l : List Membership) (o : Membership)
    → All P l
    → site_org site l ≡ some o
    → P o
All-site_org P none l o h e = cc
All-site_org P (some owner) l o h e =
    All-find_if P owner.is_organization (is_of_owner owner) l o h e

All-head :
    (P : Membership → Type 0) (c : Bool) (l : List Membership) (o : Membership)
    → All P l
    → (if c then head? l else none) ≡ some o
    → P o
All-head P true [] o h e = cc
All-head P true (x ∷ l) o (h, hs) e = subst P (some_inj x o e) h
All-head P false l o h e = cc

-- The organization that becomes active is always one that the user is a member of, whatever the
-- request, the site and the settings say; and it is the requested one, if the user is a member of
-- the requested organization, department and role.
pub get_default_user_org-All :
    (P : Membership → Type 0) (user : User) (site : Option Owner) (r : OrgRequest) (o : Membership)
    → All P user.organizations
    → get_default_user_org user site r ≡ some o
    → P o
      × (truthy r.org ≡ true
          → any (is_requested r) user.organizations ≡ true
          → is_requested r o ≡ true)
unfolding get_default_user_org
get_default_user_org-All P user site r o h e = (chosen, wanted)
  where
    chosen : P o
    chosen = elim (or_else-cases (requested_org r user.organizations) _ o e) [
      | inl a ↦ All-find_if P (truthy r.org) (is_requested r) user.organizations o h a
      | inr b ↦ elim (or_else-cases (site_org site user.organizations) _ o b) [
        | inl a ↦ All-site_org P site user.organizations o h a
        | inr c ↦ elim (or_else-cases (default_org user) (first_org user) o c) [
          | inl a ↦
              All-find_if P (truthy user.default_org) (is_default_org user) user.organizations o h a
          | inr d ↦ All-head P user.ignore_personal_account user.organizations o h d
        ]
      ]
    ]

    wanted :
        truthy r.org ≡ true
        → any (is_requested r) user.organizations ≡ true
        → is_requested r o ≡ true
    wanted asked member = elim (Option-cases (find (is_requested r) user.organizations)) [
      | inl absent ↦ cc (member, any-eq-is_some-find (is_requested r) user.organizations, absent)
      | inr (x, found) ↦
          let same : some x ≡ some o = rw (asked, found) at e in
          rw (← (some_inj x o same)) (find_passes (is_requested r) user.organizations x found)
    ]
