-- ===== src/Organizations/Rename.antt =====
-- The names that memberships and partners repeat follow the name of the organization.
use text.Mathlib.TextPositions.{eq_refl}
use text.Mathlib.TextEquality.{eq_iff}
use simple_directory.Collection.{Collection}
use simple_directory.Members.{has_org_id, has_user_id, in_org, set_memberships}
use simple_directory.Organizations.{
  OrgStores, OrganizationPatch, changes_labels, has_partner_org, is_member, is_partner_org,
  new_department, patch_organization, patched_org, refresh_each, refresh_members,
  refresh_membership, refresh_partners, refresh_user, relabel, rename_partner, rename_partners,
}
use mathlib.Core.Path.{subst}
use simple_directory.Common.{
  All, Bool, Bool-cases, List, Option, String, [], any, any-filter-false, ap, arith, false, filter,
  if◌then◌else◌, inl, inr, is_some, map, none, option_beq_iff, or_null, or_split, refl, some, sym,
  true, truthy, update_all, update_first, ◌==◌, ◌||◌, ◌∙◌, ◌∷◌, ◌≡◌, nat_eq, option_eq, string_eq,
}
use simple_directory.Types.{Department, Membership, Organization, Partner, User}

-- `_id` is unique in a collection
abbrev pub IsDistinct : List User → Type 0
IsDistinct [] = Unit
IsDistinct (d ∷ l) = (any (λ (e : User). e.id == d.id) l ≡ false) × IsDistinct l

abbrev written : String → OrganizationPatch → User → User → User
written id patch u d = set_memberships (map (refresh_membership id patch) u.organizations) d

abbrev write_each : String → OrganizationPatch → List User → List User → List User
write_each id patch [] l = l
write_each id patch (u ∷ us) l =
    write_each id patch us (update_first (has_user_id u.id) (written id patch u) l)

write_each-skip :
    (id : String) (patch : OrganizationPatch) (us l : List User) (d : User)
    → any (λ (e : User). e.id == d.id) us ≡ false
    → write_each id patch us (d ∷ l) ≡ d ∷ write_each id patch us l
write_each-skip id patch [] l d h = refl
write_each-skip id patch (u ∷ us) l d h =
    let other : (d.id == u.id) ≡ false = ground (arith, eq_iff u.id d.id, eq_iff d.id u.id) in
    ap (write_each id patch us) (rw other refl)
    ∙ write_each-skip id patch us (update_first (has_user_id u.id) (written id patch u) l) d
        (ground arith)

write_each-filter :
    (id : String) (patch : OrganizationPatch) (p : User → Bool) (l : List User)
    → IsDistinct l
    → write_each id patch (filter p l) l ≡ update_all p (refresh_user id patch) l
write_each-filter id patch p [] h = refl
write_each-filter id patch p (d ∷ l) (new, h) = elim (Bool-cases (p d)) [
  | inl b ↦ rw b (
      ap (write_each id patch (filter p l)) (rw (eq_refl d.id) refl)
      ∙ write_each-skip id patch (filter p l) l (refresh_user id patch d)
          (any-filter-false p (λ e. e.id == d.id) l new)
      ∙ ap (λ t. refresh_user id patch d ∷ t) (write_each-filter id patch p l h))
  | inr b ↦ rw b (
      write_each-skip id patch (filter p l) l d (any-filter-false p (λ e. e.id == d.id) l new)
      ∙ ap (λ t. d ∷ t) (write_each-filter id patch p l h))
]

differ : {A : Type 0} (a b : String) → (a == b) ≡ false → a ≡ b → A
differ a b h e = cc ((eq_iff a b).1 e, h)

-- a membership of the organization has its name
abbrev pub IsNamed : String → String → Membership → Type 0
IsNamed id name o = o.id ≡ id → o.name ≡ name

relabel-name : (d : Option Department) (o : Membership) → (relabel d o).name ≡ o.name
relabel-name none o = refl
relabel-name (some d) o = refl

IsNamed-refresh :
    (id name : String) (patch : OrganizationPatch) (o : Membership)
    → patch.name ≡ some name
    → (name == "") ≡ false
    → IsNamed id name (refresh_membership id patch o)
IsNamed-refresh id name patch o e full = elim (Bool-cases (o.id == id)) [
  | inl b ↦
      rw b
        (λ _. relabel-name (new_department patch.departments o.department) _ ∙ rw e (rw full refl))
  | inr b ↦ rw b (λ same. differ o.id id b same)
]

All-refresh :
    (id name : String) (patch : OrganizationPatch) (l : List Membership)
    → patch.name ≡ some name
    → (name == "") ≡ false
    → All (IsNamed id name) (map (refresh_membership id patch) l)
All-refresh id name patch [] e full = tt
All-refresh id name patch (o ∷ l) e full =
    (IsNamed-refresh id name patch o e full, All-refresh id name patch l e full)

All-not_member :
    (id name : String) (l : List Membership) → any (in_org id) l ≡ false → All (IsNamed id name) l
All-not_member id name [] h = tt
All-not_member id name (o ∷ l) h =
    let (a, b) = or_split (o.id == id) (any (in_org id) l) h in
    ((λ same. differ o.id id a same), All-not_member id name l b)

All-refresh_users :
    (id name : String) (patch : OrganizationPatch) (l : List User)
    → patch.name ≡ some name
    → (name == "") ≡ false
    → All
        (λ u. All (IsNamed id name) u.organizations)
        (update_all (is_member id) (refresh_user id patch) l)
All-refresh_users id name patch [] e full = tt
All-refresh_users id name patch (u ∷ l) e full = elim (Bool-cases (is_member id u)) [
  | inl b ↦
      rw b
        (All-refresh id name patch u.organizations e full, All-refresh_users id name patch l e full)
  | inr b ↦
      rw b (All-not_member id name u.organizations b, All-refresh_users id name patch l e full)
]

abbrev pub IsNamedPartner : String → String → Partner → Type 0
IsNamedPartner id name p = p.id ≡ some id → p.name ≡ name

All-renamed :
    (id name : String) (l : List Partner)
    → All (IsNamedPartner id name) (update_all (is_partner_org id) (rename_partner id name) l)
All-renamed id name [] = tt
All-renamed id name (p ∷ l) = elim (Bool-cases (is_partner_org id p)) [
  | inl b ↦ rw b ((λ _. refl), All-renamed id name l)
  | inr b ↦ rw b ((λ same. cc ((option_beq_iff p.id (some id)).1 same, b)), All-renamed id name l)
]

All-not_partner :
    (id name : String) (l : List Partner)
    → any (is_partner_org id) l ≡ false
    → All (IsNamedPartner id name) l
All-not_partner id name [] h = tt
All-not_partner id name (p ∷ l) h =
    let (a, b) = or_split (is_partner_org id p) (any (is_partner_org id) l) h in
    ((λ same. cc ((option_beq_iff p.id (some id)).1 same, a)), All-not_partner id name l b)

All-rename_partners :
    (id name : String) (l : List Organization)
    → All
        (λ o. All (IsNamedPartner id name) o.partners)
        (update_all (has_partner_org id) (rename_partners id name) l)
All-rename_partners id name [] = tt
All-rename_partners id name (o ∷ l) = elim (Bool-cases (has_partner_org id o)) [
  | inl b ↦ rw b (All-renamed id name o.partners, All-rename_partners id name l)
  | inr b ↦ rw b (All-not_partner id name o.partners b, All-rename_partners id name l)
]

module _ (users : Collection User) (orgs : Collection Organization) where
  docs-refresh_each :
      (id : String) (patch : OrganizationPatch) (us : List User) (s : users.Store)
      → users.docs (refresh_each users orgs id patch us s) ≡ write_each id patch us (users.docs s)
  unfolding refresh_each
  docs-refresh_each id patch [] s = refl
  docs-refresh_each id patch (u ∷ us) s =
      docs-refresh_each id patch us _
      ∙ ap (write_each id patch us) (users.docs-update_one (has_user_id u.id) _ s)

  -- A patch that renames an organization renames it in the memberships of all users and in the
  -- partners of all organizations. Users have different ids, and the name is not empty.
  pub patch_organization-IsNamed :
      (id name : String) (patch : OrganizationPatch) (s : OrgStores users orgs)
      → IsDistinct (users.docs s.in_users)
      → patch.name ≡ some name
      → (name == "") ≡ false
      → All
          (λ u. All (IsNamed id name) u.organizations)
          (users.docs (patch_organization users orgs id patch s).in_users)
        × All
            (λ o. All (IsNamedPartner id name) o.partners)
            (orgs.docs (patch_organization users orgs id patch s).in_orgs)
  unfolding patch_organization
  patch_organization-IsNamed id name patch s distinct e full = (
    subst (λ l. All (λ (u : User). All (IsNamed id name) u.organizations) l) (sym in_users)
        (All-refresh_users id name patch (users.docs s.in_users) e full),
    subst (λ l. All (λ (o : Organization). All (IsNamedPartner id name) o.partners) l) (sym in_orgs)
        (All-rename_partners id name _),
  )
    where
      changes : changes_labels patch ≡ true
      changes = ap (λ n. truthy n || is_some patch.departments) e ∙ rw full refl

      in_users :
          users.docs (refresh_members users orgs id patch s.in_users)
          ≡ update_all (is_member id) (refresh_user id patch) (users.docs s.in_users)
      in_users =
          ap
            (λ b. users.docs (
              if b
              then refresh_each users orgs id patch (filter (is_member id) (users.docs s.in_users))
                  s.in_users
              else s.in_users))
            changes
          ∙ docs-refresh_each id patch (filter (is_member id) (users.docs s.in_users)) s.in_users
          ∙ write_each-filter id patch (is_member id) (users.docs s.in_users) distinct

      known : or_null patch.name ≡ some name
      known = rw e (rw full refl)

      in_orgs :
          orgs.docs (
            refresh_partners users orgs id
              (or_null patch.name)
              (orgs.update_one (has_org_id id) (patched_org patch) s.in_orgs))
          ≡ update_all
              (has_partner_org id)
              (rename_partners id name)
              (orgs.docs (orgs.update_one (has_org_id id) (patched_org patch) s.in_orgs))
      in_orgs =
          ap
            (λ n. orgs.docs (
              refresh_partners users orgs id n
                (orgs.update_one (has_org_id id) (patched_org patch) s.in_orgs)))
            known
          ∙ orgs.docs-update_many (has_partner_org id) (rename_partners id name) _
