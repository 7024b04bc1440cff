-- ===== src/Organizations/Delete.antt =====
-- A deleted organization is referred to by nobody.
use simple_directory.Organizations.{
  OrgStores, delete_organization, drop_membership, drop_partner, has_partner_org, is_member,
  is_partner_org,
}
use simple_directory.Members.{has_org_id, in_org}
use simple_directory.Common.{
  All, Bool, Bool-cases, List, String, [], any-filter-not, false, inl, inr, remove_first, true,
  update_all, ◌∷◌, ◌≡◌,
}
use simple_directory.Types.{Organization, User}
use simple_directory.Collection.{Collection}

All-dropped :
    (id : String) (l : List User)
    → All (λ u. is_member id u ≡ false) (update_all (λ u. true) (drop_membership id) l)
All-dropped id [] = tt
All-dropped id (u ∷ l) = (any-filter-not (in_org id) u.organizations, All-dropped id l)

All-unpartnered :
    (id : String) (l : List Organization)
    → All (λ o. has_partner_org id o ≡ false) (update_all (has_partner_org id) (drop_partner id) l)
All-unpartnered id [] = tt
All-unpartnered id (o ∷ l) = elim (Bool-cases (has_partner_org id o)) [
  | inl b ↦ rw b (any-filter-not (is_partner_org id) o.partners, All-unpartnered id l)
  | inr b ↦ rw b (b, All-unpartnered id l)
]

All-remove_first :
    {A : Type 0} (P : A → Type 0) (p : A → Bool) (l : List A) → All P l → All P (remove_first p l)
All-remove_first P p [] h = tt
All-remove_first P p (x ∷ l) (h, hs) = elim (Bool-cases (p x)) [
  | inl b ↦ rw b hs
  | inr b ↦ rw b (h, All-remove_first P p l hs)
]

module _ (users : Collection User) (orgs : Collection Organization) where
  -- Once an organization is deleted, no user is a member of it or of its departments, and no other
  -- organization has it as a partner.
  pub delete_organization-All :
      (id : String) (s : OrgStores users orgs)
      → All
          (λ u. is_member id u ≡ false)
          (users.docs (delete_organization users orgs id s).in_users)
        × All
            (λ o. has_partner_org id o ≡ false)
            (orgs.docs (delete_organization users orgs id s).in_orgs)
  unfolding delete_organization
  delete_organization-All id s = (
    rw (users.docs-update_many (λ u. true) (drop_membership id) s.in_users)
        (All-dropped id (users.docs s.in_users)),
    rw (orgs.docs-delete_one (has_org_id id) _) (
        All-remove_first _ (has_org_id id) _ (
          rw (orgs.docs-update_many (has_partner_org id) (drop_partner id) s.in_orgs)
            (All-unpartnered id (orgs.docs s.in_orgs)))),
  )
