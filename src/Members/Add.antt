-- ===== src/Members/Add.antt =====
-- addMember: the branches keep the invariants, and a success makes the user a member.
use text.Mathlib.TextPositions.{eq_refl}
use simple_directory.Issuers.{before}
use simple_directory.Common.{
  Bool, Bool-cases, List, Option, String, [], all, and_split, any, false, inl, inr, not, ok, ok_inj,
  or_null, refl, some, true, update_first, ◌&&◌, ◌++◌, ◌==◌, ◌∷◌, ◌≡◌, ◌⊎◌, nat_eq, option_eq,
  string_eq,
}
use simple_directory.Types.{Membership, Organization}
use simple_directory.Members.{
  MemberConfig, added_memberships, in_org, is_dep, is_entry, is_root, move_entry, new_entry,
  push_entry, same_department, write_role,
}
use simple_directory.Members.Exclusive.{
  AtMostOne-update_first, IsExclusive, IsSingle, any-append, any-update_first, any-update_first_hit,
  exclusive_of_AtMostOne, option_refl, or_null_falsy, or_true,
}
use simple_directory.Members.Place.{
  Placed, move_entry-IsSingle, move_entry-parts, push_entry-IsExclusive, push_entry-IsSingle,
  push_entry-parts,
}

-- the test of the membership that a success leaves
abbrev pub has_membership : String → String → Option String → Membership → Bool
has_membership id role department o =
    o.id == id && same_department o.department department && o.role == role

all-update_first :
    (P p : Membership → Bool) (f : Membership → Membership) (l : List Membership)
    → ((o : Membership) → p o ≡ true → P (f o) ≡ true)
    → all P l ≡ true
    → all P (update_first p f l) ≡ true
all-update_first P p f [] k h = refl
all-update_first P p f (o ∷ l) k h =
    let (first_entry, others) = and_split (P o) (all P l) h in
    elim (Bool-cases (p o)) [
      | inl hit ↦ rw hit (rw (k o hit, others))
      | inr miss ↦ rw miss (rw (first_entry, all-update_first P p f l k others))
    ]

all-append :
    (P : Membership → Bool) (l : List Membership) (o : Membership)
    → all P l ≡ true
    → P o ≡ true
    → all P (l ++ o ∷ []) ≡ true
all-append P [] o h e = rw e
all-append P (x ∷ l) o h e =
    let (first_entry, others) = and_split (P x) (all P l) h in
    rw (first_entry, all-append P l o others e)

module _ (cfg : MemberConfig) (orga : Organization) (role : String) (department : Option String)
    (read_only : Bool) where
  abbrev entry : Membership → Bool
  entry = is_entry cfg orga.id (some role) department

  Placed-has :
      (place : Membership → Membership)
      → Placed department place
      → (o : Membership) → in_org orga.id o ≡ true
      → has_membership orga.id role department (write_role role read_only (place o)) ≡ true
  Placed-has place (inl (e, same)) o h = rw same (rw (h, or_null_falsy department e) (eq_refl role))
  Placed-has place (inr (d, e, t, same)) o h =
      rw same (rw (h, e) (rw (option_refl (or_null (some d.id))) (eq_refl role)))

  entry_has :
      (o : Membership)
      → entry o ≡ true
      → has_membership orga.id role department (write_role role read_only o) ≡ true
  entry_has o h = elim (Bool-cases (cfg.multi_roles && not (some o.role == some role))) [
    | inl other ↦ cc (rw other at h)
    | inr same ↦
        let (i, d) =
          and_split (o.id == orga.id) (same_department o.department department) (rw same at h) in
        rw (i, d) (eq_refl role)
  ]

  -- the three branches of a success
  abbrev Branches : List Membership → List Membership → Type 0
  Branches l l' =
      ((any entry l ≡ true) × (update_first entry (write_role role read_only) l ≡ l'))
      ⊎ ((cfg.single_membership ≡ true)
          × (any (in_org orga.id) l ≡ true)
          × (move_entry orga role department read_only l ≡ ok l'))
      ⊎ (((cfg.single_membership && any (in_org orga.id) l) ≡ false)
          × (push_entry orga role department read_only l ≡ ok l'))

  branches :
      (l l' : List Membership)
      → added_memberships cfg orga role department read_only l ≡ ok l'
      → Branches l l'
  unfolding added_memberships
  branches l l' h = elim (Bool-cases (any entry l)) [
    | inl found ↦ inl (found, ok_inj (rw found at h))
    | inr absent ↦ elim (Bool-cases (cfg.single_membership && any (in_org orga.id) l)) [
      | inl single ↦ let (s, i) = and_split _ _ single in inr (inl (s, i, rw (absent, single) at h))
      | inr new ↦ inr (inr (new, rw (absent, new) at h))
    ]
  ]

  -- the tests of an organization do not see the role
  kept_tests :
      (g : Membership → Bool) (l : List Membership)
      → ((o : Membership) → g (write_role role read_only o) ≡ g o)
      → any g (update_first entry (write_role role read_only) l) ≡ any g l
  kept_tests g l h = any-update_first entry g (write_role role read_only) l (λ o _. h o)

  -- Adding a member never makes somebody a member of a whole organization and of one of its
  -- departments. In the single membership mode this rests on there being one entry for each
  -- organization.
  pub added_memberships-IsExclusive :
      (l l' : List Membership)
      → IsExclusive l
      → (cfg.single_membership ≡ true → IsSingle l)
      → added_memberships cfg orga role department read_only l ≡ ok l'
      → IsExclusive l'
  added_memberships-IsExclusive l l' h single e = elim (branches l l' e) [
    | inl (found, same) ↦ λ id.
        rw (← same)
          (rw (kept_tests (is_root id) l (λ o. refl), kept_tests (is_dep id) l (λ o. refl)) (h id))
    | inr (inl (mode, _, moved)) ↦ λ id.
        exclusive_of_AtMostOne id l'
          (move_entry-IsSingle orga role department read_only l l' (single mode) moved id)
    | inr (inr (_, pushed)) ↦ push_entry-IsExclusive orga role department read_only l l' h pushed
  ]

  -- In the single membership mode, adding a member keeps at most one entry of each organization.
  pub added_memberships-IsSingle :
      (l l' : List Membership)
      → cfg.single_membership ≡ true
      → IsSingle l
      → added_memberships cfg orga role department read_only l ≡ ok l'
      → IsSingle l'
  added_memberships-IsSingle l l' mode h e = elim (branches l l' e) [
    | inl (found, same) ↦ λ id. rw (← same) (
        AtMostOne-update_first entry (in_org id) (write_role role read_only) l (λ o _. refl) (h id))
    | inr (inl (_, _, moved)) ↦ move_entry-IsSingle orga role department read_only l l' h moved
    | inr (inr (new, pushed)) ↦
        push_entry-IsSingle orga role department read_only l l' h (rw mode at new) pushed
  ]

  -- A success leaves an entry of the organization with the asked department and role.
  pub added_memberships-has_membership :
      (l l' : List Membership)
      → added_memberships cfg orga role department read_only l ≡ ok l'
      → any (has_membership orga.id role department) l' ≡ true
  added_memberships-has_membership l l' e = elim (branches l l' e) [
    | inl (found, same) ↦ rw (← same) (
        any-update_first_hit entry (has_membership orga.id role department)
          (write_role role read_only) l found entry_has)
    | inr (inl (_, here, moved)) ↦
        let (place, placed, result) = move_entry-parts orga role department read_only l l' moved in
        rw (← result) (
          any-update_first_hit (in_org orga.id) (has_membership orga.id role department)
            (λ o. write_role role read_only (place o)) l here (Placed-has place placed))
    | inr (inr (_, pushed)) ↦
        let (_, _, (place, placed, result)) =
          push_entry-parts orga role department read_only l l' pushed in
        rw (← result) (
          rw
            (any-append (has_membership orga.id role department) l
              (write_role role read_only (place (new_entry orga role)) ∷ []))
            (rw (Placed-has place placed (new_entry orga role) (eq_refl orga.id))
              (or_true (any (has_membership orga.id role department) l))))
  ]

  -- Out of the single membership mode, a test that does not see the roles stays true of some entry.
  pub added_memberships-keeps :
      (g : Membership → Bool) (l l' : List Membership)
      → ((o : Membership) → g (write_role role read_only o) ≡ g o)
      → cfg.single_membership ≡ false
      → added_memberships cfg orga role department read_only l ≡ ok l'
      → any g l ≡ true
      → any g l' ≡ true
  added_memberships-keeps g l l' h mode e there = elim (branches l l' e) [
    | inl (found, same) ↦ rw (← same) (rw (kept_tests g l h) there)
    | inr (inl (single, _, _)) ↦ cc
    | inr (inr (_, pushed)) ↦
        let (_, _, (place, placed, result)) =
          push_entry-parts orga role department read_only l l' pushed in
        rw (← result) (
          rw (any-append g l (write_role role read_only (place (new_entry orga role)) ∷ []), there))
  ]

  entry-in_org : (o : Membership) → entry o ≡ true → in_org orga.id o ≡ true
  entry-in_org o h = elim (Bool-cases (cfg.multi_roles && not (some o.role == some role))) [
    | inl other ↦ cc (rw other at h)
    | inr same ↦
        (and_split (o.id == orga.id) (same_department o.department department) (rw same at h)).0
  ]

  Placed-in_org :
      (place : Membership → Membership)
      → Placed department place
      → (o : Membership) → in_org orga.id o ≡ true
      → in_org orga.id (write_role role read_only (place o)) ≡ true
  Placed-in_org place (inl (e, same)) o h = rw same h
  Placed-in_org place (inr (d, e, t, same)) o h = rw same h

  -- What holds of every entry of the organization, and of all entries before, holds of all entries
  -- after a success.
  pub added_memberships-all :
      (P : Membership → Bool) (l l' : List Membership)
      → ((o : Membership) → in_org orga.id o ≡ true → P o ≡ true)
      → all P l ≡ true
      → added_memberships cfg orga role department read_only l ≡ ok l'
      → all P l' ≡ true
  added_memberships-all P l l' here before e = elim (branches l l' e) [
    | inl (found, same) ↦ rw (← same) (
        all-update_first P entry (write_role role read_only) l
          (λ o h. here (write_role role read_only o) (entry-in_org o h)) before)
    | inr (inl (_, _, moved)) ↦
        let (place, placed, result) = move_entry-parts orga role department read_only l l' moved in
        rw (← result) (
          all-update_first P (in_org orga.id) (λ o. write_role role read_only (place o)) l
            (λ o h. here (write_role role read_only (place o)) (Placed-in_org place placed o h))
            before)
    | inr (inr (_, pushed)) ↦
        let (_, _, (place, placed, result)) =
          push_entry-parts orga role department read_only l l' pushed in
        rw (← result) (
          all-append P l (write_role role read_only (place (new_entry orga role))) before
            (here _ (Placed-in_org place placed (new_entry orga role) (eq_refl orga.id))))
  ]
