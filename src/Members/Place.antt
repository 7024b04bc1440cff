-- ===== src/Members/Place.antt =====
-- How addMember places an entry: the new entry, and the entry moved in the single membership mode.
use text.Mathlib.TextPositions.{eq_refl}
use text.Mathlib.TextEquality.{eq_iff}
use simple_directory.Common.{
  >>=-eq-ok, Bool, Bool-cases, List, Option, Option-cases, String, [], any, ap, arith, false,
  find_passes, inl, inr, none, not, ok, ok_inj, or_null, refl, some, sym, true, truthy,
  update_first, ◌&&◌, ◌++◌, ◌==◌, ◌∙◌, ◌∷◌, ◌≡◌, ◌⊎◌, nat_eq, option_eq, string_eq,
}
use simple_directory.Types.{Department, Membership, Organization}
use simple_directory.Members.{
  clear_department, find_department, in_org, is_dep, is_root, move_entry, new_entry, push_entry,
  relocation, set_department, write_role,
}
use simple_directory.Members.Exclusive.{
  AtMostOne-append, AtMostOne-update_first, IsExclusive, IsSingle, any-append,
}

-- the two ways in which an entry is placed
abbrev pub Placed : Option String → (Membership → Membership) → Type 0
Placed dep place =
    ((truthy dep ≡ false) × (place ≡ clear_department))
    ⊎ ((d : Department) × (dep ≡ some d.id) × (truthy dep ≡ true) × (place ≡ set_department d))

relocation-Placed :
    (orga : Organization) (dep : Option String) (place : Membership → Membership)
    → relocation orga (or_null dep) ≡ ok place
    → Placed dep place
relocation-Placed orga none place h = inl (refl, cc)
relocation-Placed orga (some id) place h = elim (Bool-cases (id == "")) [
  | inl empty ↦ inl (rw empty, cc (rw empty at h))
  | inr full ↦ elim (Option-cases (find_department orga id)) [
    | inl unknown ↦ cc (rw (full, unknown) at h)
    | inr (d, found) ↦
        let same = (eq_iff d.id id).0 (find_passes _ orga.departments d found) in
        inr (d, ap some (sym same), rw full, cc (rw (full, found) at h))
  ]
]

module _ (orga : Organization) (role : String) (department : Option String) (read_only : Bool) where
  -- how the placed entry stands in an organization
  Placed-tests :
      (place : Membership → Membership) (o : Membership) (id : String)
      → Placed department place
      → (in_org id (write_role role read_only (place o)) ≡ in_org id o)
        × (is_root id (write_role role read_only (place o))
            ≡ (in_org id o && not (truthy department)))
        × (is_dep id (write_role role read_only (place o)) ≡ (in_org id o && truthy department))
  Placed-tests place o id (inl (e, same)) = rw same (refl, rw e, rw e)
  Placed-tests place o id (inr (d, e, t, same)) = rw same (refl, rw e, rw e)

  pub push_entry-parts :
      (l l' : List Membership)
      → push_entry orga role department read_only l ≡ ok l'
      → ((truthy department && any (is_root orga.id) l) ≡ false)
        × ((not (truthy department) && any (is_dep orga.id) l) ≡ false)
        × ((place : Membership → Membership) × Placed department place
            × (l ++ write_role role read_only (place (new_entry orga role)) ∷ [] ≡ l'))
  unfolding push_entry
  push_entry-parts l l' h = elim (Bool-cases (truthy department && any (is_root orga.id) l)) [
    | inl bad ↦ cc (rw bad at h)
    | inr a ↦ elim (Bool-cases (not (truthy department) && any (is_dep orga.id) l)) [
      | inl bad ↦ cc (rw (a, bad) at h)
      | inr b ↦
          let (place, found, result) =
            >>=-eq-ok (relocation orga (or_null department))
              (λ place. ok (l ++ write_role role read_only (place (new_entry orga role)) ∷ []))
              (rw (a, b) at h) in
          (a, b, (place, relocation-Placed orga department place found, ok_inj result))
    ]
  ]

  -- one more entry, in the organization and in another one
  push_here :
      (l : List Membership) (o : Membership)
      → (truthy department && any (is_root orga.id) l) ≡ false
      → (not (truthy department) && any (is_dep orga.id) l) ≡ false
      → is_root orga.id o ≡ not (truthy department)
      → is_dep orga.id o ≡ truthy department
      → (any (is_root orga.id) (l ++ o ∷ []) && any (is_dep orga.id) (l ++ o ∷ [])) ≡ false
  push_here l o a b r d =
      rw (any-append (is_root orga.id) l (o ∷ []), any-append (is_dep orga.id) l (o ∷ []))
        (ground arith)

  push_elsewhere :
      (l : List Membership) (o : Membership) (id : String)
      → (any (is_root id) l && any (is_dep id) l) ≡ false
      → is_root id o ≡ false
      → is_dep id o ≡ false
      → (any (is_root id) (l ++ o ∷ []) && any (is_dep id) (l ++ o ∷ [])) ≡ false
  push_elsewhere l o id h r d =
      rw (any-append (is_root id) l (o ∷ []), any-append (is_dep id) l (o ∷ [])) (ground arith)

  pub push_entry-IsExclusive :
      (l l' : List Membership)
      → IsExclusive l
      → push_entry orga role department read_only l ≡ ok l'
      → IsExclusive l'
  push_entry-IsExclusive l l' h e id = elim (Bool-cases (orga.id == id)) [
    | inl same ↦
        let same' = (eq_iff orga.id id).0 same in
        let (_, r, d) = Placed-tests place (new_entry orga role) orga.id placed in
        rw (← result) (
          rw (← same') (
            push_here l (write_role role read_only (place (new_entry orga role))) (parts.0)
              (parts.1) (rw r (rw (eq_refl orga.id))) (rw d (rw (eq_refl orga.id)))))
    | inr other ↦
        let (_, r, d) = Placed-tests place (new_entry orga role) id placed in
        rw (← result) (
          push_elsewhere l (write_role role read_only (place (new_entry orga role))) id (h id)
            (rw r (rw other)) (rw d (rw other)))
  ]
    where
      parts :
          ((truthy department && any (is_root orga.id) l) ≡ false)
          × ((not (truthy department) && any (is_dep orga.id) l) ≡ false)
          × ((place : Membership → Membership) × Placed department place
              × (l ++ write_role role read_only (place (new_entry orga role)) ∷ [] ≡ l'))
      parts = push_entry-parts l l' e

      place : Membership → Membership
      place = (parts.2).0

      placed : Placed department place
      placed = (parts.2).1

      result : l ++ write_role role read_only (place (new_entry orga role)) ∷ [] ≡ l'
      result = (parts.2).2

  pub move_entry-parts :
      (l l' : List Membership)
      → move_entry orga role department read_only l ≡ ok l'
      → (place : Membership → Membership) × Placed department place
        × (update_first (in_org orga.id) (λ o. write_role role read_only (place o)) l ≡ l')
  unfolding move_entry
  move_entry-parts l l' h =
      let (place, found, result) =
        >>=-eq-ok (relocation orga (or_null department))
          (λ place. ok (update_first (in_org orga.id) (λ o. write_role role read_only (place o)) l))
          h in
      (place, relocation-Placed orga department place found, ok_inj result)

  pub move_entry-IsSingle :
      (l l' : List Membership)
      → IsSingle l
      → move_entry orga role department read_only l ≡ ok l'
      → IsSingle l'
  move_entry-IsSingle l l' h e id =
      let (place, placed, result) = move_entry-parts l l' e in
      rw (← result) (
        AtMostOne-update_first (in_org orga.id) (in_org id)
          (λ o. write_role role read_only (place o)) l (λ o _. (Placed-tests place o id placed).0)
          (h id))

  pub push_entry-IsSingle :
      (l l' : List Membership)
      → IsSingle l
      → any (in_org orga.id) l ≡ false
      → push_entry orga role department read_only l ≡ ok l'
      → IsSingle l'
  push_entry-IsSingle l l' h absent e id =
      let (_, _, (place, placed, result)) = push_entry-parts l l' e in
      let o = write_role role read_only (place (new_entry orga role)) in
      let (same, _, _) = Placed-tests place (new_entry orga role) id placed in
      rw (← result) (AtMostOne-append (in_org id) l o (h id) (absent_of id o same))
    where
      absent_of :
          (id : String) (o : Membership)
          → in_org id o ≡ (orga.id == id)
          → (in_org id o && any (in_org id) l) ≡ false
      absent_of id o same = elim (Bool-cases (orga.id == id)) [
        | inr other ↦ rw (same ∙ other)
        | inl here ↦ rw (same ∙ here) (rw (← (eq_iff orga.id id).0 here) absent)
      ]
