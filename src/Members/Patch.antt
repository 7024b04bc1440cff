-- ===== src/Members/Patch.antt =====
-- patchMember: what it writes keeps the invariant and holds the asked membership.
use text.Mathlib.TextPositions.{eq_refl}
use text.Mathlib.TextEquality.{eq_iff}
use simple_directory.Common.{
  Bool, Bool-cases, List, Option, String, any, arith, false, filter, if◌then◌else◌, inl, inr, none,
  not, ok, ok_inj, option_beq_iff, or_null, refl, remove_first, some, sym, true, truthy,
  update_first, ◌&&◌, ◌==◌, ◌∙◌, ◌≡◌, nat_eq, option_eq, string_eq,
}
use simple_directory.Types.{Department, Membership}
use simple_directory.Members.{
  MemberConfig, MemberPatch, apply_patch, is_dep, is_entry, is_root, is_target, no_conflict,
  patched_entry, patched_memberships, same_department, same_first,
}
use simple_directory.Members.Exclusive.{
  IsExclusive, any-filter_keep, any-filter_le, any-remove_first_keep, any-remove_first_le,
  any-update_first, any-update_first_hit, option_refl, or_null_falsy,
}

-- the found department is the asked one
abbrev pub Fits : MemberPatch → Option Department → Type 0
Fits patch none = truthy patch.department ≡ false
Fits patch (some d) = (patch.department ≡ some d.id) × (truthy patch.department ≡ true)

one_side : (t r d : Bool) → (t && r) ≡ false → (not t && d) ≡ false → (r && d) ≡ false
one_side true r d a b = ground arith
one_side false r d a b = ground arith

and_mono :
    {r d r' d' : Bool}
    → (r ≡ false → r' ≡ false)
    → (d ≡ false → d' ≡ false)
    → (r && d) ≡ false
    → (r' && d') ≡ false
and_mono h k e = ground arith

module _ (cfg : MemberConfig) (id : String) (role department : Option String) (patch : MemberPatch)
    (d : Option Department) where
  abbrev entry : Membership → Bool
  entry = is_entry cfg id role department

  abbrev kept : List Membership → List Membership
  kept l =
      if same_department patch.department department then l else filter (no_conflict cfg id patch) l

  abbrev patched : List Membership → List Membership
  patched l = update_first entry (apply_patch patch d) (kept l)

  patched_entry-parts :
      (l l' : List Membership)
      → patched_entry cfg id role department patch d l ≡ ok l'
      → ((truthy patch.department && any (is_root id) l') ≡ false)
        × ((not (truthy patch.department) && any (is_dep id) l') ≡ false)
        × (patched l ≡ l')
  unfolding patched_entry
  patched_entry-parts l l' h =
      elim (Bool-cases (truthy patch.department && any (is_root id) (patched l))) [
        | inl bad ↦ cc (rw bad at h)
        | inr a ↦ elim (Bool-cases (not (truthy patch.department) && any (is_dep id) (patched l))) [
          | inl bad ↦ cc (rw (a, bad) at h)
          | inr b ↦ let same : patched l ≡ l' = ok_inj (rw (a, b) at h) in rw (← same) (a, b, refl)
        ]
      ]

  entry_id : (o : Membership) → entry o ≡ true → (o.id == id) ≡ true
  entry_id o h = ground arith

  -- a test of another organization passes no more often after the patch
  patched-other_org :
      (g : Membership → Bool) (i : String) (l : List Membership)
      → ((o : Membership) → (o.id == i) ≡ false → g o ≡ false)
      → (id == i) ≡ false
      → any g l ≡ false
      → any g (patched l) ≡ false
  patched-other_org g i l h ne none_before =
      rw (any-update_first entry g (apply_patch patch d) (kept l) unseen)
        (kept_le (same_department patch.department department))
    where
      elsewhere : (o : Membership) → (o.id == id) ≡ true → (o.id == i) ≡ false
      elsewhere o e = rw ((eq_iff o.id id).0 e) ne

      apply_id : (o : Membership) → (apply_patch patch d o).id ≡ o.id
      apply_id o = elim d as (λ d. (apply_patch patch d o).id ≡ o.id) [
        | none ↦ refl
        | some d ↦ refl
      ]

      unseen : (o : Membership) → entry o ≡ true → g (apply_patch patch d o) ≡ g o
      unseen o e =
          h (apply_patch patch d o) (rw (apply_id o) (elsewhere o (entry_id o e)))
          ∙ sym (h o (elsewhere o (entry_id o e)))

      kept_le : (b : Bool) → any g (if b then l else filter (no_conflict cfg id patch) l) ≡ false
      kept_le true = none_before
      kept_le false = any-filter_le (no_conflict cfg id patch) g l none_before

  root_elsewhere : (i : String) (o : Membership) → (o.id == i) ≡ false → is_root i o ≡ false
  root_elsewhere i o h = rw h

  dep_elsewhere : (i : String) (o : Membership) → (o.id == i) ≡ false → is_dep i o ≡ false
  dep_elsewhere i o h = rw h

  patched_entry-IsExclusive :
      (l l' : List Membership)
      → IsExclusive l
      → patched_entry cfg id role department patch d l ≡ ok l'
      → IsExclusive l'
  patched_entry-IsExclusive l l' h e i = elim (Bool-cases (id == i)) [
    | inl same ↦
        rw (← (eq_iff id i).0 same) (one_side (truthy patch.department) _ _ (parts.0) (parts.1))
    | inr other ↦ rw (← parts.2) (
        and_mono (patched-other_org (is_root i) i l (root_elsewhere i) other)
          (patched-other_org (is_dep i) i l (dep_elsewhere i) other) (h i))
  ]
    where
      parts :
          ((truthy patch.department && any (is_root id) l') ≡ false)
          × ((not (truthy patch.department) && any (is_dep id) l') ≡ false)
          × (patched l ≡ l')
      parts = patched_entry-parts l l' e

  -- A successful patch never makes somebody a member of a whole organization and of one of its
  -- departments, also where it drops a duplicate or a conflict.
  pub patched_memberships-IsExclusive :
      (l l' : List Membership)
      → IsExclusive l
      → patched_memberships cfg id role department patch d l ≡ ok l'
      → IsExclusive l'
  unfolding patched_memberships
  patched_memberships-IsExclusive l l' h e = elim (Bool-cases (any entry l)) [
    | inr absent ↦ cc (rw absent at e)
    | inl found ↦ elim (Bool-cases (any (is_target id patch) l)) [
      | inr alone ↦ patched_entry-IsExclusive l l' h (rw (found, alone) at e)
      | inl dup ↦ merged (same_first (is_target id patch) entry l) (ok_inj (rw (found, dup) at e))
    ]
  ]
    where
      merged : (b : Bool) → (if b then l else remove_first entry l) ≡ l' → IsExclusive l'
      merged true same i = rw (← same) (h i)
      merged false same i = rw (← same) (
          and_mono (any-remove_first_le entry (is_root i) l)
            (any-remove_first_le entry (is_dep i) l) (h i))

  Fits-has :
      (o : Membership)
      → Fits patch d
      → (o.id == id) ≡ true
      → is_target id patch (apply_patch patch d o) ≡ true
  Fits-has o fits e = go d fits
    where
      go :
          (d : Option Department) → Fits patch d → is_target id patch (apply_patch patch d o) ≡ true
      go none f = rw (e, or_null_falsy patch.department f) (eq_refl patch.role)
      go (some d) (f, t) = rw (e, f) (rw (option_refl (or_null (some d.id))) (eq_refl patch.role))

  -- the filter against conflicts keeps the entry that is patched
  entry-no_conflict :
      (o : Membership)
      → same_department patch.department department ≡ false
      → entry o ≡ true
      → no_conflict cfg id patch o ≡ true
  entry-no_conflict o other h = elim (Bool-cases (same_department o.department patch.department)) [
    | inr apart ↦ ground arith
    | inl same ↦
        let here : same_department o.department department ≡ true = ground arith in
        cc (
          other,
          (option_beq_iff (or_null patch.department) (or_null department)).1 (
              sym ((option_beq_iff (or_null o.department) (or_null patch.department)).0 same)
              ∙ (option_beq_iff (or_null o.department) (or_null department)).0 here),
        )
  ]

  kept-entry : (l : List Membership) → any entry l ≡ true → any entry (kept l) ≡ true
  kept-entry l h = elim (Bool-cases (same_department patch.department department)) [
    | inl same ↦ rw same h
    | inr other ↦
        rw other (
          any-filter_keep entry (no_conflict cfg id patch) l h (λ o e. entry-no_conflict o other e))
  ]

  duplicate :
      (l l' : List Membership) (b : Bool)
      → same_first (is_target id patch) entry l ≡ b
      → (if b then l else remove_first entry l) ≡ l'
      → any (is_target id patch) l ≡ true
      → any (is_target id patch) l' ≡ true
  duplicate l l' true e same dup = rw (← same) dup
  duplicate l l' false e same dup =
      rw (← same) (any-remove_first_keep (is_target id patch) entry l e dup)

  -- A successful patch leaves an entry of the organization with the new department and role.
  pub patched_memberships-is_target :
      (l l' : List Membership)
      → Fits patch d
      → patched_memberships cfg id role department patch d l ≡ ok l'
      → any (is_target id patch) l' ≡ true
  unfolding patched_memberships
  patched_memberships-is_target l l' fits e = elim (Bool-cases (any entry l)) [
    | inr absent ↦ cc (rw absent at e)
    | inl found ↦ elim (Bool-cases (any (is_target id patch) l)) [
      | inl dup ↦
          duplicate l l' (same_first (is_target id patch) entry l) refl
            (ok_inj (rw (found, dup) at e)) dup
      | inr alone ↦
          let (_, _, same) = patched_entry-parts l l' (rw (found, alone) at e) in
          rw (← same) (
            any-update_first_hit entry (is_target id patch) (apply_patch patch d) (kept l)
              (kept-entry l found) (λ o p. Fits-has o fits (entry_id o p)))
    ]
  ]
