-- ===== src/AuthProviders/Asserted.antt =====
-- What the memberships of a login by an identity provider can be.
use mathlib.Core.Path.{subst}
use text.Mathlib.TextPositions.{eq_refl}
use simple_directory.Sites.{Site}
use simple_directory.Members.Add.{added_memberships-all}
use simple_directory.AuthProviders.{
  AuthInfo, AuthProvider, MemberInfo, ProviderEnv, add_read_only, asserted_department,
  asserted_role, auth_provider_member_info, is_created, is_named, matched_department, member_info,
  member_infos, not_read_only, org_ids, synced_memberships,
}
use simple_directory.Issuers.{before}
use simple_directory.Members.{added_memberships, in_org}
use simple_directory.Common.{
  >>=-eq-ok, All, Bool, Bool-cases, List, Option, String, [], all, and_split, any, beq_refl, filter,
  find, get_or, includes, inl, inr, none, not, not-false, ok, ok_inj, or_null, or_right, or_throw,
  or_throw-ok, refl, some, some_inj, sym, throw_if, throw_if-ok, true, ◌&&◌, ◌==◌, ◌||◌, ◌∷◌, ◌≡◌,
  nat_eq, option_eq, string_eq,
}
use simple_directory.Types.{Department, Membership, Organization}

all-filter :
    (p : Membership → Bool) (q : Membership → Bool) (l : List Membership)
    → ((o : Membership) → p o ≡ true → q o ≡ true)
    → all q (filter p l) ≡ true
all-filter p q [] h = refl
all-filter p q (o ∷ l) h = elim (Bool-cases (p o)) [
  | inl kept ↦ rw kept (rw (h o kept, all-filter p q l h))
  | inr dropped ↦ rw dropped (all-filter p q l h)
]

all_mono :
    (q r : Membership → Bool) (l : List Membership)
    → ((o : Membership) → q o ≡ true → r o ≡ true)
    → all q l ≡ true
    → all r l ≡ true
all_mono q r [] h k = refl
all_mono q r (o ∷ l) h k =
    let (one, others) = and_split (q o) (all q l) k in rw (h o one, all_mono q r l h others)

-- an entry that the provider does not own, or of an organization whose membership it asserts
abbrev pub is_asserted : List MemberInfo → Membership → Bool
is_asserted is o = not o.read_only || any (λ (i : MemberInfo). i.read_only && in_org i.org.id o) is

module _ (env : ProviderEnv) where
  add_read_only-all :
      (is : List MemberInfo) (q : Membership → Bool) (l l' : List Membership)
      → ((o : Membership)
          → any (λ (i : MemberInfo). i.read_only && in_org i.org.id o) is ≡ true
          → q o ≡ true)
      → all q l ≡ true
      → add_read_only env is l ≡ ok l'
      → all q l' ≡ true
  unfolding add_read_only
  add_read_only-all [] q l l' h before e = subst (λ k. all q k ≡ true) (ok_inj e) before
  add_read_only-all (i ∷ is) q l l' h before e = elim (Bool-cases i.read_only) [
    | inr other ↦
        add_read_only-all is q l l' (λ o k. h o (or_right (i.read_only && in_org i.org.id o) k))
          before (rw (add_read_only, other) at e)
    | inl owned ↦
        let (k, added, rest) =
          >>=-eq-ok (added_memberships env.members i.org i.role i.department true l)
            (add_read_only env is) (rw (add_read_only, owned) at e) in
        add_read_only-all is q k l' (λ o m. h o (or_right (i.read_only && in_org i.org.id o) m))
          (added_memberships-all env.members i.org i.role i.department true q l k
            (λ o m. h o (rw (owned, m))) before added)
          rest
  ]

  -- After a login by a core identity provider that succeeds, every membership that the provider
  -- owns (its entry is read only) is of an organization whose membership it asserts now.
  pub synced_memberships-asserted :
      (provider : AuthProvider) (is : List MemberInfo) (l l' : List Membership)
      → provider.core_id_provider ≡ true
      → synced_memberships env provider is l ≡ ok l'
      → all (is_asserted is) l' ≡ true
  unfolding synced_memberships
  synced_memberships-asserted provider is l l' core e =
      add_read_only-all is (is_asserted is) (filter not_read_only' l) l'
        (λ o k. or_right (not o.read_only) k)
        (all-filter not_read_only' (is_asserted is) l (λ o k. rw k))
        (rw (synced_memberships, core) at e)
    where
      not_read_only' : Membership → Bool
      not_read_only' = not_read_only env

  -- a department of the organization, if any
  abbrev pub is_department_of : Organization → Option String → Bool
  is_department_of org none = true
  is_department_of org (some d) = d == "" || any (λ (x : Department). x.id == d) org.departments

  abbrev pub IsKnown : List String → MemberInfo → Type 0
  IsKnown ids i =
      (includes (get_or i.org.roles env.default_roles) i.role ≡ true)
      × (is_department_of i.org i.department ≡ true)
      × ((id : String) × (includes ids id ≡ true) × (env.get_organization id ≡ some i.org))

  any_of_find :
      (p : Department → Bool) (l : List Department) (d : Department)
      → find p l ≡ some d
      → any (λ (x : Department). x.id == d.id) l ≡ true
  any_of_find p [] d e = cc
  any_of_find p (x ∷ l) d e = elim (Bool-cases (p x)) [
    | inl here ↦
        let same : some x ≡ some d = rw here at e in rw (some_inj x d same) (rw (eq_refl d.id))
    | inr there ↦ or_right (x.id == d.id) (any_of_find p l d (rw there at e))
  ]

  matched_department-known :
      (org : Organization) (given department : Option String)
      → matched_department org given ≡ ok department
      → is_department_of org department ≡ true
  matched_department-known org none department e =
      subst (λ d. is_department_of org d ≡ true) (ok_inj e) refl
  matched_department-known org (some name) department e = elim (Bool-cases (name == "")) [
    | inl empty ↦ subst (λ x. is_department_of org x ≡ true) (ok_inj (rw empty at e)) (rw empty)
    | inr full ↦
        let (d, found, same) =
          >>=-eq-ok (or_throw (find (is_named name) org.departments) 400) (λ d. ok (some d.id))
            (rw full at e) in
        subst (λ x. is_department_of org x ≡ true) (ok_inj same)
          (or_right (d.id == "") (
            any_of_find (is_named name) org.departments d
              (or_throw-ok (find (is_named name) org.departments) 400 found)))
  ]

  member_info-IsKnown :
      (provider : AuthProvider) (info : AuthInfo) (ids : List String) (id : String) (i : MemberInfo)
      → includes ids id ≡ true
      → member_info env provider info id ≡ ok i
      → IsKnown ids i
  unfolding member_info
  member_info-IsKnown provider info ids id i among e =
      let (org, known, e1) = >>=-eq-ok (or_throw (env.get_organization id) 500) _ e in
      let roles = get_or org.roles env.default_roles in
      let role = get_or (or_null (asserted_role roles provider.member_role info)) "user" in
      let (_, fine, e2) = >>=-eq-ok (throw_if (not (includes roles role)) 400) _ e1 in
      let (given, _, e3) = >>=-eq-ok (asserted_department provider.member_department info) _ e2 in
      let (department, matched, e4) = >>=-eq-ok (matched_department org given) _ e3 in
      subst (IsKnown ids) (ok_inj e4) (
        not-false (includes roles role) (throw_if-ok _ 400 fine),
        matched_department-known org given department matched,
        (id, among, or_throw-ok (env.get_organization id) 500 known),
      )

  member_infos-IsKnown :
      (provider : AuthProvider) (info : AuthInfo) (ids rest : List String) (is : List MemberInfo)
      → all (includes ids) rest ≡ true
      → member_infos env provider info rest ≡ ok is
      → All (IsKnown ids) is
  unfolding member_infos
  member_infos-IsKnown provider info ids [] is among e = subst (All (IsKnown ids)) (ok_inj e) tt
  member_infos-IsKnown provider info ids (id ∷ rest) is among e =
      let (here, there) = and_split (includes ids id) (all (includes ids) rest) among in
      let (one, known, e1) = >>=-eq-ok (member_info env provider info id) _ e in
      let (others, all_known, e2) = >>=-eq-ok (member_infos env provider info rest) _ e1 in
      subst (All (IsKnown ids)) (ok_inj e2) (
        member_info-IsKnown provider info ids id one here known,
        member_infos-IsKnown provider info ids rest others there all_known,
      )

  all_included :
      (ids rest : List String)
      → ((id : String) → includes rest id ≡ true → includes ids id ≡ true)
      → all (includes ids) rest ≡ true
  all_included ids [] h = refl
  all_included ids (x ∷ rest) h =
      rw (h x (rw (beq_refl x)), all_included ids rest (λ id k. h id (or_right (x == id) k)))

  -- The memberships that a provider asserts are of the organizations of the site or, on the main
  -- site, of the default organizations, with a role and a department that the organization has.
  pub auth_provider_member_info-IsKnown :
      (at_site : Option Site) (provider : AuthProvider) (info : AuthInfo) (is : List MemberInfo)
      → auth_provider_member_info env at_site provider info ≡ ok is
      → All (IsKnown (org_ids env at_site)) is
  unfolding auth_provider_member_info
  auth_provider_member_info-IsKnown at_site provider info is e =
      elim (Bool-cases (is_created env provider.create_member info.email)) [
        | inr refused ↦
            subst (All (IsKnown (org_ids env at_site)))
              (ok_inj (rw (auth_provider_member_info, refused) at e)) tt
        | inl created ↦ of_ids (org_ids env at_site) refl created
      ]
    where
      of_ids :
          (ids : List String)
          → org_ids env at_site ≡ ids
          → is_created env provider.create_member info.email ≡ true
          → All (IsKnown (org_ids env at_site)) is
      of_ids [] none_given created = cc (rw (auth_provider_member_info, created, none_given) at e)
      of_ids (id ∷ ids) same created =
          subst (λ k. All (IsKnown k) is) (sym same)
            (member_infos-IsKnown provider info (id ∷ ids) (id ∷ ids) is
              (all_included (id ∷ ids) (id ∷ ids) (λ _ k. k))
              (rw (auth_provider_member_info, created, same) at e))
