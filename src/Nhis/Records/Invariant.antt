-- ===== src/Nhis/Records/Invariant.antt =====
-- What the two handlers keep true of a non-human identity.
use mathlib.Core.Path.{subst}
use simple_directory.Members.{find_department}
use simple_directory.Nhis.Scopes.{check_scopes}
use simple_directory.Common.{
  >>=-eq-ok, Bool-cases, List, Option, String, [], ap, false, get_or, if◌then◌else◌, includes, inl,
  inr, is_some, none, not, ok, ok_inj, or_null, or_throw, refl, some, sym, throw_if, throw_if-ok,
  true, truthy, ◌==◌, ◌||◌, ◌∙◌, ◌∷◌, ◌≡◌, nat_eq, option_eq, string_eq,
}
use simple_directory.Types.{Membership, Nhi, Organization, Provider, User}
use simple_directory.Nhis.Records.{
  NhiChecks, NhiPatch, NhiPost, bound_nhi, check_given, check_nullable, created_nhi, is_half_bound,
  new_provider, new_subject, patched_nhi, patched_nhi_of, patched_org_of, patched_place,
  patched_role, patched_user, place_in, roles_of, root_membership, touches_nhi,
}

-- one membership, in the organization, and a key binding that is whole or absent
abbrev pub IsNhi : String → User → Type 0
IsNhi org_id u =
    ((n : Nhi) × (u.nhi ≡ some n) × (is_half_bound n.provider n.subject ≡ false))
    × ((o : Membership) × (u.organizations ≡ o ∷ []) × (o.id ≡ org_id))

place_in-id :
    (org : Organization) (dep : Option String) (o o' : Membership)
    → place_in org dep o ≡ ok o'
    → o'.id ≡ o.id
place_in-id org none o o' e = sym (ap (λ m. m.id) (ok_inj e))
place_in-id org (some id) o o' e =
    let (d, found, e') = >>=-eq-ok (or_throw (find_department org id) 400) _ e in
    sym (ap (λ m. m.id) (ok_inj e'))

half_bound_normal :
    (provider : Option Provider) (subject : Option String)
    → is_half_bound provider subject ≡ false
    → is_half_bound
        (if truthy subject then provider else none)
        (if is_some provider then or_null subject else none)
      ≡ false
half_bound_normal none subject h = rw h refl
half_bound_normal (some p) subject h = elim (Bool-cases (truthy subject)) [
  | inl b ↦ rw b (again subject b)
  | inr b ↦ cc (rw b at h)
]
  where
    again : (t : Option String) → truthy t ≡ true → not (truthy (or_null t)) ≡ false
    again none k = cc
    again (some t) k = elim (Bool-cases (t == "")) [
      | inl empty ↦ cc (rw empty at k)
      | inr full ↦ rw full (rw full refl)
    ]

-- An identity that is created has one membership, in its organization, and a key binding that is
-- whole or absent, like the body of the request.
pub created_nhi-IsNhi :
    (org : Organization) (id email : String) (body : NhiPost) (u : User)
    → is_half_bound body.provider body.subject ≡ false
    → created_nhi org id email body ≡ ok u
    → IsNhi org.id u
unfolding created_nhi
created_nhi-IsNhi org id email body u whole e =
    let (o, placed, done) =
      >>=-eq-ok (place_in org (or_null body.department) (root_membership org body.role)) _ e in
    let same = ok_inj done in
    (
      (
        bound_nhi body,
        sym (ap (λ u. u.nhi) same),
        half_bound_normal body.provider body.subject whole,
      ),
      (
        o,
        sym (ap (λ u. u.organizations) same),
        place_in-id org (or_null body.department) (root_membership org body.role) o placed,
      ),
    )

module _ (c : NhiChecks) where
  patched_nhi-whole :
      (b : NhiPatch) (n n' : Nhi)
      → patched_nhi c b n ≡ ok n'
      → is_half_bound n'.provider n'.subject ≡ false
  unfolding patched_nhi
  patched_nhi-whole b n n' e =
      let (_, whole, e1) =
        >>=-eq-ok (throw_if (is_half_bound (new_provider b n) (new_subject b n)) 400) _ e in
      let (_, _, e2) = >>=-eq-ok (check_nullable c.check_allowed_ips b.allowed_ips) _ e1 in
      let (_, _, e3) =
        >>=-eq-ok
          (check_nullable (λ l. check_scopes c.scope_lib l c.known_scopes (get_or n.scopes []))
            b.scopes)
          _ e2 in
      subst (λ m. is_half_bound m.provider m.subject ≡ false) (ok_inj e3)
        (throw_if-ok (is_half_bound (new_provider b n) (new_subject b n)) 400 whole)

  patched_role-id :
      (roles : List String) (role : Option String) (o o' : Membership)
      → patched_role c roles role o ≡ ok o'
      → o'.id ≡ o.id
  patched_role-id roles none o o' e = sym (ap (λ m. m.id) (ok_inj e))
  patched_role-id roles (some r) o o' e =
      let (_, _, e') = >>=-eq-ok (throw_if (not (includes roles r)) 400) _ e in
      sym (ap (λ m. m.id) (ok_inj e'))

  patched_place-id :
      (org : Organization) (dep : Option String) (o o' : Membership)
      → patched_place c org dep o ≡ ok o'
      → o'.id ≡ o.id
  patched_place-id org none o o' e = sym (ap (λ m. m.id) (ok_inj e))
  patched_place-id org (some id) o o' e = elim (Bool-cases (id == "")) [
    | inl b ↦ sym (ap (λ m. m.id) (ok_inj (rw b at e)))
    | inr b ↦ place_in-id org (some id) o o' (rw b at e)
  ]

  patched_org-single :
      (org : Organization) (b : NhiPatch) (o : Membership) (l : List Membership)
      → patched_org_of c org b (o ∷ []) ≡ ok l
      → (o' : Membership) × (l ≡ o' ∷ []) × (o'.id ≡ o.id)
  patched_org-single org b o l e =
      let (o₁, role, e1) =
        >>=-eq-ok (patched_role c (roles_of c.default_roles org.roles) (or_null b.role) o) _ e in
      let (o₂, place, e2) = >>=-eq-ok (patched_place c org b.department o₁) _ e1 in
      let ids =
        patched_place-id org b.department o₁ o₂ place
        ∙ patched_role-id (roles_of c.default_roles org.roles) (or_null b.role) o o₁ role in
      elim (Bool-cases (truthy b.role || is_some b.department)) [
        | inl moved ↦ (o₂, sym (ok_inj (rw moved at e2)), ids)
        | inr kept ↦ (o, sym (ok_inj (rw kept at e2)), refl)
      ]

  patched_nhi_of-whole :
      (b : NhiPatch) (n : Nhi) (m : Option Nhi)
      → is_half_bound n.provider n.subject ≡ false
      → patched_nhi_of c b (some n) ≡ ok m
      → (n' : Nhi) × (m ≡ some n') × (is_half_bound n'.provider n'.subject ≡ false)
  patched_nhi_of-whole b n m whole e = elim (Bool-cases (touches_nhi b)) [
    | inr kept ↦ (n, sym (ok_inj (rw kept at e)), whole)
    | inl given ↦
        let (n', patched, e') = >>=-eq-ok (patched_nhi c b n) _ (rw given at e) in
        (n', sym (ok_inj e'), patched_nhi-whole b n n' patched)
  ]

  -- A patch that succeeds keeps an identity one: it has one membership, in the same organization,
  -- and a key binding that is whole or absent, whatever fields the patch gives.
  pub patched_user-IsNhi :
      (org : Organization) (org_id : String) (b : NhiPatch) (u u' : User)
      → IsNhi org_id u
      → patched_user c org b u ≡ ok u'
      → IsNhi org_id u'
  unfolding patched_user
  patched_user-IsNhi org org_id b u u' ((n, nhi, whole), (o, single, here)) e =
      let (_, _, e1) = >>=-eq-ok (check_given c.check_provider b.provider) _ e in
      let (m, patched, e2) = >>=-eq-ok (patched_nhi_of c b u.nhi) _ e1 in
      let (l, moved, e3) = >>=-eq-ok (patched_org_of c org b u.organizations) _ e2 in
      let same = ok_inj e3 in
      let (n', is_n, whole') =
        patched_nhi_of-whole b n m whole (subst (λ k. patched_nhi_of c b k ≡ ok m) nhi patched) in
      let (o', is_o, id) =
        patched_org-single org b o l (subst (λ k. patched_org_of c org b k ≡ ok l) single moved) in
      (
        (n', sym (ap (λ v. v.nhi) same) ∙ is_n, whole'),
        (o', sym (ap (λ v. v.organizations) same) ∙ is_o, id ∙ here),
      )
