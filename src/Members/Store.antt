-- ===== src/Members/Store.antt =====
-- addMember and patchMember in the collection of users: the invariant of all users.
use simple_directory.Common.{
  >>=-eq-ok, All, Bool, Bool-cases, List, Option, Option-cases, Result-cases, String, [], find, inl,
  inr, not, ok, ok_inj, or_null, some, some_inj, sym, true, truthy, update_first, ◌&&◌, ◌>>=◌, ◌∙◌,
  ◌∷◌, ◌≡◌,
}
use simple_directory.Collection.{Collection}
use simple_directory.Types.{Department, Organization, User}
use simple_directory.Members.{
  MemberConfig, MemberPatch, add_member, added_memberships, has_org_id, has_user_id,
  patch_department, patch_member, patched_memberships, set_memberships,
}
use simple_directory.Members.Exclusive.{IsExclusive, IsSingle}
use simple_directory.Members.Patch.{patched_memberships-IsExclusive}
use simple_directory.Members.Add.{added_memberships-IsExclusive}

abbrev pub HasExclusive : User → Type 0
HasExclusive u = IsExclusive u.organizations

All-update_first :
    (p : User → Bool) (f : User → User) (l : List User)
    → ((u : User) → p u ≡ true → HasExclusive (f u))
    → All HasExclusive l
    → All HasExclusive (update_first p f l)
All-update_first p f [] k h = tt
All-update_first p f (u ∷ l) k (h, hs) = elim (Bool-cases (p u)) [
  | inl here ↦ rw here (k u here, hs)
  | inr there ↦ rw there (h, All-update_first p f l k hs)
]

All-find :
    (p : User → Bool) (l : List User) (u : User)
    → All HasExclusive l
    → find p l ≡ some u
    → HasExclusive u
All-find p [] u h e = cc
All-find p (v ∷ l) u (h, hs) e = elim (Bool-cases (p v)) [
  | inl here ↦ let same : some v ≡ some u = rw here at e in rw (← (some_inj v u same)) h
  | inr there ↦ All-find p l u hs (rw there at e)
]

module _ (users : Collection User) (cfg : MemberConfig) where
  -- Adding an up to date user keeps the invariant of all stored users.
  pub add_member-All :
      (s s' : users.Store) (orga : Organization) (user : User) (role : String)
      (department : Option String) (read_only : Bool)
      → All HasExclusive (users.docs s)
      → HasExclusive user
      → (cfg.single_membership ≡ true → IsSingle user.organizations)
      → add_member users cfg s orga user role department read_only ≡ ok s'
      → All HasExclusive (users.docs s')
  unfolding add_member
  add_member-All s s' orga user role department read_only h hu single e =
      let (l, added, written) =
        >>=-eq-ok (added_memberships cfg orga role department read_only user.organizations)
          (λ l. ok (users.update_one (has_user_id user.id) (set_memberships l) s)) e in
      rw (← (ok_inj written)) (
        rw (users.docs-update_one (has_user_id user.id) (set_memberships l) s) (
          All-update_first (has_user_id user.id) (set_memberships l) (users.docs s)
            (λ u _.
              added_memberships-IsExclusive cfg orga role department read_only user.organizations l
                hu single added)
            h))

module _ (users : Collection User) (orgs : Collection Organization) (cfg : MemberConfig) where
  -- A successful patch of a member, read from and written to the collection, keeps the invariant
  -- of all stored users.
  pub patch_member-All :
      (s s' : users.Store) (t : orgs.Store) (id user_id : String) (department role : Option String)
      (patch : MemberPatch)
      → All HasExclusive (users.docs s)
      → patch_member users orgs cfg s t id user_id department role patch ≡ ok s'
      → All HasExclusive (users.docs s')
  unfolding patch_member
  patch_member-All s s' t id user_id department role patch h e =
      elim (Bool-cases (not (truthy role) && cfg.multi_roles)) [
        | inl bad ↦ cc (rw bad at e)
        | inr fine ↦ elim (Option-cases (orgs.find_one (has_org_id id) t)) [
          | inl absent ↦ cc (rw (fine, absent) at e)
          | inr (org, known) ↦
              elim (Result-cases (patch_department org (or_null patch.department))) [
                | inr (n, unknown) ↦ cc (rw (fine, known, unknown) at e)
                | inl (d, dep) ↦ elim (Option-cases (users.find_one (has_user_id user_id) s)) [
                  | inl nobody ↦ cc (rw (fine, known, dep, nobody) at e)
                  | inr (u, found) ↦ written d u found (rw (fine, known, dep, found) at e)
                ]
              ]
        ]
      ]
    where
      written :
          (d : Option Department) (u : User)
          → users.find_one (has_user_id user_id) s ≡ some u
          → (patched_memberships cfg id role department patch d u.organizations >>= λ l.
              ok (users.update_one (has_user_id user_id) (set_memberships l) s))
            ≡ ok s'
          → All HasExclusive (users.docs s')
      written d u found k =
          let (l, patched, result) =
            >>=-eq-ok (patched_memberships cfg id role department patch d u.organizations)
              (λ l. ok (users.update_one (has_user_id user_id) (set_memberships l) s)) k in
          let before =
            All-find (has_user_id user_id) (users.docs s) u h
              (sym (users.find_one_lem (has_user_id user_id) s) ∙ found) in
          rw (← (ok_inj result)) (
            rw (users.docs-update_one (has_user_id user_id) (set_memberships l) s) (
              All-update_first (has_user_id user_id) (set_memberships l) (users.docs s)
                (λ _ _.
                  patched_memberships-IsExclusive cfg id role department patch d u.organizations l
                    before patched)
                h))
