-- ===== src/Invitations/Accept/Joined.antt =====
-- What an accepted invitation leaves: the user is in all departments of the invitation.
use mathlib.Core.Option
use mathlib.Core.Path.{subst, subst₂}
use simple_directory.Invitations.Accept.Write.{join, join_departments}
use simple_directory.Members.Add.{
  added_memberships-has_membership, added_memberships-keeps, has_membership,
}
use simple_directory.Collection.{Collection, find_one-update_one_self}
use simple_directory.Invitations.Accept.{AcceptEnv, is_joined}
use simple_directory.Members.Exclusive.{option_refl}
use simple_directory.Members.{
  added_memberships, has_user_id, in_org, same_department, set_memberships,
}
use simple_directory.Types.{Membership, Organization, User}
use simple_directory.Common.{
  Bool, Bool-cases, List, Option, Result, Result-cases, String, [], and_split, any, ap, err, false,
  filter, includes, inl, inr, map, ok, ok_inj, or_null, or_right, refl, some, true, ℕ, ◌&&◌, ◌==◌,
  ◌||◌, ◌∙◌, ◌∷◌, ◌≡◌, nat_eq, option_eq, string_eq,
}

-- the user has an entry of the organization with the department
abbrev pub is_in : String → String → Membership → Bool
is_in id d o = o.id == id && same_department o.department (some d)

any_mono :
    (g h : Membership → Bool) (l : List Membership)
    → ((o : Membership) → g o ≡ true → h o ≡ true)
    → any g l ≡ true
    → any h l ≡ true
any_mono g h [] k e = e
any_mono g h (o ∷ l) k e = elim (Bool-cases (g o)) [
  | inl here ↦ rw (k o here)
  | inr there ↦ or_right (h o) (any_mono g h l k (rw there at e))
]

-- an entry whose department the code finds among those of the user
pub is_joined-is_in :
    (id d : String) (l : List Membership)
    → is_joined (map (λ (o : Membership). o.department) (filter (in_org id) l)) d ≡ true
    → any (is_in id d) l ≡ true
is_joined-is_in id d [] e = cc
is_joined-is_in id d (o ∷ l) e = elim (Bool-cases (in_org id o)) [
  | inl mine ↦ elim (Bool-cases (o.department == some d)) [
    | inl same ↦
        rw (mine, (option_eq.beq_iff o.department (some d)).0 same, option_refl (or_null (some d)))
    | inr other ↦ or_right (is_in id d o) (is_joined-is_in id d l (rw (mine, other) at e))
  ]
  | inr other ↦ or_right (is_in id d o) (is_joined-is_in id d l (rw other at e))
]

module _ (users : Collection User) (env : AcceptEnv) where
  -- the user is the stored document of its id
  abbrev pub IsStored : users.Store → User → Type 0
  IsStored s u = users.find_one (has_user_id u.id) s ≡ some u

  pub set_memberships-IsStored :
      (s : users.Store) (u : User) (l : List Membership)
      → IsStored s u
      → IsStored (users.update_one (has_user_id u.id) (set_memberships l) s) (set_memberships l u)
  set_memberships-IsStored s u l h =
      find_one-update_one_self users (has_user_id u.id) (set_memberships l) s (λ _ k. k)
      ∙ ap (Option.map (set_memberships l)) h

  abbrev pub is_in_org : Organization → User → String → Bool
  is_in_org orga u d = any (is_in orga.id d) u.organizations

  -- what joining departments leaves: the user as it is stored, with its departments and those joined
  abbrev pub IsJoined : Organization → List String → User → users.Store → User → Type 0
  IsJoined orga ds u s u' =
      IsStored s u'
      × (u'.id ≡ u.id)
      × ((d : String) → (includes ds d || is_in_org orga u d) ≡ true → is_in_org orga u' d ≡ true)

  -- the entry of one department, and those that were there
  pub join-is_in_org :
      (orga : Organization) (role : String) (dep : Option String) (u : User) (l : List Membership)
      → env.members.single_membership ≡ false
      → added_memberships env.members orga role dep false u.organizations ≡ ok l
      → (d : String) → is_in_org orga u d ≡ true
      → any (is_in orga.id d) l ≡ true
  join-is_in_org orga role dep u l mode added d there =
      added_memberships-keeps env.members orga role dep false (is_in orga.id d) u.organizations l
        (λ o. refl) mode added there

  joined-is_in :
      (orga : Organization) (role d : String) (u : User) (l : List Membership)
      → added_memberships env.members orga role (some d) false u.organizations ≡ ok l
      → any (is_in orga.id d) l ≡ true
  joined-is_in orga role d u l added =
      any_mono (has_membership orga.id role (some d)) (is_in orga.id d) l
        (λ o k. let (a, b) = and_split (is_in orga.id d o) (o.role == role) k in a)
        (added_memberships-has_membership env.members orga role (some d) false u.organizations l
          added)

  pub join-ok :
      (orga : Organization) (role : String) (dep : Option String) (u : User) (s : users.Store)
      (l : List Membership)
      → added_memberships env.members orga role dep false u.organizations ≡ ok l
      → join users env orga role dep u s
        ≡ (ok (set_memberships l u), users.update_one (has_user_id u.id) (set_memberships l) s)
  unfolding join
  join-ok orga role dep u s l added = rw (join, added)

  pub join-err :
      (orga : Organization) (role : String) (dep : Option String) (u : User) (s : users.Store)
      (n : ℕ)
      → added_memberships env.members orga role dep false u.organizations ≡ err n
      → join users env orga role dep u s ≡ (err n, s)
  unfolding join
  join-err orga role dep u s n refused = rw (join, refused)

  pub join_departments-IsJoined :
      (orga : Organization) (role : String) (ds : List String) (u u' : User) (s s' : users.Store)
      → env.members.single_membership ≡ false
      → IsStored s u
      → join_departments users env orga role ds u s ≡ (ok u', s')
      → IsJoined orga ds u s' u'
  unfolding join_departments
  join_departments-IsJoined orga role [] u u' s s' mode h e =
      subst₂ (λ v t. IsJoined orga [] u t v) (ok_inj (ap (λ p. p.0) e)) (ap (λ p. p.1) e)
        (h, refl, λ d k. k)
  join_departments-IsJoined orga role (x ∷ ds) u u' s s' mode h e =
      elim (Result-cases (added_memberships env.members orga role (some x) false u.organizations)) [
        | inr (n, refused) ↦
            let wrong : err n ≡ ok u' =
              ap (λ p. p.0)
                (subst (after ds u' s') (join-err orga role (some x) u s n refused) e) in
            cc
        | inl (l, added) ↦
            let (stored, same, joined) =
              join_departments-IsJoined orga role ds (set_memberships l u) u'
                (users.update_one (has_user_id u.id) (set_memberships l) s) s' mode
                (set_memberships-IsStored s u l h)
                (subst (after ds u' s') (join-ok orga role (some x) u s l added) e) in
            (stored, same, λ d k. joined d (next l x ds u d added k))
      ]
    where
      after : List String → User → users.Store → Result User × users.Store → Type 0
      after ds u' s' p =
          (elim p.0 [
            | ok v ↦ join_departments users env orga role ds v p.1
            | err status ↦ (err status, p.1)
          ])
          ≡ (ok u', s')

      next :
          (l : List Membership) (x : String) (ds : List String) (u : User) (d : String)
          → added_memberships env.members orga role (some x) false u.organizations ≡ ok l
          → (includes (x ∷ ds) d || is_in_org orga u d) ≡ true
          → (includes ds d || any (is_in orga.id d) l) ≡ true
      next l x ds u d added k = elim (Bool-cases (x == d)) [
        | inl here ↦
            or_right (includes ds d)
              (rw (← (string_eq.beq_iff x d).0 here) (joined-is_in orga role x u l added))
        | inr there ↦ elim (Bool-cases (includes ds d)) [
          | inl among ↦ rw among
          | inr never ↦
              or_right (includes ds d)
                (join-is_in_org orga role (some x) u l mode added d (rw (there, never) at k))
        ]
      ]
