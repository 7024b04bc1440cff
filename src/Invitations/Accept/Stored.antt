-- ===== src/Invitations/Accept/Stored.antt =====
-- The user that an accepted invitation leaves in the collection of users.
use mathlib.Core.Path.{subst, subst₂}
use mathlib.Core.Option
use simple_directory.Invitations.Accept.Write.{
  accept_invitation, has_no_org, join, join_all, join_new, perform, set_default_account,
}
use simple_directory.Invitations.Accept.Allowed.{IsAcceptable, check_acceptance-IsAcceptable}
use simple_directory.Members.{added_memberships, has_user_id}
use simple_directory.Exits.{stay}
use simple_directory.Collection.{Collection, find_one-update_one_self}
use simple_directory.Invitations.Accept.Joined.{
  IsJoined, IsStored, is_in, is_in_org, is_joined-is_in, join-err, join-is_in_org, join-ok,
  join_departments-IsJoined, set_memberships-IsStored,
}
use simple_directory.Invitations.Accept.{
  AcceptEnv, Acceptance, check_acceptance, departments_to_join, failed, invited_departments,
  is_joined, member_departments, new_departments, not_joined,
}
use simple_directory.Types.{Organization, User}
use simple_directory.Common.{
  Bool-cases, List, Option, Result-cases, String, [], any, ap, err, false, includes,
  includes-filter, inl, inr, none, ok, ok_inj, or_right, refl, some, sym, true, ℕ, ◌||◌, ◌∙◌, ◌∷◌,
  ◌≡◌, ◌⊎◌, nat_eq, option_eq, string_eq,
}

-- a department of the invitation is one that the user has or one to join
new_departments-covers :
    (ds : List String) (joined : List (Option String)) (d : String)
    → includes ds d ≡ true
    → is_joined joined d ≡ false
    → includes (new_departments ds joined) d ≡ true
unfolding new_departments
new_departments-covers ds joined d i fresh = elim (Bool-cases (any (is_joined joined) ds)) [
  | inl some_joined ↦
      rw (new_departments, some_joined) (rw (includes-filter (not_joined joined) ds d, i, fresh))
  | inr none_joined ↦ rw (new_departments, none_joined) i
]

module _ (users : Collection User) (env : AcceptEnv) where
  join_new-IsJoined :
      (orga : Organization) (role : String) (ds invited : List String) (u u' : User)
      (s s' : users.Store)
      → env.members.single_membership ≡ false
      → IsStored users env s u
      → join_new users env orga role ds invited u s ≡ (ok u', s')
      → IsJoined users env orga ds u s' u'
  unfolding join_new
  join_new-IsJoined orga role [] [] u u' s s' mode h e = whole e
    where
      whole : join users env orga role none u s ≡ (ok u', s') → IsJoined users env orga [] u s' u'
      whole k =
          elim (Result-cases (added_memberships env.members orga role none false u.organizations)) [
            | inr (n, refused) ↦
                let wrong : err n ≡ ok u' =
                  ap (λ p. p.0) (sym (join-err users env orga role none u s n refused) ∙ k) in
                cc
            | inl (l, added) ↦
                let same = sym (join-ok users env orga role none u s l added) ∙ k in
                subst₂ (λ v t. IsJoined users env orga [] u t v) (ok_inj (ap (λ p. p.0) same))
                  (ap (λ p. p.1) same)
                  (
                    set_memberships-IsStored users env s u l h,
                    refl,
                    join-is_in_org users env orga role none u l mode added,
                  )
          ]
  join_new-IsJoined orga role [] (x ∷ invited) u u' s s' mode h e =
      subst₂ (λ v t. IsJoined users env orga [] u t v) (ok_inj (ap (λ p. p.0) e)) (ap (λ p. p.1) e)
        (h, refl, λ d k. k)
  join_new-IsJoined orga role (x ∷ ds) invited u u' s s' mode h e =
      join_departments-IsJoined users env orga role (x ∷ ds) u u' s s' mode h e

  -- every department of the invitation is one that the user had or joins
  covers :
      (a : Acceptance)
      → a.orga.id ≡ a.invit.id
      → a.departments ≡ departments_to_join users env a.invit (some a.user)
      → (d : String) → includes (invited_departments a.invit) d ≡ true
      → (includes a.departments d || is_in_org users env a.orga a.user d) ≡ true
  unfolding member_departments
  covers a ids rest d i =
      elim (Bool-cases (is_joined (member_departments a.invit (some a.user)) d)) [
        | inl had ↦ or_right (includes a.departments d) (
            subst (λ id. any (is_in id d) a.user.organizations ≡ true) (sym ids)
              (is_joined-is_in a.invit.id d a.user.organizations had))
        | inr fresh ↦ rw rest (
            rw (
              new_departments-covers (invited_departments a.invit)
                (member_departments a.invit (some a.user)) d i fresh))
      ]

  -- what is stored for the user in the end
  abbrev pub IsMember : Acceptance → users.Store → Type 0
  IsMember a s =
      (v : User) × (users.find_one (has_user_id a.user.id) s ≡ some v)
      × ((d : String)
          → includes (invited_departments a.invit) d ≡ true
          → is_in_org users env a.orga v d ≡ true)

  accepted :
      (token : Option String) (s : users.Store) (a : Acceptance)
      → check_acceptance users env token s ≡ stay a
      → accept_invitation users env token s ≡ perform users env a s
  unfolding accept_invitation
  accepted token s a e = rw (accept_invitation, e)

  perform-IsMember :
      (s : users.Store) (a : Acceptance) (u' : User)
      → env.members.single_membership ≡ false
      → IsStored users env s a.user
      → ((d : String)
          → includes (invited_departments a.invit) d ≡ true
          → (includes a.departments d || is_in_org users env a.orga a.user d) ≡ true)
      → (join_all users env a s).0 ≡ ok u'
      → IsMember a (perform users env a s).1
  unfolding perform
  perform-IsMember s a u' mode h there fine =
      let s1 = (join_all users env a s).1 in
      let (stored, same, joined) =
        join_new-IsJoined a.orga a.invit.role a.departments (invited_departments a.invit) a.user u'
          s s1 mode h (ap (λ r. (r, s1)) fine) in
      let found : users.find_one (has_user_id a.user.id) s1 ≡ some u' =
        subst (λ id. users.find_one (has_user_id id) s1 ≡ some u') same stored in
      elim (Bool-cases (has_no_org users env a.user)) [
        | inl fresh ↦
            rw (perform, fine)
              (rw fresh (
                set_default_account users env a u',
                find_one-update_one_self users (has_user_id a.user.id)
                      (set_default_account users env a) s1 (λ _ k. k)
                    ∙ ap (Option.map (set_default_account users env a)) found,
                λ d i. joined d (there d i),
              ))
        | inr known ↦ rw (perform, fine) (rw known (u', found, λ d i. joined d (there d i)))
      ]

  -- Out of the single membership mode, an acceptance that passes the checks and does not answer
  -- with an error status leaves the user of the invitation in every department of the invitation,
  -- in the collection of users, if it was the stored document of its id and if the organization
  -- that was read has the id of the invitation.
  pub accept_invitation-IsMember :
      (token : Option String) (s : users.Store) (a : Acceptance)
      → env.members.single_membership ≡ false
      → a.orga.id ≡ a.invit.id
      → IsStored users env s a.user
      → check_acceptance users env token s ≡ stay a
      → ((n : ℕ) × ((accept_invitation users env token s).0 ≡ failed n))
        ⊎ IsMember a (accept_invitation users env token s).1
  unfolding accept_invitation perform
  accept_invitation-IsMember token s a mode ids h e =
      elim (Result-cases (join_all users env a s).0) [
        | inr (n, refused) ↦ inl (n, rw (accept_invitation, e) (rw (perform, refused)))
        | inl (u', fine) ↦ inr (
            subst (λ p. IsMember a p.1) (sym (accepted token s a e))
              (perform-IsMember s a u' mode h
                (λ d i.
                  covers a ids
                    (IsAcceptable.rest_of_departments
                      (check_acceptance-IsAcceptable users env token s a e))
                    d i)
                fine))
      ]
