-- ===== src/Members/Remove.antt =====
-- removeMember, in the collection of users.
use mathlib.Core.Option
use text.Mathlib.TextEquality.{eq_iff}
use simple_directory.Common.{
  Bool, Bool-cases, List, Option, String, [], and_split, any, any-filter-not, ap, beq-false, false,
  filter, inl, inr, not, ok, ok_inj, refl, some, sym, true, truthy, ◌&&◌, ◌==◌, ◌∙◌, ◌∷◌, ◌≡◌, ◌≢◌,
  nat_eq, option_eq, string_eq,
}
use simple_directory.Collection.{Collection, find_one-update_one_other, find_one-update_one_self}
use simple_directory.Types.{Membership, User}
use simple_directory.Members.{
  MemberConfig, drop_memberships, has_user_id, in_org, is_removed, remaining_memberships,
  remove_member,
}

any-filter_stays :
    (p g : Membership → Bool) (l : List Membership)
    → ((o : Membership) → p o ≡ true → g o ≡ false)
    → any g (filter (λ o. not (p o)) l) ≡ any g l
any-filter_stays p g [] h = refl
any-filter_stays p g (o ∷ l) h = elim (Bool-cases (p o)) [
  | inl gone ↦ rw gone (rw (h o gone) (any-filter_stays p g l h))
  | inr stays ↦ rw stays (rw (any-filter_stays p g l h))
]

module _ (users : Collection User) (cfg : MemberConfig) (id user_id : String)
    (department role : Option String) where
  removed_org : (o : Membership) → is_removed id department role o ≡ true → (o.id == id) ≡ true
  removed_org o h = (and_split (o.id == id) _ ((and_split _ _ h).0)).0

  -- A successful removal leaves the user without any entry of the organization that fits the given
  -- department and role, with the same entries in every other organization, and leaves every other
  -- user as it was.
  pub remove_member-removes :
      (s s' : users.Store) (u : User) (other_org other_id : String)
      → remove_member users cfg s id user_id department role ≡ ok s'
      → users.find_one (has_user_id user_id) s ≡ some u
      → other_org ≢ id
      → other_id ≢ user_id
      → (u' : User) × (users.find_one (has_user_id user_id) s' ≡ some u')
        × (any (is_removed id department role) u'.organizations ≡ false)
        × (any (in_org other_org) u'.organizations ≡ any (in_org other_org) u.organizations)
        × (users.find_one (has_user_id other_id) s' ≡ users.find_one (has_user_id other_id) s)
  unfolding remove_member remaining_memberships
  remove_member-removes s s' u other_org other_id h found ne_org ne_id =
      elim (Bool-cases (cfg.multi_roles && not (truthy role))) [
        | inl bad ↦ cc (rw bad at h)
        | inr fine ↦
            let written : users.update_one (has_user_id user_id)
                  (drop_memberships users cfg id department role) s
                ≡ s' =
              ok_inj (rw fine at h) in
            (
              drop_memberships users cfg id department role u,
              rw (← written) (
                  find_one-update_one_self users (has_user_id user_id)
                    (drop_memberships users cfg id department role) s (λ d e. e)
                  ∙ ap (Option.map (drop_memberships users cfg id department role)) found),
              any-filter-not (is_removed id department role) u.organizations,
              any-filter_stays (is_removed id department role) (in_org other_org) u.organizations
                  elsewhere,
              rw (← written) (
                  find_one-update_one_other users (has_user_id user_id) (has_user_id other_id)
                    (drop_memberships users cfg id department role) s apart),
            )
      ]
    where
      elsewhere :
          (o : Membership) → is_removed id department role o ≡ true → in_org other_org o ≡ false
      elsewhere o e =
          beq-false o.id other_org (λ f. ne_org (sym f ∙ (eq_iff o.id id).0 (removed_org o e)))

      apart :
          (d : User)
          → has_user_id user_id d ≡ true
          → (has_user_id other_id d ≡ false) × (has_user_id other_id d ≡ false)
      apart d e =
          let ne = beq-false d.id other_id (λ f. ne_id (sym f ∙ (eq_iff d.id user_id).0 e)) in
          (ne, ne)
