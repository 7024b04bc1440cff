-- ===== src/MemberRoutes/Allowed.antt =====
-- Who may change the role of a member, and of which one.
use simple_directory.MemberRoutes.{
  FindMembersParams, LimitsDoc, Member, Requester, RouteConfig, RouteStores, change_role,
  find_members, is_matching_user, member_params, members_from, to_list,
}
use simple_directory.Types.{Organization, User}
use simple_directory.Members.{MemberPatch, has_org_id}
use simple_directory.OauthTokens.{OauthToken}
use simple_directory.Collection.{Collection}
use simple_directory.Grants.{GrantDoc, TokenDoc}
use simple_directory.Common.{
  >>=-eq-ok, Bool, Bool-cases, List, Option, String, [], any, arith, false, filter, get_or, head?,
  includes, inl, inr, not, ok, option_beq_iff, or_throw, or_throw-ok, refl, some, throw_if,
  throw_if-ok, true, ◌==◌, ◌∷◌, ◌≡◌, nat_eq, option_eq, string_eq,
}

negated : (p : Bool) → not p ≡ false → p ≡ true
negated p h = ground arith

-- a member that is listed comes from a user that matches
any-members_from :
    (id : String) (p : FindMembersParams) (q : User → Bool) (l : List User) (m : Member)
    → head? (members_from id p (filter q l)) ≡ some m
    → any q l ≡ true
any-members_from id p q [] m h = cc
any-members_from id p q (u ∷ l) m h = elim (Bool-cases (q u)) [
  | inl b ↦ rw b refl
  | inr b ↦ rw b (any-members_from id p q l m (rw b at h))
]

module _ (users : Collection User) (tokens : Collection OauthToken) (grants : Collection GrantDoc)
    (refresh codes : Collection TokenDoc) (limits : Collection LimitsDoc)
    (orgs : Collection Organization) (contains same_text : String → String → Bool)
    (cfg : RouteConfig) where
  -- The role of a member is only changed by a human who is logged in and has the role of an
  -- administrator, to a role of the organization, and the user is a human with a membership that
  -- matches the department of the request.
  pub change_role-allowed :
      (r : Requester) (organization_id user_id : String) (department role : Option String)
      (body : MemberPatch)
      (s s' : RouteStores users tokens grants refresh codes limits orgs contains same_text cfg)
      → change_role users tokens grants refresh codes limits orgs contains same_text cfg r
          organization_id user_id department role body s
        ≡ ok s'
      → (r.is_nhi ≡ false)
        × (r.is_logged ≡ true)
        × (r.account_role department ≡ some "admin")
        × ((orga : Organization) × (orgs.find_one (has_org_id organization_id) s.in_orgs
              ≡ some orga)
            × (includes (get_or orga.roles cfg.default_roles) body.role ≡ true))
        × (any
              (is_matching_user users contains same_text organization_id
                (member_params user_id [] (to_list department)))
              (users.docs s.stores.in_users)
            ≡ true)
  unfolding change_role find_members
  change_role-allowed r organization_id user_id department role body s s' e =
      let (_, human, e1) = >>=-eq-ok (throw_if r.is_nhi 403) _ e in
      let (_, logged, e2) = >>=-eq-ok (throw_if (not r.is_logged) 401) _ e1 in
      let (m, listed, e3) =
        >>=-eq-ok
          (or_throw
            (head? (
              find_members users contains same_text organization_id
                (member_params user_id [] (to_list department)) s.stores.in_users))
            404)
          _ e2 in
      let (_, administrator, e4) =
        >>=-eq-ok (throw_if (not (r.account_role department == some "admin")) 403) _ e3 in
      let (orga, found, e5) =
        >>=-eq-ok (or_throw (orgs.find_one (has_org_id organization_id) s.in_orgs) 404) _ e4 in
      let (_, known, _) =
        >>=-eq-ok (throw_if (not (includes (get_or orga.roles cfg.default_roles) body.role)) 400) _
          e5 in
      (
        throw_if-ok r.is_nhi 403 human,
        negated r.is_logged (throw_if-ok (not r.is_logged) 401 logged),
        (option_beq_iff (r.account_role department) (some "admin")).0 (
            negated (r.account_role department == some "admin")
              (throw_if-ok (not (r.account_role department == some "admin")) 403 administrator)),
        (
          orga,
          or_throw-ok (orgs.find_one (has_org_id organization_id) s.in_orgs) 404 found,
          negated (includes (get_or orga.roles cfg.default_roles) body.role) (
              throw_if-ok (not (includes (get_or orga.roles cfg.default_roles) body.role)) 400
                known),
        ),
        any-members_from organization_id (member_params user_id [] (to_list department))
            (is_matching_user users contains same_text organization_id
              (member_params user_id [] (to_list department)))
            (users.docs s.stores.in_users) m
            (or_throw-ok
              (head? (
                find_members users contains same_text organization_id
                  (member_params user_id [] (to_list department)) s.stores.in_users))
              404 listed),
      )
