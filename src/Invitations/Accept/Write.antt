-- ===== src/Invitations/Accept/Write.antt =====
-- The end of the acceptance of an invitation: the writes of GET /_accept of
-- api/src/invitations/router.ts, and its last page.
use simple_directory.Invitations.Accept.{
  AcceptEnv, Acceptance, Page, check_acceptance, failed, first_department, invited_departments,
  link, login_page, switched,
}
use simple_directory.Members.{added_memberships, has_user_id, set_memberships}
use simple_directory.Collection.{Collection}
use simple_directory.Exits.{leave, stay}
use simple_directory.Types.{Organization, User}
use simple_directory.Common.{
  Bool, List, Option, Result, String, [], err, false, if◌then◌else◌, none, ok, or_null, some, true,
  ◌==◌, ◌∷◌, nat_eq, option_eq, string_eq,
}

module _ (users : Collection User) (env : AcceptEnv) where
  -- addMember on the user that was read, whose memberships it changes in place
  unfoldable pub join :
      Organization → String → Option String → User → users.Store → Result User × users.Store
  join orga role dep u s =
      elim (added_memberships env.members orga role dep false u.organizations) [
        | ok l ↦
            (ok (set_memberships l u), users.update_one (has_user_id u.id) (set_memberships l) s)
        | err status ↦ (err status, s)
      ]

  unfoldable pub join_departments :
      Organization → String → List String → User → users.Store → Result User × users.Store
  join_departments orga role [] u s = (ok u, s)
  join_departments orga role (d ∷ ds) u s =
      let (r, s') = join orga role (some d) u s in
      elim r [ ok u' ↦ join_departments orga role ds u' s' | err status ↦ (err status, s') ]

  -- the departments to join, and those of the invitation
  unfoldable pub join_new :
      Organization
      → String
      → List String
      → List String
      → User
      → users.Store
      → Result User × users.Store
  join_new orga role [] [] u s = join orga role none u s
  join_new orga role [] (_ ∷ _) u s = (ok u, s)
  join_new orga role (d ∷ ds) invited u s = join_departments orga role (d ∷ ds) u s

  abbrev pub join_all : Acceptance → users.Store → Result User × users.Store
  join_all a s = join_new a.orga a.invit.role a.departments (invited_departments a.invit) a.user s

  -- the patch of the first membership, less the name that patchUser computes again
  abbrev pub set_default_account : Acceptance → User → User
  set_default_account a u = record u {
    ignore_personal_account = true;
    default_org = some a.orga.id;
    default_dep = elim (or_null (first_department a.invit)) [
      | none ↦ u.default_dep
      | some d ↦ some d
    ];
  }

  abbrev pub has_no_org : User → Bool
  has_no_org u = elim u.organizations [ [] ↦ true | _ ∷ _ ↦ false ]

  pub end_page : Acceptance → Page
  end_page a =
      if env.logged_email == some a.invit.email
      then switched a.invit.id (or_null (first_department a.invit)) a.invit.role a.redirect
      else login_page (link users env a.invit a.redirect)

  unfoldable pub perform : Acceptance → users.Store → Page × users.Store
  perform a s =
      let (r, s') = join_all a s in
      elim r [
        | err status ↦ (failed status, s')
        | ok _ ↦ (
          end_page a,
          if has_no_org a.user
              then users.update_one (has_user_id a.user.id) (set_default_account a) s'
              else s',
        )
      ]

  unfoldable pub accept_invitation : Option String → users.Store → Page × users.Store
  accept_invitation token s = elim (check_acceptance users env token s) [
    | leave page ↦ (page, s)
    | stay a ↦ perform a s
  ]
