-- ===== src/Invitations/Accept/Allowed.antt =====
-- Which invitations are accepted: what holds when the route writes.
use mathlib.Core.Path.{ap₂, subst, subst₂}
use simple_directory.Invitations.Accept.Write.{accept_invitation}
use simple_directory.Members.{find_department}
use simple_directory.Users.Storage.{get_user_by_email}
use simple_directory.Invitations.Accept.{
  AcceptEnv, Acceptance, Invitation, Page, TokenCheck, already_accepted_all, check_acceptance,
  check_departments, check_invitation, create_user, departments_to_join, error_page, expired,
  invited_departments, is_full, leave_if_accepted, malformed, member_departments, nb_members_quota,
  read_token, target_of, unknown_department, valid,
}
use simple_directory.Collection.{Collection}
use simple_directory.Exits.{
  >>=-eq-stay, Exit-cases, leave_if, leave_if-stay, or_leave, or_leave-stay, stay, stay_inj,
}
use simple_directory.Types.{Organization, User}
use simple_directory.Common.{
  Bool, List, Option, String, [], all, ap, false, get_or, inl, inr, is_some, none, not, not-false,
  refl, some, sym, true, ◌&&◌, ◌∙◌, ◌∷◌, ◌≡◌, ◌⊎◌,
}

module _ (users : Collection User) (env : AcceptEnv) where
  -- what holds of an acceptance: see accept_invitation-IsAcceptable
  pub record IsAcceptable (token : Option String) (s : users.Store) (a : Acceptance) : Type 0 where
    pub valid_token : (t : String) × (token ≡ some t) × (env.verify_token t ≡ valid a.invit)
    pub known_user : get_user_by_email users env.same_text a.invit.email env.site s ≡ some a.user
    pub known_org : env.get_organization a.invit.id ≡ some a.orga
    pub has_room : is_full (nb_members_quota env a.orga) ≡ false
    pub known_departments : all (λ d. is_some (find_department a.orga d)) a.departments ≡ true
    pub is_new :
        already_accepted_all
          (invited_departments a.invit)
          (member_departments a.invit (some a.user))
        ≡ false
    pub rest_of_departments : a.departments ≡ departments_to_join users env a.invit (some a.user)

  check_departments-stay :
      (orga : Organization) (ds : List String) {u : Unit {0}}
      → check_departments orga ds ≡ stay u
      → all (λ d. is_some (find_department orga d)) ds ≡ true
  unfolding check_departments
  check_departments-stay orga [] e = refl
  check_departments-stay orga (d ∷ ds) e =
      let (x, found, rest) = >>=-eq-stay _ _ e in
      rw (or_leave-stay (find_department orga d) (unknown_department d) found)
        (check_departments-stay orga ds rest)

  TokenCheck-cases :
      (c : TokenCheck) → ((i : Invitation) × (c ≡ valid i)) ⊎ (c ≡ expired) ⊎ (c ≡ malformed)
  TokenCheck-cases (valid i) = inl (i, refl)
  TokenCheck-cases expired = inr (inl refl)
  TokenCheck-cases malformed = inr (inr refl)

  not_valid :
      (t : String) (invit : Invitation)
      → false ≡ true
      → (t' : String) × (some t ≡ some t') × (env.verify_token t' ≡ valid invit)
  not_valid t invit h = cc

  read_token-stay :
      (token : Option String) (invit : Invitation)
      → read_token users env token ≡ stay (invit, true)
      → (t : String) × (token ≡ some t) × (env.verify_token t ≡ valid invit)
  unfolding read_token
  read_token-stay none invit e = cc
  read_token-stay (some t) invit e = elim (TokenCheck-cases (env.verify_token t)) [
    | inl (i, v) ↦
        let same : (i, true) ≡ (invit, true) = stay_inj {O = Page} (rw (read_token, v) at e) in
        (t, refl, rw v (ap (λ p. valid p.0) same))
    | inr (inl v) ↦
        let wrong : (env.decode_token t, false) ≡ (invit, true) =
          stay_inj {O = Page} (rw (read_token, v) at e) in
        not_valid t invit (ap (λ p. p.1) wrong)
    | inr (inr v) ↦ cc (rw (read_token, v) at e)
  ]

  abbrev IsChecked : Invitation → Bool → Option User → Acceptance → Type 0
  IsChecked invit verified existing a =
      (a.invit ≡ invit)
      × (verified ≡ true)
      × (existing ≡ some a.user)
      × (env.get_organization invit.id ≡ some a.orga)
      × (is_full (nb_members_quota env a.orga) ≡ false)
      × (all (λ d. is_some (find_department a.orga d)) a.departments ≡ true)
      × (already_accepted_all (invited_departments invit) (member_departments invit existing)
          ≡ false)
      × (a.departments ≡ departments_to_join users env invit existing)

  check_invitation-stay :
      (token : Option String) (invit : Invitation) (verified : Bool) (existing : Option User)
      (a : Acceptance)
      → check_invitation users env token invit verified existing ≡ stay a
      → IsChecked invit verified existing a
  unfolding check_invitation
  check_invitation-stay token invit verified existing a e =
      let page = target_of users env invit in
      let (_, fine, e1) =
        >>=-eq-stay (leave_if (not (is_some existing) && env.readonly) (error_page "userUnknown")) _
          e in
      let (orga, known, e2) =
        >>=-eq-stay (or_leave (env.get_organization invit.id) (error_page "orgaUnknown")) _ e1 in
      let (_, fresh, e3) = >>=-eq-stay (leave_if_accepted users env invit existing page) _ e2 in
      let (_, right, e4) =
        >>=-eq-stay (leave_if (not verified) (error_page "expiredInvitationToken")) _ e3 in
      let (_, checked, e5) =
        >>=-eq-stay (check_departments orga (departments_to_join users env invit existing)) _ e4 in
      let (_, room, e6) =
        >>=-eq-stay (leave_if (is_full (nb_members_quota env orga)) (error_page "maxNbMembers")) _
          e5 in
      let (user, there, e7) =
        >>=-eq-stay (or_leave existing (create_user (get_or token "") page)) _ e6 in
      let found = or_leave-stay existing (create_user (get_or token "") page) there in
      subst (IsChecked invit verified existing) (stay_inj e7) (
        refl,
        not-false verified (leave_if-stay (not verified) _ right),
        found,
        or_leave-stay (env.get_organization invit.id) _ known,
        leave_if-stay (is_full (nb_members_quota env orga)) _ room,
        check_departments-stay orga _ checked,
        is_fresh existing user page found fresh,
        refl,
      )
    where
      is_fresh :
          (existing : Option User) (user : User) (page : String) {t : Unit {0}}
          → existing ≡ some user
          → leave_if_accepted users env invit existing page ≡ stay t
          → already_accepted_all (invited_departments invit) (member_departments invit existing)
            ≡ false
      is_fresh none user page found e = cc
      is_fresh (some u) user page found e = leave_if-stay _ _ e

  pub check_acceptance-IsAcceptable :
      (token : Option String) (s : users.Store) (a : Acceptance)
      → check_acceptance users env token s ≡ stay a
      → IsAcceptable token s a
  unfolding check_acceptance
  check_acceptance-IsAcceptable token s a e =
      let (read, given, e1) = >>=-eq-stay (read_token users env token) _ e in
      let existing = get_user_by_email users env.same_text read.0.email env.site s in
      let (same, verified, found, known, room, deps, fresh, rest) =
        check_invitation-stay token read.0 read.1 existing a e1 in
      record {
        valid_token =
            read_token-stay token a.invit
              (given ∙ ap₂ (λ (i : Invitation) (v : Bool). stay (i, v)) (sym same) verified);
        known_user =
            subst (λ i. get_user_by_email users env.same_text i.email env.site s ≡ some a.user)
              (sym same) found;
        known_org = subst (λ i. env.get_organization i.id ≡ some a.orga) (sym same) known;
        has_room = room;
        known_departments = deps;
        is_new =
            subst₂
              (λ i u. already_accepted_all (invited_departments i) (member_departments i u) ≡ false)
              (sym same) found fresh;
        rest_of_departments =
            subst₂ (λ i u. a.departments ≡ departments_to_join users env i u) (sym same) found rest;
      }

  -- The acceptance of an invitation changes the stored users only if the token is valid, the
  -- user of its email and its organization exist, the organization has room for a member, has all
  -- the departments that the user is to join, and the user is not yet in all departments of the
  -- invitation. In all other cases the users stay as they were.
  pub accept_invitation-IsAcceptable :
      (token : Option String) (s : users.Store)
      → ((accept_invitation users env token s).1 ≡ s) ⊎ ((a : Acceptance) × IsAcceptable token s a)
  unfolding accept_invitation
  accept_invitation-IsAcceptable token s = elim (Exit-cases (check_acceptance users env token s)) [
    | inl (page, left) ↦ inl (rw (accept_invitation, left))
    | inr (a, stayed) ↦ inr (a, check_acceptance-IsAcceptable token s a stayed)
  ]
