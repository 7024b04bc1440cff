-- ===== src/Invitations/Tests.antt =====
-- Concrete runs of the short form of invitations and of their acceptance.
use simple_directory.Invitations.Accept.Write.{accept_invitation}
use simple_directory.Users.Storage.{get_user_by_email}
use simple_directory.Collection.{Collection, list_collection}
use simple_directory.Invitations.Accept.Stored.{IsMember, accept_invitation-IsMember}
use simple_directory.Invitations.Accept.{
  AcceptEnv, Acceptance, Invitation, check_acceptance, check_departments, check_invitation,
  error_page, expired, failed, get_invitation_redirect, malformed, member_departments,
  nb_members_quota, new_departments, read_token, valid,
}
use simple_directory.Invitations.Accept.Allowed.{IsAcceptable, accept_invitation-IsAcceptable}
use simple_directory.Exits.{stay}
use simple_directory.Types.{Organization, User}
use simple_directory.Invitations.{
  Object, null, shorten_invit, shorten_keys, text, texts, unshorten_invit, without_nulls,
}
use simple_directory.Invitations.RoundTrip.{unshorten_invit-shorten_invit}
use simple_directory.Common.{
  [], false, if◌then◌else◌, none, refl, some, true, ℕ, ◌==◌, ◌∷◌, ◌≡◌, ◌⊎◌, nat_eq, option_eq,
  string_eq,
}

abbrev invit : Object
invit k =
    if k == "email"
    then some (text "ada@example.org")
    else if k == "departments"
    then some (texts ("sales" ∷ []))
    else if k == "redirect"
    then some null
    else none

unshorten_invit-shorten_invit_example : unshorten_invit (shorten_invit invit) ≡ without_nulls invit
unshorten_invit-shorten_invit_example =
    unshorten_invit-shorten_invit invit (refl, (refl, (refl, (refl, (refl, (refl, tt))))))

shortened : shorten_invit invit "ds" ≡ some (texts ("sales" ∷ []))
unfolding shorten_invit shorten_keys
shortened = refl

abbrev acme : Organization
acme = record {
  id = "acme";
  name = "Acme";
  departments =
      record { id = "sales"; name = "Sales" } ∷ record { id = "rd"; name = "Research" } ∷ [];
  partners = [];
  roles = none;
  roles_2fa = [];
  host = none;
  path = none;
}

-- a member of the first department of the invitation
abbrev ada : User
ada = record {
  id = "ada";
  name = "Ada";
  email = "ada@example.org";
  email_confirmed = true;
  host = none;
  path = none;
  organizations =
      record {
        id = "acme";
        name = "Acme";
        role = "user";
        department = some "sales";
        department_name = some "Sales";
        read_only = false;
      }
      ∷ [];
  nhi = none;
  sessions = [];
  default_org = none;
  default_dep = none;
  ignore_personal_account = false;
  planned_deletion = none;
  is_admin = false;
  org_storage = false;
  core_id_provider = false;
}

abbrev to_acme : Invitation
to_acme = record {
  email = "ada@example.org";
  id = "acme";
  role = "admin";
  departments = some ("sales" ∷ "rd" ∷ []);
  redirect = none;
}

abbrev env : AcceptEnv
env = record {
  verify_token =
      λ t. if t == "good" then valid to_acme else if t == "old" then expired else malformed;
  decode_token = λ _. to_acme;
  same_text = λ a b. a == b;
  get_organization = λ id. if id == "acme" then some acme else none;
  stored_limit = λ _. none;
  nb_members = λ _. 1;
  default_max_nb_members = 3;
  get_password = none;
  has_provider = λ _. false;
  readonly = false;
  passwordless = false;
  always_accept = false;
  site = none;
  site_url = "https://example.org";
  invitation_redirect = none;
  public_origin = "https://example.org";
  logged_email = none;
  members = record { multi_roles = false; single_membership = false };
}

abbrev users : Collection User
users = list_collection User

abbrev acceptance : Acceptance
acceptance = record {
  invit = to_acme;
  user = ada;
  orga = acme;
  departments = "rd" ∷ [];
  redirect = "https://example.org/simple-directory/invitation";
}

passes : check_acceptance users env (some "good") (ada ∷ []) ≡ stay acceptance
unfolding get_user_by_email check_acceptance check_invitation read_token check_departments
    new_departments member_departments nb_members_quota get_invitation_redirect
passes = refl

-- an old token only serves to find the page
old_token :
    accept_invitation users env (some "old") (ada ∷ [])
    ≡ (error_page "expiredInvitationToken", ada ∷ [])
unfolding get_user_by_email accept_invitation check_acceptance check_invitation read_token
    new_departments member_departments
old_token = refl

accept_invitation-IsMember_example :
    ((n : ℕ) × ((accept_invitation users env (some "good") (ada ∷ [])).0 ≡ failed n))
    ⊎ IsMember users env acceptance (accept_invitation users env (some "good") (ada ∷ [])).1
accept_invitation-IsMember_example =
    accept_invitation-IsMember users env (some "good") (ada ∷ []) acceptance refl refl refl passes

accept_invitation-IsAcceptable_example :
    ((accept_invitation users env (some "good") (ada ∷ [])).1 ≡ (ada ∷ []))
    ⊎ ((a : Acceptance) × IsAcceptable users env (some "good") (ada ∷ []) a)
accept_invitation-IsAcceptable_example =
    accept_invitation-IsAcceptable users env (some "good") (ada ∷ [])
