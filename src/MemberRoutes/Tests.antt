-- ===== src/MemberRoutes/Tests.antt =====
-- Tests of the routes of members.
use simple_directory.MemberRoutes.Allowed.{change_role-allowed}
use simple_directory.MemberRoutes.{
  LimitsDoc, Requester, RouteConfig, RouteStores, change_role, delete_identity_limits,
  exclude_member, find_members, get_nb_members, is_matching_user, member_params,
  set_nb_members_limit,
}
use simple_directory.OauthTokens.{OauthToken}
use simple_directory.Members.{
  has_org_id, patch_member, patched_entry, patched_memberships, remaining_memberships,
  remove_member,
}
use simple_directory.Types.{Membership, Organization, User}
use simple_directory.Grants.{GrantDoc, TokenDoc, revoke_each, revoke_grants}
use simple_directory.Users.Storage.{delete_user}
use simple_directory.Common.{
  Bool, Result, String, [], any, err, false, find, get_or, includes, none, ok, refl, some, true,
  ◌==◌, ◌∷◌, ◌≡◌, nat_eq, option_eq, string_eq,
}
use simple_directory.Collection.{list_collection}

abbrev acme_member : Membership
acme_member = record {
  id = "acme";
  name = "Acme";
  role = "user";
  department = none;
  department_name = none;
  read_only = false;
}

abbrev bob : User
bob = record {
  id = "bob";
  name = "Bob";
  email = "bob@example.com";
  email_confirmed = true;
  host = none;
  path = none;
  organizations = acme_member ∷ [];
  nhi = none;
  sessions = [];
  default_org = none;
  default_dep = none;
  ignore_personal_account = false;
  planned_deletion = none;
  is_admin = false;
  org_storage = false;
  core_id_provider = false;
}

abbrev acme : Organization
acme = record {
  id = "acme";
  name = "Acme";
  departments = [];
  partners = [];
  roles = none;
  roles_2fa = [];
  host = none;
  path = none;
}

abbrev routes : RouteConfig
routes = record {
  members = record { multi_roles = false; single_membership = false };
  only_create_invited = true;
  default_roles = "admin" ∷ "user" ∷ [];
}

abbrev acme_admin : Requester
acme_admin = record { is_logged = true; is_nhi = false; account_role = λ dep. some "admin" }

abbrev same : String → String → Bool
same a b = a == b

abbrev TestStores : Type 0
TestStores =
    RouteStores (list_collection User) (list_collection OauthToken) (list_collection GrantDoc)
      (list_collection TokenDoc) (list_collection TokenDoc) (list_collection LimitsDoc)
      (list_collection Organization) same same routes

abbrev with_bob : TestStores
with_bob = record {
  stores = record {
    in_users = bob ∷ [];
    in_tokens = [];
    oauth = record { in_grants = []; in_refresh = []; in_codes = [] };
  };
  in_limits =
      record { is_organization = true; id = "acme"; nb_members = 1 }
      ∷ record { is_organization = false; id = "bob"; nb_members = 0 }
      ∷ [];
  in_orgs = acme ∷ [];
}

abbrev exclude : Requester → TestStores → Result TestStores
exclude r s =
    exclude_member (list_collection User) (list_collection OauthToken) (list_collection GrantDoc)
      (list_collection TokenDoc) (list_collection TokenDoc) (list_collection LimitsDoc)
      (list_collection Organization) same same routes r "acme" "bob" none none s

-- a user who was only invited is deleted with the last membership, and is not counted any more
last_membership :
    exclude acme_admin with_bob
    ≡ ok (record with_bob {
      stores = record (with_bob.stores) { in_users = [] };
      in_limits = record { is_organization = true; id = "acme"; nb_members = 0 } ∷ [];
    })
unfolding exclude_member find_members remove_member remaining_memberships set_nb_members_limit
    get_nb_members delete_user delete_identity_limits revoke_grants revoke_each
last_membership = refl

not_admin : exclude (record acme_admin { account_role = λ dep. some "user" }) with_bob ≡ err 403
unfolding exclude_member find_members
not_admin = refl

twice :
    exclude acme_admin (record with_bob { stores = record (with_bob.stores) { in_users = [] } })
    ≡ err 404
unfolding exclude_member find_members
twice = refl

abbrev to_role : Requester → String → Result TestStores
to_role r role =
    change_role (list_collection User) (list_collection OauthToken) (list_collection GrantDoc)
      (list_collection TokenDoc) (list_collection TokenDoc) (list_collection LimitsDoc)
      (list_collection Organization) same same routes r "acme" "bob" none none
      (record { role = role; department = none }) with_bob

unknown_role : to_role acme_admin "owner" ≡ err 400
unfolding change_role find_members
unknown_role = refl

of_nhi : to_role (record acme_admin { is_nhi = true }) "admin" ≡ err 403
unfolding change_role
of_nhi = refl

abbrev promoted : TestStores
promoted = record with_bob {
  stores = record (with_bob.stores) {
    in_users = record bob { organizations = record acme_member { role = "admin" } ∷ [] } ∷ [];
  };
}

to_admin : to_role acme_admin "admin" ≡ ok promoted
unfolding change_role find_members patch_member patched_memberships patched_entry
to_admin = refl

change_role-allowed_example :
    (acme_admin.is_nhi ≡ false)
    × (acme_admin.is_logged ≡ true)
    × (acme_admin.account_role none ≡ some "admin")
    × ((orga : Organization) × (find (has_org_id "acme") (acme ∷ []) ≡ some orga)
        × (includes (get_or orga.roles ("admin" ∷ "user" ∷ [])) "admin" ≡ true))
    × (any
          (is_matching_user (list_collection User) same same "acme" (member_params "bob" [] []))
          (bob ∷ [])
        ≡ true)
change_role-allowed_example =
    change_role-allowed (list_collection User) (list_collection OauthToken)
      (list_collection GrantDoc) (list_collection TokenDoc) (list_collection TokenDoc)
      (list_collection LimitsDoc) (list_collection Organization) same same routes acme_admin "acme"
      "bob" none none (record { role = "admin"; department = none }) with_bob promoted to_admin
