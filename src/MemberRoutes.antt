-- ===== src/MemberRoutes.antt =====
-- The routes of api/src/organizations/router.ts that exclude a member or change its role, over
-- findMembers of api/src/storages/mongo.ts and the counts of api/src/limits/service.ts.
pub mod Allowed
mod Tests
use simple_directory.OauthTokens.{OauthToken}
use simple_directory.Types.{Membership, Nhi, Organization, User}
use simple_directory.Collection.{Collection}
use simple_directory.Sites.{same_bool}
use simple_directory.Users.Storage.{UserStores, delete_user}
use simple_directory.Members.{
  MemberConfig, MemberPatch, has_org_id, has_user_id, in_org, patch_member, remove_member,
}
use simple_directory.Grants.{GrantDoc, TokenDoc}
use simple_directory.Common.{
  Bool, List, Option, Result, String, [], any, false, filter, get_or, head?, if◌then◌else◌,
  includes, is_some, length, map, none, not, ok, or_null, or_throw, some, throw_if, true, truthy, ℕ,
  ◌&&◌, ◌++◌, ◌==◌, ◌>>=◌, ◌>>◌, ◌||◌, ◌∷◌, nat_eq, option_eq, string_eq,
}

-- FindMembersParams without the page and its order; a missing list is empty
pub record FindMembersParams : Type 0 where
  pub ids : List String
  pub q : Option String
  pub roles : List String
  pub departments : List String
  pub emails : List String
  pub email_confirmed : Option Bool
  pub types : Option (List String)

pub record Member : Type 0 where
  pub id : String
  pub name : String
  pub email : String
  pub email_confirmed : Bool
  pub host : Option String
  pub planned_deletion : Option String
  pub role : String
  pub department : Option String
  pub department_name : Option String
  pub read_only : Bool

-- a limits document: the count of members of an identity
pub record LimitsDoc : Type 0 where
  pub is_organization : Bool
  pub id : String
  pub nb_members : ℕ

abbrev pub is_empty {ℓ} : {A : Type ℓ} → List A → Bool
is_empty [] = true
is_empty (_ ∷ _) = false

abbrev pub is_in_department : Membership → String → Bool
is_in_department o dep = if dep == "-" then not (is_some o.department) else o.department == some dep

-- `$elemMatch` on the memberships
abbrev pub is_matching_entry : String → FindMembersParams → Membership → Bool
is_matching_entry organization_id p o =
    o.id == organization_id
    && (is_empty p.roles || includes p.roles o.role)
    && (is_empty p.departments || any (is_in_department o) p.departments)

abbrev pub is_of_types : List String → Option Nhi → Bool
is_of_types types n =
    if not (includes types "nhi")
    then not (is_some n)
    else if not (includes types "user")
    then is_some n
    else true

abbrev pub agrees_if_given : Option Bool → Bool → Bool
agrees_if_given none b = true
agrees_if_given (some a) b = same_bool a b

-- the entries of a user that are listed
abbrev pub is_listed_entry : String → FindMembersParams → Membership → Bool
is_listed_entry organization_id p o =
    o.id == organization_id
    && (is_empty p.departments || includes p.departments (get_or (or_null o.department) "-"))

abbrev pub member_of : User → Membership → Member
member_of u o = record {
  id = u.id;
  name = u.name;
  email = u.email;
  email_confirmed = u.email_confirmed;
  host = u.host;
  planned_deletion = u.planned_deletion;
  role = o.role;
  department = o.department;
  department_name = o.department_name;
  read_only = o.read_only;
}

abbrev pub members_from : String → FindMembersParams → List User → List Member
members_from organization_id p [] = []
members_from organization_id p (u ∷ l) =
    map (member_of u) (filter (is_listed_entry organization_id p) u.organizations)
    ++ members_from organization_id p l

abbrev pub is_counted : String → User → Bool
is_counted organization_id u =
    any (in_org organization_id) u.organizations && not (is_some u.planned_deletion)

abbrev pub is_limits_of : Bool → String → LimitsDoc → Bool
is_limits_of is_organization id l = same_bool l.is_organization is_organization && l.id == id

-- the filter of the two routes
abbrev pub member_params : String → List String → List String → FindMembersParams
member_params user_id roles departments = record {
  ids = user_id ∷ [];
  q = none;
  roles = roles;
  departments = departments;
  emails = [];
  email_confirmed = none;
  types = none;
}

abbrev pub to_list {ℓ} : {A : Type ℓ} → Option A → List A
to_list none = []
to_list (some a) = a ∷ []

-- `contains` and `same_text` are the two regular expressions, which ignore the case
module _ (users : Collection User) (contains same_text : String → String → Bool) where
  abbrev pub has_text : Option String → User → Bool
  has_text none u = true
  has_text (some q) u = contains u.name q || contains u.email q

  abbrev pub is_matching_user : String → FindMembersParams → User → Bool
  is_matching_user organization_id p u =
      any (is_matching_entry organization_id p) u.organizations
      && (is_empty p.ids || includes p.ids u.id)
      && has_text (or_null p.q) u
      && (is_empty p.emails || any (same_text u.email) p.emails)
      && agrees_if_given p.email_confirmed u.email_confirmed
      && is_of_types (get_or p.types ("user" ∷ [])) u.nhi

  pub find_members : String → FindMembersParams → users.Store → List Member
  find_members organization_id p s =
      members_from organization_id p (filter (is_matching_user organization_id p) (users.docs s))

  pub get_nb_members : String → users.Store → ℕ
  get_nb_members organization_id s = length (filter (is_counted organization_id) (users.docs s))

pub record RouteConfig : Type 0 where
  pub members : MemberConfig
  pub only_create_invited : Bool
  pub default_roles : List String

-- Who asks: whether a user is logged in, whether that user is an identity that is not human, and
-- the role that the library's getAccountRole finds on the organization or on one department of it.
pub record Requester : Type 0 where
  pub is_logged : Bool
  pub is_nhi : Bool
  pub account_role : Option String → Option String

module _ (users : Collection User) (tokens : Collection OauthToken) (grants : Collection GrantDoc)
    (refresh codes : Collection TokenDoc) (limits : Collection LimitsDoc)
    (orgs : Collection Organization) (contains same_text : String → String → Bool)
    (cfg : RouteConfig) where
  pub record RouteStores : Type 0 where
    pub stores : UserStores users tokens grants refresh codes
    pub in_limits : limits.Store
    pub in_orgs : orgs.Store

  pub set_nb_members_limit : String → RouteStores → RouteStores
  set_nb_members_limit organization_id s =
      let count = get_nb_members users contains same_text organization_id s.stores.in_users in
      record s {
        in_limits =
            limits.update_one (is_limits_of true organization_id)
              (λ l. record l { nb_members = count }) s.in_limits;
      }

  pub delete_identity_limits : Bool → String → RouteStores → RouteStores
  delete_identity_limits is_organization id s = record s {
    in_limits = limits.delete_one (is_limits_of is_organization id) s.in_limits;
  }

  -- a user who was only invited does not outlive the last membership
  abbrev pub drop_orphan : User → RouteStores → Result RouteStores
  drop_orphan u s =
      if cfg.only_create_invited && is_empty u.organizations
      then (delete_user users tokens grants refresh codes u.id s.stores >>= λ stores.
          ok (delete_identity_limits false u.id (record s { stores = stores })))
      else ok s

  -- DELETE of a member; the renewal of the session of who asks is in Tokens.Keepalive
  pub exclude_member :
      Requester → String → String → Option String → Option String → RouteStores → Result RouteStores
  exclude_member r organization_id user_id department role s = do
    throw_if (not r.is_logged) 401
    member ←
        or_throw
          (head? (
            find_members users contains same_text organization_id
              (member_params user_id (to_list (or_null role)) (to_list (or_null department)))
              s.stores.in_users))
          404
    throw_if (not (r.account_role (or_null department) == some "admin")) 403
    in_users ←
        remove_member users cfg.members s.stores.in_users organization_id user_id
          (or_null department) role
    u ← or_throw (users.find_one (has_user_id user_id) in_users) 404
    drop_orphan u (
        set_nb_members_limit organization_id
          (record s { stores = record (s.stores) { in_users = in_users } }))

  -- PATCH of a member, likewise
  pub change_role :
      Requester
      → String
      → String
      → Option String
      → Option String
      → MemberPatch
      → RouteStores
      → Result RouteStores
  change_role r organization_id user_id department role body s = do
    throw_if r.is_nhi 403
    throw_if (not r.is_logged) 401
    member ←
        or_throw
          (head? (
            find_members users contains same_text organization_id
              (member_params user_id [] (to_list department)) s.stores.in_users))
          404
    throw_if (not (r.account_role department == some "admin")) 403
    orga ← or_throw (orgs.find_one (has_org_id organization_id) s.in_orgs) 404
    throw_if (not (includes (get_or orga.roles cfg.default_roles) body.role)) 400
    throw_if (cfg.members.multi_roles && not (truthy role)) 400
    in_users ←
        patch_member users orgs cfg.members s.stores.in_users s.in_orgs organization_id user_id
          department role body
    ok (record s { stores = record (s.stores) { in_users = in_users } })
