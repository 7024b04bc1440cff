-- ===== src/Nhis/Records.antt =====
-- The records of non-human identities: api/src/nhis/service.ts and api/src/nhis/router.ts.
pub mod Invariant
mod Tests
use simple_directory.Nhis.Scopes.{ScopeLib, check_scopes}
use simple_directory.Members.{clear_department, find_department, has_org_id, has_user_id}
use simple_directory.Common.{
  Bool, List, Option, Result, String, [], err, false, get_or, if◌then◌else◌, includes, is_some, leb,
  ltb, none, not, ok, or_null, or_throw, some, throw_if, true, truthy, ℕ, ◌&&◌, ◌==◌, ◌>>=◌, ◌>>◌,
  ◌||◌, ◌∷◌, nat_eq, option_eq, string_eq,
}
use simple_directory.Types.{Membership, Nhi, Organization, Provider, User}
use simple_directory.Collection.{Collection}
use simple_directory.Tokens.{default_org}

-- the bodies of the two requests; `none` is a field that is not given
pub record NhiPost : Type 0 where
  pub name : String
  pub role : String
  pub department : Option String
  pub provider : Option Provider
  pub subject : Option String
  pub allowed_ips : Option (List String)
  pub ip_binding : Bool
  pub scopes : Option (List String)

-- a field that may be given as null is an option of an option
pub record NhiPatch : Type 0 where
  pub name : Option String
  pub role : Option String
  pub department : Option String
  pub provider : Option Provider
  pub subject : Option String
  pub allowed_ips : Option (Option (List String))
  pub ip_binding : Option Bool
  pub scopes : Option (Option (List String))

-- What the handlers take from elsewhere: checkProvider (it fetches the keys of the issuer),
-- checkAllowedIps (node's BlockList), the library of scopes with the known ones, and the roles of
-- organizations that have none of their own.
pub record NhiChecks : Type 0 where
  pub check_provider : Provider → Result (Unit {0})
  pub check_allowed_ips : List String → Result (Unit {0})
  pub scope_lib : ScopeLib
  pub known_scopes : List String
  pub default_roles : List String

-- `!!provider !== !!subject`
abbrev pub is_half_bound : Option Provider → Option String → Bool
is_half_bound none subject = truthy subject
is_half_bound (some _) subject = not (truthy subject)

abbrev pub check_given {ℓ} : {A : Type ℓ} → (A → Result (Unit {0})) → Option A → Result (Unit {0})
check_given f none = ok tt
check_given f (some a) = f a

-- `org.roles?.length ? org.roles : config.roles.defaults`
abbrev pub roles_of : List String → Option (List String) → List String
roles_of defaults none = defaults
roles_of defaults (some []) = defaults
roles_of defaults (some (r ∷ l)) = r ∷ l

abbrev pub root_membership : Organization → String → Membership
root_membership org role = record {
  id = org.id;
  name = org.name;
  role = role;
  department = none;
  department_name = none;
  read_only = false;
}

-- the department of the body, or a 400
abbrev pub place_in : Organization → Option String → Membership → Result Membership
place_in org none o = ok o
place_in org (some id) o = do
  d ← or_throw (find_department org id) 400
  ok (record o { department = some d.id; department_name = some d.name })

abbrev pub bound_nhi : NhiPost → Nhi
bound_nhi body = record {
  provider = if truthy body.subject then body.provider else none;
  subject = if is_some body.provider then or_null body.subject else none;
  allowed_ips = body.allowed_ips;
  ip_binding = body.ip_binding;
  scopes = body.scopes;
}

-- the user that createNhi stores; `email` is nhiSyntheticEmail
pub created_nhi : Organization → String → String → NhiPost → Result User
created_nhi org id email body = do
  membership ← place_in org (or_null body.department) (root_membership org body.role)
  ok (record {
    id = id;
    name = body.name;
    email = email;
    email_confirmed = false;
    host = none;
    path = none;
    organizations = membership ∷ [];
    nhi = some (bound_nhi body);
    sessions = [];
    default_org = none;
    default_dep = none;
    ignore_personal_account = true;
    planned_deletion = none;
    is_admin = false;
    org_storage = false;
    core_id_provider = false;
  })

-- the fields of `patch.nhi`
abbrev pub new_provider : NhiPatch → Nhi → Option Provider
new_provider b n = elim b.provider [ none ↦ n.provider | some p ↦ some p ]

abbrev pub new_subject : NhiPatch → Nhi → Option String
new_subject b n = if truthy b.subject then b.subject else n.subject

abbrev pub get_given {ℓ} : {A : Type ℓ} → Option A → A → A
get_given none a = a
get_given (some b) a = b

abbrev pub check_nullable :
    {A : Type 0} → (A → Result (Unit {0})) → Option (Option A) → Result (Unit {0})
check_nullable f none = ok tt
check_nullable f (some none) = ok tt
check_nullable f (some (some a)) = f a

abbrev pub touches_nhi : NhiPatch → Bool
touches_nhi b =
    truthy b.subject
    || is_some b.provider
    || is_some b.allowed_ips
    || is_some b.ip_binding
    || is_some b.scopes

module _ (c : NhiChecks) where
  pub patched_nhi : NhiPatch → Nhi → Result Nhi
  patched_nhi b n = do
    throw_if (is_half_bound (new_provider b n) (new_subject b n)) 400
    check_nullable c.check_allowed_ips b.allowed_ips
    check_nullable (λ l. check_scopes c.scope_lib l c.known_scopes (get_or n.scopes [])) b.scopes
    ok (record {
      provider = new_provider b n;
      subject = new_subject b n;
      allowed_ips = get_given b.allowed_ips n.allowed_ips;
      ip_binding = get_given b.ip_binding n.ip_binding;
      scopes = get_given b.scopes n.scopes;
    })

  abbrev pub patched_role : List String → Option String → Membership → Result Membership
  patched_role roles none o = ok o
  patched_role roles (some r) o = do
    throw_if (not (includes roles r)) 400
    ok (record o { role = r })

  -- the empty text removes the department
  abbrev pub patched_place : Organization → Option String → Membership → Result Membership
  patched_place org none o = ok o
  patched_place org (some id) o =
      if id == "" then ok (clear_department o) else place_in org (some id) o

  abbrev pub patched_nhi_of : NhiPatch → Option Nhi → Result (Option Nhi)
  patched_nhi_of b none = ok none
  patched_nhi_of b (some n) =
      if touches_nhi b then (patched_nhi b n >>= λ n'. ok (some n')) else ok (some n)

  abbrev pub patched_org_of : Organization → NhiPatch → List Membership → Result (List Membership)
  patched_org_of org b [] = ok []
  patched_org_of org b (o ∷ l) = do
    o' ← patched_role (roles_of c.default_roles org.roles) (or_null b.role) o
    o'' ← patched_place org b.department o'
    ok (if truthy b.role || is_some b.department then o'' ∷ [] else o ∷ l)

  -- the new user of the PATCH handler
  pub patched_user : Organization → NhiPatch → User → Result User
  patched_user org b user = do
    check_given c.check_provider b.provider
    n ← patched_nhi_of b user.nhi
    l ← patched_org_of org b user.organizations
    ok (record user {
      name = if truthy b.name then get_or b.name "" else user.name;
      nhi = n;
      organizations = l;
    })

-- getNhi: the identity belongs to the organization, and to it only
abbrev pub is_nhi_of : String → User → Bool
is_nhi_of org_id user =
    is_some user.nhi
    && (elim user.organizations [ [] ↦ false | o ∷ [] ↦ o.id == org_id | _ ∷ _ ∷ _ ↦ false ])

abbrev pub the_nhi : String → Option User → Result User
the_nhi org_id none = err 404
the_nhi org_id (some user) = if is_nhi_of org_id user then ok user else err 404

module _ (c : NhiChecks) (users : Collection User) (orgs : Collection Organization) where
  pub get_nhi : String → String → users.Store → Result User
  get_nhi org_id id s = the_nhi org_id (users.find_one (has_user_id id) s)

  -- POST; `limit` and `consumption` are store_nb_members of getOrgLimits
  pub post_nhi :
      Bool
      → ℕ
      → ℕ
      → String
      → String
      → String
      → NhiPost
      → users.Store
      → orgs.Store
      → Result users.Store
  post_nhi is_org_admin limit consumption org_id id email body s t = do
    throw_if (not is_org_admin) 403
    org ← or_throw (orgs.find_one (has_org_id org_id) t) 404
    throw_if (not (includes (roles_of c.default_roles org.roles) body.role)) 400
    throw_if (is_half_bound body.provider body.subject) 400
    check_given c.check_provider body.provider
    check_given c.check_allowed_ips body.allowed_ips
    check_given (λ l. check_scopes c.scope_lib l c.known_scopes []) body.scopes
    throw_if (ltb 0 limit && leb limit consumption) 429
    user ← created_nhi org id email body
    ok (users.insert_one user s)

  pub patch_nhi : Bool → String → String → NhiPatch → users.Store → orgs.Store → Result users.Store
  patch_nhi is_org_admin org_id id body s t = do
    throw_if (not is_org_admin) 403
    org ← or_throw (orgs.find_one (has_org_id org_id) t) 404
    user ← get_nhi org.id id s
    user' ← patched_user c org body user
    ok (users.update_one (has_user_id user.id) (λ u. user') s)
