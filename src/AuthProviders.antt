-- ===== src/AuthProviders.antt =====
-- The members that an identity provider asserts: authProviderMemberInfo and patchCoreAuthUser of
-- api/src/auth/service.ts. The attributes that a provider gives are texts here.
pub mod Asserted
mod Tests
use Prim.Native.String
use simple_directory.Members.{MemberConfig, added_memberships}
use simple_directory.Types.{Department, Membership, Organization}
use simple_directory.Sites.{Site}
use simple_directory.Common.{
  Bool, List, Option, Result, String, [], err, false, filter, find, get_or, if◌then◌else◌, includes,
  none, not, ok, or_null, or_throw, some, split_on, throw_if, true, truthy, ◌&&◌, ◌==◌, ◌>>=◌, ◌>>◌,
  ◌||◌, ◌∷◌, nat_eq, option_eq, string_eq,
}

pub data ProviderType : Type 0 where
  saml2 oidc oauth : ProviderType

-- createMember; the old boolean `true` is create_always
pub data CreateMember : Type 0 where
  create_never : CreateMember
  create_always : CreateMember
  create_email_domain : String → CreateMember

-- memberRole; an attribute with the roles that its values stand for, and the default role
pub data MemberRole : Type 0 where
  role_none : MemberRole
  role_static : String → MemberRole
  role_attribute : String → List (String × List String) → Option String → MemberRole

-- memberDepartment; an attribute, whether it is required and its value for the root
pub data MemberDepartment : Type 0 where
  department_none : MemberDepartment
  department_static : String → MemberDepartment
  department_attribute : String → Bool → Option String → MemberDepartment

pub record AuthProvider : Type 0 where
  pub id : String
  pub provider_type : ProviderType
  pub create_member : CreateMember
  pub member_role : MemberRole
  pub member_department : MemberDepartment
  pub core_id_provider : Bool

pub record AuthInfo : Type 0 where
  pub attribute : String → Option String
  pub email : String

pub record MemberInfo : Type 0 where
  pub org : Organization
  pub read_only : Bool
  pub role : String
  pub department : Option String

-- config.defaultOrg and config.roles.defaults, the organizations, and endsWith of the language
pub record ProviderEnv : Type 0 where
  pub default_org : Option String
  pub default_roles : List String
  pub get_organization : String → Option Organization
  pub ends_with : String → String → Bool
  pub members : MemberConfig

abbrev pub has_member_role : MemberRole → Bool
has_member_role role_none = false
has_member_role (role_static _) = true
has_member_role (role_attribute _ _ _) = true

abbrev pub has_member_department : MemberDepartment → Bool
has_member_department department_none = false
has_member_department (department_static _) = true
has_member_department (department_attribute _ _ _) = true

-- the memberships that the provider owns
abbrev pub is_read_only : AuthProvider → Bool
is_read_only p =
    p.core_id_provider
    && (has_member_role p.member_role || has_member_department p.member_department)

-- the first role whose values include the one that was given
abbrev pub mapped_role : List (String × List String) → Option String → Option String
mapped_role [] role = role
mapped_role ((key, values) ∷ rest) none = none
mapped_role ((key, values) ∷ rest) (some given) =
    if includes values given then some key else mapped_role rest (some given)

abbrev pub is_role : List String → Option String → Bool
is_role roles role = elim (or_null role) [ none ↦ false | some r ↦ includes roles r ]

abbrev pub or_default : List String → Option String → Option String → Option String
or_default roles dflt role = if truthy dflt && not (is_role roles role) then dflt else role

abbrev pub asserted_role : List String → MemberRole → AuthInfo → Option String
asserted_role roles role_none info = none
asserted_role roles (role_static role) info = some role
asserted_role roles (role_attribute name values dflt) info =
    or_default roles dflt (mapped_role values (info.attribute name))

abbrev pub at_root : Option String → Option String → Option String
at_root root department = if truthy root && department == root then none else department

abbrev pub asserted_department : MemberDepartment → AuthInfo → Result (Option String)
asserted_department department_none info = ok none
asserted_department (department_static department) info = ok (some department)
asserted_department (department_attribute name required root) info = do
  throw_if (not (truthy (info.attribute name)) && required) 400
  ok (at_root root (info.attribute name))

abbrev pub is_named : String → Department → Bool
is_named department d = d.id == department || d.name == department

-- the identifier of a department that is given by its identifier or its name
abbrev pub matched_department : Organization → Option String → Result (Option String)
matched_department org none = ok none
matched_department org (some department) =
    if department == ""
    then ok (some department)
    else or_throw (find (is_named department) org.departments) 400 >>= λ d. ok (some d.id)

module _ (env : ProviderEnv) where
  abbrev pub is_created : CreateMember → String → Bool
  is_created create_never email = false
  is_created create_always email = true
  is_created (create_email_domain domain) email = env.ends_with email (String.◌++◌ "@" domain)

  abbrev pub org_ids : Option Site → List String
  org_ids (some s) = s.owner.id ∷ []
  org_ids none = elim (or_null env.default_org) [ none ↦ [] | some ids ↦ split_on 44 ids ]

  pub member_info : AuthProvider → AuthInfo → String → Result MemberInfo
  member_info provider info id = do
    org ← or_throw (env.get_organization id) 500
    let roles = get_or org.roles env.default_roles
    let role = get_or (or_null (asserted_role roles provider.member_role info)) "user"
    throw_if (not (includes roles role)) 400
    given ← asserted_department provider.member_department info
    department ← matched_department org given
    ok (record {
      org = org;
      read_only = is_read_only provider;
      role = role;
      department = department;
    })

  pub member_infos : AuthProvider → AuthInfo → List String → Result (List MemberInfo)
  member_infos provider info [] = ok []
  member_infos provider info (id ∷ ids) = do
    one ← member_info provider info id
    rest ← member_infos provider info ids
    ok (one ∷ rest)

  pub auth_provider_member_info : Option Site → AuthProvider → AuthInfo → Result (List MemberInfo)
  auth_provider_member_info at_site provider info =
      if not (is_created provider.create_member info.email) then ok [] else elim (org_ids at_site) [
        | [] ↦ err 500
        | id ∷ ids ↦ member_infos provider info (id ∷ ids)
      ]

  -- addMember of each membership that the provider owns, on the user's list
  pub add_read_only : List MemberInfo → List Membership → Result (List Membership)
  add_read_only [] l = ok l
  add_read_only (i ∷ is) l =
      if i.read_only
      then added_memberships env.members i.org i.role i.department true l >>= add_read_only is
      else add_read_only is l

  abbrev pub not_read_only : Membership → Bool
  not_read_only o = not o.read_only

  -- the memberships of patchCoreAuthUser: those of a core identity provider are dropped, then
  -- added again as it asserts them now
  pub synced_memberships :
      AuthProvider → List MemberInfo → List Membership → Result (List Membership)
  synced_memberships provider is l =
      if provider.core_id_provider then add_read_only is (filter not_read_only l) else ok l
