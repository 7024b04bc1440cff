-- ===== src/Types.antt =====
-- The documents of the service: api/types/organization, api/types/user, api/types/partner,
-- api/types/site. Moments are counted in milliseconds, as `Date.now()` does.
use simple_directory.Common.{Bool, List, Option, String, ℕ}

pub record Department : Type 0 where
  pub id : String
  pub name : String

pub record Partner : Type 0 where
  pub id : Option String
  pub name : String
  pub contact_email : Option String
  pub partner_id : String
  pub created_at : Option ℕ

pub record Organization : Type 0 where
  pub id : String
  pub name : String
  pub departments : List Department
  pub partners : List Partner
  pub roles : Option (List String)
  pub roles_2fa : List String
  pub host : Option String
  pub path : Option String

-- an entry of `user.organizations`
pub record Membership : Type 0 where
  pub id : String
  pub name : String
  pub role : String
  pub department : Option String
  pub department_name : Option String
  pub read_only : Bool

pub record Provider : Type 0 where
  pub issuer : String
  pub jwks : Option String

-- `user.nhi`: a non-human identity
pub record Nhi : Type 0 where
  pub provider : Option Provider
  pub subject : Option String
  pub allowed_ips : Option (List String)
  pub ip_binding : Bool
  pub scopes : Option (List String)

pub record ServerSession : Type 0 where
  pub id : String
  pub jti : Option String
  pub previous_jti : Option String
  pub rotated_at : Option ℕ
  pub last_keepalive : ℕ

pub record User : Type 0 where
  pub id : String
  pub name : String
  pub email : String
  pub email_confirmed : Bool
  pub host : Option String
  pub path : Option String
  pub organizations : List Membership
  pub nhi : Option Nhi
  pub sessions : List ServerSession
  pub default_org : Option String
  pub default_dep : Option String
  pub ignore_personal_account : Bool
  pub planned_deletion : Option String
  pub is_admin : Bool
  pub org_storage : Bool
  pub core_id_provider : Bool
