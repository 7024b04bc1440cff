-- ===== src/Users.antt =====
-- User records as they leave the storage: cleanUser of api/src/storages/mongo.ts, and their names.
pub mod Storage
mod Tests
use simple_directory.Common.{
  Bool, List, String, arith, false, if◌then◌else◌, includes, is_some, none, not, true, truthy, ◌&&◌,
  ◌==◌, ◌||◌, ◌≡◌, nat_eq, option_eq, string_eq,
}
use simple_directory.Types.{User}

-- `toLowerCase`, which the language's Unicode tables define, is an argument
pub is_admin : (String → String) → List String → User → Bool
is_admin lower admins user =
    if is_some user.nhi
    then false
    else not (truthy user.host) && (includes admins (lower user.email) || user.id == "_superadmin")

-- An identity that is not human, or that belongs to a secondary site, is never an administrator of
-- the service, whatever its email address.
pub is_admin-local :
    (lower : String → String) (admins : List String) (user : User)
    → is_admin lower admins user ≡ true
    → (user.nhi ≡ none) × (truthy user.host ≡ false)
unfolding is_admin
is_admin-local lower admins user h = ground arith
