-- ===== src/Invitations.antt =====
-- Invitations: api/src/invitations/service.ts, the short form of an invitation in its token. Its child
-- modules are the routes of api/src/invitations/router.ts.
pub mod RoundTrip
pub mod Accept
mod Tests
use simple_directory.Common.{
  List, Option, String, [], if◌then◌else◌, is_some, none, some, ◌==◌, ◌∷◌, nat_eq, option_eq,
  string_eq,
}

-- a value of an object, and an object as the function from its keys; a missing key has no value
pub data Json : Type 0 where
  null : Json
  text : String → Json
  texts : List String → Json

abbrev pub Object : Type 0
Object = String → Option Json

-- `mapping`: the short and the long keys
abbrev pub mapping : List (String × String)
mapping =
    ("n", "name")
    ∷ ("e", "email")
    ∷ ("r", "role")
    ∷ ("d", "department")
    ∷ ("rd", "redirect")
    ∷ ("ds", "departments")
    ∷ []

abbrev pub not_null : Option Json → Option Json
not_null none = none
not_null (some null) = none
not_null (some (text s)) = some (text s)
not_null (some (texts l)) = some (texts l)

abbrev pub without_nulls : Object → Object
without_nulls o k = not_null (o k)

-- `if (from in o) { o[to] = o[from]; delete o[from] }`
abbrev pub rename_key : String → String → Object → Object
rename_key from to o k =
    if is_some (o from) then (if k == from then none else if k == to then o from else o k) else o k

unfoldable pub shorten_keys : List (String × String) → Object → Object
shorten_keys [] o = o
shorten_keys ((short, long) ∷ m) o = shorten_keys m (rename_key long short o)

unfoldable pub unshorten_keys : List (String × String) → Object → Object
unshorten_keys [] o = o
unshorten_keys ((short, long) ∷ m) o = unshorten_keys m (rename_key short long o)

unfoldable pub shorten_invit : Object → Object
shorten_invit o = shorten_keys mapping (without_nulls o)

unfoldable pub unshorten_invit : Object → Object
unshorten_invit o = unshorten_keys mapping o
