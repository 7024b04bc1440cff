-- ===== src/Passwords.antt =====
-- Passwords: the rules of shared/password.ts, with api/src/utils/passwords.ts, and the second factor
-- of api/src/2fa/service.ts. Key derivation and one-time codes are parameters.
mod Tests
use Prim.Native.String
use Prim.Native.Char.{code}
use simple_directory.Common.{
  Bool, Option, String, false, if◌then◌else◌, leb, ltb, none, not, or_null, some, true, ℕ, ◌&&◌,
  ◌+◌, ◌==◌, ◌^◌, ◌||◌, nat_eq, option_eq, string_eq,
}

-- Password: clear in minimal storages, else hashed; `params` stands for the salt and the parameters
pub data Password : Type 0 where
  clear : String → Password
  hashed : String → String → Password

-- config.passwordValidation; 0 stands for a rule that is not set
pub record PasswordRules : Type 0 where
  pub min_length : ℕ
  pub min_char_classes : ℕ
  pub entropy : ℕ

-- `string.length`, counted in characters
abbrev pub password_length : String → ℕ
password_length String.[] = 0
password_length (String.◌∷◌ c s) = password_length s + 1

-- the test of a regular expression on one character
abbrev pub any_char : (ℕ → Bool) → String → Bool
any_char p String.[] = false
any_char p (String.◌∷◌ c s) = p (code c) || any_char p s

abbrev pub is_lower : ℕ → Bool
is_lower c = leb b'a' c && leb c b'z'

abbrev pub is_upper : ℕ → Bool
is_upper c = leb b'A' c && leb c b'Z'

abbrev pub is_digit : ℕ → Bool
is_digit c = leb b'0' c && leb c b'9'

abbrev pub is_special : ℕ → Bool
is_special c = not (is_lower c || is_upper c || is_digit c)

abbrev pub count_if : Bool → ℕ → ℕ
count_if true n = n
count_if false n = 0

pub alphabet_length : String → ℕ
alphabet_length s =
    count_if (any_char is_lower s) 26
    + count_if (any_char is_upper s) 26
    + count_if (any_char is_digit s) 10
    + count_if (any_char is_special s) 40

pub char_classes : String → ℕ
char_classes s =
    count_if (any_char is_lower s) 1
    + count_if (any_char is_upper s) 1
    + count_if (any_char is_digit s) 1
    + count_if (any_char is_special s) 1

-- `passwordEntropy(password) < e`: the floor of the logarithm is below a whole number exactly if
-- its argument is below the power of two. Rounding of floating point numbers is not modelled.
pub is_entropy_below : String → ℕ → Bool
is_entropy_below s e = ltb (alphabet_length s ^ password_length s) (2 ^ e)

-- validatePassword of the rules: the message that fails, none for `true`
unfoldable pub validate_rules : PasswordRules → String → Option String
validate_rules r s =
    if not (r.min_length == 0) && ltb (password_length s) r.min_length
    then some "passwordMinLength"
    else if not (r.min_char_classes == 0) && ltb (char_classes s) r.min_char_classes
    then some "passwordMinCharClasses"
    else if not (r.entropy == 0) && is_entropy_below s r.entropy
    then some "passwordEntropy"
    else none

-- validatePassword of the service, with the lists of forbidden passwords
unfoldable pub validate_password : PasswordRules → (String → Bool) → String → Option String
validate_password r is_forbidden s = elim (validate_rules r s) [
  | some error ↦ some error
  | none ↦ if is_forbidden s then some "forbiddenPassword" else none
]

-- checkPassword; `derive` is the key derivation with the parameters of the stored password
abbrev pub matches_stored : (String → String → String) → String → Password → Bool
matches_stored derive s (clear stored) = stored == s
matches_stored derive s (hashed hash params) = derive s params == hash

unfoldable pub check_password : (String → String → String) → String → Option Password → Bool
check_password derive s none = false
check_password derive s (some stored) = not (s == "") && matches_stored derive s stored

-- TwoFA
pub record TwoFa : Type 0 where
  pub active : Bool
  pub secret : String
  pub recovery : Option Password

-- is2FAValid; `check` is the library of one-time codes
unfoldable pub is_2fa_valid : (String → String → Bool) → Option String → String → Bool
is_2fa_valid check secret token = elim (or_null secret) [ none ↦ false | some s ↦ check token s ]

abbrev pub is_active : Option TwoFa → Bool
is_active none = false
is_active (some t) = t.active

unfoldable pub is_2fa_required : Bool → Option TwoFa → Bool
is_2fa_required required t = is_active t || required

-- check2FASession; `verify` gives the user of a token whose signature and date are valid
unfoldable pub check_2fa_session : (String → Option String) → Option String → String → Bool
check_2fa_session verify cookie user_id = elim (or_null cookie) [
  | none ↦ false
  | some token ↦ verify token == some user_id
]
