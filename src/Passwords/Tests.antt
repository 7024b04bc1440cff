-- ===== src/Passwords/Tests.antt =====
-- Tests of the rules of passwords.
use simple_directory.Passwords.{
  PasswordRules, alphabet_length, char_classes, check_password, clear, is_entropy_below,
  validate_rules,
}
use simple_directory.Common.{false, none, refl, some, true, ◌≡◌}

abbrev rules : PasswordRules
rules = record { min_length = 8; min_char_classes = 3; entropy = 60 }

too_short : validate_rules rules "Passw0r" ≡ some "passwordMinLength"
unfolding validate_rules
too_short = refl

two_classes : validate_rules rules "password1" ≡ some "passwordMinCharClasses"
unfolding validate_rules char_classes
two_classes = refl

accepted : validate_rules rules "Passw0rd-12" ≡ none
unfolding validate_rules char_classes is_entropy_below alphabet_length
accepted = refl

clear_password : check_password (λ s p. s) "secret" (some (clear "secret")) ≡ true
unfolding check_password
clear_password = refl

empty_password : check_password (λ s p. s) "" (some (clear "")) ≡ false
unfolding check_password
empty_password = refl
