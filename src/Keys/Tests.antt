-- ===== src/Keys/Tests.antt =====
-- Concrete starts and rotations of the signature keys.
use simple_directory.Keys.{
  KeyEnv, KeyPair, Secrets, SignatureKeys, create_web_key, init_scoped, init_session, new_keys,
  read_signature_keys, rotate_if_due, rotate_key_set, scoped_keys, secret, session_keys, start,
  write_signature_keys,
}
use simple_directory.Keys.Invariant.{IsConfigured, IsKept}
use simple_directory.Keys.Running.{
  Running-IsKept, first_start, no_secrets, rotate_key_set-published, rotation,
}
use simple_directory.Common.{String, [], none, refl, some, ◌-◌, ◌∷◌, ◌≡◌}
use Prim.Native.String

abbrev env : KeyEnv
env = record { kid = "data-fair"; cipher = λ t. t; decipher = λ t. t; deprecated = none }

abbrev pair_of : String → KeyPair
pair_of n = record {
  private_key = String.◌++◌ "private" n;
  public_key = String.◌++◌ "public" n;
  uuid = n;
}

abbrev started : Secrets
started = init_scoped env (pair_of "2") 0 (init_session env (pair_of "1") 0 no_secrets)

-- a service with a reserved identifier does not start
reserved : start (record env { kid = "scoped-1" }) (pair_of "1") (pair_of "2") 0 no_secrets ≡ none
unfolding start
reserved = refl

starts : start env (pair_of "1") (pair_of "2") 0 no_secrets ≡ some started
unfolding start
starts = refl

abbrev rotated : Secrets
rotated = rotate_key_set env session_keys (pair_of "3") 31 started

Running-IsKept_example : IsConfigured env × IsKept session_keys rotated × IsKept scoped_keys rotated
Running-IsKept_example = Running-IsKept env rotated (
    rotation session_keys (pair_of "3") 31 started
      (first_start (pair_of "1") (pair_of "2") 0 started starts))

abbrev first_pair : SignatureKeys
first_pair = record {
  private_key = "private1";
  public_key = "public1";
  web_keys = record { kid = "data-fair-1"; pem = "public1" } ∷ [];
  last_update = 0;
}

first_stored : secret session_keys started ≡ some first_pair
unfolding init_scoped init_session read_signature_keys write_signature_keys new_keys create_web_key
first_stored = refl

rotate_key_set-published_example :
    (after : SignatureKeys) × (read_signature_keys env session_keys rotated ≡ some after)
    × (after.private_key ≡ "private3")
    × (after.public_key ≡ "public3")
    × (after.web_keys ≡ (
        create_web_key env (pair_of "3") none session_keys
        ∷ record { kid = "data-fair-1"; pem = "public1" }
        ∷ []))
rotate_key_set-published_example =
    rotate_key_set-published env session_keys (pair_of "3") 31 started first_pair
      (record { kid = "data-fair-1"; pem = "public1" }) [] (λ t. refl) first_stored refl

-- the loop rotates after more than thirty days
not_due : rotate_if_due env (λ a b. a - b) session_keys (pair_of "3") 30 started ≡ started
unfolding rotate_if_due init_scoped init_session read_signature_keys write_signature_keys new_keys
not_due = refl
