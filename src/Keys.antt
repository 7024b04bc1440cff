-- ===== src/Keys.antt =====
-- The signature keys of the tokens: api/src/tokens/keys-manager.ts.
pub mod Prefix
pub mod Invariant
pub mod Start
pub mod Running
mod Tests
use Prim.Native.String
use simple_directory.Common.{
  List, Option, String, [], if◌then◌else◌, ltb, none, some, starts_with, ℕ, ◌∷◌,
}

pub record WebKey : Type 0 where
  pub kid : String
  pub pem : String

pub record SignatureKeys : Type 0 where
  pub private_key : String
  pub public_key : String
  pub web_keys : List WebKey
  pub last_update : ℕ

pub data KeySet : Type 0 where
  session_keys scoped_keys : KeySet

-- mongo.secrets, under the two identifiers of secretIds
pub record Secrets : Type 0 where
  pub of_session : Option SignatureKeys
  pub of_scoped : Option SignatureKeys

-- a fresh pair of keys, with the random part of the identifier of its web key
pub record KeyPair : Type 0 where
  pub private_key : String
  pub public_key : String
  pub uuid : String

-- config.kid, the cipher of the secrets and the pair of keys of the files of an old deployment
pub record KeyEnv : Type 0 where
  pub kid : String
  pub cipher : String → String
  pub decipher : String → String
  pub deprecated : Option KeyPair

abbrev pub secret : KeySet → Secrets → Option SignatureKeys
secret session_keys s = s.of_session
secret scoped_keys s = s.of_scoped

abbrev pub set_secret : KeySet → SignatureKeys → Secrets → Secrets
set_secret session_keys keys s = record s { of_session = some keys }
set_secret scoped_keys keys s = record s { of_scoped = some keys }

abbrev pub kid_prefix : KeySet → String
kid_prefix session_keys = ""
kid_prefix scoped_keys = "scoped-"

module _ (env : KeyEnv) where
  pub read_signature_keys : KeySet → Secrets → Option SignatureKeys
  read_signature_keys set s = elim (secret set s) [
    | none ↦ none
    | some keys ↦ some (record keys { private_key = env.decipher keys.private_key })
  ]

  pub write_signature_keys : KeySet → SignatureKeys → Secrets → Secrets
  write_signature_keys set keys s =
      set_secret set (record keys { private_key = env.cipher keys.private_key }) s

  -- `kid ?? (prefix + config.kid + '-' + randomUUID())`
  pub create_web_key : KeyPair → Option String → KeySet → WebKey
  create_web_key pair kid set = record {
    kid = elim kid [
      | some given ↦ given
      | none ↦ String.◌++◌ (kid_prefix set) (String.◌++◌ env.kid (String.◌++◌ "-" pair.uuid))
    ];
    pem = pair.public_key;
  }

  pub new_keys : KeyPair → List WebKey → ℕ → SignatureKeys
  new_keys pair web_keys now = record {
    private_key = pair.private_key;
    public_key = pair.public_key;
    web_keys = web_keys;
    last_update = now;
  }

  -- `existingKeys.webKeys[0]`
  abbrev pub first_web_key : Option SignatureKeys → List WebKey
  first_web_key none = []
  first_web_key (some keys) = elim keys.web_keys [ [] ↦ [] | k ∷ _ ↦ k ∷ [] ]

  pub rotate_key_set : KeySet → KeyPair → ℕ → Secrets → Secrets
  rotate_key_set set pair now s =
      write_signature_keys set
        (new_keys pair (create_web_key pair none set ∷ first_web_key (read_signature_keys set s))
          now)
        s

  -- rotateKeys without an argument rotates both sets
  pub rotate_keys : Option KeySet → KeyPair → KeyPair → ℕ → Secrets → Secrets
  rotate_keys (some set) pair other now s = rotate_key_set set pair now s
  rotate_keys none pair other now s =
      rotate_key_set scoped_keys other now (rotate_key_set session_keys pair now s)

  -- the session_keys set of a first start: that of the files, else a new one
  pub init_session : KeyPair → ℕ → Secrets → Secrets
  init_session pair now s = elim (read_signature_keys session_keys s) [
    | some _ ↦ s
    | none ↦ elim env.deprecated [
      | some old ↦
          write_signature_keys session_keys
            (new_keys old (create_web_key old (some "simple-directory") session_keys ∷ []) now) s
      | none ↦
          write_signature_keys session_keys
            (new_keys pair (create_web_key pair none session_keys ∷ []) now) s
    ]
  ]

  pub init_scoped : KeyPair → ℕ → Secrets → Secrets
  init_scoped pair now s = elim (read_signature_keys scoped_keys s) [
    | some _ ↦ s
    | none ↦
        write_signature_keys scoped_keys
          (new_keys pair (create_web_key pair none scoped_keys ∷ []) now) s
  ]

  -- `start` throws when the identifier of the configuration takes the prefix of the scoped_keys set
  pub start : KeyPair → KeyPair → ℕ → Secrets → Option Secrets
  start pair other now s =
      if starts_with (String.◌++◌ env.kid "-") "scoped-"
      then none
      else some (init_scoped other now (init_session pair now s))

  -- one turn of rotateLoop, for one set; `days` is the whole number of days between two dates
  pub rotate_if_due : (ℕ → ℕ → ℕ) → KeySet → KeyPair → ℕ → Secrets → Secrets
  rotate_if_due days set pair now s = elim (read_signature_keys set s) [
    | none ↦ s
    | some keys ↦ if ltb 30 (days now keys.last_update) then rotate_key_set set pair now s else s
  ]
