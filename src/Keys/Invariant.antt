-- ===== src/Keys/Invariant.antt =====
-- What holds of the stored keys of a running service, whatever the order of restarts and rotations.
use text.Mathlib.TextLemmas.{nil-append}
use simple_directory.Keys.Prefix.{scoped_prefix, starts_with-append}
use simple_directory.Keys.{
  KeyEnv, KeyPair, KeySet, Secrets, SignatureKeys, WebKey, create_web_key, first_web_key, new_keys,
  read_signature_keys, rotate_key_set, scoped_keys, secret, session_keys, write_signature_keys,
}
use simple_directory.Common.{
  All, List, Option, String, [], ap, arith, false, inl, inr, length, none, refl, some, starts_with,
  true, ℕ, ◌∙◌, ◌∷◌, ◌≡◌, ◌≤◌, ◌⊎◌,
}
use Prim.Native.String

-- the keys of one set have the identifiers that the libraries look up in this set
abbrev pub IsKidOf : KeySet → WebKey → Type 0
IsKidOf session_keys k = starts_with k.kid "scoped-" ≡ false
IsKidOf scoped_keys k = starts_with k.kid "scoped-" ≡ true

-- one or two published keys, of which the first is that of the signatures
abbrev pub IsKeyring : KeySet → SignatureKeys → Type 0
IsKeyring set keys =
    (k : WebKey) × (rest : List WebKey) × (keys.web_keys ≡ (k ∷ rest))
    × (k.pem ≡ keys.public_key)
    × (length rest ≤ 1)
    × IsKidOf set k
    × All (IsKidOf set) rest

abbrev pub IsKept : KeySet → Secrets → Type 0
IsKept set s = (keys : SignatureKeys) × (secret set s ≡ some keys) × IsKeyring set keys

module _ (env : KeyEnv) where
  abbrev pub IsConfigured : Type 0
  IsConfigured = starts_with (String.◌++◌ env.kid "-") "scoped-" ≡ false

  pub create_web_key-IsKidOf :
      (set : KeySet) (pair : KeyPair)
      → IsConfigured
      → IsKidOf set (create_web_key env pair none set)
  unfolding create_web_key
  create_web_key-IsKidOf session_keys pair fine =
      rw (nil-append (String.◌++◌ env.kid (String.◌++◌ "-" pair.uuid)))
        (scoped_prefix env.kid pair.uuid ∙ fine)
  create_web_key-IsKidOf scoped_keys pair fine =
      starts_with-append "scoped-" (String.◌++◌ env.kid (String.◌++◌ "-" pair.uuid))

  -- a write keeps the other set and installs the new one
  pub write_signature_keys-IsKept :
      (set other : KeySet) (keys : SignatureKeys) (s : Secrets)
      → IsKeyring set keys
      → IsKept other s ⊎ (other ≡ set)
      → IsKept other (write_signature_keys env set keys s)
  unfolding write_signature_keys
  write_signature_keys-IsKept session_keys session_keys keys s ring h = (_, refl, ring)
  write_signature_keys-IsKept scoped_keys scoped_keys keys s ring h = (_, refl, ring)
  write_signature_keys-IsKept session_keys scoped_keys keys s ring (inl h) = h
  write_signature_keys-IsKept scoped_keys session_keys keys s ring (inl h) = h
  write_signature_keys-IsKept session_keys scoped_keys keys s ring (inr e) = cc
  write_signature_keys-IsKept scoped_keys session_keys keys s ring (inr e) = cc

  pub first_web_key-read :
      (set : KeySet) (s : Secrets) (keys : SignatureKeys) (k : WebKey) (rest : List WebKey)
      → secret set s ≡ some keys
      → keys.web_keys ≡ (k ∷ rest)
      → first_web_key env (read_signature_keys env set s) ≡ k ∷ []
  unfolding read_signature_keys
  first_web_key-read set s keys k rest stored e = rw (read_signature_keys, stored) (rw e)

  -- a rotation publishes the new key and the one before it
  pub rotate_key_set-IsKept :
      (set other : KeySet) (pair : KeyPair) (now : ℕ) (s : Secrets)
      → IsConfigured
      → IsKept set s
      → IsKept other s
      → IsKept other (rotate_key_set env set pair now s)
  unfolding rotate_key_set new_keys create_web_key
  rotate_key_set-IsKept set other pair now s fine (keys, stored, (k, rest, e, pem, few, kid, kids))
        h =
      write_signature_keys-IsKept set other _ s
        (
          create_web_key env pair none set,
          k ∷ [],
          ap (λ l. create_web_key env pair none set ∷ l)
              (first_web_key-read set s keys k rest stored e),
          refl,
          omega arith,
          create_web_key-IsKidOf set pair fine,
          (kid, tt),
        )
        (inl h)

  pub single_key-IsKeyring :
      (set : KeySet) (pair : KeyPair) (kid : Option String) (now : ℕ)
      → IsKidOf set (create_web_key env pair kid set)
      → IsKeyring set (new_keys env pair (create_web_key env pair kid set ∷ []) now)
  unfolding new_keys create_web_key
  single_key-IsKeyring set pair kid now mine =
      (create_web_key env pair kid set, [], refl, refl, omega arith, mine, tt)
