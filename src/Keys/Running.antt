-- ===== src/Keys/Running.antt =====
-- The keys of a running service, whatever the order of its restarts and rotations.
use simple_directory.Keys.Start.{start-IsKept}
use simple_directory.Keys.{
  KeyEnv, KeyPair, KeySet, Secrets, SignatureKeys, WebKey, create_web_key, new_keys,
  read_signature_keys, rotate_key_set, scoped_keys, secret, session_keys, start,
  write_signature_keys,
}
use simple_directory.Keys.Invariant.{
  IsConfigured, IsKept, first_web_key-read, rotate_key_set-IsKept,
}
use simple_directory.Common.{List, String, [], ap, inl, inr, none, refl, some, ℕ, ◌∷◌, ◌≡◌}

abbrev pub no_secrets : Secrets
no_secrets = record { of_session = none; of_scoped = none }

module _ (env : KeyEnv) where
  -- the secrets of a service that has started
  pub data Running : Secrets → Type 0 where
    first_start :
        (pair other : KeyPair) (now : ℕ) (s : Secrets)
        → start env pair other now no_secrets ≡ some s
        → Running s
    restart :
        (pair other : KeyPair) (now : ℕ) (s s' : Secrets)
        → Running s
        → start env pair other now s ≡ some s'
        → Running s'
    rotation :
        (set : KeySet) (pair : KeyPair) (now : ℕ) (s : Secrets)
        → Running s
        → Running (rotate_key_set env set pair now s)

  -- A service that has started keeps, whatever the order of its restarts and rotations, two sets of
  -- keys: each has one or two published keys, the first of which is that of the signatures, and
  -- only the scoped keys have identifiers with the prefix that the libraries look up in that set.
  pub Running-IsKept :
      (s : Secrets) → Running s → IsConfigured env × IsKept session_keys s × IsKept scoped_keys s
  Running-IsKept s (first_start pair other now _ e) =
      start-IsKept env pair other now no_secrets s e (inl refl) (inl refl)
  Running-IsKept s' (restart pair other now t _ r e) =
      let (_, a, b) = Running-IsKept t r in start-IsKept env pair other now t s' e (inr a) (inr b)
  Running-IsKept _ (rotation set pair now t r) =
      let (fine, a, b) = Running-IsKept t r in
      (
        fine,
        rotated set session_keys pair now t fine a b,
        rotated set scoped_keys pair now t fine a b,
      )
    where
      of_set :
          (set : KeySet) (t : Secrets) → IsKept session_keys t → IsKept scoped_keys t → IsKept set t
      of_set session_keys t a b = a
      of_set scoped_keys t a b = b

      rotated :
          (set other : KeySet) (pair : KeyPair) (now : ℕ) (t : Secrets)
          → IsConfigured env
          → IsKept session_keys t
          → IsKept scoped_keys t
          → IsKept other (rotate_key_set env set pair now t)
      rotated set other pair now t fine a b =
          rotate_key_set-IsKept env set other pair now t fine (of_set set t a b)
            (of_set other t a b)

  -- After a rotation the tokens are signed with the new pair, and the key that signed before is
  -- still published, behind the new one, if deciphering undoes the cipher.
  pub rotate_key_set-published :
      (set : KeySet) (pair : KeyPair) (now : ℕ) (s : Secrets) (keys : SignatureKeys) (k : WebKey)
      (rest : List WebKey)
      → ((t : String) → env.decipher (env.cipher t) ≡ t)
      → secret set s ≡ some keys
      → keys.web_keys ≡ (k ∷ rest)
      → (after : SignatureKeys) × (read_signature_keys env set (rotate_key_set env set pair now s)
          ≡ some after)
        × (after.private_key ≡ pair.private_key)
        × (after.public_key ≡ pair.public_key)
        × (after.web_keys ≡ (create_web_key env pair none set ∷ k ∷ []))
  unfolding rotate_key_set read_signature_keys write_signature_keys new_keys
  rotate_key_set-published session_keys pair now s keys k rest law stored e = (
    _,
    refl,
    law pair.private_key,
    refl,
    ap (λ l. create_web_key env pair none session_keys ∷ l)
        (first_web_key-read env session_keys s keys k rest stored e),
  )
  rotate_key_set-published scoped_keys pair now s keys k rest law stored e = (
    _,
    refl,
    law pair.private_key,
    refl,
    ap (λ l. create_web_key env pair none scoped_keys ∷ l)
        (first_web_key-read env scoped_keys s keys k rest stored e),
  )
