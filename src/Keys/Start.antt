-- ===== src/Keys/Start.antt =====
-- The start of a service installs the sets of keys that are missing and keeps the others.
use mathlib.Core.Path.{subst}
use Prim.Native.String
use simple_directory.Keys.Invariant.{
  IsConfigured, IsKept, create_web_key-IsKidOf, single_key-IsKeyring, write_signature_keys-IsKept,
}
use simple_directory.Keys.{
  KeyEnv, KeyPair, KeySet, Secrets, SignatureKeys, create_web_key, init_scoped, init_session,
  read_signature_keys, scoped_keys, secret, session_keys, start, write_signature_keys,
}
use simple_directory.Common.{
  Bool-cases, Option-cases, inl, inr, none, refl, some, some_inj, starts_with, ℕ, ◌∙◌, ◌≡◌, ◌⊎◌,
}

module _ (env : KeyEnv) where
  read-missing :
      (set : KeySet) (s : Secrets) → secret set s ≡ none → read_signature_keys env set s ≡ none
  unfolding read_signature_keys
  read-missing set s missing = rw (read_signature_keys, missing)

  read-stored :
      (set : KeySet) (s : Secrets) (keys : SignatureKeys)
      → secret set s ≡ some keys
      → read_signature_keys env set s
        ≡ some (record keys { private_key = env.decipher keys.private_key })
  unfolding read_signature_keys
  read-stored set s keys stored = rw (read_signature_keys, stored)

  -- a set that is missing or as it was
  abbrev pub IsKeptOrMissing : KeySet → Secrets → Type 0
  IsKeptOrMissing set s = (secret set s ≡ none) ⊎ IsKept set s

  -- the initialization of the session keys gives them, and leaves the scoped ones
  init_session-IsKept :
      (pair : KeyPair) (now : ℕ) (s : Secrets)
      → IsConfigured env
      → IsKeptOrMissing session_keys s
      → IsKept session_keys (init_session env pair now s)
  unfolding init_session create_web_key
  init_session-IsKept pair now s fine (inl missing) = elim (Option-cases env.deprecated) [
    | inl new ↦
        rw (init_session, read-missing session_keys s missing)
          (rw new (
            write_signature_keys-IsKept env session_keys session_keys _ s
              (single_key-IsKeyring env session_keys pair none now
                (create_web_key-IsKidOf env session_keys pair fine))
              (inr refl)))
    | inr (old, given) ↦
        rw (init_session, read-missing session_keys s missing)
          (rw given (
            write_signature_keys-IsKept env session_keys session_keys _ s
              (single_key-IsKeyring env session_keys old (some "simple-directory") now refl)
              (inr refl)))
  ]
  init_session-IsKept pair now s fine (inr (keys, stored, ring)) =
      rw (init_session, read-stored session_keys s keys stored) (keys, stored, ring)

  secret-init_session :
      (pair : KeyPair) (now : ℕ) (s : Secrets)
      → secret scoped_keys (init_session env pair now s) ≡ secret scoped_keys s
  unfolding init_session write_signature_keys
  secret-init_session pair now s = elim (Option-cases (read_signature_keys env session_keys s)) [
    | inr (keys, stored) ↦ rw (init_session, stored)
    | inl missing ↦ elim (Option-cases env.deprecated) [
      | inl new ↦ rw (init_session, missing) (rw new)
      | inr (old, given) ↦ rw (init_session, missing) (rw given)
    ]
  ]

  init_scoped-IsKept :
      (pair : KeyPair) (now : ℕ) (s : Secrets)
      → IsConfigured env
      → IsKept session_keys s
      → IsKeptOrMissing scoped_keys s
      → IsKept session_keys (init_scoped env pair now s)
        × IsKept scoped_keys (init_scoped env pair now s)
  unfolding init_scoped
  init_scoped-IsKept pair now s fine h (inl missing) =
      let ring =
        single_key-IsKeyring env scoped_keys pair none now
          (create_web_key-IsKidOf env scoped_keys pair fine) in
      rw (init_scoped, read-missing scoped_keys s missing)
        (
          write_signature_keys-IsKept env scoped_keys session_keys _ s ring (inl h),
          write_signature_keys-IsKept env scoped_keys scoped_keys _ s ring (inr refl),
        )
  init_scoped-IsKept pair now s fine h (inr (keys, stored, ring)) =
      rw (init_scoped, read-stored scoped_keys s keys stored) (h, (keys, stored, ring))

  pub start-IsKept :
      (pair other : KeyPair) (now : ℕ) (s s' : Secrets)
      → start env pair other now s ≡ some s'
      → IsKeptOrMissing session_keys s
      → IsKeptOrMissing scoped_keys s
      → IsConfigured env × IsKept session_keys s' × IsKept scoped_keys s'
  unfolding start
  start-IsKept pair other now s s' e h h' =
      elim (Bool-cases (starts_with (String.◌++◌ env.kid "-") "scoped-")) [
        | inl reserved ↦ cc (rw (start, reserved) at e)
        | inr fine ↦
            let same = some_inj _ s' (rw (start, fine) at e) in
            let (a, b) =
              subst (λ t. IsKept session_keys t × IsKept scoped_keys t) same
                (init_scoped-IsKept other now (init_session env pair now s) fine
                  (init_session-IsKept pair now s fine h) (after_session pair now s h')) in
            (fine, a, b)
      ]
    where
      after_session :
          (pair : KeyPair) (now : ℕ) (s : Secrets)
          → (secret scoped_keys s ≡ none) ⊎ IsKept scoped_keys s
          → (secret scoped_keys (init_session env pair now s) ≡ none)
            ⊎ IsKept scoped_keys (init_session env pair now s)
      after_session pair now s (inl missing) = inl (secret-init_session pair now s ∙ missing)
      after_session pair now s (inr (keys, stored, ring)) =
          inr (keys, secret-init_session pair now s ∙ stored, ring)
