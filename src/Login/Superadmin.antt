-- ===== src/Login/Superadmin.antt =====
-- The administrator of the settings, who logs in by password.
use simple_directory.Types.{Organization, User}
use simple_directory.Passwords.{check_password}
use simple_directory.Login.{
  AdminCredentials, LoginEnv, LoginRequest, LoginStorage, bad_credentials, check_credentials,
  is_outsider, login_user, matching_admin, may_be_admin, moved_or_open, offer_host_change,
  open_login, owner_of, second_factor, superadmin_in, user_login, with_mode,
}
use simple_directory.Tokens.{SessionUser, get_token_payload}
use text.Mathlib.TextEquality.{eq_iff}
use simple_directory.Exits.{>>=-eq-stay, leave_if, stay}
use simple_directory.Sites.{Site}
use simple_directory.Common.{
  Bool, Bool-cases, Option, Option-cases, String, ap, false, inl, inr, none, not, some, some_inj,
  sym, true, ◌&&◌, ◌==◌, ◌∙◌, ◌≡◌, nat_eq, option_eq, string_eq,
}

module _ (env : LoginEnv) where
  pub matching_admin_lem :
      (email : String) (c : AdminCredentials)
      → matching_admin env email ≡ some c
      → (env.admin_credentials ≡ some c) × (c.email ≡ email)
  matching_admin_lem email c e = elim (Option-cases env.admin_credentials) [
    | inl absent ↦ cc (rw (matching_admin, absent) at e)
    | inr (d, known) ↦ elim (Bool-cases (d.email == email)) [
      | inl b ↦
          let same : d ≡ c = some_inj d c (rw (matching_admin, known, b) at e) in
          (
            known ∙ ap some same,
            ap (λ (x : AdminCredentials). x.email) (sym same) ∙ (eq_iff d.email email).0 b,
          )
      | inr b ↦ cc (rw (matching_admin, known, b) at e)
    ]
  ]

  -- a user that is found never becomes the administrator of the settings
  pub not_superadmin :
      (storage : LoginStorage) (r : LoginRequest) (org : Option Organization)
      (email password : String) (payload : SessionUser)
      → user_login env storage r org email password ≡ stay (superadmin_in payload)
      → ⊥
  unfolding user_login open_login offer_host_change
  not_superadmin storage r org email password payload e =
      let (found, _, e1) = >>=-eq-stay (login_user env storage r.site email) _ e in
      let (_, _, e2) = >>=-eq-stay (leave_if found.0.core_id_provider bad_credentials) _ e1 in
      let (_, _, e3) = >>=-eq-stay (check_credentials env storage found.0 password) _ e2 in
      let (_, _, e4) =
        >>=-eq-stay (leave_if (is_outsider org r.members_only found.0) bad_credentials) _ e3 in
      let (_, _, e5) = >>=-eq-stay (leave_if (not found.0.email_confirmed) _) _ e4 in
      moved found.0 found.1 r.site e5
    where
      opened : (u : User) → open_login env storage u r ≡ stay (superadmin_in payload) → ⊥
      opened u k =
          let (p, _, k1) =
            >>=-eq-stay
              (with_mode env r (get_token_payload env.lower env.tokens u (owner_of r.site))) _ k in
          let (_, _, k2) = >>=-eq-stay (second_factor env storage u r) _ k1 in
          elim (Bool-cases (r.offer_admin_mode && not r.admin_mode && may_be_admin env r.site p)) [
            | inl b ↦ cc (rw b at k2)
            | inr b ↦ cc (rw b at k2)
          ]

      moved :
          (u : User) (away : Bool) (at_site : Option Site)
          → moved_or_open env storage r u away at_site ≡ stay (superadmin_in payload)
          → ⊥
      moved u true (some s) k = elim (Bool-cases u.is_admin) [
        | inl b ↦ cc (rw b at k)
        | inr b ↦ cc (rw b at k)
      ]
      moved u true none k = opened u k
      moved u false at_site k = opened u k

  -- the administrator of the settings: the address and the password are those of the settings
  abbrev pub IsSuperadmin : String → String → SessionUser → Type 0
  IsSuperadmin email password payload =
      (c : AdminCredentials) × (env.admin_credentials ≡ some c)
      × (c.email ≡ email)
      × (check_password env.derive password (some c.password) ≡ true)
      × (payload.id ≡ env.superadmin.id)
      × (payload.admin_mode ≡ true)
