-- ===== src/Login/Uniform.antt =====
-- The refusals of the login by password: they do not tell which accounts there are.
use simple_directory.Passwords.{check_password}
use simple_directory.Sites.{Site}
use simple_directory.Types.{Organization, User}
use simple_directory.Login.{
  AdminCredentials, LoginEnv, LoginOutcome, LoginRequest, LoginStorage, Refusal, bad_credentials,
  check_credentials, has_department, is_password_of, is_usable, login_user, matching_admin,
  password_login, storage_for, superadmin_login, target_org, user_login,
}
use simple_directory.Exits.{Exit, leave, leave_if, or_leave, stay, ◌>>=◌, ◌>>◌}
use simple_directory.Common.{
  Bool, Bool-cases, Option, Option-cases, String, false, inl, inr, is_some, none, not, or_null,
  refl, some, true, ◌&&◌, ◌||◌, ◌≡◌,
}

-- a check that refuses, whatever it is that it refuses first
refused_first :
    {O S : Type 0} (b : Bool) (o : O) (rest : Exit O S)
    → rest ≡ leave o
    → (leave_if b o >> rest) ≡ leave o
refused_first true o rest e = refl
refused_first false o rest e = e

refused_or :
    {O R S : Type 0} (m : Option R) (o : O) (next : R → Exit O S)
    → ((x : R) → m ≡ some x → next x ≡ leave o)
    → (or_leave m o >>= next) ≡ leave o
refused_or none o next e = refl
refused_or (some x) o next e = e x refl

module _ (env : LoginEnv) where
  check_credentials-refused :
      (storage : LoginStorage) (u : User) (password : String)
      → (is_some storage.get_password || is_some storage.check_password_of) ≡ true
      → (is_some storage.get_password && storage.is_password_outdated u) ≡ false
      → is_password_of env storage u password ≡ false
      → check_credentials env storage u password ≡ leave bad_credentials
  unfolding check_credentials
  check_credentials-refused storage u password checks recent wrong =
      rw recent (rw wrong (no_method _ _ (is_some storage.get_password) _ checks))
    where
      no_method :
          {O : Type 0} (e o : O) (get check : Bool)
          → (get || check) ≡ true
          → (leave_if (not get && not check) e >> leave_if (not false) o) ≡ leave o
      no_method e o true check h = refl
      no_method e o false true h = refl
      no_method e o false false h = cc

  login_user-refused :
      {S : Type 0} (storage : LoginStorage) (at_site : Option Site) (email : String)
      (next : User × Bool → Exit Refusal S)
      → ((u : User) (moved : Bool) (site : Option Site)
          → storage.find_by_email email site ≡ some u
          → next (u, moved) ≡ leave bad_credentials)
      → (login_user env storage at_site email >>= next) ≡ leave bad_credentials
  unfolding login_user
  login_user-refused storage at_site email next refuses =
      elim (Bool-cases
        (is_usable env (storage.find_by_email email at_site) || not (is_some at_site))) [
          | inl b ↦ rw b (from at_site false)
          | inr b ↦ rw b (from none true)
        ]
    where
      from :
          (site : Option Site) (moved : Bool)
          → ((or_leave (storage.find_by_email email site) bad_credentials >>= λ u. stay (u, moved))
              >>= next)
            ≡ leave bad_credentials
      from site moved = elim (Option-cases (storage.find_by_email email site)) [
        | inl none_there ↦ rw none_there refl
        | inr (u, found) ↦ rw found (refuses u moved site found)
      ]

  user_login-refused :
      (storage : LoginStorage) (r : LoginRequest) (org : Option Organization)
      (email password : String)
      → (is_some storage.get_password || is_some storage.check_password_of) ≡ true
      → ((u : User) (site : Option Site)
          → storage.find_by_email email site ≡ some u
          → (is_some storage.get_password && storage.is_password_outdated u) ≡ false)
      → ((u : User) (site : Option Site)
          → storage.find_by_email email site ≡ some u
          → is_password_of env storage u password ≡ false)
      → user_login env storage r org email password ≡ leave bad_credentials
  unfolding user_login
  user_login-refused storage r org email password checks recent wrong =
      login_user-refused storage r.site email _ (λ u moved site found.
        refused_first u.core_id_provider bad_credentials _ (
          rw
            (check_credentials-refused storage u password checks (recent u site found)
              (wrong u site found))
            refl))

  target_org-refused :
      {S : Type 0} (org dep : Option String) (next : Option Organization → Exit Refusal S)
      → ((o : Option Organization) → next o ≡ leave bad_credentials)
      → (target_org env org dep >>= next) ≡ leave bad_credentials
  unfolding target_org
  target_org-refused org dep next refuses = elim (Option-cases (or_null org)) [
    | inl n ↦ rw (target_org, n) (refuses none)
    | inr (id, given) ↦ rw (target_org, given) (in_org (env.get_organization id))
  ]
    where
      in_org :
          (m : Option Organization)
          → ((or_leave m bad_credentials >>= λ o.
                leave_if (not (has_department dep o)) bad_credentials >> stay (some o))
              >>= next)
            ≡ leave bad_credentials
      in_org none = refl
      in_org (some o) = elim (Bool-cases (not (has_department dep o))) [
        | inl b ↦ rw b refl
        | inr b ↦ rw b (refuses (some o))
      ]

  -- A login by password with a wrong password is refused in one way, so that the answer does not tell
  -- which accounts, organizations and departments there are. The conditions: the request
  -- has no session of a core identity provider, the fields are given, the address is well formed, no
  -- limit of rate is reached, the storages can check passwords, and
  -- the password is neither the one of the accounts with that address nor the one of the
  -- administrator of the settings; no account with that address has an outdated password, which is
  -- told before the password is checked.
  pub password_login-refused :
      (r : LoginRequest) (email password : String)
      → r.has_idp_session ≡ false
      → or_null r.email ≡ some email
      → or_null r.password ≡ some password
      → env.is_email (env.trim email) ≡ true
      → env.limit r.ip ≡ true
      → env.limit (env.trim email) ≡ true
      → ((o : Option Organization)
          → (is_some (storage_for env r.wants_org_storage o).get_password
              || is_some (storage_for env r.wants_org_storage o).check_password_of)
            ≡ true)
      → ((o : Option Organization) (u : User) (site : Option Site)
          → (storage_for env r.wants_org_storage o).find_by_email (env.trim email) site ≡ some u
          → (is_some (storage_for env r.wants_org_storage o).get_password
              && (storage_for env r.wants_org_storage o).is_password_outdated u)
            ≡ false)
      → ((o : Option Organization) (u : User) (site : Option Site)
          → (storage_for env r.wants_org_storage o).find_by_email (env.trim email) site ≡ some u
          → is_password_of env (storage_for env r.wants_org_storage o) u password ≡ false)
      → ((c : AdminCredentials)
          → matching_admin env (env.trim email) ≡ some c
          → check_password env.derive password (some c.password) ≡ false)
      → password_login env r ≡ leave bad_credentials
  unfolding password_login
  password_login-refused r email password free given typed well point point' checks recent wrong
        no_admin =
      rw (free, given, well, typed, point, point') (target_org-refused r.org r.dep _ by_user)
    where
      by_user :
          (org : Option Organization)
          → (elim (matching_admin env (env.trim email)) as (λ _. Exit Refusal LoginOutcome) [
            | some c ↦ superadmin_login env r.site password c
            | none ↦
                user_login env
                  (storage_for env r.wants_org_storage org)
                  r
                  org
                  (env.trim email)
                  password
          ])
            ≡ leave bad_credentials
      by_user org = elim (Option-cases (matching_admin env (env.trim email))) [
        | inl n ↦ rw n (
            user_login-refused (storage_for env r.wants_org_storage org) r org (env.trim email)
              password (checks org) (recent org) (wrong org))
        | inr (c, found) ↦ rw (found, no_admin c found) refl
      ]
