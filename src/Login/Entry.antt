-- ===== src/Login/Entry.antt =====
-- The login by password as a whole.
use simple_directory.Types.{Organization}
use simple_directory.Login.{
  LoginEnv, LoginOutcome, LoginRequest, LoginStorage, admin_offer, host_change, logged_in,
  superadmin_in,
}
use simple_directory.Login.Superadmin.{IsSuperadmin}
use simple_directory.Login.Allowed.{IsAllowed}
use simple_directory.Common.{Option, String, nat_eq, option_eq, string_eq}

module _ (env : LoginEnv) where
  -- what holds of the outcome of a login; two outcomes open no session
  abbrev pub IsEntry :
      LoginStorage → Option Organization → String → String → LoginRequest → LoginOutcome → Type 0
  IsEntry storage org email password r (logged_in u payload cookie) =
      IsAllowed env storage org email password r u payload
  IsEntry storage org email password r (superadmin_in payload) =
      IsSuperadmin env email password payload
  IsEntry storage org email password r (host_change _) = Unit
  IsEntry storage org email password r (admin_offer _) = Unit
