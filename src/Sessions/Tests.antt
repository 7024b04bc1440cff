-- ===== src/Sessions/Tests.antt =====
-- Tests of the server sessions, and the theorems at concrete sessions.
use mathlib.Core.Option
use simple_directory.Sessions.Race.{issue_exchange_token_race}
use simple_directory.Sessions.History.{
  History, exchange_token_current-History, opened, rotated, rotation_of,
}
use simple_directory.Sessions.Swap.{Lives, lives_in_users}
use simple_directory.Sessions.Sole.{first}
use simple_directory.Collection.{list_collection}
use simple_directory.Common.{List, String, [], false, none, ok, refl, some, true, ℕ, ◌∷◌, ◌≡◌}
use simple_directory.Types.{ServerSession}
use simple_directory.Sessions.{
  Holder, SessionStores, exchange_token_current, get_session_by_id, in_grace_window,
  issue_exchange_token, rotate,
}

abbrev opened_session : ServerSession
opened_session = record {
  id = "s1";
  jti = none;
  previous_jti = none;
  rotated_at = none;
  last_keepalive = 1000;
}

abbrev rotation_at : String → ℕ → ServerSession → ServerSession
rotation_at jti now s = rotate (rotation_of s jti now) s

abbrev third : ServerSession
third = rotation_at "c" 90000 (rotation_at "b" 50000 (rotation_at "a" 2000 opened_session))

third-History : History ("c" ∷ "b" ∷ "a" ∷ []) third
third-History =
    rotated
      (rotated (rotated (opened {s = opened_session} refl refl) _ "a" 2000 refl refl refl) _ "b"
        50000 refl refl refl)
      _ "c" 90000 refl refl refl

exchange_token_current-History_example :
    (exchange_token_current 100000 third (some "c") ≡ true)
    × (exchange_token_current 100000 third (some "b") ≡ in_grace_window 100000 (some 90000))
    × (exchange_token_current 100000 third (some "a") ≡ false)
exchange_token_current-History_example =
    exchange_token_current-History third "b" "c" "a" ("a" ∷ []) 100000 third-History refl

in_window : exchange_token_current 100000 third (some "b") ≡ true
unfolding exchange_token_current
in_window = refl

after_window : exchange_token_current 150000 third (some "b") ≡ false
unfolding exchange_token_current
after_window = refl

-- a collection of documents that are an id and its sessions
abbrev holder : Holder
holder = record {
  Doc = String × List ServerSession;
  collection = list_collection (String × List ServerSession);
  id = λ d. d.0;
  sessions = λ d. d.1;
  set_sessions = λ l d. (d.0, l);
  sessions-set_sessions = λ l d. refl;
}

abbrev stores : SessionStores holder holder holder
stores = record {
  in_users = ("ada", third ∷ []) ∷ ("bob", []) ∷ [];
  in_ldap = [];
  in_file = ("eve", record third { id = "s2" } ∷ []) ∷ [];
}

third-Lives : Lives holder holder holder "s1" third stores
third-Lives =
    lives_in_users
      (record {
        doc = ("ada", third ∷ []);
        sole_doc = first refl refl;
        sole_session = first refl refl;
      })
      refl refl

issue_exchange_token_race_example :
    (s₁ : SessionStores holder holder holder) × (s₂ : SessionStores holder holder holder)
    × (issue_exchange_token holder holder holder 95000 "s1" (some "c") none "d" stores
        ≡ ok ("d", s₁))
    × (issue_exchange_token holder holder holder 95000 "s1" (some "c") none "e" s₁ ≡ ok ("d", s₂))
    × Option.map (λ y. y.jti) (get_session_by_id holder holder holder "s1" s₂) ≡ some (some "d")
issue_exchange_token_race_example =
    issue_exchange_token_race holder holder holder 95000 "s1" "c" "d" "e" third stores third-Lives
      refl refl refl refl
