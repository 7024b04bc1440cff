-- ===== src/Sessions/Swap.antt =====
-- The compare-and-swap of updateSessionById, and what concurrent keepalives are served.
use simple_directory.Common.{
  Bool, Option, String, arith, false, none, or_null, refl, some, true, ◌&&◌, ◌==◌, ◌≡◌, nat_eq,
  option_eq, string_eq,
}
use simple_directory.Types.{ServerSession}
use simple_directory.Sessions.{
  Holder, SessionStores, get_session_by_id, has_session_id, is_expected, update_session_by_id,
}
use simple_directory.Sessions.Sole.{Sole-passes, ◌⇒◌}
use simple_directory.Sessions.Stored.{
  NotIn, SoleIn, matched-NotIn, matched-SoleIn, read_session-NotIn, read_session-SoleIn,
  set_matched-NotIn, set_matched-hit, set_matched-miss,
}

and_left_false : (a b : Bool) → a ≡ false → (a && b) ≡ false
and_left_false a b h = ground arith

is_expected-weaken :
    (id : String) (jti : Option String) → ◌⇒◌ (is_expected id jti) (has_session_id id)
is_expected-weaken id none x h = h
is_expected-weaken id (some jti) x h = and_left_false (has_session_id id x) (x.jti == some jti) h

module _ (users ldap file : Holder) where
  -- `Lives id x s`: `x` is the only session of the three collections that has the id `id`.
  pub data Lives (id : String) (x : ServerSession) (s : SessionStores users ldap file)
      : Type 0 where
    lives_in_users :
        SoleIn users id x s.in_users
        → NotIn ldap id s.in_ldap
        → NotIn file id s.in_file
        → Lives id x s
    lives_in_ldap :
        NotIn users id s.in_users
        → SoleIn ldap id x s.in_ldap
        → NotIn file id s.in_file
        → Lives id x s
    lives_in_file :
        NotIn users id s.in_users
        → NotIn ldap id s.in_ldap
        → SoleIn file id x s.in_file
        → Lives id x s

  pub same_id :
      (id : String) (x : ServerSession) (s : SessionStores users ldap file)
      → Lives id x s
      → has_session_id id x ≡ true
  same_id id x s (lives_in_users k _ _) = Sole-passes (has_session_id id) k.sole_session
  same_id id x s (lives_in_ldap _ k _) = Sole-passes (has_session_id id) k.sole_session
  same_id id x s (lives_in_file _ _ k) = Sole-passes (has_session_id id) k.sole_session

  pub get_session_by_id-Lives :
      (id : String) (x : ServerSession) (s : SessionStores users ldap file)
      → Lives id x s
      → get_session_by_id users ldap file id s ≡ some x
  unfolding get_session_by_id
  get_session_by_id-Lives id x s (lives_in_users k _ _) = rw (read_session-SoleIn users id k) refl
  get_session_by_id-Lives id x s (lives_in_ldap n k _) =
      rw (read_session-NotIn users id s.in_users n) (rw (read_session-SoleIn ldap id k) refl)
  get_session_by_id-Lives id x s (lives_in_file n m k) =
      rw (read_session-NotIn users id s.in_users n)
        (rw (read_session-NotIn ldap id s.in_ldap m) (read_session-SoleIn file id k))

  module _ (id : String) (f : ServerSession → ServerSession) (expected : Option String) where
    p : ServerSession → Bool
    p = is_expected id (or_null expected)

    w : ◌⇒◌ (is_expected id (or_null expected)) (has_session_id id)
    w = is_expected-weaken id (or_null expected)

    -- The write reaches the session exactly if it still holds the expected token id, and the flag
    -- tells whether it did.
    pub update_session_by_id-flag :
        (x : ServerSession) (s : SessionStores users ldap file)
        → Lives id x s
        → (update_session_by_id users ldap file id f expected s).0
          ≡ is_expected id (or_null expected) x
    unfolding update_session_by_id
    update_session_by_id-flag x s (lives_in_users k n m) =
        rw
          (
            matched-SoleIn users id _ w k,
            matched-NotIn ldap id _ w s.in_ldap n,
            matched-NotIn file id _ w s.in_file m,
          )
          (ground arith)
    update_session_by_id-flag x s (lives_in_ldap n k m) =
        rw
          (
            matched-SoleIn ldap id _ w k,
            matched-NotIn users id _ w s.in_users n,
            matched-NotIn file id _ w s.in_file m,
          )
          (ground arith)
    update_session_by_id-flag x s (lives_in_file n m k) =
        rw
          (
            matched-SoleIn file id _ w k,
            matched-NotIn users id _ w s.in_users n,
            matched-NotIn ldap id _ w s.in_ldap m,
          )
          (ground arith)

    pub update_session_by_id-hit :
        (x : ServerSession) (s : SessionStores users ldap file)
        → Lives id x s
        → is_expected id (or_null expected) x ≡ true
        → has_session_id id (f x) ≡ true
        → Lives id (f x) ((update_session_by_id users ldap file id f expected s).1)
    unfolding update_session_by_id
    update_session_by_id-hit x s (lives_in_users k n m) hit keep =
        lives_in_users (set_matched-hit users id _ w f k hit keep)
          (set_matched-NotIn ldap id _ w f s.in_ldap n)
          (set_matched-NotIn file id _ w f s.in_file m)
    update_session_by_id-hit x s (lives_in_ldap n k m) hit keep =
        lives_in_ldap (set_matched-NotIn users id _ w f s.in_users n)
          (set_matched-hit ldap id _ w f k hit keep) (set_matched-NotIn file id _ w f s.in_file m)
    update_session_by_id-hit x s (lives_in_file n m k) hit keep =
        lives_in_file (set_matched-NotIn users id _ w f s.in_users n)
          (set_matched-NotIn ldap id _ w f s.in_ldap m) (set_matched-hit file id _ w f k hit keep)

    pub update_session_by_id-miss :
        (x : ServerSession) (s : SessionStores users ldap file)
        → Lives id x s
        → is_expected id (or_null expected) x ≡ false
        → Lives id x ((update_session_by_id users ldap file id f expected s).1)
    unfolding update_session_by_id
    update_session_by_id-miss x s (lives_in_users k n m) miss =
        lives_in_users (set_matched-miss users id _ w f k miss)
          (set_matched-NotIn ldap id _ w f s.in_ldap n)
          (set_matched-NotIn file id _ w f s.in_file m)
    update_session_by_id-miss x s (lives_in_ldap n k m) miss =
        lives_in_ldap (set_matched-NotIn users id _ w f s.in_users n)
          (set_matched-miss ldap id _ w f k miss) (set_matched-NotIn file id _ w f s.in_file m)
    update_session_by_id-miss x s (lives_in_file n m k) miss =
        lives_in_file (set_matched-NotIn users id _ w f s.in_users n)
          (set_matched-NotIn ldap id _ w f s.in_ldap m) (set_matched-miss file id _ w f k miss)
