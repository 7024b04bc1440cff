-- ===== src/Sessions/Race.antt =====
-- Keepalives that race from the same exchange token.
use mathlib.Core.Option
use text.Mathlib.TextPositions.{eq_refl}
use simple_directory.Common.{
  Result, String, ap, arith, false, none, ok, or_null, refl, some, true, ℕ, ◌==◌, ◌∙◌, ◌≡◌, nat_eq,
  option_eq, string_eq,
}
use simple_directory.Types.{ServerSession}
use simple_directory.Sessions.{
  Holder, Rotation, SessionStores, after_swap, get_session_by_id, is_expected, issue_exchange_token,
  rotate, rotation_for, update_session_by_id,
}
use simple_directory.Sessions.Swap.{
  Lives, get_session_by_id-Lives, same_id, update_session_by_id-flag, update_session_by_id-hit,
  update_session_by_id-miss,
}

or_null-some : (t : String) → (t == "") ≡ false → or_null (some t) ≡ some t
or_null-some t h = rw h refl

module _ (users ldap file : Holder) (now : ℕ) (id : String) where
  abbrev issue :
      String
      → String
      → SessionStores users ldap file
      → Result (String × SessionStores users ldap file)
  issue old new s = issue_exchange_token users ldap file now id (some old) none new s

  abbrev rotated_from : String → String → ServerSession → ServerSession
  rotated_from old new x = rotate (rotation_for now (some old) new) x

  after_swap_won :
      (new : String) (s : SessionStores users ldap file)
      → after_swap users ldap file id new true s ≡ ok (new, s)
  unfolding after_swap
  after_swap_won new s = refl

  after_swap_lost :
      (new current : String) (x : ServerSession) (s : SessionStores users ldap file)
      → Lives users ldap file id x s
      → (current == "") ≡ false
      → x.jti ≡ some current
      → after_swap users ldap file id new false s ≡ ok (current, s)
  unfolding after_swap
  after_swap_lost new current x s k live e =
      rw (get_session_by_id-Lives users ldap file id x s k) (rw e (rw live refl))

  issue-wins :
      (old new : String) (x : ServerSession) (s : SessionStores users ldap file)
      → Lives users ldap file id x s
      → (old == "") ≡ false
      → x.jti ≡ some old
      → (s' : SessionStores users ldap file) × (issue old new s ≡ ok (new, s'))
        × Lives users ldap file id (rotated_from old new x) s'
  unfolding issue_exchange_token
  issue-wins old new x s k full e = (
    (update_session_by_id users ldap file id (rotate r) (some old) s).1,
    ap
          (λ b.
            after_swap users ldap file id new b
              ((update_session_by_id users ldap file id (rotate r) (some old) s).1))
          flag
        ∙ after_swap_won new _,
    update_session_by_id-hit users ldap file id (rotate r) (some old) x s k expected
        (same_id users ldap file id x s k),
  )
    where
      r : Rotation
      r = rotation_for now (some old) new

      expected : is_expected id (or_null (some old)) x ≡ true
      expected = rw (or_null-some old full) (rw (e, same_id users ldap file id x s k) (eq_refl old))

      flag : (update_session_by_id users ldap file id (rotate r) (some old) s).0 ≡ true
      flag = update_session_by_id-flag users ldap file id (rotate r) (some old) x s k ∙ expected

  -- a keepalive that presents a token which is not the stored one any more is served the stored one
  issue-loses :
      (old new current : String) (x : ServerSession) (s : SessionStores users ldap file)
      → Lives users ldap file id x s
      → (old == "") ≡ false
      → (current == "") ≡ false
      → (current == old) ≡ false
      → x.jti ≡ some current
      → (s' : SessionStores users ldap file) × (issue old new s ≡ ok (current, s'))
        × Lives users ldap file id x s'
  unfolding issue_exchange_token
  issue-loses old new current x s k full live other e = (
    (update_session_by_id users ldap file id (rotate r) (some old) s).1,
    ap
          (λ b.
            after_swap users ldap file id new b
              ((update_session_by_id users ldap file id (rotate r) (some old) s).1))
          flag
        ∙ after_swap_lost new current x _ after live e,
    after,
  )
    where
      r : Rotation
      r = rotation_for now (some old) new

      missed : is_expected id (or_null (some old)) x ≡ false
      missed = rw (or_null-some old full) (rw e (ground (arith, other)))

      flag : (update_session_by_id users ldap file id (rotate r) (some old) s).0 ≡ false
      flag = update_session_by_id-flag users ldap file id (rotate r) (some old) x s k ∙ missed

      after :
          Lives users ldap file id x
            ((update_session_by_id users ldap file id (rotate r) (some old) s).1)
      after = update_session_by_id-miss users ldap file id (rotate r) (some old) x s k missed

  -- Two keepalives that race from the same exchange token, the last one of a session with a unique
  -- id, are both served the id of the first one's new token, and it is the one that the session
  -- keeps, whatever the second one drew. The new id is not empty and differs from the old one.
  pub issue_exchange_token_race :
      (old new other : String) (x : ServerSession) (s : SessionStores users ldap file)
      → Lives users ldap file id x s
      → x.jti ≡ some old
      → (old == "") ≡ false
      → (new == "") ≡ false
      → (new == old) ≡ false
      → (s₁ : SessionStores users ldap file) × (s₂ : SessionStores users ldap file)
        × (issue_exchange_token users ldap file now id (some old) none new s ≡ ok (new, s₁))
        × (issue_exchange_token users ldap file now id (some old) none other s₁ ≡ ok (new, s₂))
        × Option.map (λ y. y.jti) (get_session_by_id users ldap file id s₂) ≡ some (some new)
  issue_exchange_token_race old new other x s k e full full' differ =
      let (s₁, won, k₁) = issue-wins old new x s k full e in
      let (s₂, lost, k₂) =
        issue-loses old other new (rotated_from old new x) s₁ k₁ full full' differ refl in
      (s₁, s₂, won, lost, rw (get_session_by_id-Lives users ldap file id _ s₂ k₂) refl)
