-- ===== src/Tokens/Keepalive/Reuse.antt =====
-- What happens when a copy of an exchange token is presented.
use mathlib.Core.Option
use text.Mathlib.TextEquality.{eq_iff}
use simple_directory.Tokens.Decision.Sound.{decide-Presented}
use simple_directory.Members.{has_user_id}
use simple_directory.Grants.Revoke.{IsDistinct, revoke_grants-matching}
use simple_directory.Tokens.{Owner, TokenConfig}
use simple_directory.Common.{
  Bool, Bool-cases, Option, Result-cases, String, any, any-filter-not, ap, err, false, find_passes,
  inl, inr, none, or_null, refl, some, ℕ, ◌/◌, ◌==◌, ◌∙◌, ◌≡◌, nat_eq, option_eq, string_eq,
}
use simple_directory.Types.{ServerSession, User}
use simple_directory.Collection.{Collection, find_one-update_one_self}
use simple_directory.Tokens.Jar.{CookieConfig}
use simple_directory.Tokens.Cookies.{SessionInfo, Signer}
use simple_directory.Tokens.Decision.{
  KeepaliveRequest, decide, decide_current, keep_jti, renewed, reused,
}
use simple_directory.Tokens.Keepalive.{
  KeepaliveState, drop_session, get_user_of, keepalive, leave, logout, revoke_session_grants,
}
use simple_directory.Sessions.{Holder, exchange_token_current, has_session_id}
use simple_directory.Grants.{GrantDoc, GrantFilter, TokenDoc, matches_filter, revoke_grants}

decide_current-reused :
    (now : ℕ) (info : SessionInfo) (s : ServerSession) (id : String)
    → reused id ≡ decide_current now info (some s)
    → id ≡ s.id
decide_current-reused now info s id e = elim (Bool-cases (exchange_token_current now s info.jti)) [
  | inl current ↦ let e' : reused id ≡ renewed info (keep_jti s info) = rw current at e in cc
  | inr old ↦ let e' : reused id ≡ reused s.id = rw old at e in cc
]

module _ (users : Collection User) (ldap file : Holder) (grants : Collection GrantDoc)
    (refresh codes : Collection TokenDoc) (signer : Signer) (cfg : CookieConfig)
    (tokens : TokenConfig) (lower decode : String → String)
    (decode_session : String → Option String) (has_org : String → Bool) where
  abbrev of_session : String → GrantFilter
  of_session id = record { subject_id = none; client_id = none; session_id = some id }

  abbrev State : Type 0
  State = KeepaliveState users ldap file grants refresh codes

  revoked :
      (id : String) (st : State)
      → IsDistinct (grants.docs st.oauth.in_grants)
      → (id == "") ≡ false
      → any (matches_filter (of_session id)) (
          grants.docs
            (revoke_session_grants users ldap file grants refresh codes id st).oauth.in_grants)
        ≡ false
  revoked id st distinct full =
      let (n, s', done, left, _, _) =
        revoke_grants-matching grants refresh codes (of_session id) st.oauth distinct
          (rw full refl) in
      rw done
        (rw left (any-filter-not (matches_filter (of_session id)) (grants.docs st.oauth.in_grants)))

  users-revoked :
      (id : String) (st : State)
      → (revoke_session_grants users ldap file grants refresh codes id st).stores.in_users
        ≡ st.stores.in_users
  users-revoked id st =
      elim (Result-cases (revoke_grants grants refresh codes (of_session id) st.oauth)) [
        | inl (done, e) ↦ rw e refl
        | inr (status, e) ↦ rw e refl
      ]

  left :
      (r : KeepaliveRequest) (st : State) (token session : String)
      → or_null r.exchange_cookie ≡ some token
      → decode_session token ≡ some session
      → ((leave users ldap file grants refresh codes signer cfg tokens lower decode decode_session
            has_org r st).stores.in_users
          ≡ users.update_one (has_user_id r.user.id) (drop_session session) st.stores.in_users)
        × ((leave users ldap file grants refresh codes signer cfg tokens lower decode decode_session
              has_org r st).oauth
            ≡ st.oauth)
  unfolding logout
  left r st token session cookie known = (rw cookie (rw known refl), rw cookie (rw known refl))

  -- Where keepalive finds that the presented token was used before, and the user acts in their own
  -- name, it answers with a 401, the session of the token is not among the sessions of the user any
  -- more, and no grant of that session is left. A token is decoded to the session that its
  -- verification yields, and grants have different ids.
  pub keepalive-reused :
      (r : KeepaliveRequest) (site_owner : Option Owner) (nanoid id : String) (st : State)
      → ((t : String) (i : SessionInfo)
          → signer.verify_info (r.now / 1000) t ≡ some i
          → decode_session t ≡ some i.session)
      → IsDistinct (grants.docs st.oauth.in_grants)
      → (id == "") ≡ false
      → r.user.as_admin ≡ none
      → decide (get_user_of users ldap file grants refresh codes st) has_org signer r ≡ reused id
      → let (answer, after) =
          keepalive users ldap file grants refresh codes signer cfg tokens lower decode
            decode_session has_org r site_owner nanoid st in
        (answer ≡ err 401)
        × ((u : User) × (users.find_one (has_user_id r.user.id) after.stores.in_users ≡ some u)
            × (any (has_session_id id) u.sessions ≡ false))
        × (any (matches_filter (of_session id)) (grants.docs after.oauth.in_grants) ≡ false)
  unfolding keepalive
  keepalive-reused r site_owner nanoid id st decodes distinct full own e =
      let p = decide-Presented _ has_org signer r (reused id) e refl in
      let same = decide_current-reused r.now p.info p.session id p.verdict in
      let sid : p.session.id ≡ p.info.session =
        (eq_iff p.session.id p.info.session).0
          (find_passes (has_session_id p.info.session) p.owner.sessions p.session p.found) in
      let (in_users, in_oauth) =
        left r st p.token p.info.session p.cookie (decodes p.token p.info p.verified) in
      let st' =
        leave users ldap file grants refresh codes signer cfg tokens lower decode decode_session
          has_org r st in
      rw e (
        refl,
        (
          drop_session p.info.session p.owner,
          rw (users-revoked id st') (
              rw in_users (
                find_one-update_one_self users (has_user_id r.user.id) (drop_session p.info.session)
                  st.stores.in_users (λ d h. h)
                ∙ ap (Option.map (drop_session p.info.session)) (p.own own))),
          rw (same, sid) (any-filter-not (has_session_id p.info.session) p.owner.sessions),
        ),
        revoked id st' (rw in_oauth distinct) full,
      )
