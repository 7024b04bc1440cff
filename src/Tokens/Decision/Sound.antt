-- ===== src/Tokens/Decision/Sound.antt =====
-- When keepalive renews a session, and when it takes a token for a copy.
use text.Mathlib.TextEquality.{eq_iff}
use simple_directory.Sessions.{exchange_token_current, has_session_id}
use simple_directory.Tokens.{AsAdmin}
use simple_directory.Common.{
  Bool, Bool-cases, Option, Option-cases, String, ap, arith, false, find, inl, inr, none, not,
  or_null, refl, some, some_inj, sym, true, truthy, ℕ, ◌&&◌, ◌/◌, ◌==◌, ◌∙◌, ◌≡◌, nat_eq, option_eq,
  string_eq,
}
use simple_directory.Types.{ServerSession, User}
use simple_directory.Tokens.Cookies.{SessionInfo, Signer}
use simple_directory.Tokens.Decision.{
  Decision, KeepaliveRequest, decide, decide_current, decide_info, decide_owner, decide_session,
  decide_user, ignored, keep_jti, logged_out, org_is_known, refused, renewed, reused,
}

-- the verdict on the session that the token names
pub record Presented (get_user : String → Option User) (signer : Signer) (r : KeepaliveRequest)
    (d : Decision) : Type 0 where
  pub token : String
  pub info : SessionInfo
  pub owner : User
  pub session : ServerSession
  pub is_human : r.user.nhi ≡ false
  pub cookie : or_null r.exchange_cookie ≡ some token
  pub verified : signer.verify_info (r.now / 1000) token ≡ some info
  pub address : (truthy info.ip && not (info.ip == some r.req_ip)) ≡ false
  pub user : info.user ≡ owner.id
  pub found : find (has_session_id info.session) owner.sessions ≡ some session
  pub own : r.user.as_admin ≡ none → get_user r.user.id ≡ some owner
  pub as_admin :
      (a : AsAdmin)
      → r.user.as_admin ≡ some a
      → (get_user a.id ≡ some owner) × (owner.is_admin ≡ true)
  pub verdict : d ≡ decide_current r.now info (some session)

-- whether the handler came as far as the check of the token's id
abbrev pub is_verdict : Decision → Bool
is_verdict ignored = false
is_verdict logged_out = false
is_verdict refused = false
is_verdict (reused _) = true
is_verdict (renewed _ _) = true

contradiction {ℓ} :
    {A : Type ℓ} (c d : Decision) → is_verdict c ≡ false → c ≡ d → is_verdict d ≡ true → A
contradiction c d f e v = cc (ap is_verdict e, f, v)

abbrev Named : ℕ → SessionInfo → User → Decision → Type 0
Named now info owner d =
    (info.user ≡ owner.id)
    × (s : ServerSession) × (find (has_session_id info.session) owner.sessions ≡ some s)
    × (d ≡ decide_current now info (some s))

decide_session-Named :
    (now : ℕ) (info : SessionInfo) (owner : User) (d : Decision)
    → decide_session now info owner ≡ d
    → is_verdict d ≡ true
    → Named now info owner d
decide_session-Named now info owner d e v = elim (Bool-cases (info.user == owner.id)) [
  | inr other ↦ contradiction logged_out d refl (rw other at e) v
  | inl same ↦ elim (Option-cases (find (has_session_id info.session) owner.sessions)) [
    | inl absent ↦ contradiction logged_out d refl (rw (same, absent) at e) v
    | inr (s, found) ↦ ((eq_iff info.user owner.id).0 same, s, found, sym (rw (same, found) at e))
  ]
]

module _ (get_user : String → Option User) where
  abbrev Owned : KeepaliveRequest → SessionInfo → User → Option AsAdmin → Decision → Type 0
  Owned r info user acting d =
      (owner : User) × (acting ≡ none → user ≡ owner)
      × ((a : AsAdmin) → acting ≡ some a → (get_user a.id ≡ some owner) × (owner.is_admin ≡ true))
      × Named r.now info owner d

  decide_owner-Owned :
      (has_org : String → Bool) (signer : Signer) (r : KeepaliveRequest) (info : SessionInfo)
      (user : User) (acting : Option AsAdmin) (d : Decision)
      → decide_owner get_user has_org signer r.now info user acting ≡ d
      → is_verdict d ≡ true
      → Owned r info user acting d
  decide_owner-Owned has_org signer r info user none d e v =
      (user, (λ _. refl), (λ a k. cc), decide_session-Named r.now info user d e v)
  decide_owner-Owned has_org signer r info user (some a) d e v =
      elim (Option-cases (get_user a.id)) [
        | inl absent ↦ contradiction refused d refl (rw absent at e) v
        | inr (admin, known) ↦ elim (Bool-cases admin.is_admin) [
          | inr plain ↦ contradiction refused d refl (rw (known, plain) at e) v
          | inl grown ↦ (
            admin,
            (λ k. cc),
            (λ b k. (rw (← (some_inj a b k)) known, grown)),
            decide_session-Named r.now info admin d (rw (known, grown) at e) v,
          )
        ]
      ]

module _ (get_user : String → Option User) (has_org : String → Bool) (signer : Signer) where
  pub decide-Presented :
      (r : KeepaliveRequest) (d : Decision)
      → decide get_user has_org signer r ≡ d
      → is_verdict d ≡ true
      → Presented get_user signer r d
  unfolding decide
  decide-Presented r d e v = elim (Bool-cases r.user.nhi) [
    | inl machine ↦ contradiction ignored d refl (rw machine at e) v
    | inr human ↦ elim (Bool-cases (org_is_known get_user has_org signer r.org)) [
      | inr lost ↦ contradiction logged_out d refl (rw (human, lost) at e) v
      | inl known ↦ elim (Option-cases (get_user r.user.id)) [
        | inl absent ↦ contradiction logged_out d refl (rw (human, known, absent) at e) v
        | inr (user, found) ↦ with_user human user found (rw (human, known, found) at e)
      ]
    ]
  ]
    where
      with_info :
          r.user.nhi ≡ false
          → (user : User) → get_user r.user.id ≡ some user
          → (token : String) → or_null r.exchange_cookie ≡ some token
          → (info : SessionInfo) → signer.verify_info (r.now / 1000) token ≡ some info
          → decide_info get_user has_org signer r user (some info) ≡ d
          → Presented get_user signer r d
      with_info human user found token cookie info verified e =
          elim (Bool-cases (truthy info.ip && not (info.ip == some r.req_ip))) [
            | inl away ↦ contradiction logged_out d refl (rw away at e) v
            | inr here ↦
                let (owner, own, adm, (named, s, kept, verdict)) =
                  decide_owner-Owned get_user has_org signer r info user r.user.as_admin d
                    (rw here at e) v in
                record {
                  token = token;
                  info = info;
                  owner = owner;
                  session = s;
                  is_human = human;
                  cookie = cookie;
                  verified = verified;
                  address = here;
                  user = named;
                  found = kept;
                  own = λ k. found ∙ ap some (own k);
                  as_admin = adm;
                  verdict = verdict;
                }
          ]

      with_user :
          r.user.nhi ≡ false
          → (user : User) → get_user r.user.id ≡ some user
          → decide_user get_user has_org signer r (some user) ≡ d
          → Presented get_user signer r d
      with_user human user found e = elim (Option-cases (or_null r.exchange_cookie)) [
        | inl absent ↦ contradiction logged_out d refl (rw absent at e) v
        | inr (token, cookie) ↦ elim (Option-cases (signer.verify_info (r.now / 1000) token)) [
          | inl broken ↦ contradiction logged_out d refl (rw (cookie, broken) at e) v
          | inr (info, verified) ↦
              with_info human user found token cookie info verified (rw (cookie, verified) at e)
        ]
      ]

  decide_current-renewed :
      (now : ℕ) (info info' : SessionInfo) (s : ServerSession) (keep : Option String)
      → renewed info' keep ≡ decide_current now info (some s)
      → (info' ≡ info) × (exchange_token_current now s info.jti ≡ true)
  decide_current-renewed now info info' s keep e =
      elim (Bool-cases (exchange_token_current now s info.jti)) [
        | inl current ↦
            let e' : renewed info' keep ≡ renewed info (keep_jti s info) = rw current at e in
            (cc, current)
        | inr old ↦ let e' : renewed info' keep ≡ reused s.id = rw old at e in cc
      ]

  -- A session is renewed only for somebody human, who presents a signed token that has not expired,
  -- from the address that it is bound to, if any. It names a session that is stored for its user (or
  -- for the administrator who acts in their name, and who is one), and its id is still accepted.
  pub decide-renewed :
      (r : KeepaliveRequest) (info : SessionInfo) (keep : Option String)
      → decide get_user has_org signer r ≡ renewed info keep
      → (r.user.nhi ≡ false)
        × ((truthy info.ip ≡ true → (info.ip == some r.req_ip) ≡ true)
            × ((token : String) × (or_null r.exchange_cookie ≡ some token)
                × (signer.verify_info (r.now / 1000) token ≡ some info))
            × ((owner : User) × (s : ServerSession) × (info.user ≡ owner.id)
                × (r.user.as_admin ≡ none → get_user r.user.id ≡ some owner)
                × ((a : AsAdmin)
                    → r.user.as_admin ≡ some a
                    → (get_user a.id ≡ some owner) × (owner.is_admin ≡ true))
                × (find (has_session_id info.session) owner.sessions ≡ some s)
                × (exchange_token_current r.now s info.jti ≡ true)))
  decide-renewed r info keep e =
      let p = decide-Presented r (renewed info keep) e refl in
      let (same, current) = decide_current-renewed r.now p.info info p.session keep p.verdict in
      (
        p.is_human,
        (
          (λ bound. rw same (bound_here p.info.ip (rw same at bound) p.address)),
          (p.token, p.cookie, rw same p.verified),
          (p.owner, p.session, rw same p.user, p.own, p.as_admin, rw same p.found, rw same current),
        ),
      )
    where
      bound_here :
          (ip : Option String)
          → truthy ip ≡ true
          → (truthy ip && not (ip == some r.req_ip)) ≡ false
          → (ip == some r.req_ip) ≡ true
      bound_here ip bound h = ground arith
