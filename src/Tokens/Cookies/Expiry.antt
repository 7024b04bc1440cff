-- ===== src/Tokens/Cookies/Expiry.antt =====
-- Sessions of administrators: they expire at the moment that was set when they were opened, and
-- stay at the address they were opened from, whatever the number of renewals.
use text.Mathlib.TextPositions.{eq_refl}
use simple_directory.Common.{
  Bool-cases, Option, String, ap, get_or, inl, inr, none, not, refl, some, sym, true, truthy, ℕ,
  ◌&&◌, ◌==◌, ◌∙◌, ◌≡◌, nat_eq, option_eq, string_eq,
}
use simple_directory.Tokens.{SessionUser}
use simple_directory.Tokens.Jar.{CookieConfig}
use simple_directory.Tokens.Cookies.{
  SessionInfo, bind_ip, exchange_exp, exchange_info, has_exp, session_info,
}

module _ (cfg : CookieConfig) where
  -- the content of the exchange token that replaces a verified one
  abbrev pub renewed_info : ℕ → String → SessionUser → String → SessionInfo → SessionInfo
  renewed_info now req_ip payload jti e =
      let info = exchange_info cfg req_ip e.session payload (some e) in
      record info { jti = some jti; exp = some (exchange_exp cfg now (some e) info) }

  -- `Renewed i j`: `j` replaces `i` after any number of renewals, at any moment, from any address,
  -- each one in the name of the administrator or of somebody else.
  pub data Renewed : SessionInfo → SessionInfo → Type 0 where
    first_token : {i : SessionInfo} → Renewed i i
    renewal :
        {i j : SessionInfo}
        → Renewed i j
        → (j' : SessionInfo) (now : ℕ) (req_ip : String) (payload : SessionUser) (jti : String)
        → (exchange_info cfg req_ip j.session payload (some j)).admin_mode ≡ true
        → j' ≡ renewed_info now req_ip payload jti j
        → Renewed i j'

  bind_ip-session :
      (req_ip : String) (existing : Option SessionInfo) (info : SessionInfo)
      → (bind_ip cfg req_ip existing info).session ≡ info.session
  bind_ip-session req_ip existing info =
      elim (Bool-cases (info.admin_mode && cfg.admin_session_ip_binding)) [
        | inl b ↦ rw b refl
        | inr b ↦ rw b refl
      ]

  bind_ip-admin_mode :
      (req_ip : String) (existing : Option SessionInfo) (info : SessionInfo)
      → (bind_ip cfg req_ip existing info).admin_mode ≡ info.admin_mode
  bind_ip-admin_mode req_ip existing info =
      elim (Bool-cases (info.admin_mode && cfg.admin_session_ip_binding)) [
        | inl b ↦ rw b refl
        | inr b ↦ rw b refl
      ]

  session_info-session :
      (id : String) (payload : SessionUser) (e : SessionInfo)
      → (session_info id payload (some e)).session ≡ id
  session_info-session id payload e =
      elim (Bool-cases (e.admin_mode && not (payload.id == e.user))) [
        | inl b ↦ rw b refl
        | inr b ↦ rw b refl
      ]

  info_session :
      (i : SessionInfo) (req_ip : String) (payload : SessionUser)
      → (exchange_info cfg req_ip i.session payload (some i)).session ≡ i.session
  unfolding exchange_info
  info_session i req_ip payload =
      bind_ip-session req_ip (some i) (session_info i.session payload (some i))
      ∙ session_info-session i.session payload i

  exp_some : (e : Option ℕ) (d : ℕ) → has_exp e ≡ true → some (get_or e d) ≡ e
  exp_some (some n) d h = refl
  exp_some none d h = cc

  exp_kept :
      (i info : SessionInfo) (now : ℕ)
      → i.admin_mode ≡ true
      → has_exp i.exp ≡ true
      → info.admin_mode ≡ true
      → info.session ≡ i.session
      → some (exchange_exp cfg now (some i) info) ≡ i.exp
  unfolding exchange_exp
  exp_kept i info now admin bounded still same =
      rw (still, admin, same) (rw (eq_refl i.session) (rw bounded (exp_some i.exp _ bounded)))

  ip_kept :
      (i : SessionInfo) (req_ip : String) (payload : SessionUser)
      → (exchange_info cfg req_ip i.session payload (some i)).admin_mode ≡ true
      → cfg.admin_session_ip_binding ≡ true
      → truthy i.ip ≡ true
      → (exchange_info cfg req_ip i.session payload (some i)).ip ≡ i.ip
  unfolding exchange_info
  ip_kept i req_ip payload still binding known =
      let base = session_info i.session payload (some i) in
      let admin : base.admin_mode ≡ true = sym (bind_ip-admin_mode req_ip (some i) base) ∙ still in
      let same : base.session ≡ i.session = session_info-session i.session payload i in
      rw (admin, binding) (rw (known, same) (rw (eq_refl i.session) refl))

  abbrev Same : SessionInfo → SessionInfo → Type 0
  Same i j =
      (j.session ≡ i.session)
      × (j.exp ≡ i.exp)
      × (j.admin_mode ≡ true)
      × (cfg.admin_session_ip_binding ≡ true → truthy i.ip ≡ true → j.ip ≡ i.ip)

  Same-Renewed :
      (i j : SessionInfo) → i.admin_mode ≡ true → has_exp i.exp ≡ true → Renewed i j → Same i j
  Same-Renewed i j admin bounded (first_token) = (refl, refl, admin, λ _ _. refl)
  Same-Renewed i _ admin bounded (renewal {j} r j' now req_ip payload jti still e) =
      let (s, x, a, b) = Same-Renewed i j admin bounded r in
      let bounded' : has_exp j.exp ≡ true = rw x bounded in
      let kept =
        exp_kept j (exchange_info cfg req_ip j.session payload (some j)) now a bounded' still
          (info_session j req_ip payload) in
      (
        ap (λ k. k.session) e ∙ info_session j req_ip payload ∙ s,
        ap (λ k. k.exp) e ∙ kept ∙ x,
        ap (λ k. k.admin_mode) e ∙ still,
        λ binding known.
            ap (λ k. k.ip) e
            ∙ ip_kept j req_ip payload still binding (rw (b binding known) known)
            ∙ b binding known,
      )

  -- As long as it is renewed as an administrator's one, a session keeps its id, its expiry and, if
  -- the binding to addresses is on, its address.
  pub exchange_exp-Renewed :
      (i j : SessionInfo)
      → i.admin_mode ≡ true
      → has_exp i.exp ≡ true
      → Renewed i j
      → (j.session ≡ i.session)
        × (j.exp ≡ i.exp)
        × (cfg.admin_session_ip_binding ≡ true → truthy i.ip ≡ true → j.ip ≡ i.ip)
  exchange_exp-Renewed i j admin bounded r =
      let (s, x, a, b) = Same-Renewed i j admin bounded r in (s, x, b)
