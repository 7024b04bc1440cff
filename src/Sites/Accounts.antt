-- ===== src/Sites/Accounts.antt =====
-- Where the accounts of a site live.
use simple_directory.Collection.{Collection}
use simple_directory.Common.{
  All, Bool-cases, List, Option, Option-cases, String, [], false, inl, inr, none, ok, ok_inj, refl,
  some, some_inj, true, update_all, ◌==◌, ◌∷◌, ◌≡◌, nat_eq, option_eq, string_eq,
}
use simple_directory.Sites.{
  Site, backing_site, delegate, https, is_in_back_office, is_sibling, make_delegating, only_local,
  only_other_site, resolve_account_main_site, toggle_main_site,
}

module _ (get_site : String → Option Site) where
  -- The site where the accounts of a site live is its own account main site: a delegation is
  -- followed once, and never leads to a site that delegates itself.
  pub resolve_account_main_site_again :
      (s : Option Site) (r : Site)
      → resolve_account_main_site get_site s ≡ ok (some r)
      → (resolve_account_main_site get_site (some r) ≡ ok (some r)) × (delegate r ≡ none)
  unfolding resolve_account_main_site
  resolve_account_main_site_again none r e = cc
  resolve_account_main_site_again (some s) r e = elim (Bool-cases (is_in_back_office s.auth_mode)) [
    | inl b ↦ cc (rw b at e)
    | inr away ↦ elim (Option-cases (delegate s)) [
      | inl own ↦
          let same : some s ≡ some r = ok_inj (rw (away, own) at e) in
          rw (← (some_inj s r same)) (rw (away, own) refl, own)
      | inr (host, other) ↦ delegated (get_site (https host)) (rw (away, other) at e)
    ]
  ]
    where
      delegated :
          (b : Option Site)
          → backing_site b ≡ ok (some r)
          → (resolve_account_main_site get_site (some r) ≡ ok (some r)) × (delegate r ≡ none)
      delegated none h = cc
      delegated (some b) h = elim (Bool-cases (is_in_back_office b.auth_mode)) [
        | inl k ↦ cc (rw k at h)
        | inr away ↦ elim (Option-cases (delegate b)) [
          | inr (host, other) ↦ cc (rw (away, other) at h)
          | inl own ↦
              let same : some b ≡ some r = ok_inj (rw (away, own) at h) in
              rw (← (some_inj b r same)) (rw (away, own) refl, own)
        ]
      ]

-- what toggleMainSite makes of a site that is another one of the owner
abbrev Delegates : Site → Site → Type 0
Delegates main x =
    is_sibling main x ≡ true
    → (x.auth_mode ≡ some only_other_site)
      × (x.auth_only_other_site ≡ some main.host)
      × (x.is_account_main ≡ false)

All-update_all :
    (main : Site) (l : List Site)
    → All (Delegates main) (update_all (is_sibling main) (make_delegating main.host) l)
All-update_all main [] = tt
All-update_all main (x ∷ l) = elim (Bool-cases (is_sibling main x)) [
  | inl b ↦ rw b ((λ _. (refl, refl, refl)), All-update_all main l)
  | inr b ↦ rw b ((λ h. cc), All-update_all main l)
]

module _ (sites : Collection Site) where
  -- Once a site is made the main one, every other site of its owner delegates its accounts to it:
  -- they live on whatever site in a mode of its own answers at the host of the main one.
  pub toggle_main_site-delegates :
      (get_site : String → Option Site) (main : Site) (s : sites.Store) (m : Site)
      → (main.host == "") ≡ false
      → get_site (https main.host) ≡ some m
      → m.auth_mode ≡ some only_local
      → All
          (λ x.
            is_sibling main x ≡ true
            → (x.is_account_main ≡ false)
              × (resolve_account_main_site get_site (some x) ≡ ok (some m)))
          (sites.docs (toggle_main_site sites main s))
  unfolding toggle_main_site resolve_account_main_site
  toggle_main_site-delegates get_site main s m full here local =
      rw (sites.docs-update_many (is_sibling main) (make_delegating main.host) _)
        (lift _ (All-update_all main _))
    where
      resolved :
          (x : Site)
          → Delegates main x
          → is_sibling main x ≡ true
          → (x.is_account_main ≡ false)
            × (resolve_account_main_site get_site (some x) ≡ ok (some m))
      resolved x d sibling =
          let (mode, other, flag) = d sibling in
          (flag, rw (mode, other) (rw full (rw here (rw local refl))))

      lift :
          (l : List Site)
          → All (Delegates main) l
          → All
              (λ x.
                is_sibling main x ≡ true
                → (x.is_account_main ≡ false)
                  × (resolve_account_main_site get_site (some x) ≡ ok (some m)))
              l
      lift [] h = tt
      lift (x ∷ l) (d, h) = (resolved x d, lift l h)
