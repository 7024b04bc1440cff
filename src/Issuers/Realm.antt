-- ===== src/Issuers/Realm.antt =====
-- The realm of a resource that doResolveResource accepts.
use Prim.Native.String
use mathlib.Core.Path.{subst}
use simple_directory.Sites.{Site, resolve_account_main_site, strip_slashes}
use simple_directory.Issuers.{
  IssuerContext, IssuerEnv, ResolvedResource, Url, as_resource_error, before, do_resolve_resource,
  find_site, locate_resource, located, mcp_resource, resolve_resource, same_site,
}
use simple_directory.Common.{
  >>=-eq-ok, Bool, Option, Result, String, [], ap, arith, err, false, if◌then◌else◌, is_some, none,
  not, ok, ok_inj, or_throw, or_throw-ok, refl, some, throw_if, throw_if-ok, true, ◌==◌, ◌||◌, ◌∙◌,
  ◌∷◌, ◌≡◌, nat_eq, option_eq, string_eq,
}

-- the audience that the code gives a resource
abbrev pub HasAudience : IssuerEnv → ResolvedResource → Type 0
HasAudience env r =
    r.audience
    ≡ (if r.is_mcp then String.◌++◌ r.site_url env.mcp_path ∷ r.site_url ∷ [] else r.site_url ∷ [])

module _ (env : IssuerEnv) where
  -- the resource names a site exactly, and its audience follows from that site
  abbrev pub IsExact : ResolvedResource → Type 0
  IsExact r = (find_site env r.site_url ≡ ok (some r.site)) × HasAudience env r

  located-IsExact :
      (u : Url) (normalized : String) (found : Option (Option Site)) (r : ResolvedResource)
      → find_site env normalized ≡ ok found
      → located env u normalized found ≡ ok r
      → IsExact r
  located-IsExact u normalized (some site) r h e = subst IsExact (ok_inj e) (h, refl)
  located-IsExact u normalized none r h e =
      from_mcp (before (String.◌++◌ env.mcp_path "/") u.pathname) e
    where
      from_mcp : (base : Option String) → mcp_resource env u base ≡ ok r → IsExact r
      from_mcp none k = cc
      from_mcp (some base) k =
          let (found, h1, k1) =
            >>=-eq-ok (find_site env (String.◌++◌ u.origin (strip_slashes base))) _ k in
          let (site, h2, k2) = >>=-eq-ok (or_throw found 400) _ k1 in
          subst IsExact (ok_inj k2) (h1 ∙ ap ok (or_throw-ok found 400 h2), refl)

  locate_resource-IsExact :
      (ctx : IssuerContext) (resource : String) (r : ResolvedResource)
      → locate_resource env ctx resource ≡ ok r
      → IsExact r
  unfolding locate_resource
  locate_resource-IsExact ctx resource r e =
      let (u, _, e1) = >>=-eq-ok (or_throw (env.parse_url resource) 400) _ e in
      let (_, _, e2) = >>=-eq-ok (throw_if (not (u.search == "") || not (u.hash == "")) 400) _ e1 in
      let (_, _, e3) =
        >>=-eq-ok (throw_if (not (u.username == "") || not (u.password == "")) 400) _ e2 in
      let (_, _, e4) = >>=-eq-ok (throw_if (is_some (before "//" u.pathname)) 400) _ e3 in
      let (base, _, e5) = >>=-eq-ok (or_throw (env.parse_url ctx.site_url) 400) _ e4 in
      let (_, _, e6) = >>=-eq-ok (throw_if (not (u.protocol == base.protocol)) 400) _ e5 in
      let (found, h, e7) =
        >>=-eq-ok (find_site env (String.◌++◌ u.origin (strip_slashes u.pathname))) _ e6 in
      located-IsExact u _ found r h e7

  -- A resource that an issuer accepts names exactly the main site or a stored site, its audience is
  -- that site (and its MCP path for an MCP server), and the main site of its accounts is the site of
  -- the issuer: no issuer gives a token for a resource of another realm.
  pub resolve_resource-realm :
      (ctx : IssuerContext) (resource : String) (r : ResolvedResource)
      → resolve_resource env ctx (some resource) ≡ ok r
      → IsExact r
        × ((realm : Option Site) × (resolve_account_main_site env.get_site r.site ≡ ok realm)
            × (same_site realm ctx.site ≡ true))
  unfolding resolve_resource do_resolve_resource
  resolve_resource-realm ctx resource r e =
      let (r1, h1, e1) = >>=-eq-ok (locate_resource env ctx resource) _ (unwrap _ e) in
      let (realm, h2, e2) = >>=-eq-ok (resolve_account_main_site env.get_site r1.site) _ e1 in
      let (_, h3, e3) = >>=-eq-ok (throw_if (not (same_site realm ctx.site)) 400) _ e2 in
      subst
        (λ x.
          IsExact x
          × ((realm : Option Site) × (resolve_account_main_site env.get_site x.site ≡ ok realm)
              × (same_site realm ctx.site ≡ true)))
        (ok_inj e3)
        (
          locate_resource-IsExact ctx resource r1 h1,
          (
            realm,
            h2,
            negated (same_site realm ctx.site)
                (throw_if-ok (not (same_site realm ctx.site)) 400 h3),
          ),
        )
    where
      negated : (p : Bool) → not p ≡ false → p ≡ true
      negated p h = ground arith

      unwrap : (x : Result ResolvedResource) → as_resource_error x ≡ ok r → x ≡ ok r
      unwrap (ok a) h = h
      unwrap (err n) h = cc
