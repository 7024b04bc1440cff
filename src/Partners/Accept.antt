-- ===== src/Partners/Accept.antt =====
-- The acceptance of an invitation: no organization becomes a partner twice.
use text.Mathlib.TextEquality.{eq_iff}
use mathlib.Core.Option
use text.Mathlib.TextPositions.{eq_refl}
use simple_directory.Collection.{Collection, find-update_first_self}
use simple_directory.Partners.{
  PartnerAccept, PartnerInvitation, accept_partner, has_partner_id, is_invited, is_org, is_owner,
  is_partner, is_whole_org, set_partners, validate_partner, validated,
}
use mathlib.Core.Path.{subst}
use simple_directory.Common.{
  >>=-eq-ok, Bool, Bool-cases, List, Option, String, [], any, ap, arith, false, find, find_passes,
  inl, inr, not, not-false, ok, ok_inj, option_beq_iff, or_right, or_throw, or_throw-ok, refl, some,
  some_inj, sym, throw_if, throw_if-ok, true, truthy, update_first, ℕ, ◌==◌, ◌||◌, ◌∙◌, ◌∷◌, ◌≡◌,
  nat_eq, option_eq, string_eq,
}
use simple_directory.Types.{Membership, Organization, Partner}

-- two partners are never the same organization
abbrev pub IsPartnerOnce : List Partner → Type 0
IsPartnerOnce [] = Unit
IsPartnerOnce (p ∷ l) =
    (truthy p.id ≡ true → any (λ (q : Partner). q.id == p.id) l ≡ false) × IsPartnerOnce l

validated-any :
    (id : Option String) (f : Partner → Bool) (partner : Organization) (l : List Partner)
    → (some partner.id == id) ≡ false
    → any (λ (q : Partner). q.id == id) l ≡ false
    → any (λ (q : Partner). q.id == id) (update_first f (validated partner) l) ≡ false
validated-any id f partner [] other h = refl
validated-any id f partner (q ∷ l) other h = elim (Bool-cases (f q)) [
  | inl b ↦ rw b (ground (arith, other))
  | inr b ↦ rw b (ground (arith, validated-any id f partner l other))
]

IsPartnerOnce-validated :
    (f : Partner → Bool) (partner : Organization) (l : List Partner)
    → any (is_partner partner.id) l ≡ false
    → IsPartnerOnce l
    → IsPartnerOnce (update_first f (validated partner) l)
IsPartnerOnce-validated f partner [] h u = tt
IsPartnerOnce-validated f partner (q ∷ l) h (alone, u) = elim (Bool-cases (f q)) [
  | inl b ↦ rw b ((λ _. ground (arith, h)), u)
  | inr b ↦ rw b (
    (λ known.
        validated-any q.id f partner l
          (ground
            (arith, option_beq_iff (some partner.id) q.id, option_beq_iff q.id (some partner.id)))
          (alone known)),
    IsPartnerOnce-validated f partner l (ground arith) u,
  )
]

any-validated :
    (f : Partner → Bool) (partner : Organization) (l : List Partner)
    → any f l ≡ true
    → any (is_partner partner.id) (update_first f (validated partner) l) ≡ true
any-validated f partner [] h = cc
any-validated f partner (q ∷ l) h = elim (Bool-cases (f q)) [
  | inl b ↦ rw b (ground (arith, eq_refl partner.id))
  | inr b ↦ rw b (or_right (is_partner partner.id q) (any-validated f partner l (rw b at h)))
]

any-implied :
    (p q : Partner → Bool) (l : List Partner)
    → ((x : Partner) → p x ≡ true → q x ≡ true)
    → any p l ≡ true
    → any q l ≡ true
any-implied p q [] w h = cc
any-implied p q (x ∷ l) w h = elim (Bool-cases (p x)) [
  | inl b ↦ rw (w x b) refl
  | inr b ↦ or_right (q x) (any-implied p q l w (rw b at h))
]

update_first-implied :
    (p q : Organization → Bool) (f : Organization → Organization) (l : List Organization)
    (o : Organization)
    → ((x : Organization) → q x ≡ false → p x ≡ false)
    → find q l ≡ some o
    → p o ≡ true
    → update_first p f l ≡ update_first q f l
update_first-implied p q f [] o w h e = refl
update_first-implied p q f (x ∷ l) o w h e = elim (Bool-cases (q x)) [
  | inl b ↦
      let same : some x ≡ some o = rw b at h in
      let hit : p x ≡ true = rw (some_inj x o same) e in rw (hit, b) refl
  | inr b ↦ rw (w x b, b) (ap (λ k. x ∷ k) (update_first-implied p q f l o w (rw b at h) e))
]

module _ (orgs : Collection Organization) where
  find_one-validate_partner :
      (org_id partner_id : String) (partner o : Organization) (s : orgs.Store)
      → orgs.find_one (is_org org_id) s ≡ some o
      → any (has_partner_id partner_id) o.partners ≡ true
      → orgs.find_one (is_org org_id) (validate_partner orgs org_id partner_id partner s)
        ≡ some (set_partners (update_first (has_partner_id partner_id) (validated partner)) o)
  unfolding validate_partner
  find_one-validate_partner org_id partner_id partner o s found pending =
      let in_docs = sym (orgs.find_one_lem (is_org org_id) s) ∙ found in
      orgs.find_one_lem (is_org org_id) _
      ∙ ap (find (is_org org_id)) (
          orgs.docs-update_one _ _ s
          ∙ update_first-implied _ (is_org org_id) _ (orgs.docs s) o (λ x h. ground arith) in_docs
              (rw (find_passes (is_org org_id) (orgs.docs s) o in_docs) pending))
      ∙ find-update_first_self (is_org org_id) _ (orgs.docs s) (λ d h. h)
      ∙ ap (Option.map _) in_docs

  module _ (duration : ℕ) (limit : Option ℕ) where
    -- A successful acceptance makes the organization of the request a partner, only where its
    -- invitation is pending under the address that the token was sent to, and the partners of an
    -- organization stay different organizations.
    pub accept_partner-IsPartnerOnce :
        (memberships : Option (List Membership)) (verify : String → Option PartnerInvitation)
        (org_id : String) (a : PartnerAccept) (s s' : orgs.Store) (o : Organization)
        → orgs.find_one (is_org org_id) s ≡ some o
        → IsPartnerOnce o.partners
        → accept_partner orgs duration limit memberships verify org_id a s ≡ ok s'
        → ((o' : Organization) × (orgs.find_one (is_org org_id) s' ≡ some o')
            × IsPartnerOnce o'.partners
            × (any (is_partner a.id) o'.partners ≡ true))
          × ((t : PartnerInvitation) × (verify a.token ≡ some t)
              × (t.contact_email ≡ a.contact_email)
              × (any (is_invited t a) o.partners ≡ true))
    unfolding accept_partner
    accept_partner-IsPartnerOnce memberships verify org_id a s s' o found once e =
        let (l, _, e1) = >>=-eq-ok (or_throw memberships 401) _ e in
        let (_, _, e2) =
          >>=-eq-ok (throw_if (not (is_owner (find (is_whole_org a.id) l))) 403) _ e1 in
        let (partner, known, e3) = >>=-eq-ok (or_throw (orgs.find_one (is_org a.id) s) 404) _ e2 in
        let (t, token, e4) = >>=-eq-ok (or_throw (verify a.token) 400) _ e3 in
        let (_, mail, e5) =
          >>=-eq-ok
            (throw_if (not (t.contact_email == a.contact_email) || not (t.org_id == org_id)) 400) _
            e4 in
        let (o₂, found₂, e6) = >>=-eq-ok (or_throw (orgs.find_one (is_org org_id) s) 404) _ e5 in
        let (_, alone, e7) =
          >>=-eq-ok (throw_if (any (is_partner partner.id) o₂.partners) 400) _ e6 in
        let (_, invited, e8) =
          >>=-eq-ok (throw_if (not (any (is_invited t a) o₂.partners)) 400) _ e7 in
        let known' = or_throw-ok (orgs.find_one (is_org a.id) s) _ known in
        let partner_id : partner.id ≡ a.id = (eq_iff partner.id a.id).0 (
          find_passes (is_org a.id) (orgs.docs s) partner
            (sym (orgs.find_one_lem (is_org a.id) s) ∙ known')) in
        let same : o ≡ o₂ =
          some_inj o o₂ (sym found ∙ or_throw-ok (orgs.find_one (is_org org_id) s) _ found₂) in
        let here : o₂.id ≡ org_id = (eq_iff o₂.id org_id).0 (
          find_passes (is_org org_id) (orgs.docs s) o₂ (
            sym (orgs.find_one_lem (is_org org_id) s)
            ∙ or_throw-ok (orgs.find_one (is_org org_id) s) _ found₂)) in
        let alone' = throw_if-ok (any (is_partner partner.id) o₂.partners) _ alone in
        let invited' =
          not-false (any (is_invited t a) o₂.partners)
            (throw_if-ok (not (any (is_invited t a) o₂.partners)) _ invited) in
        let pending =
          any-implied (is_invited t a) (has_partner_id t.partner_id) o₂.partners
            (λ x h. ground arith) invited' in
        let f : Partner → Bool = has_partner_id t.partner_id in
        (
          (
            set_partners (update_first f (validated partner)) o₂,
            sym (ap (orgs.find_one (is_org org_id)) (ok_inj e8))
                ∙ ap
                    (λ i.
                      orgs.find_one (is_org org_id)
                        (validate_partner orgs i t.partner_id partner s))
                    here
                ∙ find_one-validate_partner org_id t.partner_id partner o₂ s
                    (or_throw-ok (orgs.find_one (is_org org_id) s) _ found₂) pending,
            IsPartnerOnce-validated f partner o₂.partners alone'
                (subst (λ k. IsPartnerOnce k.partners) same once),
            subst (λ i. any (is_partner i) (update_first f (validated partner) o₂.partners) ≡ true)
                partner_id (any-validated f partner o₂.partners pending),
          ),
          (
            t,
            or_throw-ok (verify a.token) _ token,
            address t (throw_if-ok _ _ mail),
            subst (λ k. any (is_invited t a) k.partners ≡ true) (sym same) invited',
          ),
        )
      where
        address :
            (t : PartnerInvitation)
            → (not (t.contact_email == a.contact_email) || not (t.org_id == org_id)) ≡ false
            → t.contact_email ≡ a.contact_email
        address t h = (eq_iff t.contact_email a.contact_email).0 (ground arith)
