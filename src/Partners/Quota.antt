-- ===== src/Partners/Quota.antt =====
-- The quota of partners, through invitations.
use text.Mathlib.TextPositions.{eq_refl}
use text.Mathlib.TextEquality.{eq_iff}
use mathlib.Core.Option
use simple_directory.Collection.{Collection, find_one-update_one_self}
use simple_directory.Partners.{
  PartnerPost, add_partner, invite_partner, is_expired_partner_invitation, is_org, is_pending_for,
  is_reinvitation, nb_partners, pull_pending, pulled, set_partners, with_partner,
}
use mathlib.Core.Path.{subst}
use simple_directory.Common.{
  All, Bool, Bool-cases, List, Option, String, [], any, ap, arith, false, filter, find_passes, inl,
  inr, is_some, leb, length, none, not, ok, ok_inj, or_right, refl, some, sym, true, truthy, ℕ,
  ◌&&◌, ◌++◌, ◌+◌, ◌<◌, ◌==◌, ◌||◌, ◌∙◌, ◌∷◌, ◌≡◌, ◌≤◌, nat_eq, option_eq, string_eq,
}
use simple_directory.Types.{Organization, Partner}

length-filter_append :
    (q : Partner → Bool) (l : List Partner) (p : Partner)
    → length (filter q (l ++ p ∷ [])) ≤ length (filter q l) + 1
length-filter_append q [] p = elim (Bool-cases (q p)) [
  | inl b ↦ rw b (omega arith)
  | inr b ↦ rw b (omega arith)
]
length-filter_append q (x ∷ l) p = elim (Bool-cases (q x)) [
  | inl b ↦ rw b (let h = length-filter_append q l p in omega arith)
  | inr b ↦ rw b (length-filter_append q l p)
]

length-filter-filter :
    (q r : Partner → Bool) (l : List Partner) → length (filter q (filter r l)) ≤ length (filter q l)
length-filter-filter q r [] = omega arith
length-filter-filter q r (x ∷ l) =
    let h = length-filter-filter q r l in
    elim (Bool-cases (r x)) [
      | inl b ↦ elim (Bool-cases (q x)) [
        | inl c ↦ rw b (rw c (omega arith))
        | inr c ↦ rw b (rw c h)
      ]
      | inr b ↦ elim (Bool-cases (q x)) [
        | inl c ↦ rw b (rw c (omega arith))
        | inr c ↦ rw b (rw c h)
      ]
    ]

-- an element that `q` counts and `r` drops
length-filter_dropped :
    (q r g : Partner → Bool) (l : List Partner)
    → ((p : Partner) → g p ≡ true → (q p ≡ true) × (r p ≡ false))
    → any g l ≡ true
    → length (filter q (filter r l)) + 1 ≤ length (filter q l)
length-filter_dropped q r g [] w h = cc
length-filter_dropped q r g (x ∷ l) w h = elim (Bool-cases (g x)) [
  | inl hit ↦ let (a, b) = w x hit in let k = length-filter-filter q r l in rw (b, a) (omega arith)
  | inr miss ↦
      let k = length-filter_dropped q r g l w (rw miss at h) in
      elim (Bool-cases (r x)) [
        | inl b ↦ elim (Bool-cases (q x)) [
          | inl c ↦ rw b (rw c (omega arith))
          | inr c ↦ rw b (rw c k)
        ]
        | inr b ↦ elim (Bool-cases (q x)) [
          | inl c ↦ rw b (rw c (omega arith))
          | inr c ↦ rw b (rw c k)
        ]
      ]
]

-- an id is not empty
abbrev pub HasIds : List Partner → Type 0
HasIds l = All (λ (p : Partner). is_some p.id ≡ truthy p.id) l

HasIds-filter : (q : Partner → Bool) (l : List Partner) → HasIds l → HasIds (filter q l)
HasIds-filter q [] h = tt
HasIds-filter q (x ∷ l) (k, h) = elim (Bool-cases (q x)) [
  | inl kept ↦ rw kept (k, HasIds-filter q l h)
  | inr dropped ↦ rw dropped (HasIds-filter q l h)
]

HasIds-append :
    (l : List Partner) (p : Partner) → HasIds l → is_some p.id ≡ truthy p.id → HasIds (l ++ p ∷ [])
HasIds-append [] p h k = (k, tt)
HasIds-append (x ∷ l) p (i, h) k = (i, HasIds-append l p h k)

HasIds-with_partner :
    (p : Partner) (l : List Partner)
    → HasIds l
    → is_some p.id ≡ truthy p.id
    → HasIds (with_partner p l)
HasIds-with_partner p l h k = elim (Bool-cases (truthy p.contact_email)) [
  | inl b ↦ rw b (
      HasIds-append (filter (λ q. not (is_pending_for p.contact_email q)) l) p
        (HasIds-filter (λ q. not (is_pending_for p.contact_email q)) l h) k)
  | inr b ↦ rw b (HasIds-append l p h k)
]

module _ (duration now : ℕ) where
  abbrev counted : Partner → Bool
  counted p = not (is_expired_partner_invitation duration now p)

  any-with :
      (g : Partner → Bool) (l : List Partner)
      → HasIds l
      → any g l ≡ true
      → any (λ p. g p && (not (is_some p.id) || truthy p.id)) l ≡ true
  any-with g [] h e = cc
  any-with g (x ∷ l) (k, h) e = elim (Bool-cases (g x)) [
    | inl hit ↦ rw (hit, k) (ground arith)
    | inr miss ↦ rw miss (any-with g l h (rw miss at e))
  ]

  with_partner_lem :
      (email : String) (p : Partner) (l : List Partner)
      → (email == "") ≡ false
      → p.contact_email ≡ some email
      → with_partner p l ≡ filter (λ q. not (is_pending_for (some email) q)) l ++ p ∷ []
  with_partner_lem email p l full e =
      ap (λ c. pull_pending c l ++ p ∷ []) e ∙ ap (λ k. k ++ p ∷ []) (pulled_lem email l full)
    where
      pulled_lem :
          (mail : String) (k : List Partner)
          → (mail == "") ≡ false
          → pull_pending (some mail) k ≡ filter (λ q. not (is_pending_for (some mail) q)) k
      pulled_lem mail k f = rw f refl

  below : (n m : ℕ) → (true && leb n m) ≡ false → m < n
  below n m h = ground arith

  -- what the partners of the organization become
  nb_partners-with_partner :
      (n : ℕ) (email : String) (p : Partner) (l : List Partner)
      → (email == "") ≡ false
      → p.contact_email ≡ some email
      → HasIds l
      → nb_partners duration now l ≤ n
      → (not (any (is_reinvitation duration now email) l) && leb n (nb_partners duration now l))
        ≡ false
      → nb_partners duration now (with_partner p l) ≤ n
  unfolding nb_partners
  nb_partners-with_partner n email p l full e ids within free =
      let same = with_partner_lem email p l full e in
      let grown =
        length-filter_append counted (filter (λ q. not (is_pending_for (some email) q)) l) p in
      let pulled = length-filter-filter counted (λ q. not (is_pending_for (some email) q)) l in
      elim (Bool-cases (any (is_reinvitation duration now email) l)) [
        | inl again ↦
            let less =
              length-filter_dropped counted (λ q. not (is_pending_for (some email) q))
                (λ q. is_reinvitation duration now email q && (not (is_some q.id) || truthy q.id)) l
                (λ q h. ground arith) (any-with _ l ids again) in
            subst (λ k. length (filter counted k) ≤ n) (sym same) (omega arith)
        | inr fresh ↦
            let room : (true && leb n (nb_partners duration now l)) ≡ false = rw fresh at free in
            let less = below n (length (filter counted l)) room in
            subst (λ k. length (filter counted k) ≤ n) (sym same) (omega arith)
      ]

module _ (orgs : Collection Organization) (duration limit : ℕ) where
  find_one-pulled :
      (org_id : String) (email : Option String) (s : orgs.Store) (o : Organization)
      → orgs.find_one (is_org org_id) s ≡ some o
      → orgs.find_one (is_org org_id) (pulled orgs org_id email s)
        ≡ some (set_partners (pull_pending email) o)
  unfolding pulled
  find_one-pulled org_id email s o e = elim (Bool-cases (truthy email)) [
    | inl b ↦ rw b (
        find_one-update_one_self orgs (is_org org_id) (set_partners (pull_pending email)) s
          (λ d h. h)
        ∙ ap (Option.map (set_partners (pull_pending email))) e
        ∙ rw b refl)
    | inr b ↦ rw b e
  ]

  pub find_one-add_partner :
      (org_id : String) (p : Partner) (s : orgs.Store) (o : Organization)
      → orgs.find_one (is_org org_id) s ≡ some o
      → orgs.find_one (is_org org_id) (add_partner orgs org_id p s)
        ≡ some (set_partners (with_partner p) o)
  unfolding add_partner
  find_one-add_partner org_id p s o e =
      find_one-update_one_self orgs (is_org org_id) (set_partners (λ l. l ++ p ∷ []))
        (pulled orgs org_id p.contact_email s) (λ d h. h)
      ∙ ap (Option.map (set_partners (λ l. l ++ p ∷ [])))
          (find_one-pulled org_id p.contact_email s o e)

  abbrev invited : ℕ → String → PartnerPost → Partner
  invited now nanoid post = record {
    id = none;
    name = post.name;
    contact_email = some post.contact_email;
    partner_id = nanoid;
    created_at = some now;
  }

  any-append :
      (q : Partner → Bool) (l : List Partner) (p : Partner)
      → q p ≡ true
      → any q (l ++ p ∷ []) ≡ true
  any-append q [] p h = ground arith
  any-append q (x ∷ l) p h = or_right (q x) (any-append q l p h)

  -- A successful invitation keeps an organization within its quota of partners, also where it
  -- replaces a pending invitation of the same address, and that address then has one. The conditions:
  -- the address is not empty, the organization is within the quota before, and no partner of it has
  -- an empty text for an id. The last two hold again afterwards, for the next invitation.
  pub invite_partner-nb_partners :
      (now : ℕ) (nanoid org_id : String) (post : PartnerPost) (s s' : orgs.Store) (o : Organization)
      → orgs.find_one (is_org org_id) s ≡ some o
      → HasIds o.partners
      → (post.contact_email == "") ≡ false
      → nb_partners duration now o.partners ≤ limit
      → invite_partner orgs duration (some limit) true true now nanoid org_id post s ≡ ok s'
      → (o' : Organization) × (orgs.find_one (is_org org_id) s' ≡ some o')
        × (nb_partners duration now o'.partners ≤ limit)
        × HasIds o'.partners
        × (any (is_pending_for (some post.contact_email)) o'.partners ≡ true)
  unfolding invite_partner
  invite_partner-nb_partners now nanoid org_id post s s' o found ids full within e =
      elim (Bool-cases (
        not (any (is_reinvitation duration now post.contact_email) o.partners)
        && leb limit (nb_partners duration now o.partners))) [
          | inl b ↦ cc (rw (found, b) at e)
          | inr free ↦
              let done = ok_inj (rw (found, free) at e) in
              let here : o.id ≡ org_id = (eq_iff o.id org_id).0 (
                find_passes (is_org org_id) (orgs.docs s) o
                  (sym (orgs.find_one_lem (is_org org_id) s) ∙ found)) in
              (
                set_partners (with_partner (invited now nanoid post)) o,
                sym (ap (orgs.find_one (is_org org_id)) done)
                    ∙ ap
                        (λ i.
                          orgs.find_one (is_org org_id)
                            (add_partner orgs i (invited now nanoid post) s))
                        here
                    ∙ find_one-add_partner org_id (invited now nanoid post) s o found,
                nb_partners-with_partner duration now limit post.contact_email
                    (invited now nanoid post) o.partners full refl ids within free,
                HasIds-with_partner (invited now nanoid post) o.partners ids refl,
                any-append (is_pending_for (some post.contact_email))
                    (pull_pending (some post.contact_email) o.partners) (invited now nanoid post)
                    (ground (arith, eq_refl post.contact_email)),
              )
        ]
