-- ===== src/Partners.antt =====
-- Partners of an organization: shared/partners.ts, the quota of api/src/limits/service.ts, the
-- storage methods of api/src/storages/mongo.ts and the handlers of api/src/organizations/router.ts.
pub mod Quota
pub mod Accept
mod Tests
use simple_directory.Common.{
  Bool, List, Option, Result, String, [], any, false, filter, find, get_or, if◌then◌else◌, is_some,
  leb, length, ltb, none, not, ok, or_throw, some, throw_if, truthy, update_first, ℕ, ◌&&◌, ◌*◌,
  ◌++◌, ◌+◌, ◌==◌, ◌>>=◌, ◌>>◌, ◌||◌, ◌∷◌, nat_eq, option_eq, string_eq,
}
use simple_directory.Types.{Membership, Organization, Partner}
use simple_directory.Collection.{Collection}

-- `now` and `created_at` are in milliseconds, the duration is in seconds
pub is_expired_partner_invitation : ℕ → ℕ → Partner → Bool
is_expired_partner_invitation duration now p =
    not (truthy p.id)
    && (elim p.created_at [ none ↦ false | some t ↦ ltb (t + duration * 1000) now ])

-- the consumption that getOrgLimits counts
pub nb_partners : ℕ → ℕ → List Partner → ℕ
nb_partners duration now l =
    length (filter (λ p. not (is_expired_partner_invitation duration now p)) l)

-- assertNbPartnersLimit; `none` is -1, which means unlimited
abbrev pub exceeds_limit : Option ℕ → ℕ → Bool
exceeds_limit none consumption = false
exceeds_limit (some limit) consumption = leb limit consumption

-- `{ contactEmail, id: { $exists: false } }`
abbrev pub is_pending_for : Option String → Partner → Bool
is_pending_for email p = p.contact_email == email && not (is_some p.id)

-- the two writes of addPartner
abbrev pub pull_pending : Option String → List Partner → List Partner
pull_pending email l = if truthy email then filter (λ p. not (is_pending_for email p)) l else l

abbrev pub with_partner : Partner → List Partner → List Partner
with_partner p l = pull_pending p.contact_email l ++ p ∷ []

abbrev pub set_partners : (List Partner → List Partner) → Organization → Organization
set_partners f o = record o { partners = f o.partners }

abbrev pub is_org : String → Organization → Bool
is_org id o = o.id == id

abbrev pub has_partner_id : String → Partner → Bool
has_partner_id id p = p.partner_id == id

abbrev pub validated : Organization → Partner → Partner
validated partner p = record p { id = some partner.id; name = partner.name; contact_email = none }

module _ (orgs : Collection Organization) where
  -- the first write, where there is a contact email
  pub pulled : String → Option String → orgs.Store → orgs.Store
  pulled org_id email s =
      if truthy email
      then orgs.update_one (is_org org_id) (set_partners (pull_pending email)) s
      else s

  pub add_partner : String → Partner → orgs.Store → orgs.Store
  add_partner org_id p s =
      orgs.update_one (is_org org_id) (set_partners (λ l. l ++ p ∷ []))
        (pulled org_id p.contact_email s)

  pub delete_partner : String → String → orgs.Store → orgs.Store
  delete_partner org_id partner_id s =
      orgs.update_one (is_org org_id)
        (set_partners (filter (λ p. not (has_partner_id partner_id p)))) s

  -- the filter needs an element, and the positional operator changes the first one
  pub validate_partner : String → String → Organization → orgs.Store → orgs.Store
  validate_partner org_id partner_id partner s =
      orgs.update_one (λ o. is_org org_id o && any (has_partner_id partner_id) o.partners)
        (set_partners (update_first (has_partner_id partner_id) (validated partner))) s

-- the body of an invitation
pub record PartnerPost : Type 0 where
  pub name : String
  pub contact_email : String

-- a pending invitation of the same contact that has not expired
abbrev pub is_reinvitation : ℕ → ℕ → String → Partner → Bool
is_reinvitation duration now email p =
    not (truthy p.id)
    && p.contact_email == some email
    && not (is_expired_partner_invitation duration now p)

-- the content of the token of the invitation mail
pub record PartnerInvitation : Type 0 where
  pub org_id : String
  pub partner_id : String
  pub contact_email : String

pub record PartnerAccept : Type 0 where
  pub id : String
  pub contact_email : String
  pub token : String

abbrev pub is_admin_role : Membership → Bool
is_admin_role o = o.role == "admin"

abbrev pub is_whole_org : String → Membership → Bool
is_whole_org id o = o.id == id && not (truthy o.department)

abbrev pub is_invited : PartnerInvitation → PartnerAccept → Partner → Bool
is_invited t a p =
    p.partner_id == t.partner_id && p.contact_email == some a.contact_email && not (truthy p.id)

abbrev pub is_partner : String → Partner → Bool
is_partner id p = p.id == some id

abbrev pub is_owner : Option Membership → Bool
is_owner none = false
is_owner (some o) = is_admin_role o

module _ (orgs : Collection Organization) (duration : ℕ) (limit : Option ℕ) where
  -- the checks of the invitation of a partner, and the partner that it adds
  pub invite_partner :
      Bool → Bool → ℕ → String → String → PartnerPost → orgs.Store → Result orgs.Store
  invite_partner has_user is_org_admin now nanoid org_id post s = do
    throw_if (not has_user) 401
    throw_if (not is_org_admin) 403
    orga ← or_throw (orgs.find_one (is_org org_id) s) 404
    throw_if
        (not (any (is_reinvitation duration now post.contact_email) orga.partners)
          && exceeds_limit limit (nb_partners duration now orga.partners))
        429
    ok (
        add_partner orgs orga.id
          (record {
            id = none;
            name = post.name;
            contact_email = some post.contact_email;
            partner_id = nanoid;
            created_at = some now;
          })
          s)

  -- `memberships` are those of the session's user, `verify` checks the token of the mail
  pub accept_partner :
      Option (List Membership)
      → (String → Option PartnerInvitation)
      → String
      → PartnerAccept
      → orgs.Store
      → Result orgs.Store
  accept_partner memberships verify org_id a s = do
    l ← or_throw memberships 401
    throw_if (not (is_owner (find (is_whole_org a.id) l))) 403
    partner ← or_throw (orgs.find_one (is_org a.id) s) 404
    t ← or_throw (verify a.token) 400
    throw_if (not (t.contact_email == a.contact_email) || not (t.org_id == org_id)) 400
    orga ← or_throw (orgs.find_one (is_org org_id) s) 404
    throw_if (any (is_partner partner.id) orga.partners) 400
    throw_if (not (any (is_invited t a) orga.partners)) 400
    ok (validate_partner orgs orga.id t.partner_id partner s)

  -- the direct creation by a superadmin
  pub create_partner :
      Option Bool → ℕ → String → String → String → Option String → orgs.Store → Result orgs.Store
  create_partner admin_mode now nanoid org_id partner_org name s = do
    admin ← or_throw admin_mode 401
    throw_if (not admin) 403
    orga ← or_throw (orgs.find_one (is_org org_id) s) 404
    partner ← or_throw (orgs.find_one (is_org partner_org) s) 404
    throw_if (any (is_partner partner.id) orga.partners) 400
    ok (
        add_partner orgs orga.id
          (record {
            id = some partner.id;
            name = get_or name partner.name;
            contact_email = none;
            partner_id = nanoid;
            created_at = some now;
          })
          s)

-- the memberships of the user in the partners of an organization
pub user_partners : List Membership → List Partner → List Membership
user_partners l [] = []
user_partners l (p ∷ ps) = elim (find (λ (o : Membership). some o.id == p.id) l) [
  | none ↦ user_partners l ps
  | some o ↦ o ∷ user_partners l ps
]
