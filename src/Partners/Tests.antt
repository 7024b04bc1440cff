-- ===== src/Partners/Tests.antt =====
-- Tests of the partners, and the theorems at concrete organizations.
use simple_directory.Partners.Quota.{HasIds, invite_partner-nb_partners}
use simple_directory.Partners.{
  PartnerAccept, PartnerInvitation, PartnerPost, accept_partner, add_partner, invite_partner,
  is_expired_partner_invitation, is_invited, is_org, is_partner, is_pending_for, nb_partners,
  pulled, validate_partner,
}
use simple_directory.Partners.Accept.{IsPartnerOnce, accept_partner-IsPartnerOnce}
use simple_directory.Common.{
  Option, String, [], any, arith, err, false, none, ok, refl, some, true, ◌∷◌, ◌≡◌, ◌≤◌,
}
use simple_directory.Types.{Membership, Organization, Partner}
use simple_directory.Collection.{Collection, list_collection}

abbrev partner_post : PartnerPost
partner_post = record { name = "Beta"; contact_email = "contact@beta.example" }

abbrev old_invitation : Partner
old_invitation = record {
  id = none;
  name = "Beta";
  contact_email = some "contact@beta.example";
  partner_id = "p1";
  created_at = some 1000;
}

abbrev alpha : Organization
alpha = record {
  id = "alpha";
  name = "Alpha";
  departments = [];
  partners = old_invitation ∷ [];
  roles = none;
  roles_2fa = [];
  host = none;
  path = none;
}

abbrev beta : Organization
beta = record alpha { id = "beta"; name = "Beta"; partners = [] }

abbrev org_docs : Collection Organization
org_docs = list_collection Organization

abbrev fresh_invitation : Partner
fresh_invitation = record old_invitation { partner_id = "p2"; created_at = some 5000 }

abbrev invited_alpha : Organization
invited_alpha = record alpha { partners = fresh_invitation ∷ [] }

-- the quota of one partner is taken by the invitation that is replaced
reinvited :
    invite_partner org_docs 3600
      (some 1)
      true
      true
      5000
      "p2"
      "alpha"
      partner_post
      (alpha ∷ beta ∷ [])
    ≡ ok (invited_alpha ∷ beta ∷ [])
unfolding invite_partner add_partner pulled nb_partners is_expired_partner_invitation
reinvited = refl

quota_reached :
    invite_partner org_docs 3600
      (some 1)
      true
      true
      5000
      "p2"
      "alpha"
      (record partner_post { contact_email = "x@gamma.example" })
      (alpha ∷ beta ∷ [])
    ≡ err 429
unfolding invite_partner add_partner pulled nb_partners is_expired_partner_invitation
quota_reached = refl

within_quota : nb_partners 3600 5000 alpha.partners ≤ 1
unfolding nb_partners is_expired_partner_invitation
within_quota = omega arith

invite_partner-nb_partners_example :
    (o' : Organization) × (org_docs.find_one (is_org "alpha") (invited_alpha ∷ beta ∷ []) ≡ some o')
    × (nb_partners 3600 5000 o'.partners ≤ 1)
    × HasIds o'.partners
    × (any (is_pending_for (some "contact@beta.example")) o'.partners ≡ true)
invite_partner-nb_partners_example =
    invite_partner-nb_partners org_docs 3600 1 5000 "p2" "alpha" partner_post (alpha ∷ beta ∷ [])
      (invited_alpha ∷ beta ∷ []) alpha refl (refl, tt) refl within_quota reinvited

abbrev beta_admin : Membership
beta_admin = record {
  id = "beta";
  name = "Beta";
  role = "admin";
  department = none;
  department_name = none;
  read_only = false;
}

abbrev acceptance : PartnerAccept
acceptance = record { id = "beta"; contact_email = "contact@beta.example"; token = "t" }

abbrev invitation_of : String → Option PartnerInvitation
invitation_of t =
    some (record { org_id = "alpha"; partner_id = "p1"; contact_email = "contact@beta.example" })

abbrev joined_alpha : Organization
joined_alpha = record alpha {
  partners = record old_invitation { id = some "beta"; contact_email = none } ∷ [];
}

joined :
    accept_partner org_docs 3600 none
      (some (beta_admin ∷ []))
      invitation_of
      "alpha"
      acceptance
      (alpha ∷ beta ∷ [])
    ≡ ok (joined_alpha ∷ beta ∷ [])
unfolding accept_partner validate_partner
joined = refl

accept_partner-IsPartnerOnce_example :
    ((o' : Organization) × (org_docs.find_one (is_org "alpha") (joined_alpha ∷ beta ∷ []) ≡ some o')
      × IsPartnerOnce o'.partners
      × (any (is_partner "beta") o'.partners ≡ true))
    × ((t : PartnerInvitation) × (invitation_of "t" ≡ some t)
        × (t.contact_email ≡ "contact@beta.example")
        × (any (is_invited t acceptance) alpha.partners ≡ true))
accept_partner-IsPartnerOnce_example =
    accept_partner-IsPartnerOnce org_docs 3600 none (some (beta_admin ∷ [])) invitation_of "alpha"
      acceptance (alpha ∷ beta ∷ []) (joined_alpha ∷ beta ∷ []) alpha refl ((λ h. cc), tt) joined
