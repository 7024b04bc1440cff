-- ===== src/Grants/Tests.antt =====
-- Tests of the revocation of grants, and the theorem at concrete grants.
use simple_directory.Grants.Revoke.{revoke_grants-matching}
use simple_directory.Common.{[], any, err, filter, none, not, ok, refl, some, true, ℕ, ◌∷◌, ◌≡◌}
use simple_directory.Collection.{Collection, list_collection}
use simple_directory.Grants.{
  GrantDoc, GrantFilter, GrantRecord, GrantStores, TokenDoc, cimd, get_grant_record, is_of_grant,
  matches_filter, revoke_grants, to_record,
}

abbrev a_record : GrantRecord
a_record = record {
  issuer = "https://example.com/simple-directory";
  client_id = "https://agent.example/metadata";
  client_kind = cimd;
  subject_is_nhi = true;
  subject_id = "nhi-1";
  account = record { is_organization = true; id = "acme"; department = none };
  scope = "datasets:read";
  resources = "https://example.com/mcp" ∷ [];
  authorized_by = "ada";
  session_id = none;
  created_at = 1000;
  expires_at = 5000;
  last_used_at = none;
}

abbrev of_nhi : GrantDoc
of_nhi = record { id = "g1"; sd = some a_record }

abbrev of_ada : GrantDoc
of_ada = record {
  id = "g2";
  sd = some (record a_record { subject_id = "ada"; session_id = some "s1" });
}

abbrev unconsented : GrantDoc
unconsented = record { id = "g3"; sd = none }

abbrev oauth_grants : Collection GrantDoc
oauth_grants = list_collection GrantDoc

abbrev oauth_tokens : Collection TokenDoc
oauth_tokens = list_collection TokenDoc

abbrev held : GrantStores oauth_grants oauth_tokens oauth_tokens
held = record {
  in_grants = of_nhi ∷ of_ada ∷ unconsented ∷ [];
  in_refresh =
      record { id = "r1"; grant_id = some "g2" } ∷ record { id = "r2"; grant_id = some "g1" } ∷ [];
  in_codes = [];
}

abbrev of_s1 : GrantFilter
of_s1 = record { subject_id = none; client_id = none; session_id = some "s1" }

-- an expired record is not read
expired : get_grant_record oauth_grants oauth_tokens oauth_tokens 5000 "g1" held ≡ none
unfolding get_grant_record to_record
expired = refl

empty_filter :
    revoke_grants oauth_grants oauth_tokens oauth_tokens
      (record { subject_id = none; client_id = some ""; session_id = none })
      held
    ≡ err 500
unfolding revoke_grants
empty_filter = refl

revoke_grants-matching_example :
    (n : ℕ) × (s' : GrantStores oauth_grants oauth_tokens oauth_tokens) × (revoke_grants
        oauth_grants oauth_tokens oauth_tokens of_s1 held
      ≡ ok (n, s'))
    × (s'.in_grants ≡ filter (λ d. not (matches_filter of_s1 d)) held.in_grants)
    × (s'.in_refresh
        ≡ filter
            (λ t. not (
              any
                (λ (g : GrantDoc). is_of_grant g.id t)
                (filter (matches_filter of_s1) held.in_grants)))
            held.in_refresh)
    × (s'.in_codes
        ≡ filter
            (λ t. not (
              any
                (λ (g : GrantDoc). is_of_grant g.id t)
                (filter (matches_filter of_s1) held.in_grants)))
            held.in_codes)
revoke_grants-matching_example =
    revoke_grants-matching oauth_grants oauth_tokens oauth_tokens of_s1 held
      (refl, (refl, (refl, tt))) refl
