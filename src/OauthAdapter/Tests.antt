-- ===== src/OauthAdapter/Tests.antt =====
-- Tests of the documents of the OAuth provider, and the theorems at concrete documents.
use simple_directory.OauthAdapter.Promised.{
  AdapterOp, op_consume, op_destroy, op_revoke, op_upsert, run_map, step_map,
}
use simple_directory.OauthAdapter.Refines.{run_ops, run_ops-refines, view}
use simple_directory.OauthAdapter.Written.{consume_twice}
use simple_directory.OauthAdapter.{
  AdapterPayload, OauthDoc, consume, find_payload, revoke_by_grant_id, to_payload, upsert,
}
use simple_directory.Common.{List, [], err, false, none, ok, refl, some, ◌∷◌, ◌≡◌}
use simple_directory.Collection.{Collection, list_collection}

abbrev code : AdapterPayload
code = record { uid = none; user_code = none; grant_id = some "g1"; consumed = none; rest = "code" }

abbrev written : OauthDoc
written = record {
  id = "c1";
  payload = code;
  expires_at = some 61000;
  created_at = none;
  issuer = none;
}

abbrev consumed_doc : OauthDoc
consumed_doc = record written { payload = record code { consumed = some 2 } }

abbrev oauth_codes : Collection OauthDoc
oauth_codes = list_collection OauthDoc

first_write : upsert oauth_codes false none 1000 "c1" code 60 [] ≡ written ∷ []
unfolding upsert
first_write = refl

code_used : consume oauth_codes 2000 "c1" (written ∷ []) ≡ ok (consumed_doc ∷ [])
unfolding consume
code_used = refl

consume_twice_example : consume oauth_codes 3000 "c1" (consumed_doc ∷ []) ≡ err 400
consume_twice_example =
    consume_twice oauth_codes 2000 3000 "c1" (written ∷ []) (consumed_doc ∷ []) (refl, tt) code_used

-- a code that was revoked with its grant is not found
code_revoked :
    find_payload oauth_codes none 2000 "c1" (revoke_by_grant_id oauth_codes "g1" (written ∷ []))
    ≡ none
unfolding find_payload revoke_by_grant_id to_payload
code_revoked = refl

-- a document is written, used twice and taken away, and another grant is revoked
abbrev ops : List AdapterOp
ops =
    op_upsert false none 1000 "c1" code 60
    ∷ op_consume 2000 "c1"
    ∷ op_consume 3000 "c1"
    ∷ op_upsert false none 4000 "c2" code 0
    ∷ op_revoke "g2"
    ∷ op_destroy "c1"
    ∷ []

run_ops-refines_example :
    view oauth_codes (run_ops oauth_codes ops []) ≡ run_map ops (view oauth_codes [])
run_ops-refines_example = run_ops-refines oauth_codes ops [] tt

left_alone : run_map ops (view oauth_codes []) "c1" ≡ none
unfolding run_map step_map
left_alone = refl
