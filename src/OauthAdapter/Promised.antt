-- ===== src/OauthAdapter/Promised.antt =====
-- What the adapter promises: a map from identifiers to documents, and what each operation does to it.
use text.Mathlib.TextEquality.{eq_iff}
use mathlib.Core.Option
use mathlib.Core.Option
use simple_directory.OauthAdapter.{
  AdapterPayload, OauthDoc, has_doc_id, is_unused, new_doc, set_doc, use_doc,
}
use simple_directory.Common.{
  Bool, List, Option, String, [], ap, if◌then◌else◌, none, refl, some, true, ℕ, ◌*◌, ◌+◌, ◌/◌, ◌==◌,
  ◌∷◌, ◌≡◌, nat_eq, option_eq, string_eq,
}

-- the documents by their identifiers
abbrev pub DocMap : Type 0
DocMap = String → Option OauthDoc

abbrev pub put : String → Option OauthDoc → DocMap → DocMap
put id d v k = if k == id then d else v k

-- the operations that write, with their arguments and the times at which they run
pub data AdapterOp : Type 0 where
  op_upsert : Bool → Option String → ℕ → String → AdapterPayload → ℕ → AdapterOp
  op_destroy : String → AdapterOp
  op_consume : ℕ → String → AdapterOp
  op_revoke : String → AdapterOp

-- the document that an upsert promises: the new payload, which expires with the new duration, or not
-- at all; the date of creation of the first upsert, which only a client has; the issuer of the scope,
-- else the one that was there
abbrev pub promised :
    Bool → Option String → ℕ → String → AdapterPayload → ℕ → Option OauthDoc → OauthDoc
promised is_client scope now id payload expires_in old = record {
  id = id;
  payload = payload;
  expires_at = if expires_in == 0 then none else some (now + expires_in * 1000);
  created_at = elim old [ none ↦ if is_client then some now else none | some d ↦ d.created_at ];
  issuer = elim scope [
    | some issuer ↦ some issuer
    | none ↦ elim old [ none ↦ none | some d ↦ d.issuer ]
  ];
}

-- a document that is used keeps the date of its first use, in seconds
abbrev pub used_once : ℕ → OauthDoc → OauthDoc
used_once now d = record d {
  payload = record (d.payload) {
    consumed = elim d.payload.consumed [ none ↦ some (now / 1000) | some used_at ↦ some used_at ];
  };
}

abbrev pub without_grant : String → Option OauthDoc → Option OauthDoc
without_grant grant_id none = none
without_grant grant_id (some d) = if d.payload.grant_id == some grant_id then none else some d

-- what the operations promise
unfoldable pub step_map : AdapterOp → DocMap → DocMap
step_map (op_upsert is_client scope now id payload expires_in) v =
    put id (some (promised is_client scope now id payload expires_in (v id))) v
step_map (op_destroy id) v = put id none v
step_map (op_consume now id) v = put id (Option.map (used_once now) (v id)) v
step_map (op_revoke grant_id) v = λ id. without_grant grant_id (v id)

unfoldable pub run_map : List AdapterOp → DocMap → DocMap
run_map [] v = v
run_map (o ∷ os) v = run_map os (step_map o v)

-- what a conditional use does to a document
abbrev pub consumed_doc : ℕ → String → OauthDoc → OauthDoc
consumed_doc now id d = if is_unused id d then use_doc now d else d

pub consumed_doc_lem :
    (now : ℕ) (id : String) (d : OauthDoc)
    → has_doc_id id d ≡ true
    → consumed_doc now id d ≡ used_once now d
consumed_doc_lem now id d h = once d.payload.consumed refl
  where
    once :
        (c : Option ℕ)
        → d.payload.consumed ≡ c
        → consumed_doc now id d ≡ record d {
          payload = record (d.payload) {
            consumed = elim c [ none ↦ some (now / 1000) | some used_at ↦ some used_at ];
          };
        }
    once none e = rw h (rw e refl)
    once (some x) e = rw h (rw e refl)

pub set_doc_lem :
    (is_client : Bool) (scope : Option String) (now : ℕ) (id : String) (payload : AdapterPayload)
    (expires_in : ℕ) (d : OauthDoc)
    → has_doc_id id d ≡ true
    → set_doc scope now payload expires_in d
      ≡ promised is_client scope now id payload expires_in (some d)
set_doc_lem is_client none now id payload expires_in d h =
    ap (λ i. record (promised is_client none now id payload expires_in (some d)) { id = i })
      ((eq_iff d.id id).0 h)
set_doc_lem is_client (some issuer) now id payload expires_in d h =
    ap
      (λ i. record (promised is_client (some issuer) now id payload expires_in (some d)) { id = i })
      ((eq_iff d.id id).0 h)

pub new_doc_lem :
    (is_client : Bool) (scope : Option String) (now : ℕ) (id : String) (payload : AdapterPayload)
    (expires_in : ℕ)
    → new_doc is_client scope now id payload expires_in
      ≡ promised is_client scope now id payload expires_in none
new_doc_lem is_client none now id payload expires_in = refl
new_doc_lem is_client (some issuer) now id payload expires_in = refl
