-- ===== src/OauthAdapter.antt =====
-- The documents of the OAuth provider: MongoAdapter of api/src/oauth-server/adapter.ts.
pub mod Written
pub mod Finds
pub mod Distinct
pub mod Promised
pub mod Refines
mod Tests
use simple_directory.Common.{
  Bool, Option, Result, String, err, if◌then◌else◌, is_some, leb, none, not, ok, some, true, ℕ,
  ◌&&◌, ◌*◌, ◌+◌, ◌/◌, ◌==◌, nat_eq, option_eq, string_eq,
}
use simple_directory.Collection.{Collection}

-- What the code reads of a payload; `rest` is all else, which the provider writes and reads.
pub record AdapterPayload : Type 0 where
  pub uid : Option String
  pub user_code : Option String
  pub grant_id : Option String
  pub consumed : Option ℕ
  pub rest : String

-- `issuer` is the field that the scope of a registered client adds
pub record OauthDoc : Type 0 where
  pub id : String
  pub payload : AdapterPayload
  pub expires_at : Option ℕ
  pub created_at : Option ℕ
  pub issuer : Option String

abbrev pub has_doc_id : String → OauthDoc → Bool
has_doc_id id d = d.id == id

-- the scope of the adapter is required of a document
abbrev pub is_in_scope : Option String → OauthDoc → Bool
is_in_scope none d = true
is_in_scope (some issuer) d = d.issuer == some issuer

abbrev pub scoped : Option String → Option String → Option String
scoped none issuer = issuer
scoped (some issuer) old = some issuer

abbrev pub expiry : ℕ → ℕ → Option ℕ
expiry now expires_in = if expires_in == 0 then none else some (now + expires_in * 1000)

-- toPayload: an expired document is not read
pub to_payload : ℕ → Option OauthDoc → Option AdapterPayload
to_payload now none = none
to_payload now (some d) = elim d.expires_at [
  | none ↦ some d.payload
  | some e ↦ if leb e now then none else some d.payload
]

-- the update of a document that is there
abbrev pub set_doc : Option String → ℕ → AdapterPayload → ℕ → OauthDoc → OauthDoc
set_doc scope now payload expires_in d = record d {
  payload = payload;
  issuer = scoped scope d.issuer;
  expires_at = expiry now expires_in;
}

-- the document that an upsert inserts
abbrev pub new_doc : Bool → Option String → ℕ → String → AdapterPayload → ℕ → OauthDoc
new_doc is_client scope now id payload expires_in = record {
  id = id;
  payload = payload;
  expires_at = expiry now expires_in;
  created_at = if is_client then some now else none;
  issuer = scope;
}

abbrev pub is_unused : String → OauthDoc → Bool
is_unused id d = d.id == id && not (is_some d.payload.consumed)

abbrev pub use_doc : ℕ → OauthDoc → OauthDoc
use_doc now d = record d { payload = record (d.payload) { consumed = some (now / 1000) } }

module _ (docs : Collection OauthDoc) where
  -- `is_client` tells the model Client; `scope` is the issuer of its scope
  pub upsert : Bool → Option String → ℕ → String → AdapterPayload → ℕ → docs.Store → docs.Store
  upsert is_client scope now id payload expires_in s =
      if is_some (docs.find_one (has_doc_id id) s)
      then docs.update_one (has_doc_id id) (set_doc scope now payload expires_in) s
      else docs.insert_one (new_doc is_client scope now id payload expires_in) s

  pub find_payload : Option String → ℕ → String → docs.Store → Option AdapterPayload
  find_payload scope now id s =
      to_payload now (docs.find_one (λ d. has_doc_id id d && is_in_scope scope d) s)

  pub find_by_uid : ℕ → String → docs.Store → Option AdapterPayload
  find_by_uid now uid s = to_payload now (docs.find_one (λ d. d.payload.uid == some uid) s)

  pub find_by_user_code : ℕ → String → docs.Store → Option AdapterPayload
  find_by_user_code now code s =
      to_payload now (docs.find_one (λ d. d.payload.user_code == some code) s)

  -- The conditional update: `matchedCount` is 0 when no document matches.
  pub consume : ℕ → String → docs.Store → Result docs.Store
  consume now id s =
      if is_some (docs.find_one (is_unused id) s)
      then ok (docs.update_one (is_unused id) (use_doc now) s)
      else err 400

  pub destroy : String → docs.Store → docs.Store
  destroy id s = docs.delete_one (has_doc_id id) s

  pub revoke_by_grant_id : String → docs.Store → docs.Store
  revoke_by_grant_id grant_id s = docs.delete_many (λ d. d.payload.grant_id == some grant_id) s
