-- ===== src/Grants.antt =====
-- The grants of the OAuth server: api/src/oauth-server/grants.ts, and revokeByGrantId and the check
-- of the expiry of api/src/oauth-server/adapter.ts.
pub mod Revoke
mod Tests
use simple_directory.Common.{
  Bool, List, Option, Result, String, [], false, filter, if◌then◌else◌, is_some, leb, none, not, ok,
  or_null, some, throw_if, true, truthy, ℕ, ◌&&◌, ◌+◌, ◌==◌, ◌>>=◌, ◌>>◌, ◌∷◌, nat_eq, option_eq,
  string_eq,
}
use simple_directory.Collection.{Collection}

pub data ClientKind : Type 0 where
  site_client cimd dcr : ClientKind

pub record GrantAccount : Type 0 where
  pub is_organization : Bool
  pub id : String
  pub department : Option String

-- OAuthGrantRecord, without its `_id`
pub record GrantRecord : Type 0 where
  pub issuer : String
  pub client_id : String
  pub client_kind : ClientKind
  pub subject_is_nhi : Bool
  pub subject_id : String
  pub account : GrantAccount
  pub scope : String
  pub resources : List String
  pub authorized_by : String
  pub session_id : Option String
  pub created_at : ℕ
  pub expires_at : ℕ
  pub last_used_at : Option ℕ

-- a document of the collection oauth-grant; `sd` is absent until the consent is recorded
pub record GrantDoc : Type 0 where
  pub id : String
  pub sd : Option GrantRecord

-- a document of oauth-refresh-token or oauth-authorization-code
pub record TokenDoc : Type 0 where
  pub id : String
  pub grant_id : Option String

pub record GrantFilter : Type 0 where
  pub subject_id : Option String
  pub client_id : Option String
  pub session_id : Option String

-- the record, where it has not expired: toRecord
pub to_record : ℕ → Option GrantDoc → Option GrantRecord
to_record now none = none
to_record now (some doc) = elim doc.sd [
  | none ↦ none
  | some sd ↦ if leb sd.expires_at now then none else some sd
]

-- `if (value) query[path] = value`
abbrev pub agrees_with : Option String → Option String → Bool
agrees_with none value = true
agrees_with (some v) value = value == some v

abbrev pub record_matches : GrantFilter → Option GrantRecord → Bool
record_matches f none = false
record_matches f (some sd) =
    agrees_with (or_null f.subject_id) (some sd.subject_id)
    && agrees_with (or_null f.client_id) (some sd.client_id)
    && agrees_with (or_null f.session_id) sd.session_id

-- toMongoFilter
pub matches_filter : GrantFilter → GrantDoc → Bool
matches_filter f doc = record_matches f doc.sd

abbrev pub is_empty_filter : GrantFilter → Bool
is_empty_filter f =
    not (truthy f.subject_id) && not (truthy f.client_id) && not (truthy f.session_id)

abbrev pub has_grant_id : String → GrantDoc → Bool
has_grant_id id doc = doc.id == id

abbrev pub is_of_grant : String → TokenDoc → Bool
is_of_grant id t = t.grant_id == some id

abbrev pub set_record : GrantRecord → GrantDoc → GrantDoc
set_record sd doc = record doc { sd = some sd }

-- `sd: { $exists: true }`, and the date of the last use
abbrev pub has_record : String → GrantDoc → Bool
has_record id doc = doc.id == id && is_some doc.sd

abbrev pub touch_sd : ℕ → Option GrantRecord → Option GrantRecord
touch_sd now none = none
touch_sd now (some sd) = some (record sd { last_used_at = some now })

abbrev pub touch : ℕ → GrantDoc → GrantDoc
touch now doc = record doc { sd = touch_sd now doc.sd }

module _ (grants : Collection GrantDoc) (refresh codes : Collection TokenDoc) where
  pub record GrantStores : Type 0 where
    pub in_grants : grants.Store
    pub in_refresh : refresh.Store
    pub in_codes : codes.Store

  -- saveGrantRecord; its plain Error is a 500
  pub save_grant_record : String → GrantRecord → GrantStores → Result GrantStores
  save_grant_record id sd s = do
    throw_if (not (is_some (grants.find_one (has_grant_id id) s.in_grants))) 500
    ok (record s { in_grants = grants.update_one (has_grant_id id) (set_record sd) s.in_grants })

  pub get_grant_record : ℕ → String → GrantStores → Option GrantRecord
  get_grant_record now id s = to_record now (grants.find_one (has_grant_id id) s.in_grants)

  -- the records of listGrantRecords, without their order
  pub list_grant_records : ℕ → GrantFilter → GrantStores → List GrantDoc
  list_grant_records now f s =
      filter (λ doc. matches_filter f doc && is_some (to_record now (some doc)))
        (grants.docs s.in_grants)

  pub touch_grant_record : ℕ → String → GrantStores → GrantStores
  touch_grant_record now id s = record s {
    in_grants = grants.update_one (has_record id) (touch now) s.in_grants;
  }

  abbrev pub has_sd : Option GrantDoc → Bool
  has_sd none = false
  has_sd (some doc) = is_some doc.sd

  -- revokeGrant: whether there was a record, and what is left
  pub revoke_grant : String → GrantStores → Bool × GrantStores
  revoke_grant id s = (
    has_sd (grants.find_one (has_grant_id id) s.in_grants),
    record {
      in_grants = grants.delete_one (has_grant_id id) s.in_grants;
      in_refresh = refresh.delete_many (is_of_grant id) s.in_refresh;
      in_codes = codes.delete_many (is_of_grant id) s.in_codes;
    },
  )

  -- the loop of revokeGrants
  unfoldable pub revoke_each : List GrantDoc → ℕ → GrantStores → ℕ × GrantStores
  revoke_each [] count s = (count, s)
  revoke_each (doc ∷ docs) count s =
      revoke_each docs (if (revoke_grant doc.id s).0 then count + 1 else count)
        ((revoke_grant doc.id s).1)

  unfoldable pub revoke_grants : GrantFilter → GrantStores → Result (ℕ × GrantStores)
  revoke_grants f s = do
    throw_if (is_empty_filter f) 500
    ok (revoke_each (filter (matches_filter f) (grants.docs s.in_grants)) 0 s)
