-- ===== src/OauthAdapter/Written.antt =====
-- What is found and what is used of the documents that MongoAdapter wrote.
use simple_directory.OauthAdapter.{
  AdapterPayload, OauthDoc, consume, expiry, find_payload, has_doc_id, is_in_scope, is_unused,
  new_doc, scoped, set_doc, to_payload, upsert, use_doc,
}
use simple_directory.Collection.{Collection}
use simple_directory.Common.{
  Bool, Bool-cases, List, Option, Option-cases, String, [], and_split, any, any-eq-is_some-find, ap,
  arith, err, false, find, if◌then◌else◌, inl, inr, is_some, leb, none, ok, ok_inj, option_beq_iff,
  refl, some, sym, true, update_first, ℕ, ◌&&◌, ◌*◌, ◌++◌, ◌+◌, ◌==◌, ◌∙◌, ◌∷◌, ◌≡◌, nat_eq,
  option_eq, string_eq,
}
use text.Mathlib.TextPositions.{eq_refl}
use text.Mathlib.TextEquality.{eq_iff}
use mathlib.Core.Option

any-is_unused :
    (id : String) (l : List OauthDoc) → any (has_doc_id id) l ≡ false → any (is_unused id) l ≡ false
any-is_unused id [] h = refl
any-is_unused id (d ∷ l) h = ground (arith, any-is_unused id l)

-- `_id` is unique in a collection
abbrev pub IsDistinctDocs : List OauthDoc → Type 0
IsDistinctDocs [] = Unit
IsDistinctDocs (d ∷ l) = (any (has_doc_id d.id) l ≡ false) × IsDistinctDocs l

any-use_doc :
    (now : ℕ) (id : String) (l : List OauthDoc)
    → IsDistinctDocs l
    → any (is_unused id) (update_first (is_unused id) (use_doc now) l) ≡ false
any-use_doc now id [] h = refl
any-use_doc now id (d ∷ l) (new, h) = elim (Bool-cases (is_unused id d)) [
  | inl b ↦
      let same : d.id ≡ id = (eq_iff d.id id).0 (and_split (d.id == id) _ b).0 in
      let others : any (is_unused id) l ≡ false = any-is_unused id l (rw same at new) in
      rw b (ground (arith, others))
  | inr b ↦ rw b (rw b (any-use_doc now id l h))
]

find-update_first_scoped :
    (p q : OauthDoc → Bool) (f : OauthDoc → OauthDoc) (l : List OauthDoc) (d : OauthDoc)
    → ((x : OauthDoc) → q x ≡ true → p x ≡ true)
    → ((x : OauthDoc) → p x ≡ true → q (f x) ≡ true)
    → find p l ≡ some d
    → find q (update_first p f l) ≡ some (f d)
find-update_first_scoped p q f [] d sub kept h = cc
find-update_first_scoped p q f (x ∷ l) d sub kept h = elim (Bool-cases (p x)) [
  | inl b ↦ rw b (rw (kept x b) (ap (Option.map f) (rw b at h)))
  | inr b ↦ elim (Bool-cases (q x)) [
    | inl c ↦ cc (b, sub x c)
    | inr c ↦ rw b (rw c (find-update_first_scoped p q f l d sub kept (rw b at h)))
  ]
]

find-append_scoped :
    (p q : OauthDoc → Bool) (l : List OauthDoc) (d : OauthDoc)
    → ((x : OauthDoc) → q x ≡ true → p x ≡ true)
    → q d ≡ true
    → find p l ≡ none
    → find q (l ++ d ∷ []) ≡ some d
find-append_scoped p q [] d sub e h = rw e refl
find-append_scoped p q (x ∷ l) d sub e h = elim (Bool-cases (p x)) [
  | inl b ↦ cc (rw b at h)
  | inr b ↦ elim (Bool-cases (q x)) [
    | inl c ↦ cc (b, sub x c)
    | inr c ↦ rw c (find-append_scoped p q l d sub e (rw b at h))
  ]
]

scoped_doc :
    (scope issuer : Option String) (d : OauthDoc)
    → d.issuer ≡ scoped scope issuer
    → is_in_scope scope d ≡ true
scoped_doc none issuer d h = refl
scoped_doc (some x) issuer d h = (option_beq_iff d.issuer (some x)).1 h

scoped-none : (scope : Option String) → scope ≡ scoped scope none
scoped-none none = refl
scoped-none (some x) = refl

module _ (docs : Collection OauthDoc) where
  -- A code or a token is used once: after a use that succeeds, a second use of the same id is
  -- refused.
  pub consume_twice :
      (now later : ℕ) (id : String) (s s' : docs.Store)
      → IsDistinctDocs (docs.docs s)
      → consume docs now id s ≡ ok s'
      → consume docs later id s' ≡ err 400
  unfolding consume
  consume_twice now later id s s' h e =
      elim (Bool-cases (is_some (docs.find_one (is_unused id) s))) [
        | inl b ↦
            let same : docs.update_one (is_unused id) (use_doc now) s ≡ s' = ok_inj (rw b at e) in
            let none_left : is_some (docs.find_one (is_unused id) s') ≡ false =
              ap is_some (docs.find_one_lem (is_unused id) s')
              ∙ sym (any-eq-is_some-find (is_unused id) (docs.docs s'))
              ∙ rw (← same) (
                  ap (any (is_unused id)) (docs.docs-update_one (is_unused id) (use_doc now) s)
                  ∙ any-use_doc now id (docs.docs s) h) in
            rw none_left refl
        | inr b ↦ cc (rw b at e)
      ]

  -- What an upsert wrote is found under its id and in its scope, until it expires; without an expiry
  -- it is found at any later time.
  pub find_payload-upsert :
      (is_client : Bool) (scope : Option String) (now later : ℕ) (id : String)
      (payload : AdapterPayload) (expires_in : ℕ) (s : docs.Store)
      → find_payload docs scope later id (upsert docs is_client scope now id payload expires_in s)
        ≡ (if expires_in == 0
            then some payload
            else if leb (now + expires_in * 1000) later
            then none
            else some payload)
  unfolding find_payload upsert to_payload
  find_payload-upsert is_client scope now later id payload expires_in s =
      elim (Option-cases (docs.find_one (has_doc_id id) s)) [
        | inl absent ↦ rw absent (
            ap (to_payload later) (inserted absent)
            ∙ to_payload_expiry (new_doc is_client scope now id payload expires_in) refl refl)
        | inr (d, found) ↦ rw found (
            ap (to_payload later) (updated d found)
            ∙ to_payload_expiry (set_doc scope now payload expires_in d) refl refl)
      ]
    where
      wanted : OauthDoc → Bool
      wanted d = has_doc_id id d && is_in_scope scope d

      to_payload_expiry :
          (d : OauthDoc)
          → d.payload ≡ payload
          → d.expires_at ≡ expiry now expires_in
          → to_payload later (some d) ≡ (
              if expires_in == 0
              then some payload
              else if leb (now + expires_in * 1000) later
              then none
              else some payload)
      to_payload_expiry d same e = elim (Bool-cases (expires_in == 0)) [
        | inl b ↦ rw (b, e) (rw b (ap some same))
        | inr b ↦ rw (b, e) (rw (b, same) refl)
      ]

      has_id : (d : OauthDoc) → wanted d ≡ true → has_doc_id id d ≡ true
      has_id d h = (and_split (has_doc_id id d) _ h).0

      inserted :
          docs.find_one (has_doc_id id) s ≡ none
          → docs.find_one wanted
              (docs.insert_one (new_doc is_client scope now id payload expires_in) s)
            ≡ some (new_doc is_client scope now id payload expires_in)
      inserted absent =
          docs.find_one_lem _ _
          ∙ ap (find wanted) (docs.docs-insert_one _ s)
          ∙ find-append_scoped (has_doc_id id) wanted (docs.docs s) _ has_id
              (rw (eq_refl id) (scoped_doc scope none _ (scoped-none scope)))
              (sym (docs.find_one_lem _ s) ∙ absent)

      updated :
          (d : OauthDoc)
          → docs.find_one (has_doc_id id) s ≡ some d
          → docs.find_one wanted
              (docs.update_one (has_doc_id id) (set_doc scope now payload expires_in) s)
            ≡ some (set_doc scope now payload expires_in d)
      updated d found =
          docs.find_one_lem _ _
          ∙ ap (find wanted) (docs.docs-update_one (has_doc_id id) _ s)
          ∙ find-update_first_scoped (has_doc_id id) wanted _ (docs.docs s) d has_id
              (λ x h. rw h (scoped_doc scope x.issuer _ refl)) (sym (docs.find_one_lem _ s) ∙ found)
