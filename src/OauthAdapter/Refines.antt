-- ===== src/OauthAdapter/Refines.antt =====
-- The adapter as a map from identifiers to documents: what each operation does to the map.
use mathlib.Core.Path.{fun_ext, subst}
use text.Mathlib.TextEquality.{eq_iff}
use text.Mathlib.TextPositions.{eq_refl}
use mathlib.Core.Option
use mathlib.Core.Option
use simple_directory.Collection.{Collection}
use simple_directory.OauthAdapter.Finds.{
  find-append, find-filter-not, find-remove_first, find-update_first, unless,
}
use simple_directory.OauthAdapter.Distinct.{
  append-IsDistinctDocs, filter-IsDistinctDocs, remove_first-IsDistinctDocs,
  update_first-IsDistinctDocs,
}
use simple_directory.OauthAdapter.{
  AdapterPayload, OauthDoc, consume, destroy, has_doc_id, is_unused, new_doc, revoke_by_grant_id,
  set_doc, upsert, use_doc,
}
use simple_directory.OauthAdapter.Written.{IsDistinctDocs}
use simple_directory.Common.{
  Bool, Bool-cases, List, Option, Option-cases, String, [], and_split, any-eq-is_some-find, ap, err,
  false, find, find_passes, if◌then◌else◌, inl, inr, is_some, none, not, ok, refl, some, some_inj,
  sym, true, update_first, ℕ, ◌++◌, ◌==◌, ◌∙◌, ◌∷◌, ◌≡◌, nat_eq, option_eq, string_eq,
}
use simple_directory.OauthAdapter.Promised.{
  AdapterOp, DocMap, consumed_doc, consumed_doc_lem, new_doc_lem, op_consume, op_destroy, op_revoke,
  op_upsert, promised, put, run_map, set_doc_lem, step_map, used_once, without_grant,
}

abbrev pub view_of : List OauthDoc → DocMap
view_of l k = find (has_doc_id k) l

-- a document that no search for an unused one finds was used
used_doc :
    (p q : OauthDoc → Bool) (l : List OauthDoc) (d : OauthDoc)
    → find p l ≡ none
    → find q l ≡ some d
    → p d ≡ false
used_doc p q [] d h e = cc
used_doc p q (x ∷ l) d h e = elim (Bool-cases (p x)) [
  | inl hit ↦ cc (rw hit at h)
  | inr miss ↦ elim (Bool-cases (q x)) [
    | inl here ↦ let same : some x ≡ some d = rw here at e in rw (← (some_inj x d same)) miss
    | inr there ↦ used_doc p q l d (rw miss at h) (rw there at e)
  ]
]

-- a use that is refused changes nothing in the map either
refused :
    (now : ℕ) (id k : String) (l : List OauthDoc)
    → find (is_unused id) l ≡ none
    → view_of l k ≡ put id (Option.map (consumed_doc now id) (view_of l id)) (view_of l) k
refused now id k l missing = elim (Bool-cases (k == id)) [
  | inr other ↦ rw other
  | inl same ↦ rw same (
      rw ((eq_iff k id).0 same) (elim (Option-cases (find (has_doc_id id) l)) [
        | inl absent ↦ rw absent
        | inr (d, there) ↦ rw there (rw (used_doc (is_unused id) (has_doc_id id) l d missing there))
      ]))
]

-- the first use of a document is the one that a conditional use marks
mapped_once :
    (now : ℕ) (id : String) (l : List OauthDoc)
    → Option.map (consumed_doc now id) (view_of l id) ≡ Option.map (used_once now) (view_of l id)
mapped_once now id l = elim (Option-cases (find (has_doc_id id) l)) [
  | inl absent ↦ rw absent refl
  | inr (d, there) ↦
      rw there (ap some (consumed_doc_lem now id d (find_passes (has_doc_id id) l d there)))
]

-- an update of a document that is there leaves what is promised
set_once :
    (is_client : Bool) (scope : Option String) (now : ℕ) (id : String) (payload : AdapterPayload)
    (expires_in : ℕ) (old : Option OauthDoc) (d : OauthDoc)
    → has_doc_id id d ≡ true
    → old ≡ some d
    → Option.map (λ x. if has_doc_id id x then set_doc scope now payload expires_in x else x) old
      ≡ some (promised is_client scope now id payload expires_in old)
set_once is_client scope now id payload expires_in old d here there =
    let set = set_doc scope now payload expires_in in
    ap (Option.map (λ x. if has_doc_id id x then set x else x)) there
    ∙ ap (λ b. some (if b then set d else d)) here
    ∙ ap some (set_doc_lem is_client scope now id payload expires_in d here)
    ∙ ap (λ o. some (promised is_client scope now id payload expires_in o)) (sym there)

without_grant_lem :
    (grant_id : String) (d : Option OauthDoc)
    → unless (λ x. x.payload.grant_id == some grant_id) d ≡ without_grant grant_id d
without_grant_lem grant_id none = refl
without_grant_lem grant_id (some d) = refl

module _ (docs : Collection OauthDoc) where
  abbrev pub view : docs.Store → DocMap
  view s = view_of (docs.docs s)

  -- a use that is refused writes nothing
  pub run_op : AdapterOp → docs.Store → docs.Store
  run_op (op_upsert is_client scope now id payload expires_in) s =
      upsert docs is_client scope now id payload expires_in s
  run_op (op_destroy id) s = destroy docs id s
  run_op (op_revoke grant_id) s = revoke_by_grant_id docs grant_id s
  run_op (op_consume now id) s = elim (consume docs now id s) [ ok s' ↦ s' | err status ↦ s ]

  pub run_ops : List AdapterOp → docs.Store → docs.Store
  run_ops [] s = s
  run_ops (o ∷ os) s = run_ops os (run_op o s)

  -- one operation, and the identifiers that stay distinct
  abbrev Refines : AdapterOp → docs.Store → List OauthDoc → Type 0
  Refines o s l = (view_of l ≡ step_map o (view s)) × IsDistinctDocs l

  found_in :
      (p : OauthDoc → Bool) (o : Option OauthDoc) (s : docs.Store)
      → docs.find_one p s ≡ o
      → find p (docs.docs s) ≡ o
  found_in p o s e = sym (docs.find_one_lem p s) ∙ e

  upsert-Refines :
      (is_client : Bool) (scope : Option String) (now : ℕ) (id : String) (payload : AdapterPayload)
      (expires_in : ℕ) (s : docs.Store)
      → IsDistinctDocs (docs.docs s)
      → Refines
          (op_upsert is_client scope now id payload expires_in)
          s
          (docs.docs (upsert docs is_client scope now id payload expires_in s))
  unfolding step_map upsert
  upsert-Refines is_client scope now id payload expires_in s h =
      elim (Option-cases (docs.find_one (has_doc_id id) s)) [
        | inl missing ↦
            let d = new_doc is_client scope now id payload expires_in in
            let absent = found_in (has_doc_id id) none s missing in
            let same : docs.docs (upsert docs is_client scope now id payload expires_in s)
                ≡ (docs.docs s ++ d ∷ []) =
              rw (upsert, missing) (docs.docs-insert_one d s) in
            subst (Refines (op_upsert is_client scope now id payload expires_in) s) (sym same) (
              fun_ext (λ k.
                  find-append id k d (docs.docs s) (eq_refl id) absent
                  ∙ ap (λ x. put id (some x) (view s) k)
                      (new_doc_lem is_client scope now id payload expires_in)
                  ∙ ap
                      (λ old.
                        put id (some (promised is_client scope now id payload expires_in old))
                          (view s) k)
                      (sym absent)),
              append-IsDistinctDocs d (docs.docs s)
                  (any-eq-is_some-find (has_doc_id id) (docs.docs s) ∙ ap is_some absent) h,
            )
        | inr (d, found) ↦
            let set = set_doc scope now payload expires_in in
            let there = found_in (has_doc_id id) (some d) s found in
            let same : docs.docs (upsert docs is_client scope now id payload expires_in s)
                ≡ update_first (has_doc_id id) set (docs.docs s) =
              rw (upsert, found) (docs.docs-update_one (has_doc_id id) set s) in
            let here = find_passes (has_doc_id id) (docs.docs s) d there in
            subst (Refines (op_upsert is_client scope now id payload expires_in) s) (sym same) (
              fun_ext (λ k.
                  find-update_first id (has_doc_id id) set (λ _ e. e) (λ _. refl) k (docs.docs s)
                  ∙ ap (λ x. put id x (view s) k)
                      (set_once is_client scope now id payload expires_in (view s id) d here
                        there)),
              update_first-IsDistinctDocs (has_doc_id id) set (docs.docs s) (λ _. refl) h,
            )
      ]

  destroy-Refines :
      (id : String) (s : docs.Store)
      → IsDistinctDocs (docs.docs s)
      → Refines (op_destroy id) s (docs.docs (destroy docs id s))
  unfolding step_map destroy
  destroy-Refines id s h =
      subst (Refines (op_destroy id) s) (sym (docs.docs-delete_one (has_doc_id id) s)) (
        fun_ext (λ k. find-remove_first id k (docs.docs s) h),
        remove_first-IsDistinctDocs (has_doc_id id) (docs.docs s) h,
      )

  consume-Refines :
      (now : ℕ) (id : String) (s : docs.Store)
      → IsDistinctDocs (docs.docs s)
      → Refines (op_consume now id) s (docs.docs (run_op (op_consume now id) s))
  unfolding run_op step_map consume
  consume-Refines now id s h = elim (Option-cases (docs.find_one (is_unused id) s)) [
    | inl missing ↦
        rw (run_op, consume, missing)
          (
            fun_ext (λ k.
                refused now id k (docs.docs s) (found_in (is_unused id) none s missing)
                ∙ ap (λ x. put id x (view s) k) (mapped_once now id (docs.docs s))),
            h,
          )
    | inr (d, found) ↦
        let same : docs.docs (run_op (op_consume now id) s)
            ≡ update_first (is_unused id) (use_doc now) (docs.docs s) =
          rw (run_op, consume, found) (docs.docs-update_one (is_unused id) (use_doc now) s) in
        subst (Refines (op_consume now id) s) (sym same) (
          fun_ext (λ k.
              find-update_first id (is_unused id) (use_doc now)
                (λ x e. (and_split (has_doc_id id x) (not (is_some x.payload.consumed)) e).0)
                (λ _. refl) k (docs.docs s)
              ∙ ap (λ x. put id x (view s) k) (mapped_once now id (docs.docs s))),
          update_first-IsDistinctDocs (is_unused id) (use_doc now) (docs.docs s) (λ _. refl) h,
        )
  ]

  revoke-Refines :
      (grant_id : String) (s : docs.Store)
      → IsDistinctDocs (docs.docs s)
      → Refines (op_revoke grant_id) s (docs.docs (revoke_by_grant_id docs grant_id s))
  unfolding step_map revoke_by_grant_id
  revoke-Refines grant_id s h =
      let of_grant = λ (d : OauthDoc). d.payload.grant_id == some grant_id in
      subst (Refines (op_revoke grant_id) s) (sym (docs.docs-delete_many of_grant s)) (
        fun_ext (λ k.
            find-filter-not of_grant k (docs.docs s) h ∙ without_grant_lem grant_id (view s k)),
        filter-IsDistinctDocs (λ d. not (of_grant d)) (docs.docs s) h,
      )

  run_op-Refines :
      (o : AdapterOp) (s : docs.Store)
      → IsDistinctDocs (docs.docs s)
      → Refines o s (docs.docs (run_op o s))
  unfolding run_op
  run_op-Refines (op_upsert is_client scope now id payload expires_in) s h =
      upsert-Refines is_client scope now id payload expires_in s h
  run_op-Refines (op_destroy id) s h = destroy-Refines id s h
  run_op-Refines (op_revoke grant_id) s h = revoke-Refines grant_id s h
  run_op-Refines (op_consume now id) s h = consume-Refines now id s h

  -- Any sequence of the writes of the adapter, in any order, does to the collection, seen as a map
  -- from identifiers to documents, what they promise on the map: an upsert gives the identifier its
  -- document, with the new payload and its expiry, and keeps the date of creation and, without a scope,
  -- the issuer; a deletion takes it away; a use marks a document with the date of its first use; a
  -- revocation takes away the documents of the grant; and nothing else changes. The identifiers are
  -- distinct at the start.
  pub run_ops-refines :
      (os : List AdapterOp) (s : docs.Store)
      → IsDistinctDocs (docs.docs s)
      → view (run_ops os s) ≡ run_map os (view s)
  unfolding run_ops run_map
  run_ops-refines [] s h = refl
  run_ops-refines (o ∷ os) s h =
      let (one, distinct) = run_op-Refines o s h in
      run_ops-refines os (run_op o s) distinct ∙ ap (run_map os) one
