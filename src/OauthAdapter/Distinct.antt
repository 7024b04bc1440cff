-- ===== src/OauthAdapter/Distinct.antt =====
-- The identifiers of the documents stay distinct.
use simple_directory.OauthAdapter.{OauthDoc, has_doc_id}
use simple_directory.OauthAdapter.Written.{IsDistinctDocs}
use simple_directory.Common.{
  Bool, Bool-cases, List, String, [], any, beq-sym, false, filter, inl, inr, or_split, refl,
  remove_first, update_first, ◌++◌, ◌∙◌, ◌∷◌, ◌≡◌, string_eq,
}

any-update_same :
    (k : String) (p : OauthDoc → Bool) (f : OauthDoc → OauthDoc) (l : List OauthDoc)
    → ((d : OauthDoc) → (f d).id ≡ d.id)
    → any (has_doc_id k) (update_first p f l) ≡ any (has_doc_id k) l
any-update_same k p f [] keeps = refl
any-update_same k p f (d ∷ l) keeps = elim (Bool-cases (p d)) [
  | inl hit ↦ rw hit (rw (keeps d))
  | inr miss ↦ rw miss (rw (any-update_same k p f l keeps))
]

pub update_first-IsDistinctDocs :
    (p : OauthDoc → Bool) (f : OauthDoc → OauthDoc) (l : List OauthDoc)
    → ((d : OauthDoc) → (f d).id ≡ d.id)
    → IsDistinctDocs l
    → IsDistinctDocs (update_first p f l)
update_first-IsDistinctDocs p f [] keeps h = tt
update_first-IsDistinctDocs p f (d ∷ l) keeps (new, h) = elim (Bool-cases (p d)) [
  | inl hit ↦ rw hit (rw (keeps d) new, h)
  | inr miss ↦
      rw miss (any-update_same d.id p f l keeps ∙ new, update_first-IsDistinctDocs p f l keeps h)
]

any-append_doc :
    (k : String) (d : OauthDoc) (l : List OauthDoc)
    → any (has_doc_id k) l ≡ false
    → has_doc_id k d ≡ false
    → any (has_doc_id k) (l ++ d ∷ []) ≡ false
any-append_doc k d [] h e = rw e
any-append_doc k d (x ∷ l) h e =
    let (miss, rest) = or_split (has_doc_id k x) (any (has_doc_id k) l) h in
    rw miss (any-append_doc k d l rest e)

pub append-IsDistinctDocs :
    (d : OauthDoc) (l : List OauthDoc)
    → any (has_doc_id d.id) l ≡ false
    → IsDistinctDocs l
    → IsDistinctDocs (l ++ d ∷ [])
append-IsDistinctDocs d [] h k = (refl, tt)
append-IsDistinctDocs d (x ∷ l) h (new, k) =
    let (miss, rest) = or_split (has_doc_id d.id x) (any (has_doc_id d.id) l) h in
    (
      any-append_doc x.id d l new (beq-sym ⦃e = string_eq⦄ x.id d.id miss),
      append-IsDistinctDocs d l rest k,
    )

any-remove_first :
    (k : String) (q : OauthDoc → Bool) (l : List OauthDoc)
    → any (has_doc_id k) l ≡ false
    → any (has_doc_id k) (remove_first q l) ≡ false
any-remove_first k q [] h = refl
any-remove_first k q (x ∷ l) h =
    let (miss, rest) = or_split (has_doc_id k x) (any (has_doc_id k) l) h in
    elim (Bool-cases (q x)) [
      | inl hit ↦ rw hit rest
      | inr kept ↦ rw kept (rw miss (any-remove_first k q l rest))
    ]

pub remove_first-IsDistinctDocs :
    (q : OauthDoc → Bool) (l : List OauthDoc) → IsDistinctDocs l → IsDistinctDocs (remove_first q l)
remove_first-IsDistinctDocs q [] h = tt
remove_first-IsDistinctDocs q (x ∷ l) (new, h) = elim (Bool-cases (q x)) [
  | inl hit ↦ rw hit h
  | inr kept ↦ rw kept (any-remove_first x.id q l new, remove_first-IsDistinctDocs q l h)
]

any-filter :
    (k : String) (q : OauthDoc → Bool) (l : List OauthDoc)
    → any (has_doc_id k) l ≡ false
    → any (has_doc_id k) (filter q l) ≡ false
any-filter k q [] h = refl
any-filter k q (x ∷ l) h =
    let (miss, rest) = or_split (has_doc_id k x) (any (has_doc_id k) l) h in
    elim (Bool-cases (q x)) [
      | inl kept ↦ rw kept (rw miss (any-filter k q l rest))
      | inr dropped ↦ rw dropped (any-filter k q l rest)
    ]

pub filter-IsDistinctDocs :
    (q : OauthDoc → Bool) (l : List OauthDoc) → IsDistinctDocs l → IsDistinctDocs (filter q l)
filter-IsDistinctDocs q [] h = tt
filter-IsDistinctDocs q (x ∷ l) (new, h) = elim (Bool-cases (q x)) [
  | inl kept ↦ rw kept (any-filter x.id q l new, filter-IsDistinctDocs q l h)
  | inr dropped ↦ rw dropped (filter-IsDistinctDocs q l h)
]
