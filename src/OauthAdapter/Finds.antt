-- ===== src/OauthAdapter/Finds.antt =====
-- Searches by an identifier after each kind of change of a list of documents.
use mathlib.Core.Option
use simple_directory.Collection.{find-append_other, find-update_first_other}
use simple_directory.OauthAdapter.Written.{IsDistinctDocs}
use simple_directory.OauthAdapter.{OauthDoc, has_doc_id}
use simple_directory.Common.{
  Bool, Bool-cases, List, Option, String, [], any, ap, beq-sym, false, filter, find, if◌then◌else◌,
  inl, inr, none, not, or_split, refl, remove_first, some, true, update_first, ◌++◌, ◌==◌, ◌∙◌, ◌∷◌,
  ◌≡◌, nat_eq, option_eq, string_eq,
}
use text.Mathlib.TextEquality.{eq_iff}

-- two identifiers that differ, as tests of a document
has_doc_id-other :
    (id k : String) (d : OauthDoc)
    → (k == id) ≡ false
    → has_doc_id id d ≡ true
    → has_doc_id k d ≡ false
has_doc_id-other id k d other h = rw ((eq_iff d.id id).0 h) (beq-sym k id other)

-- a change of the first document that passes a test of the identifier
module _ (id : String) (p : OauthDoc → Bool) (f : OauthDoc → OauthDoc)
    (sub : (d : OauthDoc) → p d ≡ true → has_doc_id id d ≡ true)
    (keeps : (d : OauthDoc) → (f d).id ≡ d.id) where
  find-update_self :
      (l : List OauthDoc)
      → find (has_doc_id id) (update_first p f l)
        ≡ Option.map (λ d. if p d then f d else d) (find (has_doc_id id) l)
  find-update_self [] = refl
  find-update_self (d ∷ l) = elim (Bool-cases (p d)) [
    | inl hit ↦
        let here : has_doc_id id (f d) ≡ true = rw (keeps d) (sub d hit) in
        rw hit (rw (here, sub d hit) (rw hit))
    | inr miss ↦ elim (Bool-cases (has_doc_id id d)) [
      | inl here ↦ rw miss (rw here (rw miss))
      | inr there ↦ rw miss (rw there (find-update_self l))
    ]
  ]

  pub find-update_first :
      (k : String) (l : List OauthDoc)
      → find (has_doc_id k) (update_first p f l) ≡ (
          if k == id
          then Option.map (λ d. if p d then f d else d) (find (has_doc_id id) l)
          else find (has_doc_id k) l)
  find-update_first k l = elim (Bool-cases (k == id)) [
    | inl same ↦ rw same (rw ((eq_iff k id).0 same) (find-update_self l))
    | inr other ↦ rw other (
        find-update_first_other p (has_doc_id k) f l (λ d hit. (
          has_doc_id-other id k d other (sub d hit),
          rw (keeps d) (has_doc_id-other id k d other (sub d hit)),
        )))
  ]

find-append_self :
    (id : String) (d : OauthDoc) (l : List OauthDoc)
    → has_doc_id id d ≡ true
    → find (has_doc_id id) l ≡ none
    → find (has_doc_id id) (l ++ d ∷ []) ≡ some d
find-append_self id d [] h missing = rw h
find-append_self id d (x ∷ l) h missing = elim (Bool-cases (has_doc_id id x)) [
  | inl here ↦ cc (rw here at missing)
  | inr there ↦ rw there (find-append_self id d l h (rw there at missing))
]

pub find-append :
    (id k : String) (d : OauthDoc) (l : List OauthDoc)
    → has_doc_id id d ≡ true
    → find (has_doc_id id) l ≡ none
    → find (has_doc_id k) (l ++ d ∷ []) ≡ (if k == id then some d else find (has_doc_id k) l)
find-append id k d l h missing = elim (Bool-cases (k == id)) [
  | inl same ↦ rw same (rw ((eq_iff k id).0 same) (find-append_self id d l h missing))
  | inr other ↦ rw other (find-append_other (has_doc_id k) d l (has_doc_id-other id k d other h))
]

find-none :
    (id : String) (l : List OauthDoc)
    → any (has_doc_id id) l ≡ false
    → find (has_doc_id id) l ≡ none
find-none id [] h = refl
find-none id (x ∷ l) h =
    let (miss, rest) = or_split (has_doc_id id x) (any (has_doc_id id) l) h in
    rw miss (find-none id l rest)

find-remove_self :
    (id : String) (l : List OauthDoc)
    → IsDistinctDocs l
    → find (has_doc_id id) (remove_first (has_doc_id id) l) ≡ none
find-remove_self id [] h = refl
find-remove_self id (x ∷ l) (new, h) = elim (Bool-cases (has_doc_id id x)) [
  | inl here ↦ rw here (find-none id l (rw ((eq_iff x.id id).0 here) at new))
  | inr there ↦ rw there (rw there (find-remove_self id l h))
]

find-remove_other :
    (id k : String) (l : List OauthDoc)
    → (k == id) ≡ false
    → find (has_doc_id k) (remove_first (has_doc_id id) l) ≡ find (has_doc_id k) l
find-remove_other id k [] other = refl
find-remove_other id k (x ∷ l) other = elim (Bool-cases (has_doc_id id x)) [
  | inl here ↦ rw here (rw (has_doc_id-other id k x other here))
  | inr there ↦ elim (Bool-cases (has_doc_id k x)) [
    | inl found ↦ rw there (rw found)
    | inr not_yet ↦ rw there (rw not_yet (find-remove_other id k l other))
  ]
]

pub find-remove_first :
    (id k : String) (l : List OauthDoc)
    → IsDistinctDocs l
    → find (has_doc_id k) (remove_first (has_doc_id id) l)
      ≡ (if k == id then none else find (has_doc_id k) l)
find-remove_first id k l h = elim (Bool-cases (k == id)) [
  | inl same ↦ rw same (rw ((eq_iff k id).0 same) (find-remove_self id l h))
  | inr other ↦ rw other (find-remove_other id k l other)
]

-- the document, unless a test drops it
abbrev pub unless : (OauthDoc → Bool) → Option OauthDoc → Option OauthDoc
unless p none = none
unless p (some d) = if p d then none else some d

pub find-filter-not :
    (p : OauthDoc → Bool) (k : String) (l : List OauthDoc)
    → IsDistinctDocs l
    → find (has_doc_id k) (filter (λ d. not (p d)) l) ≡ unless p (find (has_doc_id k) l)
find-filter-not p k [] h = refl
find-filter-not p k (x ∷ l) (new, h) = elim (Bool-cases (has_doc_id k x)) [
  | inl here ↦ elim (Bool-cases (p x)) [
    | inl dropped ↦
        rw (here, dropped)
          (find-filter-not p k l h
            ∙ ap (unless p) (find-none k l (rw ((eq_iff x.id k).0 here) at new)))
    | inr kept ↦ rw (here, kept) (rw here refl)
  ]
  | inr there ↦ elim (Bool-cases (p x)) [
    | inl dropped ↦ rw (there, dropped) (find-filter-not p k l h)
    | inr kept ↦ rw (there, kept) (rw there (find-filter-not p k l h))
  ]
]
