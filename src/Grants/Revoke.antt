-- ===== src/Grants/Revoke.antt =====
-- What revokeGrants leaves: the documents that do not match, and no token of a revoked grant.
use text.Mathlib.TextPositions.{eq_refl}
use text.Mathlib.TextEquality.{eq_iff}
use simple_directory.Collection.{Collection}
use simple_directory.Common.{
  Bool, Bool-cases, List, [], any, any-filter-false, ap, arith, false, filter, inl, inr, not, ok,
  refl, remove_first, sym, true, ℕ, ◌&&◌, ◌==◌, ◌∙◌, ◌∷◌, ◌≡◌, nat_eq, option_eq, string_eq,
}
use simple_directory.Grants.{
  GrantDoc, GrantFilter, GrantStores, TokenDoc, has_grant_id, is_empty_filter, is_of_grant,
  matches_filter, revoke_each, revoke_grant, revoke_grants,
}

-- `_id` is unique in a collection
abbrev pub IsDistinct : List GrantDoc → Type 0
IsDistinct [] = Unit
IsDistinct (d ∷ l) = (any (λ (e : GrantDoc). e.id == d.id) l ≡ false) × IsDistinct l

abbrev remove_each : List GrantDoc → List GrantDoc → List GrantDoc
remove_each [] l = l
remove_each (x ∷ xs) l = remove_each xs (remove_first (has_grant_id x.id) l)

remove_each-skip :
    (xs l : List GrantDoc) (d : GrantDoc)
    → any (λ (e : GrantDoc). e.id == d.id) xs ≡ false
    → remove_each xs (d ∷ l) ≡ d ∷ remove_each xs l
remove_each-skip [] l d h = refl
remove_each-skip (x ∷ xs) l d h =
    let other : (d.id == x.id) ≡ false = ground (arith, eq_iff x.id d.id, eq_iff d.id x.id) in
    rw other (remove_each-skip xs (remove_first (has_grant_id x.id) l) d (ground arith))

remove_first_self :
    (d : GrantDoc) (l : List GrantDoc) → remove_first (has_grant_id d.id) (d ∷ l) ≡ l
remove_first_self d l = rw (eq_refl d.id) refl

remove_each-filter :
    (p : GrantDoc → Bool) (l : List GrantDoc)
    → IsDistinct l
    → remove_each (filter p l) l ≡ filter (λ d. not (p d)) l
remove_each-filter p [] h = refl
remove_each-filter p (d ∷ l) (new, h) = elim (Bool-cases (p d)) [
  | inl b ↦ rw b (ap (remove_each (filter p l)) (remove_first_self d l) ∙ remove_each-filter p l h)
  | inr b ↦ rw b (
      remove_each-skip (filter p l) l d (any-filter-false p (λ e. e.id == d.id) l new)
      ∙ ap (λ t. d ∷ t) (remove_each-filter p l h))
]

abbrev drop_each : List GrantDoc → List TokenDoc → List TokenDoc
drop_each [] l = l
drop_each (x ∷ xs) l = drop_each xs (filter (λ t. not (is_of_grant x.id t)) l)

filter-filter :
    (p q r : TokenDoc → Bool) (l : List TokenDoc)
    → ((t : TokenDoc) → r t ≡ (p t && q t))
    → filter q (filter p l) ≡ filter r l
filter-filter p q r [] h = refl
filter-filter p q r (t ∷ l) h = elim (Bool-cases (p t)) [
  | inl b ↦
      rw (b, h t)
        (rw b (elim (Bool-cases (q t)) [
          | inl c ↦ rw c (ap (λ k. t ∷ k) (filter-filter p q r l h))
          | inr c ↦ rw c (filter-filter p q r l h)
        ]))
  | inr b ↦ rw (b, h t) (rw b (filter-filter p q r l h))
]

drop_each-filter :
    (xs : List GrantDoc) (l : List TokenDoc)
    → drop_each xs l ≡ filter (λ t. not (any (λ g. is_of_grant g.id t) xs)) l
drop_each-filter [] l = sym (filter_all l)
  where
    filter_all : (k : List TokenDoc) → filter (λ t. true) k ≡ k
    filter_all [] = refl
    filter_all (x ∷ k) = ap (λ t. x ∷ t) (filter_all k)
drop_each-filter (x ∷ xs) l =
    drop_each-filter xs (filter (λ t. not (is_of_grant x.id t)) l)
    ∙ filter-filter _ _ _ l (λ t. ground arith)

module _ (grants : Collection GrantDoc) (refresh codes : Collection TokenDoc) where
  docs-revoke_each :
      (xs : List GrantDoc) (n : ℕ) (s : GrantStores grants refresh codes)
      → let s' = (revoke_each grants refresh codes xs n s).1 in
        (grants.docs s'.in_grants ≡ remove_each xs (grants.docs s.in_grants))
        × (refresh.docs s'.in_refresh ≡ drop_each xs (refresh.docs s.in_refresh))
        × (codes.docs s'.in_codes ≡ drop_each xs (codes.docs s.in_codes))
  unfolding revoke_each revoke_grant
  docs-revoke_each [] n s = (refl, refl, refl)
  docs-revoke_each (x ∷ xs) n s =
      let (a, b, c) = docs-revoke_each xs _ ((revoke_grant grants refresh codes x.id s).1) in
      (
        a ∙ ap (remove_each xs) (grants.docs-delete_one (has_grant_id x.id) s.in_grants),
        b ∙ ap (drop_each xs) (refresh.docs-delete_many (is_of_grant x.id) s.in_refresh),
        c ∙ ap (drop_each xs) (codes.docs-delete_many (is_of_grant x.id) s.in_codes),
      )

  -- A revocation with a filter succeeds. It deletes the matching grants, and no other, and of the
  -- refresh tokens and the codes it deletes those of a deleted grant, and no other.
  pub revoke_grants-matching :
      (f : GrantFilter) (s : GrantStores grants refresh codes)
      → IsDistinct (grants.docs s.in_grants)
      → is_empty_filter f ≡ false
      → (n : ℕ) × (s' : GrantStores grants refresh codes) × (revoke_grants grants refresh codes f s
          ≡ ok (n, s'))
        × (grants.docs s'.in_grants
            ≡ filter (λ d. not (matches_filter f d)) (grants.docs s.in_grants))
        × (refresh.docs s'.in_refresh
            ≡ filter
                (λ t. not (
                  any
                    (λ g. is_of_grant g.id t)
                    (filter (matches_filter f) (grants.docs s.in_grants))))
                (refresh.docs s.in_refresh))
        × (codes.docs s'.in_codes
            ≡ filter
                (λ t. not (
                  any
                    (λ g. is_of_grant g.id t)
                    (filter (matches_filter f) (grants.docs s.in_grants))))
                (codes.docs s.in_codes))
  unfolding revoke_grants
  revoke_grants-matching f s distinct some_filter =
      let xs = filter (matches_filter f) (grants.docs s.in_grants) in
      let (a, b, c) = docs-revoke_each xs 0 s in
      (
        (revoke_each grants refresh codes xs 0 s).0,
        (revoke_each grants refresh codes xs 0 s).1,
        rw some_filter refl,
        a ∙ remove_each-filter (matches_filter f) (grants.docs s.in_grants) distinct,
        b ∙ drop_each-filter xs (refresh.docs s.in_refresh),
        c ∙ drop_each-filter xs (codes.docs s.in_codes),
      )
