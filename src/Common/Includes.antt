-- ===== src/Common/Includes.antt =====
-- Membership as `includes` decides it: through filters, concatenation and `some`.
use Prim.Native.Nat.{◌≤◌}
use mathlib.Core.Path.{sym, ap, ◌∙◌, ◌≡◌, refl}
use mathlib.Core.Logic.{◌≢◌, inl, inr}
use mathlib.Core.Bool.{Bool, true, false, not, ◌&&◌, ◌||◌}
use mathlib.Core.Option.{some}
use mathlib.Core.List.{List, [], ◌∷◌, ◌++◌}
use native.Mathlib.Omega.{arith}
use simple_directory.Common.Tests.{Bool-cases, Eq, is_some}
use simple_directory.Common.Lists.{all, any, filter, find, includes, length}

and_false : (b : Bool) → (b && false) ≡ false
and_false true = refl
and_false false = refl

pub not-false : (b : Bool) → not b ≡ false → b ≡ true
not-false b h = ground arith

pub and_split : (a b : Bool) → (a && b) ≡ true → (a ≡ true) × (b ≡ true)
and_split a b h = ground arith

pub or_split : (a b : Bool) → (a || b) ≡ false → (a ≡ false) × (b ≡ false)
or_split a b h = ground arith

pub or_right : (a : Bool) {b : Bool} → b ≡ true → (a || b) ≡ true
or_right true h = refl
or_right false h = h

pub some_inj {ℓ} : {A : Type ℓ} (a b : A) → some a ≡ some b → a ≡ b
some_inj a b h = cc

module _ {ℓ} {A : Type ℓ} where
  pub find_passes : (p : A → Bool) (l : List A) (a : A) → find p l ≡ some a → p a ≡ true
  find_passes p [] a h = cc
  find_passes p (x ∷ l) a h = elim (Bool-cases (p x)) [
    | inl here ↦ let same : some x ≡ some a = rw here at h in rw (← (some_inj x a same)) here
    | inr there ↦ find_passes p l a (rw there at h)
  ]

  pub any-eq-is_some-find : (p : A → Bool) (l : List A) → any p l ≡ is_some (find p l)
  any-eq-is_some-find p [] = refl
  any-eq-is_some-find p (x ∷ l) = ground (arith, any-eq-is_some-find p l)

module _ {ℓ} {A : Type ℓ} where
  pub length-filter : (p : A → Bool) (l : List A) → length (filter p l) ≤ length l
  length-filter p [] = omega arith
  length-filter p (x ∷ l) =
      let h = length-filter p l in
      elim (Bool-cases (p x)) [
        | inl kept ↦ rw kept (omega arith)
        | inr dropped ↦ rw dropped (omega arith)
      ]

module _ {ℓ} {A : Type ℓ} ⦃e : Eq A⦄ where
  pub beq_refl : (a : A) → e.beq a a ≡ true
  beq_refl a = (e.beq_iff a a).1 refl

  pub beq-false : (a b : A) → a ≢ b → e.beq a b ≡ false
  beq-false a b ne = elim (Bool-cases (e.beq a b)) [
    | inl same ↦ absurd (ne ((e.beq_iff a b).0 same))
    | inr other ↦ other
  ]

  pub beq-sym : (a b : A) → e.beq a b ≡ false → e.beq b a ≡ false
  beq-sym a b apart =
      beq-false b a
        λ same. let wrong : true ≡ false = sym (beq_refl a) ∙ ap (e.beq a) (sym same) ∙ apart in cc

  -- `includes` does not see what a filter drops of other elements
  pub includes-filter :
      (p : A → Bool) (l : List A) (a : A) → includes (filter p l) a ≡ (includes l a && p a)
  includes-filter p [] a = refl
  includes-filter p (x ∷ l) a = elim (Bool-cases (p x)) [
    | inl kept ↦ elim (Bool-cases (e.beq x a)) [
      | inl same ↦
          let px : p a ≡ true = rw (← (e.beq_iff x a).0 same) kept in rw kept (rw same (rw px))
      | inr other ↦ rw kept (rw other (includes-filter p l a))
    ]
    | inr dropped ↦ elim (Bool-cases (e.beq x a)) [
      | inl same ↦
          let px : p a ≡ false = rw (← (e.beq_iff x a).0 same) dropped in
          rw dropped (rw same (rw (includes-filter p l a, px) (and_false (includes l a))))
      | inr other ↦ rw dropped (rw other (includes-filter p l a))
    ]
  ]

  pub includes-append :
      (l m : List A) (a : A) → includes (l ++ m) a ≡ (includes l a || includes m a)
  includes-append [] m a = refl
  includes-append (x ∷ l) m a = elim (Bool-cases (e.beq x a)) [
    | inl same ↦ rw same
    | inr other ↦ rw other (includes-append l m a)
  ]

  -- an element that passes the test of `some`
  pub any-elim :
      (p : A → Bool) (l : List A) → any p l ≡ true → (a : A) × (includes l a ≡ true) × (p a ≡ true)
  any-elim p [] h = cc
  any-elim p (x ∷ l) h = elim (Bool-cases (p x)) [
    | inl here ↦ (x, rw (beq_refl x), here)
    | inr there ↦
        let (a, found, passes) = any-elim p l (rw there at h) in
        (a, or_right (e.beq x a) found, passes)
  ]

  pub any_intro :
      (p : A → Bool) (l : List A) (a : A) → includes l a ≡ true → p a ≡ true → any p l ≡ true
  any_intro p [] a found h = cc
  any_intro p (x ∷ l) a found h = elim (Bool-cases (e.beq x a)) [
    | inl same ↦ let px : p x ≡ true = rw ((e.beq_iff x a).0 same) h in rw px
    | inr other ↦ or_right (p x) (any_intro p l a (rw other at found) h)
  ]

  pub all_intro :
      (p : A → Bool) (l : List A) → ((a : A) → includes l a ≡ true → p a ≡ true) → all p l ≡ true
  all_intro p [] h = refl
  all_intro p (x ∷ l) h =
      rw (h x (rw (beq_refl x) refl)) (all_intro p l (λ a k. h a (ground (arith, k))))

  pub all-elim :
      (p : A → Bool) (l : List A) (a : A) → all p l ≡ true → includes l a ≡ true → p a ≡ true
  all-elim p [] a h found = cc
  all-elim p (x ∷ l) a h found = elim (Bool-cases (e.beq x a)) [
    | inl same ↦ rw (← (e.beq_iff x a).0 same) (ground arith)
    | inr other ↦ all-elim p l a (ground arith) (rw other at found)
  ]

  pub find-includes :
      (p : A → Bool) (l : List A) (a : A) → find p l ≡ some a → (includes l a ≡ true) × (p a ≡ true)
  find-includes p [] a h = cc
  find-includes p (x ∷ l) a h = elim (Bool-cases (p x)) [
    | inl here ↦
        let same : some x ≡ some a = rw here at h in
        (rw (← (some_inj x a same)) (rw (beq_refl x)), rw (← (some_inj x a same)) here)
    | inr there ↦
        let (found, passes) = find-includes p l a (rw there at h) in
        (or_right (e.beq x a) found, passes)
  ]

module _ {A : Type 0} where
  pub any-filter-not : (p : A → Bool) (l : List A) → any p (filter (λ a. not (p a)) l) ≡ false
  any-filter-not p [] = refl
  any-filter-not p (x ∷ l) = elim (Bool-cases (p x)) [
    | inl b ↦ rw b (any-filter-not p l)
    | inr b ↦ rw b (rw b (any-filter-not p l))
  ]

  pub any-filter-false :
      (p q : A → Bool) (l : List A) → any q l ≡ false → any q (filter p l) ≡ false
  any-filter-false p q [] h = refl
  any-filter-false p q (x ∷ l) h =
      let (a, b) = or_split (q x) (any q l) h in
      elim (Bool-cases (p x)) [
        | inl kept ↦ rw kept (rw (a, any-filter-false p q l b) refl)
        | inr dropped ↦ rw dropped (any-filter-false p q l b)
      ]
