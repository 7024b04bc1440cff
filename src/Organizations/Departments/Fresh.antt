-- ===== src/Organizations/Departments/Fresh.antt =====
-- The search of a free identifier ends, with an identifier that no department has.
use text.Mathlib.TextLemmas.{append_cancel_left, length-append}
use mathlib.Core.Path.{subst}
use Prim.Native.String
use Prim.Native.String.{count}
use simple_directory.Organizations.Departments.{candidate, free_id, fresh_id}
use simple_directory.Common.{
  Bool, Bool-cases, List, String, [], ap, arith, beq-false, beq-sym, false, filter, get_or,
  includes, includes-filter, inl, inr, length, length-filter, nat_beq, not, refl, some, some_inj,
  suc, sym, true, zero, ℕ, ◌&&◌, ◌+◌, ◌<◌, ◌==◌, ◌∙◌, ◌∷◌, ◌≡◌, ◌≢◌, ◌≤◌, nat_eq, option_eq,
  string_eq,
}

-- an element that is dropped everywhere makes a list shorter
length-filter_lt :
    (c : String) (ids : List String)
    → includes ids c ≡ true
    → length (filter (λ x. not (x == c)) ids) < length ids
length-filter_lt c [] h = cc
length-filter_lt c (x ∷ ids) h = elim (Bool-cases (x == c)) [
  | inl same ↦ let k = length-filter (λ x. not (x == c)) ids in rw same (omega arith)
  | inr other ↦ let k = length-filter_lt c ids (rw other at h) in rw other (omega arith)
]

includes-filter_ne :
    (c k : String) (ids : List String)
    → (c == k) ≡ false
    → includes (filter (λ x. not (x == c)) ids) k ≡ includes ids k
includes-filter_ne c k ids other =
    includes-filter (λ x. not (x == c)) ids k ∙ rw (beq-sym c k other) (and_true (includes ids k))
  where
    and_true : (b : Bool) → (b && true) ≡ b
    and_true b = ground arith

append-ne : (s t : String) → 1 ≤ count t → s ≢ String.◌++◌ s t
append-ne s t some_text same =
    let h : count s ≡ count s + count t = ap count same ∙ length-append s t in omega arith

dash_count : (t : String) → 1 ≤ count (String.◌++◌ "-" t)
dash_count t = let h : count (String.◌++◌ "-" t) ≡ 1 + count t = length-append "-" t in omega arith

not_one : (i j : ℕ) → 1 ≤ i → i < j → nat_beq j 1 ≡ false
not_one i j low lt = ground arith

apart : (i j : ℕ) → i < j → i ≢ j
apart i j lt = λ same. omega arith

no_fuel : (n : ℕ) → ¬ (n < 0)
no_fuel n = λ few. omega arith

module _ (slug : String → String) (show : ℕ → String)
    (show_inj : (a b : ℕ) → show a ≡ show b → a ≡ b) where
  candidate-ne :
      (base : String) (i j : ℕ)
      → 1 ≤ i
      → i < j
      → (candidate slug show base i == candidate slug show base j) ≡ false
  candidate-ne base i j low lt =
      beq-false (candidate slug show base i) (candidate slug show base j)
        (elim (Bool-cases (nat_beq i 1)) [
          | inl first_turn ↦ λ same.
              (append-ne base (String.◌++◌ "-" (show j)) (dash_count (show j))
                (rw (first_turn, not_one i j low lt) at same))
          | inr other ↦ λ same.
              (apart i j lt (
                show_inj i j (
                  append_cancel_left "-" (show i) (show j) (
                    append_cancel_left base (String.◌++◌ "-" (show i)) (String.◌++◌ "-" (show j))
                      (rw (other, not_one i j low lt) at same)))))
        ])

  free_id-is_free :
      (fuel : ℕ) (ids : List String) (base : String) (i : ℕ) (id : String)
      → free_id slug show fuel ids base i ≡ some id
      → includes ids id ≡ false
  unfolding free_id
  free_id-is_free zero ids base i id e = cc
  free_id-is_free (suc fuel) ids base i id e =
      elim (Bool-cases (includes ids (candidate slug show base i))) [
        | inl taken ↦ free_id-is_free fuel ids base (suc i) id (rw (free_id, taken) at e)
        | inr free ↦
            subst (λ x. includes ids x ≡ false)
              (some_inj (candidate slug show base i) id (rw (free_id, free) at e)) free
      ]

  -- the search only sees the candidates from its turn on
  free_id-ext :
      (fuel : ℕ) (ids ids' : List String) (base : String) (i : ℕ)
      → ((k : ℕ)
          → i ≤ k
          → includes ids (candidate slug show base k) ≡ includes ids' (candidate slug show base k))
      → free_id slug show fuel ids base i ≡ free_id slug show fuel ids' base i
  unfolding free_id
  free_id-ext zero ids ids' base i h = refl
  free_id-ext (suc fuel) ids ids' base i h =
      let later = free_id-ext fuel ids ids' base (suc i) (λ k le. h k (omega arith)) in
      rw (free_id, h i (omega arith), later)

  -- fuel for one turn more than there are identifiers is enough
  free_id-finds :
      (fuel : ℕ) (ids : List String) (base : String) (i : ℕ)
      → 1 ≤ i
      → length ids < fuel
      → (id : String) × (free_id slug show fuel ids base i ≡ some id)
  unfolding free_id
  free_id-finds zero ids base i low few = absurd (no_fuel (length ids) few)
  free_id-finds (suc fuel) ids base i low few =
      let c = candidate slug show base i in
      elim (Bool-cases (includes ids c)) [
        | inl taken ↦
            let less = length-filter_lt c ids taken in
            let (id, found) =
              free_id-finds fuel (filter (λ x. not (x == c)) ids) base (suc i) (omega arith)
                (omega arith) in
            let same = free_id-ext fuel (filter (λ x. not (x == c)) ids) ids base (suc i) (λ k le.
              includes-filter_ne c (candidate slug show base k) ids
                (candidate-ne base i k low le)) in
            (id, rw (free_id, taken) (sym same ∙ found))
        | inr free ↦ (c, rw (free_id, free))
      ]

  -- The loop that looks for the identifier of a new department ends within one turn more than there
  -- are identifiers, if different numbers are written differently, and the identifier that it
  -- finds is not one of them.
  pub fresh_id-is_free :
      (ids : List String) (base : String)
      → (free_id slug show (suc (length ids)) ids base 1 ≡ some (fresh_id slug show ids base))
        × (includes ids (fresh_id slug show ids base) ≡ false)
  unfolding fresh_id
  fresh_id-is_free ids base =
      let (id, found) = free_id-finds (suc (length ids)) ids base 1 (omega arith) (omega arith) in
      let same : fresh_id slug show ids base ≡ id = ap (λ o. get_or o base) found in
      let done = found ∙ ap some (sym same) in
      (done, free_id-is_free (suc (length ids)) ids base 1 (fresh_id slug show ids base) done)
