-- ===== src/Scopes/Collapse.antt =====
-- What collapseScopes of shared/scopes.ts keeps, and that it says as much as the whole list.
use text.Mathlib.TextEquality.{eq_iff}
use simple_directory.Common.{
  Bool, Bool-cases, List, String, [], and_split, any-elim, any_intro, arith, beq-false, false,
  filter, includes, includes-filter, inl, inr, not, refl, suc, sym, true, zero, ℕ, ◌&&◌, ◌+◌, ◌<◌,
  ◌==◌, ◌∷◌, ◌≡◌, ◌≢◌, string_eq,
}
use simple_directory.Scopes.{collapse_scopes, implies, is_implied_in, split, unique}
use simple_directory.Scopes.Parts.{rank, rank-le, rank-lt_of_implies}
use simple_directory.Scopes.Implied.{implies_refl, implies_trans}

and_true : (b : Bool) → (b && true) ≡ b
and_true true = refl
and_true false = refl

includes-unique : (l : List String) (a : String) → includes (unique l) a ≡ includes l a
includes-unique [] a = refl
includes-unique (x ∷ l) a = elim (Bool-cases (x == a)) [
  | inl same ↦ rw same
  | inr other ↦
      let other' : (a == x) ≡ false = beq-false a x (λ e. cc (other, (eq_iff x a).1 (sym e))) in
      rw other (
        rw (includes-filter (λ y. not (y == x)) (unique l) a, other', includes-unique l a)
          (and_true (includes l a)))
]

-- the scopes of `u` that no other scope of `u` implies
abbrev kept_of : List String → List String
kept_of u = filter (λ s. not (is_implied_in u s)) u

includes-kept :
    (u : List String) (s : String)
    → includes (kept_of u) s ≡ (includes u s && not (is_implied_in u s))
includes-kept u s = includes-filter (λ s. not (is_implied_in u s)) u s

implier :
    (u : List String) (s : String)
    → is_implied_in u s ≡ true
    → (m : String) × (includes u m ≡ true) × (m ≢ s) × (implies m s ≡ true)
implier u s h =
    let (m, found, passes) = any-elim (λ m. not (m == s) && implies m s) u h in
    let (other, h') = and_split (not (m == s)) (implies m s) passes in
    (m, found, λ e. cc (other, (eq_iff m s).1 e), h')

-- By descending rank: what implies a dropped scope is higher up.
covered :
    (k : ℕ) (u : List String) (s : String)
    → includes u "all" ≡ false
    → includes u s ≡ true
    → 8 < k + rank (split s)
    → (m : String) × (includes (kept_of u) m ≡ true) × (implies m s ≡ true)
covered zero u s no_all found high = absurd (omega (arith, rank-le s))
covered (suc k) u s no_all found high = elim (Bool-cases (is_implied_in u s)) [
  | inr top ↦ (s, rw (includes-kept u s, found, top), implies_refl s)
  | inl dropped ↦
      let (m, m_found, ne, m_implies) = implier u s dropped in
      let higher = rank-lt_of_implies m s m_implies ne in
      let (t, t_kept, t_implies) = covered k u m no_all m_found (omega arith) in
      (
        t,
        t_kept,
        implies_trans t m s
            (λ e. cc (no_all, e, (and_split (includes u t) _ (rw (includes-kept u t) at t_kept)).0))
            t_implies m_implies,
      )
]

-- Every scope of a list without the bare family "all" is implied by a scope that the collapsed
-- list keeps: the dense view loses no permission.
pub collapse_scopes-covers :
    (scopes : List String) (s : String)
    → includes scopes "all" ≡ false
    → includes scopes s ≡ true
    → (m : String) × (includes (collapse_scopes scopes) m ≡ true) × (implies m s ≡ true)
unfolding collapse_scopes
collapse_scopes-covers scopes s no_all found =
    covered 9 (unique scopes) s (rw (includes-unique scopes "all") no_all)
      (rw (includes-unique scopes s) found) (omega arith)

-- The collapsed list holds only scopes of the list, and none of them is implied by another scope
-- of the list.
pub collapse_scopes-dense :
    (scopes : List String) (m s : String)
    → includes (collapse_scopes scopes) s ≡ true
    → includes scopes m ≡ true
    → m ≢ s
    → (includes scopes s ≡ true) × (implies m s ≡ false)
unfolding collapse_scopes
collapse_scopes-dense scopes m s kept listed ne = elim (Bool-cases (implies m s)) [
  | inr h ↦ (rw (← includes-unique scopes s) (both.0), h)
  | inl h ↦ absurd (
      cc (
        both.1,
        any_intro (λ m. not (m == s) && implies m s) (unique scopes) m
            (rw (includes-unique scopes m) listed) (rw (beq-false m s ne) h),
      ))
]
  where
    both : (includes (unique scopes) s ≡ true) × (not (is_implied_in (unique scopes) s) ≡ true)
    both = and_split _ _ (rw (includes-kept (unique scopes) s) at kept)
