-- ===== src/Scopes/Implied.antt =====
-- Implication between scopes is transitive, but for the bare family `all`.
use text.Mathlib.TextEquality.{eq_iff}
use text.Mathlib.TextPositions.{eq_refl}
use simple_directory.Common.{
  Bool-cases, String, arith, false, inl, inr, leb, true, ◌&&◌, ◌==◌, ◌||◌, ◌≡◌, ◌≢◌, string_eq,
}
use simple_directory.Scopes.{implies, implies_parts, split}
use simple_directory.Scopes.Parts.{Form, form, of_family, of_tier, of_unknown}

pub implies_refl : (s : String) → implies s s ≡ true
unfolding implies
implies_refl s = rw (eq_refl s)

implies_of_parts : (m s : String) → implies_parts (split m) (split s) ≡ true → implies m s ≡ true
unfolding implies
implies_of_parts m s h = ground arith

implies-parts :
    (m s : String)
    → implies m s ≡ true
    → (m == s) ≡ false
    → implies_parts (split m) (split s) ≡ true
unfolding implies
implies-parts m s h ne = ground arith

parts_trans :
    (m s r : String)
    → m ≢ "all"
    → implies_parts (split m) (split s) ≡ true
    → implies_parts (split s) (split r) ≡ true
    → implies_parts (split m) (split r) ≡ true
parts_trans m s r ne = go (form m) (form s) (form r)
  where
    go :
        Form m
        → Form s
        → Form r
        → implies_parts (split m) (split s) ≡ true
        → implies_parts (split s) (split r) ≡ true
        → implies_parts (split m) (split r) ≡ true
    go (of_family e) (of_family f) _ h k = cc (rw (e, f) at h)
    go (of_family e) (of_unknown b t _ f) q h k = cc (rw f at k)
    go (of_family e) (of_tier b t j _ _ _ f) (of_family g) h k = cc (rw (f, g) at k)
    go (of_family e) (of_tier b t j _ _ _ f) (of_unknown c u _ g) h k = cc (rw (f, g) at k)
    go (of_family e) (of_tier b t j _ _ _ f) (of_tier c u l _ _ _ g) h k =
        let h' : (m == b) ≡ true = rw (e, f) at h in
        let k' : ((b == c || b == "all") && leb l j) ≡ true = rw (f, g) at k in
        rw (e, g) (ground (arith, eq_iff m b, eq_iff b c, eq_iff b "all", eq_iff m c))
    go (of_unknown a t _ e) q _ h k = cc (rw e at h)
    go (of_tier a t i _ _ _ e) (of_family f) _ h k = cc (rw (e, f) at h)
    go (of_tier a t i _ _ _ e) (of_unknown b u _ f) _ h k = cc (rw (e, f) at h)
    go (of_tier a t i _ _ _ e) (of_tier b u j _ _ _ f) (of_family g) h k = cc (rw (f, g) at k)
    go (of_tier a t i _ _ _ e) (of_tier b u j _ _ _ f) (of_unknown c v _ g) h k =
        cc (rw (f, g) at k)
    go (of_tier a t i _ _ _ e) (of_tier b u j _ _ _ f) (of_tier c v l _ _ _ g) h k =
        let h' : ((a == b || a == "all") && leb j i) ≡ true = rw (e, f) at h in
        let k' : ((b == c || b == "all") && leb l j) ≡ true = rw (f, g) at k in
        rw (e, g)
          (ground (arith, eq_iff a b, eq_iff b c, eq_iff b "all", eq_iff a "all", eq_iff a c))

-- A chain of implications is one, when it does not begin at the bare family `all`.
pub implies_trans :
    (m s r : String) → m ≢ "all" → implies m s ≡ true → implies s r ≡ true → implies m r ≡ true
implies_trans m s r ne h k = elim (Bool-cases (m == s)) [
  | inl same ↦ rw ((eq_iff m s).0 same) k
  | inr other ↦ elim (Bool-cases (s == r)) [
    | inl same ↦ rw (← (eq_iff s r).0 same) h
    | inr other' ↦
        implies_of_parts m r
          (parts_trans m s r ne (implies-parts m s h other) (implies-parts s r k other'))
  ]
]
