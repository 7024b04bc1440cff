-- ===== src/Scopes/Parts.antt =====
-- A scope is determined by its parts, and a rank on the parts that a strict implication raises.
use Prim.Native.Char.{Char, code}
use mathlib.Core.Option
use text.Mathlib.TextEquality.{eq_iff, Char-path}
use simple_directory.Common.{
  Bool-cases, Option-cases, String, ap, arith, cut, if◌then◌else◌, inl, inr, leb, nat_beq,
  nat_beq_iff, prepend, some, sym, true, ℕ, ◌&&◌, ◌+◌, ◌<◌, ◌==◌, ◌||◌, ◌∙◌, ◌≡◌, ◌≢◌, ◌≤◌, ◌⊎◌,
  nat_eq, option_eq, string_eq,
}
use simple_directory.Scopes.{Tier, at, bare, implies, implies_parts, split, tier_of, unknown}

-- how a cut text begins
abbrev Cut-cons : ℕ → Char → String → String × String → Type 0
Cut-cons k c s p =
    ((code c ≡ k) × (p ≡ ("", s)))
    ⊎ ((q : String × String) × (cut k s ≡ some q) × (p ≡ prepend c q))

cut-cons :
    (k : ℕ) (c : Char) (s : String) (p : String × String)
    → cut k (String.◌∷◌ c s) ≡ some p
    → Cut-cons k c s p
cut-cons k c s p e = elim (Bool-cases (nat_beq (code c) k)) [
  | inl y ↦ inl ((nat_beq_iff _ _).0 y, cc (rw y at e))
  | inr n ↦
      let (q, found, same) = (Option.map-eq-some_iff (prepend c) (cut k s)).0 (rw n at e) in
      inr (q, found, sym same)
]

cons-ne-nil : (c : Char) (q : String × String) (s : String) → prepend c q ≡ ("", s) → ⊥
cons-ne-nil c q s e = cc

prepend_inj : (c d : Char) (q r : String × String) → prepend c q ≡ prepend d r → (c ≡ d) × (q ≡ r)
prepend_inj c d (a, b) (a', b') e = (cc e, cc e)

tier_of_at : (t u : String) (n : ℕ) → tier_of t ≡ at n → tier_of u ≡ at n → t ≡ u
tier_of_at t u n e f = ground (
  arith,
  eq_iff t "read",
  eq_iff t "write",
  eq_iff t "admin",
  eq_iff u "read",
  eq_iff u "write",
  eq_iff u "admin",
)

pub cut_inj :
    (k : ℕ) (s t : String) (p : String × String) → cut k s ≡ some p → cut k t ≡ some p → s ≡ t
cut_inj k String.[] t p e f = cc
cut_inj k (String.◌∷◌ c s) String.[] p e f = cc
cut_inj k (String.◌∷◌ c s) (String.◌∷◌ d t) p e f = elim (cut-cons k c s p e) [
  | inl (ce, pe) ↦ elim (cut-cons k d t p f) [
    | inl (de, pd) ↦ cc (Char-path c d (ce ∙ sym de))
    | inr (q, _, pd) ↦ absurd (cons-ne-nil d q s (sym pd ∙ pe))
  ]
  | inr (q, qe, pe) ↦ elim (cut-cons k d t p f) [
    | inl (de, pd) ↦ absurd (cons-ne-nil c q t (sym pe ∙ pd))
    | inr (r, re, pd) ↦
        let (same, sameq) = prepend_inj c d q r (sym pe ∙ pd) in
        cc (same, cut_inj k s t r (qe ∙ ap some sameq) re)
  ]
]

tier_of-cases : (t : String) → (tier_of t ≡ unknown) ⊎ ((n : ℕ) × (n ≤ 2) × (tier_of t ≡ at n))
tier_of-cases t = elim (Bool-cases (t == "read")) [
  | inl a ↦ inr (0, omega arith, rw a)
  | inr a ↦ elim (Bool-cases (t == "write")) [
    | inl b ↦ inr (1, omega arith, rw (a, b))
    | inr b ↦ elim (Bool-cases (t == "admin")) [
      | inl c ↦ inr (2, omega arith, rw (a, b, c))
      | inr c ↦ inl (rw (a, b, c))
    ]
  ]
]

-- the three forms of a scope
pub data Form (s : String) : Type 0 where
  of_family : split s ≡ (s, bare) → Form s
  of_unknown : (f t : String) → cut b':' s ≡ some (f, t) → split s ≡ (f, unknown) → Form s
  of_tier :
      (f t : String) (n : ℕ)
      → cut b':' s ≡ some (f, t)
      → tier_of t ≡ at n
      → n ≤ 2
      → split s ≡ (f, at n)
      → Form s

pub form : (s : String) → Form s
unfolding split
form s = elim (Option-cases (cut b':' s)) [
  | inl no_cut ↦ of_family (rw (no_cut, split))
  | inr ((f, t), found) ↦ elim (tier_of-cases t) [
    | inl u ↦ of_unknown f t found (rw (found, split) (rw u))
    | inr (n, small, same) ↦ of_tier f t n found same small (rw (found, split) (rw same))
  ]
]

-- how high a scope stands above what it implies
pub rank : String × Tier → ℕ
rank (f, bare) = 8
rank (f, unknown) = 0
rank (f, at n) = if f == "all" then 5 + n else 1 + n

rank_tier :
    (a b : String) (i j : ℕ)
    → i ≤ 2
    → j ≤ 2
    → (a == b || a == "all") ≡ true
    → j ≤ i
    → (a ≡ b → i ≢ j)
    → rank (b, at j) < rank (a, at i)
unfolding rank
rank_tier a b i j hi hj h le ne = ground (arith, eq_iff a b, eq_iff a "all", eq_iff b "all")

rank_family_le : (a : String) → rank (a, bare) ≤ 8
unfolding rank
rank_family_le a = omega arith

rank_unknown_le : (a : String) → rank (a, unknown) ≤ 8
unfolding rank
rank_unknown_le a = omega arith

rank_tier_le : (a : String) (n : ℕ) → n ≤ 2 → rank (a, at n) ≤ 8
unfolding rank
rank_tier_le a n h = ground arith

rank-unknown : (a b : String) → rank (b, unknown) < rank (a, bare)
unfolding rank
rank-unknown a b = omega arith

rank-family : (a b : String) (n : ℕ) → n ≤ 2 → rank (b, at n) < rank (a, bare)
unfolding rank
rank-family a b n h = ground arith

pub rank-le : (s : String) → rank (split s) ≤ 8
rank-le s = go (form s)
  where
    go : Form s → rank (split s) ≤ 8
    go (of_family e) = rw e (rank_family_le s)
    go (of_unknown f t c e) = rw e (rank_unknown_le f)
    go (of_tier f t n c tn small e) = rw e (rank_tier_le f n small)

implies-cases :
    (m s : String) → implies m s ≡ true → m ≢ s → implies_parts (split m) (split s) ≡ true
unfolding implies
implies-cases m s h ne = ground (arith, eq_iff m s)

same_parts :
    (m s a b u t : String) (i : ℕ)
    → cut b':' m ≡ some (a, u)
    → cut b':' s ≡ some (b, t)
    → tier_of u ≡ at i
    → tier_of t ≡ at i
    → a ≡ b
    → m ≡ s
same_parts m s a b u t i d c ui ti e = cut_inj b':' m s (a, u) d (cc (c, e, tier_of_at u t i ui ti))

-- A scope that implies another one stands strictly above it.
pub rank-lt_of_implies :
    (m s : String) → implies m s ≡ true → m ≢ s → rank (split s) < rank (split m)
rank-lt_of_implies m s h' ne = go (form m) (form s) (implies-cases m s h' ne)
  where
    go :
        Form m → Form s → implies_parts (split m) (split s) ≡ true → rank (split s) < rank (split m)
    go (of_family e) (of_family f) h = cc (rw (e, f) at h)
    go (of_family e) (of_unknown b t c f) h = rw (e, f) (rank-unknown m b)
    go (of_family e) (of_tier b t n c tn small f) h = rw (e, f) (rank-family m b n small)
    go (of_unknown a u d e) q h = cc (rw e at h)
    go (of_tier a u i d ui smalli e) (of_family f) h = cc (rw (e, f) at h)
    go (of_tier a u i d ui smalli e) (of_unknown b t c f) h = cc (rw (e, f) at h)
    go (of_tier a u i d ui smalli e) (of_tier b t j c tj smallj f) h =
        let parts : ((a == b || a == "all") && leb j i) ≡ true = rw (e, f) at h in
        rw (e, f)
          (rank_tier a b i j smalli smallj (ground arith) (ground arith)
            (λ same eq. ne (same_parts m s a b u t i d c ui (rw eq tj) same)))
