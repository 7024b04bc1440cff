-- ===== src/Invitations/RoundTrip.antt =====
-- The long form of the short form of an invitation is the invitation without its null values.
use simple_directory.Invitations.{
  Json, Object, mapping, not_null, rename_key, shorten_invit, shorten_keys, unshorten_invit,
  unshorten_keys, without_nulls,
}
use mathlib.Core.Path.{fun_ext}
use simple_directory.Common.{
  All, Bool, Bool-cases, List, Option, Option-cases, String, [], ap, arith, beq-sym, beq_refl,
  false, if◌then◌else◌, inl, inr, is_some, none, refl, some, sym, true, ◌&&◌, ◌==◌, ◌∙◌, ◌∷◌, ◌≡◌,
  nat_eq, option_eq, string_eq,
}

-- no key of the pair is one of the other pair
abbrev pub IsApart : String × String → String × String → Type 0
IsApart (a, b) (c, d) =
    ((a == c) ≡ false) × ((a == d) ≡ false) × ((b == c) ≡ false) × ((b == d) ≡ false)

abbrev pub IsDisjoint : List (String × String) → Type 0
IsDisjoint [] = Unit
IsDisjoint (p ∷ m) = ((p.0 == p.1) ≡ false) × All (IsApart p) m × IsDisjoint m

-- the short keys are free
abbrev pub IsFree : List (String × String) → Object → Type 0
IsFree m o = All (λ (p : String × String). o p.0 ≡ none) m

-- the value of a key after a renaming, from the value moved and the tests of the key
abbrev renamed : Option Json → Bool → Bool → Option Json → Option Json
renamed value at_from at_to before =
    if is_some value then (if at_from then none else if at_to then value else before) else before

renamed-renamed :
    (v w before : Option Json) (at_a at_b at_c at_d : Bool)
    → (at_a && at_c) ≡ false
    → (at_b && at_c) ≡ false
    → (at_b && at_d) ≡ false
    → renamed v at_a at_b (renamed w at_d at_c before)
      ≡ renamed w at_d at_c (renamed v at_a at_b before)
renamed-renamed none w before at_a at_b at_c at_d ac bc bd = refl
renamed-renamed (some j) none before at_a at_b at_c at_d ac bc bd = refl
renamed-renamed (some j) (some j') before true true at_c at_d ac bc bd = ground arith
renamed-renamed (some j) (some j') before true false at_c at_d ac bc bd = ground arith
renamed-renamed (some j) (some j') before false true at_c at_d ac bc bd = ground arith
renamed-renamed (some j) (some j') before false false at_c at_d ac bc bd = ground arith

==-apart : (k a c : String) → (a == c) ≡ false → ((k == a) && (k == c)) ≡ false
==-apart k a c apart = elim (Bool-cases (k == a)) [
  | inl same ↦ rw ((string_eq.beq_iff k a).0 same) (rw (beq_refl a) apart)
  | inr other ↦ rw other
]

rename_key-other :
    (from to k : String) (o : Object)
    → (k == from) ≡ false
    → (k == to) ≡ false
    → rename_key from to o k ≡ o k
rename_key-other from to k o other other' = ground arith

rename_key-rename_key :
    (s l : String) (o : Object)
    → (s == l) ≡ false
    → o s ≡ none
    → rename_key s l (rename_key l s o) ≡ o
rename_key-rename_key s l o apart free = fun_ext λ k. elim (Option-cases (o l)) [
  | inl missing ↦ rw (missing, free)
  | inr (j, present) ↦
      rw (present, apart, beq_refl s)
        (elim (Bool-cases (k == s)) [
          | inl same ↦ rw same (rw ((string_eq.beq_iff k s).0 same) (sym free))
          | inr other ↦ rw other (elim (Bool-cases (k == l)) [
            | inl same ↦ rw same (rw ((string_eq.beq_iff k l).0 same) (sym present))
            | inr other' ↦ rw other'
          ])
        ])
]

rename_key_comm :
    (a b c d : String) (o : Object)
    → IsApart (a, b) (c, d)
    → rename_key a b (rename_key d c o) ≡ rename_key d c (rename_key a b o)
rename_key_comm a b c d o (ac, ad, bc, bd) = fun_ext λ k.
    ap (λ v. renamed v (k == a) (k == b) (rename_key d c o k)) (rename_key-other d c a o ad ac)
    ∙ renamed-renamed (o a) (o d) (o k) (k == a) (k == b) (k == c) (k == d) (==-apart k a c ac)
        (==-apart k b c bc) (==-apart k b d bd)
    ∙ sym (
        ap (λ w. renamed w (k == d) (k == c) (rename_key a b o k))
          (rename_key-other a b d o (beq-sym a d ad) (beq-sym b d bd)))

rename_key-shorten_keys :
    (s l : String) (m : List (String × String)) (o : Object)
    → All (IsApart (s, l)) m
    → rename_key s l (shorten_keys m o) ≡ shorten_keys m (rename_key s l o)
unfolding shorten_keys
rename_key-shorten_keys s l [] o apart = refl
rename_key-shorten_keys s l ((c, d) ∷ m) o (here, there) =
    rename_key-shorten_keys s l m (rename_key d c o) there
    ∙ ap (shorten_keys m) (rename_key_comm s l c d o here)

unshorten_keys-shorten_keys :
    (m : List (String × String)) (o : Object)
    → IsDisjoint m
    → IsFree m o
    → unshorten_keys m (shorten_keys m o) ≡ o
unfolding shorten_keys unshorten_keys
unshorten_keys-shorten_keys [] o disjoint free = refl
unshorten_keys-shorten_keys ((s, l) ∷ m) o (apart, here, there) (free, frees) =
    ap (unshorten_keys m) (
      rename_key-shorten_keys s l m (rename_key l s o) here
      ∙ ap (shorten_keys m) (rename_key-rename_key s l o apart free))
    ∙ unshorten_keys-shorten_keys m o there frees

without_nulls-IsFree :
    (m : List (String × String)) (o : Object) → IsFree m o → IsFree m (without_nulls o)
without_nulls-IsFree [] o free = free
without_nulls-IsFree (p ∷ m) o (here, there) = (ap not_null here, without_nulls-IsFree m o there)

mapping-IsDisjoint : IsDisjoint mapping
mapping-IsDisjoint = ground arith

-- An invitation without any of the short keys `n`, `e`, `r`, `d`, `rd` and `ds` comes back from its
-- short form as it was, less the keys whose value is null.
pub unshorten_invit-shorten_invit :
    (o : Object) → IsFree mapping o → unshorten_invit (shorten_invit o) ≡ without_nulls o
unfolding shorten_invit unshorten_invit
unshorten_invit-shorten_invit o free =
    unshorten_keys-shorten_keys mapping (without_nulls o) mapping-IsDisjoint
      (without_nulls-IsFree mapping o free)
