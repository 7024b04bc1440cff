-- ===== src/Members/Exclusive.antt =====
-- Nobody is at once a member of a whole organization and of one of its departments.
use simple_directory.Common.{
  Bool, Bool-cases, List, Option, String, [], any, arith, beq_refl, false, filter, if◌then◌else◌,
  inl, inr, none, or_null, or_right, refl, remove_first, some, true, truthy, update_first, ◌&&◌,
  ◌++◌, ◌==◌, ◌||◌, ◌∷◌, ◌≡◌, nat_eq, option_eq, string_eq,
}
use simple_directory.Types.{Membership}
use simple_directory.Members.{in_org, is_dep, is_root, same_first}

-- no organization is entered both as a whole and by a department
abbrev pub IsExclusive : List Membership → Type 0
IsExclusive l = (id : String) → (any (is_root id) l && any (is_dep id) l) ≡ false

-- at most one entry passes
abbrev pub AtMostOne : (Membership → Bool) → List Membership → Type 0
AtMostOne p [] = Unit
AtMostOne p (o ∷ l) = if p o then any p l ≡ false else AtMostOne p l

-- at most one entry of each organization, which the single membership mode keeps
abbrev pub IsSingle : List Membership → Type 0
IsSingle l = (id : String) → AtMostOne (in_org id) l

-- a change that no test of `g` sees
pub any-update_first :
    (p g : Membership → Bool) (f : Membership → Membership) (l : List Membership)
    → ((o : Membership) → p o ≡ true → g (f o) ≡ g o)
    → any g (update_first p f l) ≡ any g l
any-update_first p g f [] h = refl
any-update_first p g f (o ∷ l) h = elim (Bool-cases (p o)) [
  | inl found ↦ rw (found, h o found)
  | inr other ↦ rw other (rw (any-update_first p g f l h))
]

-- a change that makes what passes `p` pass `g`
pub any-update_first_hit :
    (p g : Membership → Bool) (f : Membership → Membership) (l : List Membership)
    → any p l ≡ true
    → ((o : Membership) → p o ≡ true → g (f o) ≡ true)
    → any g (update_first p f l) ≡ true
any-update_first_hit p g f [] found h = cc
any-update_first_hit p g f (o ∷ l) found h = elim (Bool-cases (p o)) [
  | inl here ↦ rw (here, h o here)
  | inr there ↦ rw there (or_right (g o) (any-update_first_hit p g f l (rw there at found) h))
]

pub any-append :
    (g : Membership → Bool) (l m : List Membership) → any g (l ++ m) ≡ (any g l || any g m)
any-append g [] m = refl
any-append g (o ∷ l) m = ground (arith, any-append g l m)

-- what holds of no entry of the organization holds of no root and no department entry
pub none_of_org :
    (id : String) (l : List Membership)
    → any (in_org id) l ≡ false
    → (any (is_root id) l ≡ false) × (any (is_dep id) l ≡ false)
none_of_org id [] h = (refl, refl)
none_of_org id (o ∷ l) h = ground (arith, none_of_org id l)

pub exclusive_of_AtMostOne :
    (id : String) (l : List Membership)
    → AtMostOne (in_org id) l
    → (any (is_root id) l && any (is_dep id) l) ≡ false
exclusive_of_AtMostOne id [] h = refl
exclusive_of_AtMostOne id (o ∷ l) h = elim (Bool-cases (in_org id o)) [
  | inl here ↦ let (r, d) = none_of_org id l (rw here at h) in ground arith
  | inr there ↦ let ih = exclusive_of_AtMostOne id l (rw there at h) in ground arith
]

pub AtMostOne-update_first :
    (p g : Membership → Bool) (f : Membership → Membership) (l : List Membership)
    → ((o : Membership) → p o ≡ true → g (f o) ≡ g o)
    → AtMostOne g l
    → AtMostOne g (update_first p f l)
AtMostOne-update_first p g f [] k h = tt
AtMostOne-update_first p g f (o ∷ l) k h = elim (Bool-cases (p o)) [
  | inl found ↦ rw (found, k o found) h
  | inr other ↦ elim (Bool-cases (g o)) [
    | inl here ↦ rw (other, here) (rw (any-update_first p g f l k) (rw here at h))
    | inr there ↦ rw (other, there) (AtMostOne-update_first p g f l k (rw there at h))
  ]
]

pub AtMostOne-append :
    (p : Membership → Bool) (l : List Membership) (o : Membership)
    → AtMostOne p l
    → (p o && any p l) ≡ false
    → AtMostOne p (l ++ o ∷ [])
AtMostOne-append p [] o h k = ground arith
AtMostOne-append p (q ∷ l) o h k = elim (Bool-cases (p q)) [
  | inl here ↦ rw here (rw (any-append p l (o ∷ []), (rw here at h)) (ground arith))
  | inr there ↦ rw there (AtMostOne-append p l o (rw there at h) (rw there at k))
]

pub any-filter_le :
    (p g : Membership → Bool) (l : List Membership) → any g l ≡ false → any g (filter p l) ≡ false
any-filter_le p g [] h = refl
any-filter_le p g (o ∷ l) h = ground (arith, any-filter_le p g l)

pub any-remove_first_le :
    (p g : Membership → Bool) (l : List Membership)
    → any g l ≡ false
    → any g (remove_first p l) ≡ false
any-remove_first_le p g [] h = refl
any-remove_first_le p g (o ∷ l) h = ground (arith, any-remove_first_le p g l)

pub or_null_falsy : (d : Option String) → truthy d ≡ false → or_null d ≡ none
or_null_falsy none h = refl
or_null_falsy (some s) h = ground arith

pub option_refl : (d : Option String) → (d == d) ≡ true
option_refl d = beq_refl d

pub or_true : (b : Bool) → (b || true) ≡ true
or_true true = refl
or_true false = refl

pub any-filter_keep :
    (p q : Membership → Bool) (l : List Membership)
    → any p l ≡ true
    → ((o : Membership) → p o ≡ true → q o ≡ true)
    → any p (filter q l) ≡ true
any-filter_keep p q [] h k = cc
any-filter_keep p q (o ∷ l) h k = elim (Bool-cases (p o)) [
  | inl here ↦ rw (k o here) (rw here)
  | inr there ↦ elim (Bool-cases (q o)) [
    | inl stays ↦ rw stays (or_right (p o) (any-filter_keep p q l (rw there at h) k))
    | inr goes ↦ rw goes (any-filter_keep p q l (rw there at h) k)
  ]
]

-- two entries that are not one object: dropping the one leaves the other
pub any-remove_first_keep :
    (p q : Membership → Bool) (l : List Membership)
    → same_first p q l ≡ false
    → any p l ≡ true
    → any p (remove_first q l) ≡ true
any-remove_first_keep p q [] e h = h
any-remove_first_keep p q (o ∷ l) e h = ground (arith, any-remove_first_keep p q l)
