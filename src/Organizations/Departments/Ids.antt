-- ===== src/Organizations/Departments/Ids.antt =====
-- The identifiers that a patch of the departments leaves are distinct.
use mathlib.Core.Path.{subst}
use mathlib.Core.List.{append-nil}
use simple_directory.Organizations.Departments.Fresh.{fresh_id-is_free}
use simple_directory.Organizations.Departments.{
  PatchDepartment, assign_ids, fresh_id, given_ids, is_duplicate,
}
use simple_directory.Common.{
  Bool-cases, List, Option, Option-cases, String, [], any, ap, beq-sym, false, includes, inl, inr,
  none, ok, ok_inj, or_split, refl, some, sym, truthy, ℕ, ◌++◌, ◌==◌, ◌∷◌, ◌≡◌, nat_eq, option_eq,
  string_eq,
}

abbrev pub IsDistinctIds : List String → Type 0
IsDistinctIds [] = Unit
IsDistinctIds (x ∷ l) = (includes l x ≡ false) × IsDistinctIds l

includes-insert :
    (a b : List String) (x y : String)
    → includes (a ++ b) y ≡ false
    → (x == y) ≡ false
    → includes (a ++ x ∷ b) y ≡ false
includes-insert [] b x y h e = rw (e, h)
includes-insert (z ∷ a) b x y h e =
    let (one, others) = or_split (z == y) (includes (a ++ b) y) h in
    rw (one, includes-insert a b x y others e)

-- a new element may stand anywhere
insert-IsDistinctIds :
    (a b : List String) (x : String)
    → includes (a ++ b) x ≡ false
    → IsDistinctIds (a ++ b)
    → IsDistinctIds (a ++ x ∷ b)
insert-IsDistinctIds [] b x new h = (new, h)
insert-IsDistinctIds (z ∷ a) b x new (here, h) =
    let (one, others) = or_split (z == x) (includes (a ++ b) x) new in
    (includes-insert a b x z here (beq-sym z x one), insert-IsDistinctIds a b x others h)

includes-delete :
    (a b : List String) (x y : String)
    → includes (a ++ x ∷ b) y ≡ false
    → includes (a ++ b) y ≡ false
includes-delete [] b x y h = (or_split (x == y) (includes b y) h).1
includes-delete (z ∷ a) b x y h =
    let (one, others) = or_split (z == y) (includes (a ++ x ∷ b) y) h in
    rw (one, includes-delete a b x y others)

delete-IsDistinctIds :
    (a b : List String) (x : String) → IsDistinctIds (a ++ x ∷ b) → IsDistinctIds (a ++ b)
delete-IsDistinctIds [] b x (_, h) = h
delete-IsDistinctIds (z ∷ a) b x (here, h) =
    (includes-delete a b x z here, delete-IsDistinctIds a b x h)

append_assoc_one :
    (a : List PatchDepartment) (x : PatchDepartment) (b : List PatchDepartment)
    → (a ++ x ∷ []) ++ b ≡ a ++ x ∷ b
append_assoc_one [] x b = refl
append_assoc_one (y ∷ a) x b = ap (λ l. y ∷ l) (append_assoc_one a x b)

module _ (slug : String → String) (show : ℕ → String)
    (show_inj : (a b : ℕ) → show a ≡ show b → a ≡ b) where
  abbrev ids : List PatchDepartment → List String
  ids = given_ids slug show

  ids-append : (a b : List PatchDepartment) → ids (a ++ b) ≡ ids a ++ ids b
  ids-append [] b = refl
  ids-append (d ∷ a) b = elim (Option-cases d.id) [
    | inl new ↦ rw new (ids-append a b)
    | inr (id, given) ↦ rw given (ap (λ l. id ∷ l) (ids-append a b))
  ]

  -- the identifiers without those of the department that is to have one
  others_distinct :
      (before ds : List PatchDepartment) (d : PatchDepartment) (x : String)
      → IsDistinctIds (ids (before ++ d ∷ ds))
      → includes (ids (before ++ d ∷ ds)) x ≡ false
      → IsDistinctIds (ids before ++ x ∷ ids ds)
  others_distinct before ds d x h new =
      of_id d.id refl (subst IsDistinctIds (ids-append before (d ∷ ds)) h)
        (subst (λ l. includes l x ≡ false) (ids-append before (d ∷ ds)) new)
    where
      of_id :
          (o : Option String)
          → d.id ≡ o
          → IsDistinctIds (ids before ++ ids (d ∷ ds))
          → includes (ids before ++ ids (d ∷ ds)) x ≡ false
          → IsDistinctIds (ids before ++ x ∷ ids ds)
      of_id none e k n = insert-IsDistinctIds (ids before) (ids ds) x (rw e at n) (rw e at k)
      of_id (some y) e k n =
          insert-IsDistinctIds (ids before) (ids ds) x
            (includes-delete (ids before) (ids ds) y x (rw e at n))
            (delete-IsDistinctIds (ids before) (ids ds) y (rw e at k))

  assign_ids-step :
      (before ds l : List PatchDepartment)
      → IsDistinctIds (ids (before ++ ds))
      → assign_ids slug show before ds ≡ ok l
      → IsDistinctIds (ids l)
  unfolding assign_ids
  assign_ids-step before [] l h e =
      subst (λ k. IsDistinctIds (ids k)) (ok_inj e)
        (subst (λ k. IsDistinctIds (ids k)) (append-nil before) h)
  assign_ids-step before (d ∷ ds) l h e = elim (Bool-cases (truthy d.id)) [
    | inl given ↦
        assign_ids-step (before ++ d ∷ []) ds l
          (subst (λ k. IsDistinctIds (ids k)) (sym (append_assoc_one before d ds)) h)
          (rw (assign_ids, given) at e)
    | inr new ↦ elim (Bool-cases (any (is_duplicate slug show d.name) (before ++ d ∷ ds))) [
      | inl twice ↦ cc (rw (assign_ids, new, twice) at e)
      | inr once ↦
          let id = fresh_id slug show (ids (before ++ d ∷ ds)) (slug d.name) in
          let free =
            (fresh_id-is_free slug show show_inj (ids (before ++ d ∷ ds)) (slug d.name)).1 in
          let d' : PatchDepartment = record d { id = some id } in
          assign_ids-step (before ++ d' ∷ []) ds l
            (subst (λ k. IsDistinctIds (ids k)) (sym (append_assoc_one before d' ds))
              (subst IsDistinctIds (sym (ids-append before (d' ∷ ds)))
                (others_distinct before ds d id h free)))
            (rw (assign_ids, new, once) at e)
    ]
  ]

  -- A patch whose departments have distinct identifiers, as far as they have one, leaves departments
  -- with distinct identifiers: a new department never gets the one of another department of the
  -- patch. Different numbers are written differently.
  pub assign_ids-IsDistinctIds :
      (ds l : List PatchDepartment)
      → IsDistinctIds (ids ds)
      → assign_ids slug show [] ds ≡ ok l
      → IsDistinctIds (ids l)
  assign_ids-IsDistinctIds ds l h e = assign_ids-step [] ds l h e
