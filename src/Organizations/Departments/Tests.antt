-- ===== src/Organizations/Departments/Tests.antt =====
-- Concrete identifiers of new departments. Numbers are written in strokes here.
use Prim.Native.String.count as count_lem
use Prim.Native.String.{count}
use simple_directory.Organizations.Departments.Ids.{IsDistinctIds, assign_ids-IsDistinctIds}
use simple_directory.Organizations.Departments.{
  PatchDepartment, assign_ids, free_id, fresh_id, given_ids,
}
use simple_directory.Organizations.Departments.Fresh.{fresh_id-is_free}
use simple_directory.Common.{
  List, String, [], ap, err, false, if◌then◌else◌, includes, none, ok, refl, some, suc, sym, zero,
  ℕ, ◌==◌, ◌∙◌, ◌∷◌, ◌≡◌, nat_eq, option_eq, string_eq,
}

abbrev strokes : ℕ → String
strokes zero = ""
strokes (suc n) = String.◌∷◌ "I" (strokes n)

count-strokes : (n : ℕ) → count (strokes n) ≡ n
count-strokes zero = refl
count-strokes (suc n) = count_lem.cons "I" (strokes n) ∙ ap (λ k. suc k) (count-strokes n)

strokes_inj : (a b : ℕ) → strokes a ≡ strokes b → a ≡ b
strokes_inj a b same = sym (count-strokes a) ∙ ap count same ∙ count-strokes b

abbrev lower : String → String
lower s = if s == "Sales" then "sales" else s

fresh_id-is_free_example :
    (free_id lower strokes 3 ("sales" ∷ "sales-II" ∷ []) "sales" 1
      ≡ some (fresh_id lower strokes ("sales" ∷ "sales-II" ∷ []) "sales"))
    × (includes
          ("sales" ∷ "sales-II" ∷ [])
          (fresh_id lower strokes ("sales" ∷ "sales-II" ∷ []) "sales")
        ≡ false)
fresh_id-is_free_example =
    fresh_id-is_free lower strokes strokes_inj ("sales" ∷ "sales-II" ∷ []) "sales"

third : fresh_id lower strokes ("sales" ∷ "sales-II" ∷ []) "sales" ≡ "sales-III"
unfolding fresh_id free_id
third = refl

duplicate :
    assign_ids lower strokes []
      (record { id = some "sales"; name = "Sales" } ∷ record { id = none; name = "Sales" } ∷ [])
    ≡ err 400
unfolding assign_ids
duplicate = refl

-- two new departments with one name beside an old one of the same identifier
abbrev patch : List PatchDepartment
patch = record { id = some "sales"; name = "Old sales" } ∷ record { id = none; name = "Sales" } ∷ []

abbrev patched : List PatchDepartment
patched =
    record { id = some "sales"; name = "Old sales" }
    ∷ record { id = some "sales-II"; name = "Sales" }
    ∷ []

assigned : assign_ids lower strokes [] patch ≡ ok patched
unfolding assign_ids fresh_id free_id
assigned = refl

assign_ids-IsDistinctIds_example : IsDistinctIds (given_ids lower strokes patched)
assign_ids-IsDistinctIds_example =
    assign_ids-IsDistinctIds lower strokes strokes_inj patch patched (refl, tt) assigned
