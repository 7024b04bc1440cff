-- ===== src/Nhis/Scopes/Narrow.antt =====
-- narrowScope: the requested scopes that may be granted, each once.
use text.Mathlib.TextEquality.{eq_iff}
use simple_directory.Common.{
  Bool, List, Option, String, [], arith, false, includes, includes-append, not, refl, ◌&&◌, ◌++◌,
  ◌==◌, ◌||◌, ◌∷◌, ◌≡◌, string_eq,
}
use simple_directory.Nhis.Scopes.{ScopeLib, may_grant, narrow_from, narrow_scope, narrow_step}

abbrev pub IsNodup : List String → Type 0
IsNodup [] = Unit
IsNodup (x ∷ xs) = (includes xs x ≡ false) × IsNodup xs

IsNodup-snoc :
    (l : List String) (s : String) → IsNodup l → includes l s ≡ false → IsNodup (l ++ s ∷ [])
IsNodup-snoc [] s h new = (refl, tt)
IsNodup-snoc (x ∷ l) s (fresh, h) new = (
  rw (includes-append l (s ∷ []) x, fresh) (ground (arith, eq_iff s x, eq_iff x s)),
  IsNodup-snoc l s h (ground arith),
)

module _ (lib : ScopeLib) (max : Option (List String)) (known : List String) where
  -- what the loop lets through
  abbrev pub passes : String → Bool
  passes s = not (s == "") && lib.scope_regexp s && may_grant lib max known s

  narrow_step-IsNodup :
      (acc : List String) (s : String) → IsNodup acc → IsNodup (narrow_step lib max known acc s)
  unfolding narrow_step
  narrow_step-IsNodup acc s h = ground (arith, IsNodup-snoc acc s h)

  includes-narrow_step :
      (acc : List String) (s a : String)
      → includes (narrow_step lib max known acc s) a ≡ (includes acc a || (s == a && passes a))
  unfolding narrow_step
  includes-narrow_step acc s a =
      ground (arith, includes-append acc (s ∷ []) a, eq_iff s a, eq_iff s "", eq_iff a "")

  narrow_from-IsNodup :
      (acc l : List String) → IsNodup acc → IsNodup (narrow_from lib max known acc l)
  unfolding narrow_from
  narrow_from-IsNodup acc [] h = h
  narrow_from-IsNodup acc (s ∷ l) h =
      narrow_from-IsNodup (narrow_step lib max known acc s) l (narrow_step-IsNodup acc s h)

  includes-narrow_from :
      (acc l : List String) (a : String)
      → includes (narrow_from lib max known acc l) a
        ≡ (includes acc a || (includes l a && passes a))
  unfolding narrow_from
  includes-narrow_from acc [] a = ground arith
  includes-narrow_from acc (s ∷ l) a = ground (
    arith,
    includes-narrow_from (narrow_step lib max known acc s) l a,
    includes-narrow_step acc s a,
  )

  -- A scope is granted exactly when it was requested, is not empty, has the form of a scope and is
  -- covered by the maximum (or is known, without a maximum).
  pub narrow_scope_iff :
      (requested : List String) (s : String)
      → includes (narrow_scope lib requested max known) s ≡ (includes requested s && passes s)
  unfolding narrow_scope
  narrow_scope_iff requested s = includes-narrow_from [] requested s

  -- No scope is granted twice.
  pub narrow_scope-IsNodup :
      (requested : List String) → IsNodup (narrow_scope lib requested max known)
  unfolding narrow_scope
  narrow_scope-IsNodup requested = narrow_from-IsNodup [] requested tt
