-- ===== src/Exits.antt =====
-- Handlers that may leave early with an outcome of their own (a refusal, a redirection), as `return`
-- in a route does.
use mathlib.Core.Path.{◌≡◌, refl}
use mathlib.Core.Logic.{◌⊎◌, inl, inr}
use mathlib.Core.Bool.{Bool, true, false}
use mathlib.Core.Option.{Option, none, some}

pub data Exit (O : Type 0) (R : Type 0) : Type 0 where
  leave : O → Exit O R
  stay : R → Exit O R

infixl 5 ◌>>=◌ ◌>>◌
abbrev pub ◌>>=◌ : {O R S : Type 0} → Exit O R → (R → Exit O S) → Exit O S
(leave o) >>= next = leave o
(stay x) >>= next = next x

abbrev pub ◌>>◌ : {O S : Type 0} → Exit O (Unit {0}) → Exit O S → Exit O S
check >> next = check >>= λ _. next

-- `if (b) return o`
abbrev pub leave_if : {O : Type 0} → Bool → O → Exit O (Unit {0})
leave_if true o = leave o
leave_if false o = stay tt

-- `if (!x) return o`
abbrev pub or_leave : {O R : Type 0} → Option R → O → Exit O R
or_leave none o = leave o
or_leave (some x) o = stay x

pub >>=-eq-stay :
    {O R S : Type 0} (m : Exit O R) (next : R → Exit O S) {s : S}
    → (m >>= next) ≡ stay s
    → (x : R) × (m ≡ stay x) × (next x ≡ stay s)
>>=-eq-stay (leave o) next e = cc
>>=-eq-stay (stay x) next e = (x, refl, e)

pub leave_if-stay :
    {O : Type 0} (b : Bool) (o : O) {u : Unit {0}} → leave_if b o ≡ stay u → b ≡ false
leave_if-stay true o e = cc
leave_if-stay false o e = refl

pub or_leave-stay :
    {O R : Type 0} (m : Option R) (o : O) {x : R} → or_leave m o ≡ stay x → m ≡ some x
or_leave-stay none o e = cc
or_leave-stay (some y) o e = cc

pub stay_inj : {O R : Type 0} {a b : R} → ◌≡◌ {A = Exit O R} (stay a) (stay b) → a ≡ b
stay_inj e = cc

pub Exit-cases :
    {O R : Type 0} (m : Exit O R) → ((o : O) × (m ≡ leave o)) ⊎ ((x : R) × (m ≡ stay x))
Exit-cases (leave o) = inl (o, refl)
Exit-cases (stay x) = inr (x, refl)

pub leave_if-false :
    {O S : Type 0} (b : Bool) (o : O) (rest : Exit O S) → b ≡ false → (leave_if b o >> rest) ≡ rest
leave_if-false true o rest e = cc
leave_if-false false o rest e = refl

pub or_leave-some :
    {O R S : Type 0} (m : Option R) (o : O) (next : R → Exit O S) (x : R)
    → m ≡ some x
    → (or_leave m o >>= next) ≡ next x
or_leave-some none o next x e = cc
or_leave-some (some y) o next x e = cc

pub stay->>= :
    {O R S : Type 0} (m : Exit O R) (next : R → Exit O S) (x : R)
    → m ≡ stay x
    → (m >>= next) ≡ next x
stay->>= (leave o) next x e = cc
stay->>= (stay y) next x e = cc
