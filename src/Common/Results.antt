-- ===== src/Common/Results.antt =====
-- What a handler or a storage method ends with: a value, or the HTTP status that it throws.
use Prim.Native.Nat.{ℕ}
use mathlib.Core.Path.{◌≡◌, refl}
use mathlib.Core.Logic.{◌⊎◌, inl, inr}
use mathlib.Core.Bool.{Bool, true, false}
use mathlib.Core.Option.{Option, none, some}

pub data Result {ℓ} (R : Type ℓ) : Type ℓ where
  ok : R → Result R
  err : ℕ → Result R

infixl 5 ◌>>=◌ ◌>>◌
abbrev pub ◌>>=◌ {ℓ κ} : {R : Type ℓ} {S : Type κ} → Result R → (R → Result S) → Result S
(err status) >>= next = err status
(ok result) >>= next = next result

-- `if (b) throw httpError(status)`
abbrev pub throw_if : Bool → ℕ → Result (Unit {0})
throw_if true status = err status
throw_if false status = ok tt

-- `if (!o) throw httpError(status)`
abbrev pub or_throw {ℓ} : {A : Type ℓ} → Option A → ℕ → Result A
or_throw none status = err status
or_throw (some a) status = ok a

abbrev pub ◌>>◌ {κ} : {S : Type κ} → Result (Unit {0}) → Result S → Result S
check >> next = check >>= λ _. next

pub >>=-eq-ok {ℓ κ} :
    {R : Type ℓ} {S : Type κ} (r : Result R) (next : R → Result S) {s : S}
    → (r >>= next) ≡ ok s
    → (x : R) × (r ≡ ok x) × (next x ≡ ok s)
>>=-eq-ok (err status) next e = cc
>>=-eq-ok (ok x) next e = (x, refl, e)

pub ok_inj {ℓ} : {A : Type ℓ} {a b : A} → ok a ≡ ok b → a ≡ b
ok_inj h = cc

pub Result-cases {ℓ} :
    {A : Type ℓ} (r : Result A) → ((a : A) × (r ≡ ok a)) ⊎ ((status : ℕ) × (r ≡ err status))
Result-cases (ok a) = inl (a, refl)
Result-cases (err status) = inr (status, refl)

pub throw_if-ok : (b : Bool) (status : ℕ) {u : Unit {0}} → throw_if b status ≡ ok u → b ≡ false
throw_if-ok false status h = refl
throw_if-ok true status h = cc

pub or_throw-ok {ℓ} :
    {A : Type ℓ} (o : Option A) (status : ℕ) {a : A} → or_throw o status ≡ ok a → o ≡ some a
or_throw-ok none status h = cc
or_throw-ok (some x) status h = cc
