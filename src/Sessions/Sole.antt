-- ===== src/Sessions/Sole.antt =====
-- The one element of a list that passes a test, and what a filtered update does to it.
use simple_directory.Common.{
  Bool, List, [], any, ap, arith, false, find, none, or_split, refl, some, true, update_first, ◌||◌,
  ◌∷◌, ◌≡◌,
}

pub data Sole {A : Type 0} (p : A → Bool) : List A → A → Type 0 where
  first : {x : A} {l : List A} → p x ≡ true → any p l ≡ false → Sole p (x ∷ l) x
  later : {x y : A} {l : List A} → p y ≡ false → Sole p l x → Sole p (y ∷ l) x

abbrev pub ◌⇒◌ : {A : Type 0} → (A → Bool) → (A → Bool) → Type 0
◌⇒◌ {A} q p = (x : A) → p x ≡ false → q x ≡ false

or_right_false : (a : Bool) → (a || false) ≡ a
or_right_false a = ground arith

module _ {A : Type 0} where
  pub find-any : (p : A → Bool) (l : List A) → any p l ≡ false → find p l ≡ none
  find-any p [] h = refl
  find-any p (x ∷ l) h = let (a, b) = or_split (p x) (any p l) h in rw a (find-any p l b)

  pub any-weaken : (q p : A → Bool) → ◌⇒◌ q p → (l : List A) → any p l ≡ false → any q l ≡ false
  any-weaken q p w [] h = refl
  any-weaken q p w (x ∷ l) h =
      let (a, b) = or_split (p x) (any p l) h in rw (w x a) (any-weaken q p w l b)

  pub find-Sole : (p : A → Bool) {l : List A} {x : A} → Sole p l x → find p l ≡ some x
  find-Sole p (first e f) = rw e refl
  find-Sole p (later e s) = rw e (find-Sole p s)

  pub any-Sole : (q p : A → Bool) → ◌⇒◌ q p → {l : List A} {x : A} → Sole p l x → any q l ≡ q x
  any-Sole q p w (first {x} {l} e f) = rw (any-weaken q p w l f) (or_right_false (q x))
  any-Sole q p w (later {x} {y} e s) = rw (w y e) (any-Sole q p w s)

  pub update_first-any :
      (q : A → Bool) (f : A → A) (l : List A) → any q l ≡ false → update_first q f l ≡ l
  update_first-any q f [] h = refl
  update_first-any q f (x ∷ l) h =
      let (a, b) = or_split (q x) (any q l) h in rw a (ap (λ t. x ∷ t) (update_first-any q f l b))

  pub Sole-update_first :
      (q p : A → Bool)
      → ◌⇒◌ q p
      → (f : A → A) {l : List A} {x : A} → Sole p l x
      → q x ≡ true
      → p (f x) ≡ true
      → Sole p (update_first q f l) (f x)
  Sole-update_first q p w f (first e n) hit keep = rw hit (first keep n)
  Sole-update_first q p w f (later {x} {y} e s) hit keep =
      rw (w y e) (later e (Sole-update_first q p w f s hit keep))

  pub Sole-passes : (p : A → Bool) {l : List A} {x : A} → Sole p l x → p x ≡ true
  Sole-passes p (first e n) = e
  Sole-passes p (later e s) = Sole-passes p s
