-- ===== src/Collection.antt =====
-- A collection of the database (mongo.ts opens them), which is not part of this repository: the
-- driver's methods, and what the code relies on in them. Filters are predicates, and update
-- documents are functions.
use mathlib.Core.Option
use simple_directory.Common.{
  Bool, Bool-cases, List, Option, [], ap, false, filter, find, inl, inr, not, refl, remove_first,
  sym, true, update_all, update_first, ◌++◌, ◌∙◌, ◌∷◌, ◌≡◌,
}

pub record Collection (D : Type 0) : Type 1 where
  pub Store : Type 0
  -- the documents in their natural order
  pub docs : Store → List D
  pub find_one : (D → Bool) → Store → Option D
  pub update_one : (D → Bool) → (D → D) → Store → Store
  pub update_many : (D → Bool) → (D → D) → Store → Store
  pub insert_one : D → Store → Store
  pub delete_one : (D → Bool) → Store → Store
  pub delete_many : (D → Bool) → Store → Store
  pub find_one_lem : (p : D → Bool) (s : Store) → find_one p s ≡ find p (docs s)
  pub docs-update_one :
      (p : D → Bool) (f : D → D) (s : Store) → docs (update_one p f s) ≡ update_first p f (docs s)
  pub docs-update_many :
      (p : D → Bool) (f : D → D) (s : Store) → docs (update_many p f s) ≡ update_all p f (docs s)
  pub docs-insert_one : (d : D) (s : Store) → docs (insert_one d s) ≡ docs s ++ d ∷ []
  pub docs-delete_one : (p : D → Bool) (s : Store) → docs (delete_one p s) ≡ remove_first p (docs s)
  pub docs-delete_many :
      (p : D → Bool) (s : Store) → docs (delete_many p s) ≡ filter (λ d. not (p d)) (docs s)

-- A list of documents meets the assumptions.
abbrev pub list_collection : (D : Type 0) → Collection D
list_collection D = record {
  Store = List D;
  docs = λ s. s;
  find_one = find;
  update_one = update_first;
  update_many = update_all;
  insert_one = λ d s. s ++ d ∷ [];
  delete_one = remove_first;
  delete_many = λ p s. filter (λ d. not (p d)) s;
  find_one_lem = λ p s. refl;
  docs-update_one = λ p f s. refl;
  docs-update_many = λ p f s. refl;
  docs-insert_one = λ d s. refl;
  docs-delete_one = λ p s. refl;
  docs-delete_many = λ p s. refl;
}

module _ {D : Type 0} where
  pub find-update_first_self :
      (p : D → Bool) (f : D → D) (l : List D)
      → ((d : D) → p d ≡ true → p (f d) ≡ true)
      → find p (update_first p f l) ≡ Option.map f (find p l)
  find-update_first_self p f [] h = refl
  find-update_first_self p f (d ∷ l) h = elim (Bool-cases (p d)) [
    | inl here ↦ rw here (rw (h d here))
    | inr there ↦ rw there (rw there (find-update_first_self p f l h))
  ]

  pub find-update_first_other :
      (p q : D → Bool) (f : D → D) (l : List D)
      → ((d : D) → p d ≡ true → (q d ≡ false) × (q (f d) ≡ false))
      → find q (update_first p f l) ≡ find q l
  find-update_first_other p q f [] h = refl
  find-update_first_other p q f (d ∷ l) h = elim (Bool-cases (p d)) [
    | inl here ↦ let (a, b) = h d here in rw here (rw (a, b))
    | inr there ↦ elim (Bool-cases (q d)) [
      | inl hit ↦ rw there (rw hit)
      | inr miss ↦ rw there (rw miss (find-update_first_other p q f l h))
    ]
  ]

  pub find-append_other :
      (q : D → Bool) (d : D) (l : List D) → q d ≡ false → find q (l ++ d ∷ []) ≡ find q l
  find-append_other q d [] h = rw h
  find-append_other q d (x ∷ l) h = elim (Bool-cases (q x)) [
    | inl here ↦ rw here
    | inr there ↦ rw there (find-append_other q d l h)
  ]

  pub find-remove_first_other :
      (p q : D → Bool) (l : List D)
      → ((d : D) → p d ≡ true → q d ≡ false)
      → find q (remove_first p l) ≡ find q l
  find-remove_first_other p q [] w = refl
  find-remove_first_other p q (x ∷ l) w = elim (Bool-cases (p x)) [
    | inl b ↦ rw b (rw (w x b) refl)
    | inr b ↦ elim (Bool-cases (q x)) [
      | inl c ↦ rw b (rw c refl)
      | inr c ↦ rw b (rw c (find-remove_first_other p q l w))
    ]
  ]

  module _ (c : Collection D) where
    pub find_one-update_one_self :
        (p : D → Bool) (f : D → D) (s : c.Store)
        → ((d : D) → p d ≡ true → p (f d) ≡ true)
        → c.find_one p (c.update_one p f s) ≡ Option.map f (c.find_one p s)
    find_one-update_one_self p f s h =
        c.find_one_lem p (c.update_one p f s)
        ∙ ap (find p) (c.docs-update_one p f s)
        ∙ find-update_first_self p f (c.docs s) h
        ∙ sym (ap (Option.map f) (c.find_one_lem p s))

    pub find_one-update_one_other :
        (p q : D → Bool) (f : D → D) (s : c.Store)
        → ((d : D) → p d ≡ true → (q d ≡ false) × (q (f d) ≡ false))
        → c.find_one q (c.update_one p f s) ≡ c.find_one q s
    find_one-update_one_other p q f s h =
        c.find_one_lem q (c.update_one p f s)
        ∙ ap (find q) (c.docs-update_one p f s)
        ∙ find-update_first_other p q f (c.docs s) h
        ∙ sym (c.find_one_lem q s)
