-- ===== src/Nhis/Scopes/Granted.antt =====
-- grantedScope: a session is never issued with more than the identity's maximum.
use Prim.Native.Char.{Char, code}
use Prim.Native.String
use text.Mathlib.TextEquality.{eq_iff}
use text.Mathlib.TextLemmas.{nil-append, cons-append}
use simple_directory.Common.{
  >>=-eq-ok, All, Bool-cases, List, String, [], ap, arith, beq-false, false, filter, inl, inr,
  nat_beq, nat_beq_iff, not, ok, push_head, refl, some, split_on, true, ℕ, ◌==◌, ◌∙◌, ◌∷◌, ◌≡◌, ◌≢◌,
  string_eq,
}
use simple_directory.Nhis.Scopes.{
  ScopeLib, check_requested, granted_of, granted_scope, join_spaces, max_covers, words,
}

-- no character of the text has the code
abbrev Free : ℕ → String → Type 0
Free k String.[] = Unit
Free k (String.◌∷◌ c s) = (code c ≢ k) × Free k s

push_head-Free :
    (k : ℕ) (c : Char) (ws : List String)
    → code c ≢ k
    → All (Free k) ws
    → All (Free k) (push_head c ws)
push_head-Free k c [] ne h = ((ne, tt), tt)
push_head-Free k c (w ∷ ws) ne (h, hs) = ((ne, h), hs)

split_on-Free : (k : ℕ) (s : String) → All (Free k) (split_on k s)
split_on-Free k String.[] = (tt, tt)
split_on-Free k (String.◌∷◌ c s) = elim (Bool-cases (nat_beq (code c) k)) [
  | inl sep ↦ rw sep (tt, split_on-Free k s)
  | inr other ↦ rw other (
      push_head-Free k c (split_on k s) (λ e. cc (other, (nat_beq_iff _ _).1 e))
        (split_on-Free k s))
]

ne_beq : (c : Char) (k : ℕ) → code c ≢ k → nat_beq (code c) k ≡ false
ne_beq c k ne = ground arith

split_on-append :
    (k : ℕ) (c : Char) (w s : String)
    → Free k w
    → code c ≡ k
    → split_on k (String.◌++◌ w (String.◌∷◌ c s)) ≡ w ∷ split_on k s
split_on-append k c String.[] s h e = rw nil-append (rw ((nat_beq_iff (code c) k).1 e))
split_on-append k c (String.◌∷◌ d w) s (ne, h) e =
    rw cons-append (rw (ne_beq d k ne) (rw (split_on-append k c w s h e)))

split_on-single : (k : ℕ) (w : String) → Free k w → split_on k w ≡ w ∷ []
split_on-single k String.[] h = refl
split_on-single k (String.◌∷◌ d w) (ne, h) = rw (ne_beq d k ne) (rw (split_on-single k w h))

-- what `words` yields
abbrev IsWord : String → Type 0
IsWord w = (w ≢ "") × Free b' ' w

filter-IsWord : (l : List String) → All (Free b' ') l → All IsWord (filter (λ w. not (w == "")) l)
filter-IsWord [] h = tt
filter-IsWord (w ∷ l) (f, h) = elim (Bool-cases (w == "")) [
  | inl e ↦ rw e (filter-IsWord l h)
  | inr ne ↦ rw ne ((λ e. cc (ne, (eq_iff w "").1 e), f), filter-IsWord l h)
]

words-IsWord : (s : String) → All IsWord (words s)
words-IsWord s = filter-IsWord (split_on b' ' s) (split_on-Free b' ' s)

keep_word :
    (w : String) (l : List String)
    → w ≢ ""
    → filter (λ v. not (v == "")) (w ∷ l) ≡ w ∷ filter (λ v. not (v == "")) l
keep_word w l ne = rw (beq-false w "" ne)

space : Char
space = " "

space_append : (r : String) → String.◌++◌ " " r ≡ String.◌∷◌ space r
unfolding space
space_append r = cons-append space "" r ∙ ap (String.◌∷◌ space) (nil-append r)

words-join_spaces : (ws : List String) → All IsWord ws → words (join_spaces ws) ≡ ws
unfolding space
words-join_spaces [] h = refl
words-join_spaces (w ∷ []) ((ne, f), h) = rw (split_on-single b' ' w f) (keep_word w [] ne)
words-join_spaces (w ∷ v ∷ ws) ((ne, f), h) =
    rw
      (
        space_append (join_spaces (v ∷ ws)),
        split_on-append b' ' space w (join_spaces (v ∷ ws)) f refl,
      )
      (keep_word w (split_on b' ' (join_spaces (v ∷ ws))) ne
        ∙ ap (λ l. w ∷ l) (words-join_spaces (v ∷ ws) h))

joined : {s t : String} → ok (some s) ≡ ok (some t) → s ≡ t
joined e = cc e

module _ (lib : ScopeLib) (max : List String) where
  check_requested-All :
      (ws : List String)
      → check_requested lib (some max) ws ≡ ok tt
      → All (λ w. (lib.scope_regexp w ≡ true) × (max_covers lib max w ≡ true)) ws
  unfolding check_requested
  check_requested-All [] h = tt
  check_requested-All (w ∷ ws) h = elim (Bool-cases (lib.scope_regexp w)) [
    | inr bad ↦ cc (rw bad at h)
    | inl form ↦ elim (Bool-cases (max_covers lib max w)) [
      | inr exceeded ↦ cc (rw (form, exceeded) at h)
      | inl covered ↦ ((form, covered), check_requested-All ws (rw (form, covered) at h))
    ]
  ]

  -- With a maximum, and at least one requested scope, a successful exchange yields exactly the
  -- requested scopes, and each of them has the form of a scope and is covered by the maximum.
  pub granted_scope-covered :
      (requested granted : String)
      → words requested ≢ []
      → granted_scope lib (some max) (some requested) ≡ ok (some granted)
      → (words granted ≡ words requested)
        × All (λ w. (lib.scope_regexp w ≡ true) × (max_covers lib max w ≡ true)) (words granted)
  unfolding granted_scope
  granted_scope-covered requested granted ne h = go (words requested) (words-IsWord requested) ne h
    where
      go :
          (ws : List String)
          → All IsWord ws
          → ws ≢ []
          → granted_of lib (some max) ws ≡ ok (some granted)
          → (words granted ≡ ws)
            × All (λ w. (lib.scope_regexp w ≡ true) × (max_covers lib max w ≡ true)) (words granted)
      go [] f ne h = absurd (ne refl)
      go (w ∷ ws) f ne h =
          let (u, checked, result) =
            >>=-eq-ok (check_requested lib (some max) (w ∷ ws))
              (λ _. ok (some (join_spaces (w ∷ ws)))) h in
          let same : words granted ≡ w ∷ ws = rw (← joined result) (words-join_spaces (w ∷ ws) f) in
          (same, rw same (check_requested-All (w ∷ ws) checked))
