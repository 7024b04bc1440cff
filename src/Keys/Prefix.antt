-- ===== src/Keys/Prefix.antt =====
-- The test of `start` on the identifier of the configuration is enough: whatever follows, an
-- identifier of a session key never has the prefix of the scoped keys.
use text.Mathlib.TextLemmas.{nil-append, cons-append}
use Prim.Native.Char.{Char, code}
use Prim.Native.String
use simple_directory.Common.{
  Bool, Bool-cases, String, and_split, ap, false, inl, inr, nat_beq, nat_beq_iff, not, refl,
  starts_with, sym, true, ℕ, ◌&&◌, ◌∙◌, ◌≡◌,
}

abbrev dash_char : Char
dash_char = "-"

abbrev dash : ℕ
dash = 45

abbrev has_no_dash : String → Bool
has_no_dash String.[] = true
has_no_dash (String.◌∷◌ c s) = not (nat_beq (code c) dash) && has_no_dash s

dash-append : (u : String) → String.◌++◌ "-" u ≡ String.◌∷◌ dash_char u
dash-append u = cons-append dash_char "" u ∙ ap (λ t. String.◌∷◌ dash_char t) (nil-append u)

same_head :
    (c d : Char) (p s : String)
    → nat_beq (code c) (code d) ≡ true
    → starts_with (String.◌∷◌ d s) (String.◌∷◌ c p) ≡ starts_with s p
same_head c d p s e = rw (starts_with, e)

other_head :
    (c d : Char) (p s : String)
    → nat_beq (code c) (code d) ≡ false
    → starts_with (String.◌∷◌ d s) (String.◌∷◌ c p) ≡ false
other_head c d p s e = rw (starts_with, e)

-- a prefix that ends with its only dash is found in a text up to the first dash of the text
starts_with_dash :
    (p k u : String)
    → has_no_dash p ≡ true
    → starts_with (String.◌++◌ k (String.◌++◌ "-" u)) (String.◌++◌ p "-")
      ≡ starts_with (String.◌++◌ k "-") (String.◌++◌ p "-")
starts_with_dash String.[] String.[] u h =
    rw (nil-append "-", nil-append (String.◌++◌ "-" u), dash-append u)
starts_with_dash String.[] (String.◌∷◌ d k) u h =
    rw (nil-append "-", cons-append d k (String.◌++◌ "-" u), cons-append d k "-")
      (elim (Bool-cases (nat_beq dash (code d))) [
        | inl same ↦
            same_head dash_char d "" (String.◌++◌ k (String.◌++◌ "-" u)) same
            ∙ sym (same_head dash_char d "" (String.◌++◌ k "-") same)
        | inr other ↦
            other_head dash_char d "" (String.◌++◌ k (String.◌++◌ "-" u)) other
            ∙ sym (other_head dash_char d "" (String.◌++◌ k "-") other)
      ])
starts_with_dash (String.◌∷◌ c p) String.[] u h =
    rw (nil-append "-", nil-append (String.◌++◌ "-" u), dash-append u, cons-append c p "-")
      (elim (Bool-cases (nat_beq (code c) dash)) [
        | inl same ↦ cc (rw same at h)
        | inr other ↦
            other_head c dash_char (String.◌++◌ p "-") u other
            ∙ sym (other_head c dash_char (String.◌++◌ p "-") "" other)
      ])
starts_with_dash (String.◌∷◌ c p) (String.◌∷◌ d k) u h =
    let (_, rest) = and_split (not (nat_beq (code c) dash)) (has_no_dash p) h in
    rw (cons-append c p "-", cons-append d k (String.◌++◌ "-" u), cons-append d k "-")
      (elim (Bool-cases (nat_beq (code c) (code d))) [
        | inl same ↦
            same_head c d (String.◌++◌ p "-") (String.◌++◌ k (String.◌++◌ "-" u)) same
            ∙ starts_with_dash p k u rest
            ∙ sym (same_head c d (String.◌++◌ p "-") (String.◌++◌ k "-") same)
        | inr other ↦
            other_head c d (String.◌++◌ p "-") (String.◌++◌ k (String.◌++◌ "-" u)) other
            ∙ sym (other_head c d (String.◌++◌ p "-") (String.◌++◌ k "-") other)
      ])

pub starts_with-append : (p t : String) → starts_with (String.◌++◌ p t) p ≡ true
starts_with-append String.[] t = refl
starts_with-append (String.◌∷◌ c p) t = rw (cons-append c p t) (
    same_head c c p (String.◌++◌ p t) ((nat_beq_iff (code c) (code c)).1 refl)
    ∙ starts_with-append p t)

-- An identifier made of the configured one, a dash and a random part has the prefix of the scoped
-- keys only if the configured one and the dash already have it.
pub scoped_prefix :
    (kid uuid : String)
    → starts_with (String.◌++◌ kid (String.◌++◌ "-" uuid)) "scoped-"
      ≡ starts_with (String.◌++◌ kid "-") "scoped-"
scoped_prefix kid uuid = starts_with_dash "scoped" kid uuid refl
