-- ===== src/Sessions/History.antt =====
-- The life of one server session: which of the exchange tokens issued for it are still accepted.
use text.Mathlib.TextPositions.{eq_refl}
use mathlib.Core.Path.{subst}
use simple_directory.Common.{
  Bool, List, String, [], arith, beq-false, false, includes, none, or_null, refl, some, sym, true,
  ℕ, ◌&&◌, ◌==◌, ◌||◌, ◌∷◌, ◌≡◌, nat_eq, option_eq, string_eq,
}
use simple_directory.Types.{ServerSession}
use simple_directory.Sessions.{Rotation, exchange_token_current, in_grace_window, rotate}

abbrev pub rotation_of : ServerSession → String → ℕ → Rotation
rotation_of s jti now = record { jti = jti; rotated_at = now; previous_jti = or_null s.jti }

-- `History h s`: the session `s` was opened, rotated and kept alive, and `h` lists the ids of the
-- exchange tokens issued for it, the last one first. A `nanoid()` is new and not empty.
pub data History : List String → ServerSession → Type 0 where
  opened : {s : ServerSession} → s.jti ≡ none → s.previous_jti ≡ none → History [] s
  rotated :
      {h : List String} {s : ServerSession}
      → History h s
      → (s' : ServerSession) (jti : String) (now : ℕ) → (jti == "") ≡ false
      → includes h jti ≡ false
      → s' ≡ rotate (rotation_of s jti now) s
      → History (jti ∷ h) s'
  touched :
      {h : List String} {s : ServerSession}
      → History h s
      → (s' : ServerSession) (now : ℕ) → s' ≡ record s { last_keepalive = now }
      → History h s'

abbrev All-full : List String → Type 0
All-full [] = Unit
All-full (j ∷ h) = ((j == "") ≡ false) × (includes h j ≡ false) × All-full h

-- the ids that the record holds are the last two that were issued
abbrev Holds : List String → ServerSession → Type 0
Holds [] s = (s.jti ≡ none) × (s.previous_jti ≡ none)
Holds (j ∷ []) s = (s.jti ≡ some j) × (s.previous_jti ≡ none)
Holds (j ∷ i ∷ h) s = (s.jti ≡ some j) × (s.previous_jti ≡ some i)

Holds-rotate :
    (h : List String) (s : ServerSession) (jti : String) (now : ℕ)
    → Holds h s
    → All-full h
    → Holds (jti ∷ h) (rotate (rotation_of s jti now) s)
Holds-rotate [] s jti now (e, f) full = (refl, rw (e, f))
Holds-rotate (j ∷ []) s jti now (e, f) (full, _, _) = (refl, rw e (rw full))
Holds-rotate (j ∷ i ∷ h) s jti now (e, f) (full, _, _) = (refl, rw e (rw full))

Holds-touch :
    (h : List String) (s : ServerSession) (now : ℕ)
    → Holds h s
    → Holds h (record s { last_keepalive = now })
Holds-touch [] s now k = k
Holds-touch (j ∷ []) s now k = k
Holds-touch (j ∷ i ∷ h) s now k = k

History-Holds : {h : List String} {s : ServerSession} → History h s → Holds h s × All-full h
History-Holds (opened e f) = ((e, f), tt)
History-Holds (rotated {h} {s} p s' jti now full new e) =
    let (k, fs) = History-Holds p in
    (subst (Holds (jti ∷ h)) (sym e) (Holds-rotate h s jti now k fs), (full, new, fs))
History-Holds (touched {h} {s} p s' now e) =
    let (k, fs) = History-Holds p in (subst (Holds h) (sym e) (Holds-touch h s now k), fs)

or_false_right : (p q : Bool) → (p || q) ≡ false → q ≡ false
or_false_right p q h = ground arith

blocked : (p q : Bool) → (p && false && q) ≡ false
blocked true q = refl
blocked false q = refl

accepted_cases :
    (s : ServerSession) (a b x : String) (h : List String) (now : ℕ)
    → s.jti ≡ some b
    → s.previous_jti ≡ some a
    → (b == "") ≡ false
    → includes (a ∷ h) b ≡ false
    → (a == "") ≡ false
    → includes h a ≡ false
    → includes h x ≡ true
    → (exchange_token_current now s (some b) ≡ true)
      × (exchange_token_current now s (some a) ≡ in_grace_window now s.rotated_at)
      × (exchange_token_current now s (some x) ≡ false)
unfolding exchange_token_current
accepted_cases s a b x h now e f fb nb fa na old = (
  rw (e, f) (rw (fb, eq_refl b)),
  rw (e, f) (rw (fb, a_b) (rw (fa, eq_refl a))),
  rw (e, f) (rw (fb, x_b) (rw x_a (blocked _ _))),
)
  where
    ab : ((a == b) || includes h b) ≡ false
    ab = nb

    a_b : (a == b) ≡ false
    a_b = ground arith

    x_b : (x == b) ≡ false
    x_b = beq-false x b (λ same.
        cc (subst (λ y. includes h y ≡ true) same old, or_false_right (a == b) (includes h b) ab))

    x_a : (x == a) ≡ false
    x_a = beq-false x a (λ same. cc (subst (λ y. includes h y ≡ true) same old, na))

-- Whatever the clock says, of the exchange tokens that were issued for a session the last one is
-- accepted, the one before it exactly within the grace window after the last rotation, and no
-- earlier one is ever accepted again.
pub exchange_token_current-History :
    (s : ServerSession) (a b x : String) (h : List String) (now : ℕ)
    → History (b ∷ a ∷ h) s
    → includes h x ≡ true
    → (exchange_token_current now s (some b) ≡ true)
      × (exchange_token_current now s (some a) ≡ in_grace_window now s.rotated_at)
      × (exchange_token_current now s (some x) ≡ false)
exchange_token_current-History s a b x h now p old =
    let ((e, f), (fb, nb, (fa, na, _))) = History-Holds p in
    accepted_cases s a b x h now e f fb nb fa na old
