-- ===== src/Common/Texts.antt =====
-- String.prototype.split and Array.prototype.join at one character, over the characters of a text.
use Prim.Native.Nat.{ℕ}
use Prim.Native.Char.{Char, code}
use Prim.Native.String.{String}
use mathlib.Core.Bool.{Bool, true, false}
use mathlib.Core.Option
use mathlib.Core.Option.{Option, none, some}
use mathlib.Core.List.{List, [], ◌∷◌}
use simple_directory.Common.Tests.{if◌then◌else◌, nat_beq}

abbrev pub prepend : Char → String × String → String × String
prepend c (before, after) = (String.◌∷◌ c before, after)

-- the text before the first character of the given code, and the text after it
abbrev pub cut : ℕ → String → Option (String × String)
cut k String.[] = none
cut k (String.◌∷◌ c s) =
    if nat_beq (code c) k then some ("", s) else Option.map (prepend c) (cut k s)

abbrev pub push_head : Char → List String → List String
push_head c [] = String.◌∷◌ c "" ∷ []
push_head c (w ∷ ws) = String.◌∷◌ c w ∷ ws

-- `s.split(sep)`
abbrev pub split_on : ℕ → String → List String
split_on k String.[] = "" ∷ []
split_on k (String.◌∷◌ c s) =
    if nat_beq (code c) k then "" ∷ split_on k s else push_head c (split_on k s)

-- `s.startsWith(p)`, with the rest of the text
abbrev pub strip_prefix : String → String → Option String
strip_prefix String.[] s = some s
strip_prefix (String.◌∷◌ c p) String.[] = none
strip_prefix (String.◌∷◌ c p) (String.◌∷◌ d s) =
    if nat_beq (code c) (code d) then strip_prefix p s else none

abbrev pub starts_with : String → String → Bool
starts_with s p = elim (strip_prefix p s) [ none ↦ false | some _ ↦ true ]
