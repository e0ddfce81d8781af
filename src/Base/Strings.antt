-- ===== src/Base/Strings.antt =====
-- Python's text as a native string: a lone surrogate is no character of one.
use Prim.Native.Nat.{ℕ, compare, Ordering}
use Prim.Native.Char.{Char, char, IsScalar}
use Prim.Native.String.{String}
use mathlib.Core.Path.{◌≡◌, refl}
use mathlib.Core.Option.{Option, none, some}
use mathlib.Core.List.{[], ◌∷◌}
use sleuthgraph_api.Base.Text.{Text, codes}

abbrev scalar_of :
    (n : ℕ) (o p q : Ordering)
    → compare n 55296 ≡ o
    → compare 57343 n ≡ p
    → compare n 1114112 ≡ q
    → Option (IsScalar n)
scalar_of n Ordering.lt p q a b c = some (rw a tt)
scalar_of n Ordering.eq Ordering.lt Ordering.lt a b c = some (rw (a, b, c) tt)
scalar_of n Ordering.gt Ordering.lt Ordering.lt a b c = some (rw (a, b, c) tt)
scalar_of n _ _ _ a b c = none

abbrev scalar : (n : ℕ) → Option (IsScalar n)
scalar n = scalar_of n (compare n 55296) (compare 57343 n) (compare n 1114112) refl refl refl

abbrev char_of : ℕ → Option Char
char_of n = elim (scalar n) [ some p ↦ some (char n p) | none ↦ none ]

abbrev push_char : Option Char → Option String → Option String
push_char (some c) (some s) = some (String.◌∷◌ c s)
push_char _ _ = none

-- The string with the code points, where each of them is a character.
abbrev pub to_string : Text → Option String
to_string [] = some ""
to_string (c ∷ cs) = push_char (char_of c) (to_string cs)

host_string : to_string (codes "host-1") ≡ some "host-1"
host_string = refl
