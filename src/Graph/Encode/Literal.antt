-- ===== src/Graph/Encode/Literal.antt =====
-- A quoted string value is read back whole: no character of it ends the literal early.
use sleuthgraph_api.Base.{
  ℕ, ◌≡◌, refl, Option, none, some, [], ◌∷◌, ◌++◌, ◌==◌, if◌then◌else◌, arith,
}
use sleuthgraph_api.Base.{◌≢◌}
use sleuthgraph_api.Base.Text.{Text}
use sleuthgraph_api.Graph.Encode.{quote_char, backslash, escape, quoted}
use mathlib.Core.List.{append_assoc}
use native.Mathlib.Decide.{ℕ_discrete}

-- Cypher's reading of the inside of a single-quoted literal: a backslash takes the next character
-- as it is, and the first other quote ends the literal. Gives the value and the rest.
read_body : Text → Option (Text × Text)
read_body [] = none
read_body (c ∷ []) = if c == quote_char then some ([], []) else none
read_body (c ∷ d ∷ cs) =
    let plain : Option (Text × Text) = elim (read_body (d ∷ cs)) [
      | none ↦ none
      | some (s, r) ↦ some (c ∷ s, r)
    ] in
    let escaped : Option (Text × Text) = elim (read_body cs) [
      | none ↦ none
      | some (s, r) ↦ some (d ∷ s, r)
    ] in
    if c == quote_char then some ([], d ∷ cs) else if c == backslash then escaped else plain

pub read_literal : Text → Option (Text × Text)
unfolding read_body
read_literal [] = none
read_literal (c ∷ cs) = if c == quote_char then read_body cs else none

read_plain :
    (c : ℕ) (s cs rest : Text)
    → c ≢ quote_char
    → c ≢ backslash
    → read_body cs ≡ some (s, rest)
    → read_body (c ∷ cs) ≡ some (c ∷ s, rest)
unfolding read_body
read_plain c s [] rest p q h = ground arith
read_plain c s (d ∷ cs) rest p q h = ground arith

read_escaped :
    (c : ℕ) (s cs rest : Text)
    → read_body cs ≡ some (s, rest)
    → read_body (backslash ∷ c ∷ cs) ≡ some (c ∷ s, rest)
unfolding read_body
read_escaped c s cs rest h = ground arith

escape_plain : (c : ℕ) (s : Text) → c ≢ quote_char → c ≢ backslash → escape (c ∷ s) ≡ c ∷ escape s
unfolding escape
escape_plain c s p q = ground arith

escape_quote : (s : Text) → escape (quote_char ∷ s) ≡ backslash ∷ quote_char ∷ escape s
unfolding escape
escape_quote s = refl

escape-backslash : (s : Text) → escape (backslash ∷ s) ≡ backslash ∷ backslash ∷ escape s
unfolding escape
escape-backslash s = refl

escape_nil : escape [] ≡ []
unfolding escape
escape_nil = refl

read-escape : (s rest : Text) → read_body (escape s ++ quote_char ∷ rest) ≡ some (s, rest)
read-escape [] [] = rw escape_nil (unfold read_body in refl)
read-escape [] (d ∷ rest) = rw escape_nil (unfold read_body in refl)
read-escape (c ∷ s) rest = elim (ℕ_discrete c quote_char) [
  | yes p ↦
      rw (p, escape_quote s)
        (read_escaped quote_char s (escape s ++ quote_char ∷ rest) rest (read-escape s rest))
  | no p ↦ elim (ℕ_discrete c backslash) [
    | yes q ↦
        rw (q, escape-backslash s)
          (read_escaped backslash s (escape s ++ quote_char ∷ rest) rest (read-escape s rest))
    | no q ↦
        rw (escape_plain c s p q)
          (read_plain c s (escape s ++ quote_char ∷ rest) rest p q (read-escape s rest))
  ]
]

-- Whatever the text, and whatever follows, a reader of the literal that `_cypher_scalar` writes for
-- a string gets back that string and stops exactly where the literal ends.
pub read-quoted : (s rest : Text) → read_literal (quoted s ++ rest) ≡ some (s, rest)
unfolding quoted read_literal
read-quoted s rest = rw append_assoc (read-escape s rest)
