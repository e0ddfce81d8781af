-- ===== src/Entities/Domain.antt =====
-- src/sleuthgraph/entities/validators.py: the IDN indicator of a domain label.
use sleuthgraph_api.Base.{
  ℕ, String, Bool, true, ◌&&◌, ltb, leb, List, [], ◌∷◌, ◌+◌, ◌==◌, if◌then◌else◌, any,
}
use sleuthgraph_api.Base.Text.{Text, codes, starts_with}

-- `str.lower` on ASCII; the code calls it on text whose characters are all ASCII.
abbrev pub lower_ascii : Text → Text
lower_ascii [] = []
lower_ascii (c ∷ cs) = (if leb b'A' c && leb c b'Z' then c + 32 else c) ∷ lower_ascii cs

abbrev push : ℕ → List Text → List Text
push c [] = (c ∷ []) ∷ []
push c (part ∷ parts) = (c ∷ part) ∷ parts

-- `s.split(sep)` for a one-character separator
abbrev pub split : ℕ → Text → List Text
split sep [] = [] ∷ []
split sep (c ∷ cs) = let rest = split sep cs in if c == sep then [] ∷ rest else push c rest

unfoldable pub is_idn_domain : String → Bool
is_idn_domain label =
    if any (λ ch. ltb 127 ch) (codes label)
    then true
    else any (λ part. starts_with part (codes "xn--")) (split b'.' (lower_ascii (codes label)))
