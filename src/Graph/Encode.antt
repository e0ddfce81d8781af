-- ===== src/Graph/Encode.antt =====
-- src/sleuthgraph/graph/age.py: the encoding of a property map as a Cypher map literal.
pub mod Literal
pub mod Validated
use sleuthgraph_api.Base.{ℕ, ◌≡◌, Bool, true, false, [], ◌∷◌, ◌++◌, ◌==◌, if◌then◌else◌}
use sleuthgraph_api.Base.Text.{Text, codes}
use sleuthgraph_api.Errors.{Result, ok, err, invalid_map_key, ◌>>=◌}
use sleuthgraph_api.Graph.Json.{Json, Items, Fields, null, boolean, number, str, arr, obj}
use sleuthgraph_api.Graph.Json.{end, field}
use sleuthgraph_api.Graph.Attrs.{key_re_match}

abbrev pub quote_char : ℕ
quote_char = 39

abbrev pub backslash : ℕ
backslash = 92

-- `s.replace(c, r)` for a single character `c`
pub replace_char : ℕ → Text → Text → Text
replace_char c r [] = []
replace_char c r (x ∷ xs) = (if x == c then r else x ∷ []) ++ replace_char c r xs

-- `str(value).replace("\\", "\\\\").replace("'", "\\'")`
pub escape : Text → Text
unfolding replace_char
escape s =
    replace_char quote_char (backslash ∷ quote_char ∷ [])
      (replace_char backslash (backslash ∷ backslash ∷ []) s)

unfoldable pub quoted : Text → Text
unfolding escape
quoted s = quote_char ∷ (escape s ++ quote_char ∷ [])

-- `", ".join(parts)`, one part at a time
abbrev join_part : Text → Text → Text
join_part part [] = part
join_part part (c ∷ cs) = part ++ codes ", " ++ (c ∷ cs)

-- `str_list` is Python's `str` of a list.
module _ (str_list : Items → Text) where
  mutual
    -- `_cypher_scalar(value)`
    pub cypher_scalar : Json → Result Text
    cypher_scalar null = ok (codes "null")
    cypher_scalar (boolean true) = ok (codes "true")
    cypher_scalar (boolean false) = ok (codes "false")
    cypher_scalar (number t) = ok t
    cypher_scalar (str s) = ok (quoted s)
    cypher_scalar (arr xs) = ok (quoted (str_list xs))
    cypher_scalar (obj fs) = do parts ← encode_parts fs; ok (codes "{" ++ parts ++ codes "}")

    -- the loop of `_encode_props`, with the parts joined
    pub encode_parts : Fields → Result Text
    encode_parts end = ok []
    encode_parts (field k v fs) =
        let rest = (do
          scalar ← cypher_scalar v
          parts ← encode_parts fs
          ok (join_part (k ++ codes ": " ++ scalar) parts)) in
        if key_re_match k then rest else err invalid_map_key

  -- `_encode_props(props)`
  unfoldable pub encode_props : Fields → Result Text
  unfolding encode_parts
  encode_props props = do parts ← encode_parts props; ok (codes "{" ++ parts ++ codes "}")
