-- ===== src/Graph/Attrs.antt =====
-- src/sleuthgraph/graph/validators.py: what an `attrs` dict must satisfy at request ingress.
pub mod Depth
use sleuthgraph_api.Base.{ℕ, zero, suc, ◌≡◌, refl, Bool, true, false, ◌&&◌, ◌||◌, [], ◌∷◌, arith}
use sleuthgraph_api.Base.{◌==◌, leb, ltb, if◌then◌else◌}
use sleuthgraph_api.Base.Text.{Text}
use sleuthgraph_api.Errors.{
  Result, ok, err, attrs_too_deep, attrs_bad_key, attrs_too_large, ◌>>=◌, ◌>>◌,
}
use sleuthgraph_api.Graph.Json.{
  Json, Items, Fields, null, boolean, number, str, arr, obj, nil, cons,
}
use sleuthgraph_api.Graph.Json.{end, field}

-- `[A-Za-z_]`
pub is_key_start : ℕ → Bool
is_key_start c = (leb b'A' c && leb c b'Z') || (leb b'a' c && leb c b'z') || c == b'_'

-- `[A-Za-z0-9_]`
pub is_key_char : ℕ → Bool
unfolding is_key_start
is_key_char c = is_key_start c || (leb b'0' c && leb c b'9')

-- `$` holds at the end of the text, and before a newline that ends it.
unfoldable pub at_end : Text → Bool
at_end [] = true
at_end (c ∷ []) = c == 10
at_end (c ∷ d ∷ cs) = false

-- `[A-Za-z0-9_]{0,n}$`
pub key_tail_match : ℕ → Text → Bool
unfolding at_end is_key_char
key_tail_match zero cs = at_end cs
key_tail_match (suc n) [] = true
key_tail_match (suc n) (c ∷ cs) = at_end (c ∷ cs) || (is_key_char c && key_tail_match n cs)

-- `_KEY_RE.match(k)`, for `^[A-Za-z_][A-Za-z0-9_]{0,63}$`
unfoldable pub key_re_match : Text → Bool
unfolding is_key_start key_tail_match
key_re_match [] = false
key_re_match (c ∷ cs) = is_key_start c && key_tail_match 63 cs

abbrev pub max_depth : ℕ
max_depth = 4

abbrev pub max_bytes : ℕ
max_bytes = 65536

-- `_walk(obj, depth)`; a dict's keys are text, since they come from JSON.
mutual
  pub walk : ℕ → Json → Result (Unit {0})
  walk depth null = if ltb max_depth depth then err attrs_too_deep else ok tt
  walk depth (boolean b) = if ltb max_depth depth then err attrs_too_deep else ok tt
  walk depth (number t) = if ltb max_depth depth then err attrs_too_deep else ok tt
  walk depth (str t) = if ltb max_depth depth then err attrs_too_deep else ok tt
  walk depth (arr xs) =
      let items = walk_items (suc depth) xs in
      if ltb max_depth depth then err attrs_too_deep else items
  walk depth (obj fs) =
      let fields = walk_fields (suc depth) fs in
      if ltb max_depth depth then err attrs_too_deep else fields

  pub walk_items : ℕ → Items → Result (Unit {0})
  walk_items depth nil = ok tt
  walk_items depth (cons x xs) = do walk depth x; walk_items depth xs

  pub walk_fields : ℕ → Fields → Result (Unit {0})
  walk_fields depth end = ok tt
  walk_fields depth (field k v fs) =
      let rest = (do walk depth v; walk_fields depth fs) in
      if key_re_match k then rest else err attrs_bad_key

-- `json_size` is `len(json.dumps(value).encode("utf-8"))`.
module _ (json_size : Fields → ℕ) where
  unfoldable pub validate_attrs : Fields → Result Fields
  unfolding walk
  validate_attrs value = do
    walk 0 (obj value)
    if ltb max_bytes (json_size value) then err attrs_too_large else ok value
