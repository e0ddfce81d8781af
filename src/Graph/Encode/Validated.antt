-- ===== src/Graph/Encode/Validated.antt =====
-- Every attribute map that the request validator lets through is encoded.
use sleuthgraph_api.Base.{ℕ, suc, ◌≡◌, refl, true, false, arith}
use sleuthgraph_api.Base.Text.{Text}
use sleuthgraph_api.Errors.{ok, is_ok}
use sleuthgraph_api.Graph.Json.{Json, Items, Fields, null, boolean, number, str, arr, obj}
use sleuthgraph_api.Graph.Json.{end, field}
use sleuthgraph_api.Graph.Attrs.{validate_attrs}
use sleuthgraph_api.Graph.Attrs.Depth.{Fits, FitFields, validated_fits}
use sleuthgraph_api.Graph.Encode.{cypher_scalar, encode_parts, encode_props}

mutual
  unfolding cypher_scalar encode_parts

  scalar_total : (f : Items → Text) (d : ℕ) (j : Json) → Fits d j → is_ok (cypher_scalar f j) ≡ true
  scalar_total f d null h = refl
  scalar_total f d (boolean true) h = refl
  scalar_total f d (boolean false) h = refl
  scalar_total f d (number t) h = refl
  scalar_total f d (str t) h = refl
  scalar_total f d (arr xs) h = refl
  scalar_total f d (obj fs) h = ground (arith, parts_total f (suc d) fs h.1)

  parts_total :
      (f : Items → Text) (d : ℕ) (fs : Fields) → FitFields d fs → is_ok (encode_parts f fs) ≡ true
  parts_total f d end h = refl
  parts_total f d (field k v fs) h = ground (arith, scalar_total f d v h.1, parts_total f d fs h.2)

-- An `attrs` dict that `validate_attrs` accepts never makes `_encode_props` raise.
pub encode_props_total :
    (f : Items → Text) (json_size : Fields → ℕ) (fs gs : Fields)
    → validate_attrs json_size fs ≡ ok gs
    → is_ok (encode_props f fs) ≡ true
unfolding encode_props
encode_props_total f json_size fs gs h =
    ground (arith, parts_total f 1 fs (validated_fits json_size fs gs h))
