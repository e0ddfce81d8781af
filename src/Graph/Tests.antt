-- ===== src/Graph/Tests.antt =====
-- The validator, the encoding and the delimiter on small inputs.
use sleuthgraph_api.Base.{ℕ, arith, ◌≡◌, refl, true, some, ◌++◌, ◌↔◌, ◌≤◌}
use sleuthgraph_api.Base.Text.{codes}
use sleuthgraph_api.Errors.{ok, is_ok}
use sleuthgraph_api.Graph.Json.{Fields, end, field, str, obj}
use sleuthgraph_api.Graph.Attrs.{validate_attrs, max_bytes}
use sleuthgraph_api.Graph.Attrs.Depth.{FitFields, validate_attrs_iff}
use sleuthgraph_api.Graph.Encode.{quoted, encode_props}
use sleuthgraph_api.Graph.Encode.Literal.{read_literal, read-quoted}
use sleuthgraph_api.Graph.Encode.Validated.{encode_props_total}
use sleuthgraph_api.Graph.Age.{pick_delimiter}
use sleuthgraph_api.Graph.Age.Delimiter.{Spaceless, SendsQuoted, run_cypher-SendsQuoted}
use sleuthgraph_api.Model.{detach_delete_vertex}
use sleuthgraph_api.Graph.Age.{run_cypher}
use sleuthgraph_api.Fixtures.{world, session}

-- a value inside an object
abbrev nested : Fields
nested = field (codes "a") (obj (field (codes "b") (str (codes "it's")) end)) end

validate_attrs_iff_example :
    (validate_attrs world.json_size nested ≡ ok nested)
    ↔ (FitFields 1 nested × (world.json_size nested ≤ max_bytes))
validate_attrs_iff_example = validate_attrs_iff world.json_size nested

read-quoted_example :
    read_literal (quoted (codes "it's \\") ++ codes ", b: 1")
    ≡ some (codes "it's \\", codes ", b: 1")
read-quoted_example = read-quoted (codes "it's \\") (codes ", b: 1")

nested_valid : validate_attrs world.json_size nested ≡ ok nested
unfolding validate_attrs sleuthgraph_api.Graph.Attrs.key_re_match
nested_valid = refl

encode_props_total_example : is_ok (encode_props world.str_list nested) ≡ true
encode_props_total_example =
    encode_props_total world.str_list world.json_size nested nested nested_valid

first_picked : pick_delimiter world 4 0 (codes "RETURN 1") ≡ some (codes "$sg_a$", 1)
unfolding pick_delimiter
first_picked = refl

tags-Spaceless : (n : ℕ) → Spaceless (world.token_hex n)
tags-Spaceless n = (ground arith, tt)

run_cypher-SendsQuoted_example :
    SendsQuoted world
      (detach_delete_vertex 3)
      "v"
      session
      (run_cypher world (detach_delete_vertex 3) "v" session)
run_cypher-SendsQuoted_example =
    run_cypher-SendsQuoted world tags-Spaceless (detach_delete_vertex 3) "v" session
