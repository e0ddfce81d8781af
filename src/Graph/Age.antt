-- ===== src/Graph/Age.antt =====
-- src/sleuthgraph/graph/age.py, entities/age.py and relationships/age.py: the statements that keep
-- the graph beside the SQL rows, and how they are sent.
pub mod Delimiter
pub mod Effects
use sleuthgraph_api.Base.{
  ℕ, zero, suc, ◌+◌, ◌≡◌, refl, String, Bool, true, false, ◌||◌, Option, none, some, List, [], ◌∷◌,
  ◌++◌, if◌then◌else◌, str_eq, any, not,
}
use sleuthgraph_api.Base.Text.{Text, codes, has_text}
use sleuthgraph_api.Errors.{
  Error, Result, ok, err, cypher_failed, no_safe_tag, invalid_entity_type, invalid_rel_type,
}
use sleuthgraph_api.Model.{Session, World, Db, Entity, Relationship, Cypher}
use sleuthgraph_api.Model.{merge_vertex, detach_delete_vertex, merge_edge, delete_edge_by_id}
use sleuthgraph_api.Action.{Action, pure, raise, lift, raise_if, ◌>>=◌, ◌>>◌}
use sleuthgraph_api.Graph.Json.{Json, Fields, null, number, str, obj, end, field}
use sleuthgraph_api.Graph.Encode.{encode_props}

-- `f"${tag}$"`
abbrev pub delimiter : Text → Text
delimiter tag = codes "$" ++ (tag ++ codes "$")

abbrev pub entity_types : List String
entity_types =
    "PERSON" ∷ "ORGANIZATION" ∷ "DOMAIN" ∷ "IP_ADDRESS" ∷ "EMAIL" ∷ "PHONE" ∷ "URL"
    ∷ "CRYPTO_ADDRESS" ∷ []

abbrev pub rel_types : List String
rel_types =
    "OWNS" ∷ "EMPLOYED_BY" ∷ "REGISTERED_BY" ∷ "HOSTED_ON" ∷ "RESOLVES_TO" ∷ "ASSOCIATED_WITH"
    ∷ "COMMUNICATED_WITH" ∷ "MENTIONS" ∷ "SUBDOMAIN_OF" ∷ []

-- `value in _VALID_…_TYPES`
pub is_member : String → List String → Bool
is_member value = any (λ t. str_eq t value)

-- `str` of an optional column in a property map
abbrev pub opt_str : Option String → Json
opt_str none = null
opt_str (some s) = str (codes s)

-- `attrs or {}`
abbrev pub or_empty : Option Fields → Fields
or_empty none = end
or_empty (some fs) = fs

module _ (w : World) where
  -- The text of a statement, as the f-strings write it.
  pub render : Cypher → Text
  render (merge_vertex label id props) =
      codes "MERGE (v:"
      ++ codes label
      ++ codes " {id: '"
      ++ w.str_uuid id
      ++ codes "'}) SET v = "
      ++ props
      ++ codes " RETURN v"
  render (detach_delete_vertex id) =
      codes "MATCH (v {id: '" ++ w.str_uuid id ++ codes "'}) DETACH DELETE v"
  render (merge_edge rel_type src dst id props) =
      codes "MATCH (s {id: '"
      ++ w.str_uuid src
      ++ codes "'}), (d {id: '"
      ++ w.str_uuid dst
      ++ codes "'}) MERGE (s)-[r:"
      ++ codes rel_type
      ++ codes " {id: '"
      ++ w.str_uuid id
      ++ codes "'}]->(d) SET r = "
      ++ props
      ++ codes " RETURN r"
  render (delete_edge_by_id id) =
      codes "MATCH ()-[r {id: '" ++ w.str_uuid id ++ codes "'}]->() DELETE r"

  -- The loop of `run_cypher`: `attempts` random tags at most, from draw `n` on. Gives the
  -- delimiter of the first tag whose delimiter is not in the statement, and the next draw.
  unfoldable pub pick_delimiter : ℕ → ℕ → Text → Option (Text × ℕ)
  pick_delimiter zero n cypher = none
  pick_delimiter (suc attempts) n cypher =
      let delim = delimiter (codes "sg_" ++ w.token_hex n) in
      let retry = pick_delimiter attempts (n + 1) cypher in
      if has_text delim cypher then retry else some (delim, n + 1)

  -- the SQL statement that carries the Cypher
  pub cypher_sql : Text → Text → String → Text
  cypher_sql delim cypher return_col =
      codes "SELECT * FROM cypher('sleuthgraph', "
      ++ delim
      ++ codes " "
      ++ cypher
      ++ codes " "
      ++ delim
      ++ codes ") AS ("
      ++ codes return_col
      ++ codes " agtype);"

  -- AGE executes the statement or refuses it.
  pub execute_sql : Cypher → Text → Action (Unit {0})
  execute_sql statement sql s =
      if w.age_accepts s.live.graph sql
      then (ok tt, record s { live = record s.live { graph = s.live.graph ++ statement ∷ [] } })
      else (err cypher_failed, s)

  pub send : Cypher → String → Option (Text × ℕ) → Action (Unit {0})
  unfolding execute_sql cypher_sql
  send statement return_col none s = (err no_safe_tag, record s { ticks = s.ticks + 4 })
  send statement return_col (some (delim, n)) s =
      execute_sql statement (cypher_sql delim (render statement) return_col)
        (record s { ticks = n })

  -- `run_cypher(session, cypher, return_col)`
  unfoldable pub run_cypher : Cypher → String → Action (Unit {0})
  unfolding send render
  run_cypher statement return_col s =
      send statement return_col (pick_delimiter 4 s.ticks (render statement)) s

  -- the `props` of `upsert_vertex`
  pub vertex_props : Entity → Fields
  vertex_props entity = field (codes "id") (str (w.str_uuid entity.id)) (
      field (codes "case_id") (str (w.str_uuid entity.case_id)) (
        field (codes "label") (str (codes entity.label)) (
          field (codes "confidence") (number (w.str_float entity.confidence))
            (field (codes "attrs") (obj (or_empty entity.attrs)) end))))

  unfoldable pub upsert_vertex : Entity → Action (Unit {0})
  unfolding is_member vertex_props
  upsert_vertex entity = do
    raise_if (not (is_member entity.type entity_types)) invalid_entity_type
    props ← lift (encode_props w.str_list (vertex_props entity))
    run_cypher (merge_vertex entity.type entity.id props) "v"

  unfoldable pub delete_vertex : ℕ → Action (Unit {0})
  delete_vertex entity_id = run_cypher (detach_delete_vertex entity_id) "v"

  -- the `props` of `upsert_edge`
  pub edge_props : Relationship → Fields
  edge_props rel = field (codes "id") (str (w.str_uuid rel.id)) (
      field (codes "case_id") (str (w.str_uuid rel.case_id)) (
        field (codes "confidence") (number (w.str_float rel.confidence)) (
          field (codes "source_plugin") (opt_str rel.source_plugin)
            (field (codes "attrs") (obj rel.attrs) end))))

  unfoldable pub upsert_edge : Relationship → Action (Unit {0})
  unfolding is_member edge_props
  upsert_edge rel = do
    raise_if (not (is_member rel.rel_type rel_types)) invalid_rel_type
    props ← lift (encode_props w.str_list (edge_props rel))
    run_cypher (merge_edge rel.rel_type rel.src_entity_id rel.dst_entity_id rel.id props) "r"

  unfoldable pub delete_edge : ℕ → Action (Unit {0})
  delete_edge rel_id = run_cypher (delete_edge_by_id rel_id) "r"
