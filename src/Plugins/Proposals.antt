-- ===== src/Plugins/Proposals.antt =====
-- plugins/runner.py: the rows that a run makes of its plugin's proposals.
use sleuthgraph_api.Base.{
  ℕ, zero, suc, String, Bool, true, false, ◌&&◌, ◌||◌, not, Option, none, some, List, [], ◌∷◌, ◌==◌,
  if◌then◌else◌, str_eq, ltb, leb, length,
}
use sleuthgraph_api.Base.Text.{Text, codes}
use sleuthgraph_api.Errors.{Result, ok, err, plugin_execution, schema_invalid}
use sleuthgraph_api.Graph.Attrs.{validate_attrs, at_end}
use sleuthgraph_api.Model.{World, Entity, Relationship, Evidence}
use sleuthgraph_api.Action.{Action, pure, lift, try_commit, raise_if, ◌>>=◌, ◌>>◌}
use sleuthgraph_api.Entities.{EntityType, EntityCreate, type_value}
use sleuthgraph_api.Entities
use sleuthgraph_api.Relationships.{RelationshipCreate}
use sleuthgraph_api.Relationships
use sleuthgraph_api.Evidence.{EvidenceCreate}
use sleuthgraph_api.Evidence
use sleuthgraph_api.Plugins.Base.{
  EntityProposal, RelationshipProposal, EvidenceProposal, QueryResult, Endpoint, input_endpoint,
  ref_endpoint, bad_endpoint,
}

-- `[a-z0-9_-]` and `[0-9a-z._-]`
abbrev is_name_char : ℕ → Bool
is_name_char c = (leb b'a' c && leb c b'z') || (leb b'0' c && leb c b'9') || c == b'_' || c == b'-'

abbrev is_digit : ℕ → Bool
is_digit c = leb b'0' c && leb c b'9'

pub version_tail : ℕ → Text → Bool
unfolding at_end
version_tail zero cs = at_end cs
version_tail (suc n) [] = true
version_tail (suc n) (c ∷ cs) =
    at_end (c ∷ cs) || ((is_name_char c || c == b'.') && version_tail n cs)

-- `(@[0-9][0-9a-z._-]{0,31})?$`
pub version_part : Text → Bool
unfolding version_tail
version_part [] = true
version_part (c ∷ []) = at_end (c ∷ [])
version_part (c ∷ d ∷ cs) = c == b'@' && is_digit d && version_tail 31 cs

pub name_tail : ℕ → Text → Bool
unfolding version_part
name_tail zero cs = version_part cs
name_tail (suc n) [] = true
name_tail (suc n) (c ∷ cs) = version_part (c ∷ cs) || (is_name_char c && name_tail n cs)

-- `_SOURCE_PLUGIN_RE.match(v)`
unfoldable pub source_plugin_match : Text → Bool
unfolding name_tail
source_plugin_match [] = false
source_plugin_match (c ∷ cs) = leb b'a' c && leb c b'z' && name_tail 63 cs

abbrev pub Refs : Type 0
Refs = List (String × Entity)

unfoldable pub find_ref : String → Refs → Option Entity
find_ref key [] = none
find_ref key ((k, e) ∷ refs) = let rest = find_ref key refs in if str_eq k key then some e else rest

abbrev or_unknown : Option Entity → Result Entity
or_unknown none = err plugin_execution
or_unknown (some e) = ok e

-- `_resolve_ref`
unfoldable pub resolve_ref : Endpoint → Entity → Refs → Result Entity
unfolding find_ref
resolve_ref input_endpoint input_entity refs = ok input_entity
resolve_ref (ref_endpoint key) input_entity refs = or_unknown (find_ref key refs)
resolve_ref bad_endpoint input_entity refs = err plugin_execution

abbrev pub push_if {ℓ} : {A : Type ℓ} → Bool → A → List A → List A
push_if true x xs = x ∷ xs
push_if false x xs = xs

module _ (w : World) where
  -- the loop over `result.entities`; later refs shadow earlier ones
  unfoldable pub persist_entities :
      ℕ → Option ℕ → List EntityProposal → Refs → Action (Refs × List Entity)
  persist_entities case_id created_by [] refs = pure (refs, [])
  persist_entities case_id created_by (ep ∷ eps) refs = do
    attrs ← lift (validate_attrs w.json_size ep.attrs)
    made ←
        Entities.get_or_create w case_id created_by
          (record { type = ep.type; label = ep.label; attrs = attrs; confidence = ep.confidence })
          false
    rest ← persist_entities case_id created_by eps ((ep.ref, made.0) ∷ refs)
    pure (rest.0, push_if made.1 made.0 rest.1)

  -- the loop over `result.relationships`
  unfoldable pub persist_relationships :
      ℕ → Option ℕ → Entity → String → Refs → List RelationshipProposal → Action (List Relationship)
  unfolding resolve_ref
  persist_relationships case_id created_by input_entity full_name refs [] = pure []
  persist_relationships case_id created_by input_entity full_name refs (rp ∷ rps) = do
    src ← lift (resolve_ref rp.src input_entity refs)
    dst ← lift (resolve_ref rp.dst input_entity refs)
    raise_if (ltb 128 (length (codes full_name))) schema_invalid
    attrs ← lift (validate_attrs w.json_size rp.attrs)
    made ←
        Relationships.create_if_not_exists w case_id created_by
          (record {
            src_entity_id = src.id;
            dst_entity_id = dst.id;
            rel_type = rp.rel_type;
            confidence = rp.confidence;
            source_plugin = some full_name;
            attrs = attrs;
          })
          false
    rest ← persist_relationships case_id created_by input_entity full_name refs rps
    pure (push_if made.1 made.0 rest)

  -- the loop over `result.evidence`
  unfoldable pub persist_evidence :
      ℕ → Option ℕ → Entity → String → List EvidenceProposal → Action (List Evidence)
  unfolding source_plugin_match
  persist_evidence case_id created_by input_entity full_name [] = pure []
  persist_evidence case_id created_by input_entity full_name (evp ∷ evps) = do
    raise_if (ltb 96 (length (codes full_name)) || not (source_plugin_match (codes full_name)))
        schema_invalid
    spec ← lift (validate_attrs w.json_size evp.reproducibility_spec)
    ev ←
        Evidence.create w case_id created_by
          (record {
            entity_id = if evp.link_to_input then some input_entity.id else none;
            source_plugin = full_name;
            query = evp.query;
            reproducibility_spec = spec;
          })
          evp.payload evp.content_type false
    rest ← persist_evidence case_id created_by input_entity full_name evps
    pure (ev ∷ rest)

  -- `_persist`
  unfoldable pub persist :
      ℕ
      → Entity
      → Option ℕ
      → String
      → QueryResult
      → Action (List Entity × List Relationship × List Evidence)
  unfolding persist_entities persist_relationships persist_evidence
  persist case_id input_entity created_by full_name result = do
    found ← persist_entities case_id created_by result.entities []
    rels ←
        persist_relationships case_id created_by input_entity full_name found.0 result.relationships
    evidence ← persist_evidence case_id created_by input_entity full_name result.evidence
    try_commit w.commit_accepts
    pure (found.1, rels, evidence)
