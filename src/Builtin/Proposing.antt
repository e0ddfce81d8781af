-- ===== src/Builtin/Proposing.antt =====
-- plugins/base.py: the limits of the proposals' fields, and the proposals as the built-in plugins
-- construct them.
use sleuthgraph_api.Base.{
  ℕ, String, Bool, true, false, ◌&&◌, Option, none, some, List, [], ◌∷◌, leb, length, map,
}
use sleuthgraph_api.Base.Text.{Text, codes}
use sleuthgraph_api.Base.Strings.{to_string}
use sleuthgraph_api.Errors.{Result, ok, err, schema_invalid, ◌>>=◌}
use sleuthgraph_api.Graph.Json.{Json, Fields, str}
use sleuthgraph_api.Entities.{EntityType}
use sleuthgraph_api.Relationships.{RelationshipType}
use sleuthgraph_api.Plugins.Base.{
  Endpoint, bad_endpoint, EntityProposal, RelationshipProposal, EvidenceProposal, QueryResult,
  input_endpoint, ref_endpoint,
}
use sleuthgraph_api.Builtin.Values.{dict}
use sleuthgraph_api.Builtin.Web.{Web, Request}

abbrev pub string_within : Bool → Option String → Result String
string_within true (some s) = ok s
string_within true none = err schema_invalid
string_within false s = err schema_invalid

-- `Field(min_length=1, max_length=limit)` on text
abbrev pub check_text : ℕ → Text → Result String
check_text limit t = string_within (leb 1 (length t) && leb (length t) limit) (to_string t)

-- `EntityProposal(…)`; a confidence is in hundredths
unfoldable pub entity_proposal : Text → EntityType → Text → Fields → ℕ → Result EntityProposal
entity_proposal ref type label attrs confidence = do
  ref ← check_text 64 ref
  label ← check_text 512 label
  ok (record { ref = ref; type = type; label = label; attrs = attrs; confidence = confidence })

-- `EvidenceProposal(…)`
unfoldable pub evidence_proposal : Text → List ℕ → Fields → Result EvidenceProposal
evidence_proposal query payload spec = do
  query ← check_text 1024 query
  ok (record {
    query = query;
    payload = payload;
    content_type = some "application/json";
    reproducibility_spec = spec;
    link_to_input = true;
  })

-- `{"ref": ref}`
abbrev pub ref_to : Text → Endpoint
ref_to ref = elim (to_string ref) [ some key ↦ ref_endpoint key | none ↦ bad_endpoint ]

-- `RelationshipProposal(src={"ref": ref}, dst={"input": True}, …)`
abbrev pub to_input : Text → RelationshipType → Fields → ℕ → RelationshipProposal
to_input ref rel_type attrs confidence = record {
  src = ref_to ref;
  dst = input_endpoint;
  rel_type = rel_type;
  confidence = confidence;
  attrs = attrs;
}

-- `RelationshipProposal(src={"input": True}, dst={"ref": ref}, …)`
abbrev pub from_input : Text → RelationshipType → Fields → ℕ → RelationshipProposal
from_input ref rel_type attrs confidence = record {
  src = input_endpoint;
  dst = ref_to ref;
  rel_type = rel_type;
  confidence = confidence;
  attrs = attrs;
}

-- What a round of a loop appends to `entities` and to `relationships`.
pub record Link : Type 0 where
  pub entity : EntityProposal
  pub relationship : RelationshipProposal

-- `QueryResult(entities=entities, relationships=relationships, evidence=[evidence])`
abbrev pub proposed :
    List EntityProposal → List RelationshipProposal → EvidenceProposal → QueryResult
proposed entities relationships evidence = record {
  entities = entities;
  relationships = relationships;
  evidence = evidence ∷ [];
}

-- the same, of what the loops have appended
unfoldable pub linked : List Link → EvidenceProposal → QueryResult
linked links = proposed (map (λ l. l.entity) links) (map (λ l. l.relationship) links)

-- `QueryResult()`
abbrev pub nothing : QueryResult
nothing = record { entities = []; relationships = []; evidence = [] }

-- `QueryResult(evidence=[evidence])`
abbrev pub only_evidence : EvidenceProposal → QueryResult
only_evidence evidence = record { entities = []; relationships = []; evidence = evidence ∷ [] }

-- `raw_bytes or b"…"`
abbrev pub bytes_or : Text → List ℕ → List ℕ
bytes_or default [] = default
bytes_or default (b ∷ bs) = b ∷ bs

-- A GET with the plugins' User-Agent and further headers.
abbrev pub get_request : Text → List (Text × Text) → Request
get_request url headers = record {
  method = codes "GET";
  url = url;
  headers = (codes "User-Agent", codes "sleuthgraph/0.1") ∷ headers;
  form = [];
}

-- The first items of every `reproducibility_spec`.
abbrev pub asked : Web → Text → Text → List (Text × Json) → Fields
asked web method url rest = dict (
    (codes "url", str url)
    ∷ (codes "method", str method)
    ∷ (codes "queried_at", str web.isoformat)
    ∷ rest)
