-- ===== src/Plugins/Base.antt =====
-- plugins/base.py: a plugin, and the proposals that its query returns. A plugin's `query` reaches
-- out to the network: it is a function of the input and the API key that returns or raises.
use sleuthgraph_api.Base.{ℕ, String, Bool, Option, List}
use sleuthgraph_api.Base.Text.{Text}
use sleuthgraph_api.Errors.{Result}
use sleuthgraph_api.Graph.Json.{Fields}
use sleuthgraph_api.Model.{Entity}
use sleuthgraph_api.Entities.{EntityType}
use sleuthgraph_api.Relationships.{RelationshipType}

pub record EntityProposal : Type 0 where
  pub ref : String
  pub type : EntityType
  pub label : String
  pub attrs : Fields
  pub confidence : ℕ

-- An endpoint: `{"input": True}`, `{"ref": key}` without a true "input", or neither.
pub data Endpoint : Type 0 where
  input_endpoint : Endpoint
  ref_endpoint : String → Endpoint
  bad_endpoint : Endpoint

pub record RelationshipProposal : Type 0 where
  pub src : Endpoint
  pub dst : Endpoint
  pub rel_type : RelationshipType
  pub confidence : ℕ
  pub attrs : Fields

pub record EvidenceProposal : Type 0 where
  pub query : String
  pub payload : List ℕ
  pub content_type : Option String
  pub reproducibility_spec : Fields
  pub link_to_input : Bool

pub record QueryResult : Type 0 where
  pub entities : List EntityProposal
  pub relationships : List RelationshipProposal
  pub evidence : List EvidenceProposal

pub record Plugin : Type 0 where
  pub name : String
  pub version : String
  pub full_name : String
  pub entity_types_accepted : List EntityType
  pub requires_credentials : Bool
  pub dispatch_async : Bool
  pub premium : Bool
  pub query : Entity → Option Text → Result QueryResult
