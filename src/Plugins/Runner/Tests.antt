-- ===== src/Plugins/Runner/Tests.antt =====
-- Runs of a plugin that fails, and of one whose relationship names an unknown entity.
use sleuthgraph_api.Base.{false, none, [], ◌∷◌}
use sleuthgraph_api.Errors.{Result, err, http_timeout}
use sleuthgraph_api.Graph.Json.{end}
use sleuthgraph_api.Model.{Session, Entity}
use sleuthgraph_api.Entities.{EntityType}
use sleuthgraph_api.Entities
use sleuthgraph_api.Relationships.{RelationshipType}
use sleuthgraph_api.Plugins.Base.{
  Plugin, QueryResult, RelationshipProposal, input_endpoint, ref_endpoint,
}
use sleuthgraph_api.Plugins.Proposals.{persist_entities, persist_relationships}
use sleuthgraph_api.Plugins.Runner.{attempt_run}
use sleuthgraph_api.Plugins.Runner.Audit.{Audited, attempt_run-Audited}
use sleuthgraph_api.Fixtures.{world, session, waiting, host}

-- A relationship from an entity that is not proposed.
abbrev dangling : RelationshipProposal
dangling = record {
  src = ref_endpoint "b";
  dst = input_endpoint;
  rel_type = RelationshipType.resolves_to;
  confidence = 1;
  attrs = end;
}

abbrev proposals : QueryResult
proposals = record {
  entities =
      (record {
        ref = "a";
        type = EntityType.ip_address;
        label = "10.0.0.1";
        attrs = end;
        confidence = 1;
      })
      ∷ [];
  relationships = dangling ∷ [];
  evidence = [];
}

abbrev plugin_of : Result QueryResult → Plugin
plugin_of answer = record {
  name = "dns";
  version = "1";
  full_name = "dns@1";
  entity_types_accepted = EntityType.domain ∷ [];
  requires_credentials = false;
  dispatch_async = false;
  premium = false;
  query = λ e key. answer;
}

attempt_run-Audited_example :
    Audited world 50 (attempt_run world (plugin_of (err http_timeout)) waiting 10 host none session)
attempt_run-Audited_example =
    attempt_run-Audited world (plugin_of (err http_timeout)) waiting 10 host none session

-- The session after the proposed entity is written.
abbrev found : Session
found = (persist_entities world 10 none proposals.entities [] session).1

-- The entity that the run adds.
abbrev address : Entity
address = record host {
  id = 100;
  type = "IP_ADDRESS";
  label = "10.0.0.1";
  created_by = none;
  created_at = 900000001;
}
