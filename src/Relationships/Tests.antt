-- ===== src/Relationships/Tests.antt =====
-- The relationship properties on a small database.
use sleuthgraph_api.Base.{◌≡◌, refl, Bool, true, false, ◌&&◌, none, some, ◌⊎◌}
use sleuthgraph_api.Errors.{ok, err, endpoint_not_in_case}
use sleuthgraph_api.Graph.Json.{end}
use sleuthgraph_api.Model.{Session, Relationship}
use sleuthgraph_api.Fixtures.{world, session}
use sleuthgraph_api.Entities
use sleuthgraph_api.Relationships.{
  RelationshipType, RelationshipCreate, create, insert_rel, create_if_not_exists,
}
use sleuthgraph_api.Relationships.Endpoints.{is_live, create-endpoints, soft_delete-relationships}
use sleuthgraph_api.Relationships.Dedup.{create_if_not_exists_again}

abbrev body : RelationshipCreate
body = record {
  src_entity_id = 30;
  dst_entity_id = 31;
  rel_type = RelationshipType.owns;
  confidence = 1;
  source_plugin = none;
  attrs = end;
}

create-endpoints_example :
    let live : Bool = is_live 10 30 session.live.entities && is_live 10 31 session.live.entities in
    ((live ≡ true)
      × (create world 10 none body true session ≡ insert_rel world 10 none body true session))
    ⊎ ((live ≡ false)
        × (create world 10 none body true session ≡ (err endpoint_not_in_case, session)))
create-endpoints_example = create-endpoints world 10 none body true session

host_deleted : (Entities.soft_delete world 30 10 session).0 ≡ ok true
unfolding Entities.soft_delete sleuthgraph_api.Graph.Age.delete_vertex
    sleuthgraph_api.Graph.Age.run_cypher sleuthgraph_api.Graph.Age.pick_delimiter
host_deleted = refl

soft_delete-relationships_example :
    ((Entities.get 30 10 (Entities.soft_delete world 30 10 session).1).0 ≡ ok none)
    × ((Entities.soft_delete world 30 10 session).1.committed.relationships
        ≡ session.live.relationships)
soft_delete-relationships_example = soft_delete-relationships world 30 10 session host_deleted

abbrev made : Relationship
made = record {
  id = 100;
  case_id = 10;
  src_entity_id = 30;
  dst_entity_id = 31;
  rel_type = "OWNS";
  confidence = 1;
  source_plugin = none;
  attrs = end;
  created_by = none;
  created_at = 900000001;
  deleted_at = none;
}

abbrev after_one : Session
after_one = (create_if_not_exists world 10 none body true session).1

created : create_if_not_exists world 10 none body true session ≡ (ok (made, true), after_one)
unfolding create_if_not_exists create sleuthgraph_api.Graph.Age.upsert_vertex
    sleuthgraph_api.Graph.Encode.encode_props sleuthgraph_api.Graph.Attrs.key_re_match
    sleuthgraph_api.Graph.Age.run_cypher sleuthgraph_api.Graph.Age.pick_delimiter
    sleuthgraph_api.Graph.Encode.quoted sleuthgraph_api.Graph.Age.upsert_edge
created = refl

create_if_not_exists_again_example :
    create_if_not_exists world 10 (some 1) body true after_one ≡ (ok (made, false), after_one)
create_if_not_exists_again_example =
    create_if_not_exists_again world 10 none (some 1) body body true true session after_one made
      true refl refl refl created
