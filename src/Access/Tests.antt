-- ===== src/Access/Tests.antt =====
-- User 2 at the case of user 1.
use sleuthgraph_api.Base.{ℕ, ◌≡◌, refl, Bool, true, none, [], ◌∷◌}
use sleuthgraph_api.Base.Text.{Text}
use sleuthgraph_api.Errors.{Result, ok}
use sleuthgraph_api.Graph.Json.{end}
use sleuthgraph_api.Action.{unset}
use sleuthgraph_api.Cases.{get}
use sleuthgraph_api.Entities.{EntityType, EntityCreate, EntityUpdate}
use sleuthgraph_api.Relationships.{RelationshipType, RelationshipCreate}
use sleuthgraph_api.Licensing.{community}
use sleuthgraph_api.Access.{
  Upload, Listing, EntitiesRefused, RelationshipsRefused, EvidenceRefused, RunsRefused,
  case_handlers_Refused,
}
use sleuthgraph_api.Fixtures.{world, session}

foreign : get 10 2 session ≡ (ok none, session)
unfolding get
foreign = refl

abbrev body : EntityCreate
body = record { type = EntityType.phone; label = "555"; attrs = end; confidence = 1 }

abbrev patch : EntityUpdate
patch = record { label = unset; attrs = unset; confidence = unset }

abbrev rel : RelationshipCreate
rel = record {
  src_entity_id = 30;
  dst_entity_id = 31;
  rel_type = RelationshipType.owns;
  confidence = 1;
  source_plugin = none;
  attrs = end;
}

abbrev takes_all : ℕ → Bool
takes_all id = true

abbrev upload : Upload
upload = record { max_bytes = 100; metadata = none; file = 1 ∷ []; content_type = none }

abbrev listing : Listing
listing = record {
  first_filter = none;
  second_filter = none;
  source = none;
  target = none;
  limit = 50;
  offset = 0;
}

abbrev presigned : Text → ℕ → Result Text
presigned key ttl = ok key

case_handlers_Refused_example :
    EntitiesRefused world 2 10 session 30 body patch listing
    × RelationshipsRefused world 2 10 session 30 rel listing
    × EvidenceRefused world 2 10 session 30 upload listing presigned 60
    × RunsRefused world 2 10 session 30 takes_all community [] "dns" listing
case_handlers_Refused_example =
    case_handlers_Refused world 2 10 session 30 body patch rel upload presigned 60 takes_all
      community [] "dns" listing refl foreign
