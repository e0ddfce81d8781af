-- ===== src/Entities/Tests.antt =====
-- The entity properties on a small database.
use sleuthgraph_api.Base.{ℕ, ◌≡◌, refl, true, false, none, some}
use sleuthgraph_api.Errors.{ok}
use sleuthgraph_api.Graph.Json.{end}
use sleuthgraph_api.Model.{Session, Entity}
use sleuthgraph_api.Fixtures.{world, fresh, empty_db, host}
use sleuthgraph_api.Entities.{EntityType, EntityCreate, create, get_or_create, soft_delete}
use sleuthgraph_api.Entities.Mirror.{
  IsMirrored, Reach, here, next, create_step, soft_delete_step, Reach-IsMirrored,
}
use sleuthgraph_api.Entities.Dedup.{get_or_create_again}

abbrev body : EntityCreate
body = record { type = EntityType.phone; label = "555"; attrs = end; confidence = 1 }

-- A session with no entity, and those after one and two creations.
abbrev start : Session
start = fresh empty_db

abbrev after_one : Session
after_one = (create world 10 none body true start).1

empty_IsMirrored : IsMirrored world start
empty_IsMirrored = record {
  unique_live = tt;
  unique_committed = tt;
  live_in_step = tt;
  committed_in_step = tt;
}

two_steps : Reach world start (soft_delete world 100 10 after_one).1
two_steps = next (next here (create_step 10 none body true tt)) (soft_delete_step 100 10)

Reach-IsMirrored_example : IsMirrored world (soft_delete world 100 10 after_one).1
Reach-IsMirrored_example =
    Reach-IsMirrored world start (soft_delete world 100 10 after_one).1 empty_IsMirrored two_steps

abbrev made : ℕ → ℕ → Entity
made id at = record host {
  id = id;
  type = "PHONE";
  label = "555";
  created_by = none;
  created_at = at;
}

got : get_or_create world 10 none body true start ≡ (ok (made 100 900000001, true), after_one)
unfolding get_or_create create sleuthgraph_api.Graph.Age.upsert_vertex
    sleuthgraph_api.Graph.Encode.encode_props sleuthgraph_api.Graph.Attrs.key_re_match
    sleuthgraph_api.Graph.Age.run_cypher sleuthgraph_api.Graph.Age.pick_delimiter
    sleuthgraph_api.Graph.Encode.quoted
got = refl

get_or_create_again_example :
    get_or_create world 10 (some 1) body true after_one
    ≡ (ok (made 100 900000001, false), after_one)
get_or_create_again_example =
    get_or_create_again world 10 none (some 1) body true true start after_one (made 100 900000001)
      true got
