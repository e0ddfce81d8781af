-- ===== src/GraphDump/Tests.antt =====
-- The dump of the case of user 1.
use sleuthgraph_api.Base.{◌≡◌, refl}
use sleuthgraph_api.Errors.{ok}
use sleuthgraph_api.Cases.{verify_case_ownership}
use sleuthgraph_api.GraphDump.{
  GraphDump, get_graph, graph_limit, all_entities, all_relationships, Faithful, get_graph-Faithful,
}
use sleuthgraph_api.Fixtures.{session}

owned : verify_case_ownership 10 1 session ≡ (ok tt, session)
unfolding verify_case_ownership
owned = refl

get_graph-Faithful_example :
    (d : GraphDump) × ((get_graph 1 10 session).0 ≡ ok d)
    × Faithful graph_limit (all_entities 10 session) (all_relationships 10 session) d
get_graph-Faithful_example = get_graph-Faithful 1 10 session owned
