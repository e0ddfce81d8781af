-- ===== src/Plugins/Dispatch/Tests.antt =====
-- A dispatch whose job Redis refuses.
use sleuthgraph_api.Base.{ℕ, ◌+◌, ◌≡◌, Bool, true, false, [], ◌∷◌, ◌++◌, ◌⊎◌}
use sleuthgraph_api.Errors.{Result, ok, err, http_exception}
use sleuthgraph_api.Model.{Session, PluginRun, failed}
use sleuthgraph_api.Entities.{EntityType}
use sleuthgraph_api.Plugins.Base.{Plugin}
use sleuthgraph_api.Plugins.Runner.Audit.{HasStatus}
use sleuthgraph_api.Plugins.Dispatch.{RunReply, queued_row, dispatch_async}
use sleuthgraph_api.Plugins.Dispatch.Outcomes.{dispatch_async_lem}
use sleuthgraph_api.Fixtures.{world, session, host}

abbrev slow : Plugin
slow = record {
  name = "slow";
  version = "1";
  full_name = "slow@1";
  entity_types_accepted = EntityType.domain ∷ [];
  requires_credentials = false;
  dispatch_async = true;
  premium = false;
  query = λ e key. ok (record { entities = []; relationships = []; evidence = [] });
}

abbrev refused : ℕ → Bool
refused id = false

dispatch_async_lem_example :
    let row : PluginRun =
      queued_row slow 1 10 host (world.uuid4 session.ticks) (world.now (session.ticks + 1)) in
    let answer : Result RunReply × Session = dispatch_async world refused slow 1 10 host session in
    ((refused row.id ≡ true)
      × (answer.0
          ≡ ok (record {
            status_code = 202;
            run = row;
            entities = [];
            relationships = [];
            evidence = [];
          }))
      × (answer.1.committed.runs ≡ session.live.runs ++ row ∷ []))
    ⊎ ((refused row.id ≡ false)
        × (answer.0 ≡ err (http_exception 503))
        × HasStatus row.id failed answer.1.committed)
dispatch_async_lem_example = dispatch_async_lem world refused slow 1 10 host session
