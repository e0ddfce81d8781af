-- ===== src/Plugins/Dispatch.antt =====
-- plugins/router.py and plugins/repository.py: the handlers that start a run and read the runs of a
-- case. Whether Redis takes the job of a run is an argument.
pub mod Outcomes
mod Tests
use sleuthgraph_api.Base.{
  ℕ, ◌≡◌, String, Bool, true, false, ◌&&◌, Option, none, some, List, [], ◌∷◌, ◌++◌, ◌==◌,
  if◌then◌else◌, str_eq, length, is_none,
}
use sleuthgraph_api.Errors.{
  Error, Result, ok, err, plugin_not_found, plugin_execution, plugin_type, credential_missing,
  http_exception,
}
use sleuthgraph_api.Model.{
  Session, World, Db, Entity, Relationship, Evidence, PluginRun, RunStatus, queued, running,
  succeeded, failed,
}
use sleuthgraph_api.Sql.{select, scalar_one_or_none, page, order_desc}
use sleuthgraph_api.Action.{
  Action, pure, raise, lift, gets, draw, or_raise, modify, commit, raise_if, in_session, guard_page,
  ◌>>=◌, ◌>>◌,
}
use sleuthgraph_api.Cases.{verify_case_ownership}
use sleuthgraph_api.Entities
use sleuthgraph_api.Entities.{EntityRead, read_entities}
use sleuthgraph_api.Licensing.{EditionProvider}
use sleuthgraph_api.Plugins.Base.{Plugin}
use sleuthgraph_api.Plugins.Registry
use sleuthgraph_api.Plugins.Runner.{RunResult, run, update_run_row}

-- The JSONResponse: its status code and content.
pub record RunReply : Type 0 where
  pub status_code : ℕ
  pub run : PluginRun
  pub entities : List EntityRead
  pub relationships : List Relationship
  pub evidence : List Evidence

abbrev pub status_value : RunStatus → String
status_value queued = "queued"
status_value running = "running"
status_value succeeded = "succeeded"
status_value failed = "failed"

abbrev passes : (PluginRun → String) → Option String → PluginRun → Bool
passes f none r = true
passes f (some value) r = str_eq (f r) value

-- the filters of `PluginRunRepository.list_for_case`
abbrev pub run_listed : ℕ → Option String → Option String → PluginRun → Bool
run_listed case_id status plugin_name r =
    r.case_id == case_id
    && passes (λ x. status_value x.status) status r
    && passes (λ x. x.plugin_name) plugin_name r

-- `PluginRunRepository.get`
unfoldable pub get_run_row : ℕ → ℕ → Action (Option PluginRun)
get_run_row run_id case_id s =
    (scalar_one_or_none (select (λ r. r.id == run_id && r.case_id == case_id) s.live.runs), s)

-- `PluginRunRepository.list_for_case`
unfoldable pub list_runs_for_case :
    ℕ → Option String → Option String → ℕ → ℕ → Action (List PluginRun × ℕ)
unfolding order_desc
list_runs_for_case case_id status plugin_name limit offset = gets λ s.
    let rows = select (run_listed case_id status plugin_name) s.live.runs in
    (page limit offset (order_desc (λ r. r.started_at) rows), length rows)

-- GET /cases/{case_id}/plugins/runs
unfoldable pub list_runs :
    ℕ → ℕ → Option String → Option String → ℕ → ℕ → Action (List PluginRun × ℕ)
unfolding list_runs_for_case
list_runs user case_id status plugin_name limit offset = in_session (do
  guard_page limit
  verify_case_ownership case_id user
  list_runs_for_case case_id status plugin_name limit offset)

-- GET /cases/{case_id}/plugins/runs/{run_id}
unfoldable pub get_run : ℕ → ℕ → ℕ → Action PluginRun
unfolding get_run_row
get_run user case_id run_id = in_session (do
  verify_case_ownership case_id user
  found ← get_run_row run_id case_id
  or_raise found (http_exception 404))

-- the `except` clauses around `registry.get`
abbrev pub found_or_404 : Result Plugin → Result Plugin
found_or_404 (ok plugin) = ok plugin
found_or_404 (err e) = err (http_exception 404)

-- the `except` clauses around `runner.run`; another exception passes
abbrev pub http_error : Error → Error
http_error credential_missing = http_exception 422
http_error plugin_type = http_exception 422
http_error plugin_execution = http_exception 500
http_error e = e

pub with_http_errors : Action RunResult → Action RunResult
with_http_errors m s =
    let (r, t) = m s in elim r [ ok a ↦ (ok a, t) | err e ↦ (err (http_error e), t) ]

-- the row that the dispatcher inserts
abbrev pub queued_row : Plugin → ℕ → ℕ → Entity → ℕ → ℕ → PluginRun
queued_row plugin user case_id input id now = record {
  id = id;
  case_id = case_id;
  input_entity_id = some input.id;
  plugin_name = plugin.name;
  plugin_version = plugin.version;
  started_at = now;
  finished_at = none;
  status = queued;
  error_message = none;
  entities_created_count = 0;
  relationships_created_count = 0;
  evidence_count = 0;
  created_by = some user;
}

abbrev accepted : PluginRun → RunReply
accepted row = record {
  status_code = 202;
  run = row;
  entities = [];
  relationships = [];
  evidence = [];
}

module _ (w : World) (enqueue_accepts : ℕ → Bool) where
  -- `try: await _enqueue.enqueue_plugin_run(run.id) except Exception: …`
  pub enqueue_or_fail : Bool → PluginRun → Action RunReply
  enqueue_or_fail true row = pure (accepted row)
  enqueue_or_fail false row = do
    update_run_row row.id (λ r. record r { status = failed; error_message = some "enqueue_failed" })
    commit
    raise (http_exception 503)

  -- the branch of `dispatch_mode == "async"`
  unfoldable pub dispatch_async : Plugin → ℕ → ℕ → Entity → Action RunReply
  unfolding enqueue_or_fail
  dispatch_async plugin user case_id input = do
    id ← draw w.uuid4
    now ← draw w.now
    modify (λ db. record db { runs = db.runs ++ queued_row plugin user case_id input id now ∷ [] })
    commit
    enqueue_or_fail (enqueue_accepts id) (queued_row plugin user case_id input id now)

  -- the synchronous path
  pub run_now : EditionProvider → List Plugin → String → ℕ → ℕ → Entity → Action RunReply
  unfolding with_http_errors
  run_now provider registry plugin_name user case_id input = do
    result ← with_http_errors (run w provider registry plugin_name case_id input (some user) none)
    read ← lift (read_entities result.entities_created)
    pure (record {
      status_code = 201;
      run = result.run;
      entities = read;
      relationships = result.relationships_created;
      evidence = result.evidence_created;
    })

  -- `if plugin.dispatch_mode == "async"`
  pub by_mode :
      Bool → EditionProvider → List Plugin → Plugin → ℕ → ℕ → String → Entity → Action RunReply
  unfolding dispatch_async run_now
  by_mode true provider registry plugin user case_id plugin_name input =
      dispatch_async plugin user case_id input
  by_mode false provider registry plugin user case_id plugin_name input =
      run_now provider registry plugin_name user case_id input

  -- POST /cases/{case_id}/plugins/{plugin_name}/run
  unfoldable pub run_plugin : EditionProvider → List Plugin → ℕ → ℕ → String → ℕ → Action RunReply
  unfolding by_mode
  run_plugin provider registry user case_id plugin_name input_entity_id = in_session (do
    verify_case_ownership case_id user
    found ← Entities.get input_entity_id case_id
    input ← or_raise found (http_exception 404)
    plugin ← lift (found_or_404 (Registry.get plugin_name registry))
    by_mode plugin.dispatch_async provider registry plugin user case_id plugin_name input)
