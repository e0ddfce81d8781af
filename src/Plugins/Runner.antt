-- ===== src/Plugins/Runner.antt =====
-- plugins/runner.py: validation, audit row, execution and persistence of a plugin run.
pub mod Keeping
pub mod Writes
pub mod Keeps
pub mod Audit
pub mod Partial
mod Tests
use sleuthgraph_api.Base.{
  ℕ, zero, suc, ◌+◌, ◌≡◌, String, Bool, true, false, ◌&&◌, ◌||◌, not, Option, none, some, List, [],
  ◌∷◌, ◌++◌, ◌==◌, if◌then◌else◌, str_eq, any, ltb, leb, length, is_none, is_some,
}
use sleuthgraph_api.Base.Text.{Text, codes}
use sleuthgraph_api.Errors.{
  Error, Result, ok, err, plugin_execution, plugin_type, credential_missing, schema_invalid,
  attrs_too_deep, attrs_bad_key, attrs_too_large, invalid_map_key, invalid_entity_type,
  invalid_rel_type, endpoint_not_in_case, http_timeout, http_status, http_transport,
  empty_plugin_name, duplicate_plugin_name,
}
use sleuthgraph_api.Graph.Json.{Fields}
use sleuthgraph_api.Graph.Attrs.{validate_attrs, at_end}
use sleuthgraph_api.Model.{
  Session, World, Db, Entity, Relationship, Evidence, PluginRun, RunStatus, queued, running,
  succeeded, failed,
}
use sleuthgraph_api.Sql.{update_where}
use sleuthgraph_api.Action.{
  Action, pure, raise, lift, gets, draw, modify, commit, try_commit, swallowed, raise_if, ◌>>=◌,
  ◌>>◌,
}
use sleuthgraph_api.Entities.{EntityType, EntityCreate, type_value}
use sleuthgraph_api.Entities
use sleuthgraph_api.Relationships.{RelationshipCreate}
use sleuthgraph_api.Relationships
use sleuthgraph_api.Evidence.{EvidenceCreate}
use sleuthgraph_api.Evidence
use sleuthgraph_api.Credentials.{get_credential}
use sleuthgraph_api.Licensing.{EditionProvider, assert_plugin_allowed}
use sleuthgraph_api.Plugins.Registry
use sleuthgraph_api.Plugins.Base.{
  EntityProposal, RelationshipProposal, EvidenceProposal, QueryResult, Plugin, Endpoint,
  input_endpoint, ref_endpoint, bad_endpoint,
}
use sleuthgraph_api.Plugins.Checks.{is_plugin_error, classify_error, check_run}
use sleuthgraph_api.Plugins.Proposals.{persist}

abbrev pub max_proposals : ℕ
max_proposals = 2000

pub record RunResult : Type 0 where
  pub run : PluginRun
  pub entities_created : List Entity
  pub relationships_created : List Relationship
  pub evidence_created : List Evidence

abbrev pub update_run_row : ℕ → (PluginRun → PluginRun) → Action (Unit {0})
update_run_row id f = modify λ db. record db { runs = update_where (λ r. r.id == id) f db.runs }

module _ (w : World) where
  -- `_resolve_credentials`, called with no credentials given
  pub resolve_credentials : Plugin → Option ℕ → Action (Option Text)
  resolve_credentials plugin none = pure none
  resolve_credentials plugin (some user) =
      if plugin.requires_credentials
      then (do
        key ← get_credential w user plugin.name
        raise_if (is_none key) credential_missing
        pure key)
      else pure none

  abbrev pub finished : List Entity × List Relationship × List Evidence → ℕ → PluginRun → PluginRun
  finished made now run = record run {
    status = succeeded;
    finished_at = some now;
    entities_created_count = length made.0;
    relationships_created_count = length made.1;
    evidence_count = length made.2;
  }

  -- `_execute_plugin`
  unfoldable pub execute_plugin :
      Plugin → PluginRun → ℕ → Entity → Option ℕ → Option Text → Action RunResult
  unfolding persist
  execute_plugin plugin run case_id input_entity created_by credentials = do
    result ← lift (plugin.query input_entity credentials)
    raise_if
        (ltb max_proposals
          (length result.entities + length result.relationships + length result.evidence))
        plugin_execution
    made ← persist w case_id input_entity created_by plugin.full_name result
    now ← draw w.now
    update_run_row run.id (finished made now)
    try_commit w.commit_accepts
    pure (record {
      run = finished made now run;
      entities_created = made.0;
      relationships_created = made.1;
      evidence_created = made.2;
    })

  abbrev pub marked_failed : String → ℕ → PluginRun → PluginRun
  marked_failed message now run = record run {
    status = failed;
    finished_at = some now;
    error_message = some message;
  }

  -- the handler of `except Exception as e`
  pub fail_run : PluginRun → Error → Action RunResult
  unfolding classify_error
  fail_run run e = do
    now ← draw w.now
    update_run_row run.id (marked_failed (classify_error e) now)
    swallowed (try_commit w.commit_accepts)
    raise (if is_plugin_error e then e else plugin_execution)

  -- `try: … except Exception as e: …`
  pub or_fail : PluginRun → Action RunResult → Action RunResult
  unfolding fail_run
  or_fail run m s = let (r, t) = m s in elim r [ ok a ↦ (ok a, t) | err e ↦ fail_run run e t ]

  -- the part of `run` inside the `try`
  unfoldable pub attempt_run : Plugin → PluginRun → ℕ → Entity → Option ℕ → Action RunResult
  unfolding or_fail resolve_credentials execute_plugin
  attempt_run plugin run case_id input_entity created_by = or_fail run (do
    credentials ← resolve_credentials plugin created_by
    execute_plugin plugin run case_id input_entity created_by credentials)

  -- the audit row: a new one, or the dispatcher's, flipped to running where it is not
  pub audit_row : Plugin → ℕ → Entity → Option ℕ → Option PluginRun → Action PluginRun
  audit_row plugin case_id input_entity created_by none = do
    id ← draw w.uuid4
    now ← draw w.now
    let run : PluginRun = record {
      id = id;
      case_id = case_id;
      input_entity_id = some input_entity.id;
      plugin_name = plugin.name;
      plugin_version = plugin.version;
      started_at = now;
      finished_at = none;
      status = running;
      error_message = none;
      entities_created_count = 0;
      relationships_created_count = 0;
      evidence_count = 0;
      created_by = created_by;
    }
    modify (λ db. record db { runs = db.runs ++ run ∷ [] })
    commit
    pure run
  audit_row plugin case_id input_entity created_by (some run) = elim run.status [
    | running ↦ pure run
    | _ ↦ (do
      update_run_row run.id (λ r. record r { status = running })
      commit
      pure (record run { status = running }))
  ]

  -- `PluginRunner.run`
  unfoldable pub run :
      EditionProvider
      → List Plugin
      → String
      → ℕ
      → Entity
      → Option ℕ
      → Option PluginRun
      → Action RunResult
  unfolding check_run audit_row attempt_run
  run provider registry plugin_name case_id input_entity created_by existing_run = do
    plugin ← lift (check_run provider registry plugin_name input_entity)
    row ← audit_row plugin case_id input_entity created_by existing_run
    attempt_run plugin row case_id input_entity created_by
