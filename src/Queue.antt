-- ===== src/Queue.antt =====
-- queue/tasks.py: the worker's task, which executes a run that the dispatcher has queued.
pub mod Again
pub mod Workers
mod Tests
use sleuthgraph_api.Base.{
  ℕ, Bool, true, false, Option, none, some, List, [], ◌∷◌, ◌==◌, if◌then◌else◌,
}
use sleuthgraph_api.Errors.{Error, Result, ok, err}
use sleuthgraph_api.Model.{
  Session, World, Db, Entity, PluginRun, RunStatus, queued, running, succeeded, failed,
}
use sleuthgraph_api.Action.{Action, pure, gets, commit, ◌>>=◌, ◌>>◌}
use sleuthgraph_api.Licensing.{EditionProvider}
use sleuthgraph_api.Plugins.Base.{Plugin}
use sleuthgraph_api.Plugins.Runner.{RunResult, run, update_run_row}

-- The dict that the task returns. A failure carries the exception whose name is its reason.
pub data TaskResult : Type 0 where
  run_not_found : TaskResult
  run_skipped : TaskResult
  missing_input : TaskResult
  task_failed : Error → TaskResult
  task_succeeded : (entities relationships evidence : ℕ) → TaskResult

abbrev pub is_queued : RunStatus → Bool
is_queued queued = true
is_queued s = false

-- `session.get(Model, id)`: the row with the primary key
abbrev pub get_row {ℓ} : {A : Type ℓ} → (A → Bool) → List A → Option A
get_row p [] = none
get_row p (x ∷ xs) = let rest = get_row p xs in if p x then some x else rest

-- `async with session_factory() as session`: what is not committed is lost when the session closes
abbrev pub closing {ℓ} : {A : Type ℓ} → Action A → Action A
closing m s = let (r, t) = m s in (r, record t { live = t.committed })

pub load_input : Option ℕ → Action (Option Entity)
load_input none = pure none
load_input (some entity_id) = gets λ s. get_row (λ e. e.id == entity_id) s.live.entities

-- `except Exception as exc` around the runner
pub or_reason : Action RunResult → Action TaskResult
or_reason m s =
    let (r, t) = m s in
    elim r [
      | ok result ↦ (
        ok (
            task_succeeded result.run.entities_created_count result.run.relationships_created_count
              result.run.evidence_count),
        t,
      )
      | err e ↦ (ok (task_failed e), t)
    ]

module _ (w : World) where
  pub execute_queued : EditionProvider → List Plugin → PluginRun → Option Entity → Action TaskResult
  unfolding or_reason
  execute_queued provider registry row none = do
    update_run_row row.id
        (λ r. record r { status = failed; error_message = some "missing_input_entity" })
    commit
    pure missing_input
  execute_queued provider registry row (some input_entity) = do
    update_run_row row.id (λ r. record r { status = running })
    commit
    or_reason (
        run w provider registry row.plugin_name row.case_id input_entity row.created_by
          (some (record row { status = running })))

  pub start : EditionProvider → List Plugin → Option PluginRun → Action TaskResult
  unfolding load_input execute_queued
  start provider registry none = pure run_not_found
  start provider registry (some row) =
      if is_queued row.status
      then (do
        input_entity ← load_input row.input_entity_id
        execute_queued provider registry row input_entity)
      else pure run_skipped

  -- `run_plugin_task`
  unfoldable pub run_plugin_task : EditionProvider → List Plugin → ℕ → Action TaskResult
  unfolding start
  run_plugin_task provider registry run_id =
      closing
        (do row ← gets λ s. get_row (λ r. r.id == run_id) s.live.runs; start provider registry row)
