-- ===== src/Queue/Tests.antt =====
-- A queued run whose plugin is not registered, delivered twice; and a sweep.
use sleuthgraph_api.Base.{ℕ, ◌+◌, ◌-◌, ◌*◌, ◌≡◌, refl, false, [], All, length}
use sleuthgraph_api.Errors.{ok}
use sleuthgraph_api.Model.{Session}
use sleuthgraph_api.Sql.{select}
use sleuthgraph_api.Licensing.{community}
use sleuthgraph_api.Plugins.Sweeper.{
  Swept, sweep_stuck_runs, sweep_stuck_runs_lem, is_stale, is_pending, minute,
}
use sleuthgraph_api.Queue.{run_plugin_task}
use sleuthgraph_api.Queue.Again.{IsIdle, run_plugin_task_again}
use sleuthgraph_api.Queue.Workers.{Workers, Reach, HasExecuted, waiting, both_execute}
use sleuthgraph_api.Fixtures.{world, session, waiting as queued_run}

run_plugin_task_again_example :
    let t : Session = (run_plugin_task world community [] 50 session).1 in
    IsIdle (run_plugin_task world community [] 50 t).0
    × ((run_plugin_task world community [] 50 t).1 ≡ t)
run_plugin_task_again_example = run_plugin_task_again world community [] 50 session refl

sweep_stuck_runs_lem_example :
    (count : ℕ) × ((sweep_stuck_runs world 10 session).0 ≡ ok count)
    × Swept
        (world.now session.ticks - 10 * minute)
        session.live.runs
        (sweep_stuck_runs world 10 session).1.committed.runs
    × All
        (λ r. is_stale (world.now session.ticks - 10 * minute) r ≡ false)
        (sweep_stuck_runs world 10 session).1.committed.runs
    × (length (select is_pending session.live.runs)
        ≡ count + length (select is_pending (sweep_stuck_runs world 10 session).1.committed.runs))
sweep_stuck_runs_lem_example = sweep_stuck_runs_lem world 10 session

-- Two workers that wait for the queued run.
abbrev idle_workers : Workers
idle_workers = record { shared = session; progress = λ i. waiting }

both_execute_example :
    (t : Workers) × Reach world community [] 50 idle_workers t
    × HasExecuted world community [] t 1
    × HasExecuted world community [] t 2
both_execute_example =
    both_execute world community [] 1 2 idle_workers queued_run refl refl refl refl refl
