-- ===== src/Queue/Workers.antt =====
-- queue/tasks.py: tasks for one run in several workers, each with a session of its own. A worker reads
-- the run's row, and later does the rest of its task.
use sleuthgraph_api.Base.{
  ℕ, ◌≡◌, refl, ap, ◌∙◌, Bool, true, false, Option, none, some, List, ◌==◌, ==_refl, if◌then◌else◌,
  arith,
}
use sleuthgraph_api.Errors.{Result, ok, err}
use sleuthgraph_api.Model.{Session, World, Entity, PluginRun}
use sleuthgraph_api.Action.{Action, ◌>>=◌}
use sleuthgraph_api.Licensing.{EditionProvider}
use sleuthgraph_api.Plugins.Base.{Plugin}
use sleuthgraph_api.Plugins.Runner.{RunResult}
use sleuthgraph_api.Queue.{
  TaskResult, run_not_found, run_skipped, get_row, is_queued, closing, load_input, run_plugin_task,
  or_reason, execute_queued, start,
}

-- Where a worker is in its task.
pub data Progress : Type 0 where
  waiting : Progress
  has_read : Option PluginRun → Progress
  finished : Result TaskResult → Progress

-- What the workers share, and where each of them is.
pub record Workers : Type 0 where
  pub shared : Session
  pub progress : ℕ → Progress

abbrev pub set_progress : ℕ → Progress → (ℕ → Progress) → ℕ → Progress
set_progress i p old j = if j == i then p else old j

-- The progress that was set, and that of another worker.
same_progress : (i : ℕ) (p : Progress) (old : ℕ → Progress) → set_progress i p old i ≡ p
same_progress i p old = rw (==_refl i) refl

other_progress :
    (i j : ℕ) (p : Progress) (old : ℕ → Progress)
    → (j == i) ≡ false
    → set_progress i p old j ≡ old j
other_progress i j p old h = rw h refl

swapped : (i j : ℕ) → (j == i) ≡ false → (i == j) ≡ false
swapped i j h = ground arith

module _ (w : World) (provider : EditionProvider) (registry : List Plugin) (run_id : ℕ) where
  -- what is left of the task after the read
  abbrev pub rest_of_task : Option PluginRun → Action TaskResult
  rest_of_task row = closing (start w provider registry row)

  -- A step of one of the workers.
  pub data Step : Workers → Workers → Type 0 where
    reads :
        (i : ℕ) (s t : Workers)
        → s.progress i ≡ waiting
        → t ≡ record s {
          progress =
              set_progress i
                (has_read (get_row (λ r. r.id == run_id) s.shared.live.runs))
                s.progress;
        }
        → Step s t
    works :
        (i : ℕ) (row : Option PluginRun) (s t : Workers)
        → s.progress i ≡ has_read row
        → t ≡ record {
          shared = (rest_of_task row s.shared).1;
          progress = set_progress i (finished (rest_of_task row s.shared).0) s.progress;
        }
        → Step s t

  pub data Reach : Workers → Workers → Type 0 where
    stays : (s : Workers) → Reach s s
    steps : (s t u : Workers) → Step s t → Reach t u → Reach s u

-- The task went on to execute the run: it did not report that the run is unknown or not queued.
abbrev pub executed : Result TaskResult → Bool
executed (ok run_not_found) = false
executed (ok run_skipped) = false
executed r = true

outcome-executed :
    (x : Result RunResult × Session) (s : Session) → executed (or_reason (λ u. x) s).0 ≡ true
unfolding or_reason
outcome-executed (ok result, t) s = refl
outcome-executed (err e, t) s = refl

or_reason-executed : (m : Action RunResult) (s : Session) → executed (or_reason m s).0 ≡ true
unfolding or_reason
or_reason-executed m s = outcome-executed (m s) s

module _ (w : World) (provider : EditionProvider) (registry : List Plugin) where
  execute_queued-executed :
      (row : PluginRun) (input : Option Entity) (s : Session)
      → executed (execute_queued w provider registry row input s).0 ≡ true
  unfolding execute_queued
  execute_queued-executed row none s = refl
  execute_queued-executed row (some input) s = search or_reason-executed

  load_input-executed :
      (row : PluginRun) (id : Option ℕ) (s : Session)
      → executed ((load_input id >>= λ e. execute_queued w provider registry row e) s).0 ≡ true
  unfolding load_input
  load_input-executed row none s = execute_queued-executed row none s
  load_input-executed row (some id) s = execute_queued-executed row _ s

  -- A task whose row was queued when it was read executes the run, whatever has happened since.
  rest_of_task-executed :
      (run_id : ℕ) (row : PluginRun) (s : Session)
      → is_queued row.status ≡ true
      → executed (rest_of_task w provider registry run_id (some row) s).0 ≡ true
  unfolding start
  rest_of_task-executed run_id row s h = rw h (load_input-executed row row.input_entity_id s)

  -- The worker has executed the run.
  abbrev pub HasExecuted : Workers → ℕ → Type 0
  HasExecuted s i = (r : Result TaskResult) × (s.progress i ≡ finished r) × (executed r ≡ true)

  -- Two workers that wait for their tasks can both execute one run that is queued: there is an
  -- interleaving of their reads and of the rest of their tasks after which neither has found the run
  -- unknown or not queued.
  pub both_execute :
      (i j : ℕ) (s : Workers) (row : PluginRun)
      → (j == i) ≡ false
      → s.progress i ≡ waiting
      → s.progress j ≡ waiting
      → get_row (λ r. r.id == row.id) s.shared.live.runs ≡ some row
      → is_queued row.status ≡ true
      → (t : Workers) × Reach w provider registry row.id s t × HasExecuted t i × HasExecuted t j
  both_execute i j s row other hi hj found queued =
      let taken : Option PluginRun = get_row (λ r. r.id == row.id) s.shared.live.runs in
      let a : Workers = record s { progress = set_progress i (has_read taken) s.progress } in
      let b : Workers = record a { progress = set_progress j (has_read taken) a.progress } in
      let first : Result TaskResult × Session =
        rest_of_task w provider registry row.id (some row) s.shared in
      let c : Workers = record {
        shared = first.1;
        progress = set_progress i (finished first.0) b.progress;
      } in
      let second : Result TaskResult × Session =
        rest_of_task w provider registry row.id (some row) first.1 in
      let d : Workers = record {
        shared = second.1;
        progress = set_progress j (finished second.0) c.progress;
      } in
      let back = swapped i j other in
      let read_first =
        other_progress j i (has_read taken) a.progress back
        ∙ same_progress i (has_read taken) s.progress
        ∙ ap has_read found in
      let read_second =
        other_progress i j (finished first.0) b.progress other
        ∙ same_progress j (has_read taken) a.progress
        ∙ ap has_read found in
      let done_first =
        other_progress j i (finished second.0) c.progress back
        ∙ same_progress i (finished first.0) b.progress in
      (
        d,
        steps s a d (reads i s a hi refl) (
            steps a b d
              (reads j a b (other_progress i j (has_read taken) s.progress other ∙ hj) refl)
              (steps b c d (works i (some row) b c read_first refl)
                (steps c d d (works j (some row) c d read_second refl) (stays d)))),
        (first.0, done_first, rest_of_task-executed row.id row s.shared queued),
        (
          second.0,
          same_progress j (finished second.0) c.progress,
          rest_of_task-executed row.id row first.1 queued,
        ),
      )

-- The whole task is the read and, at once, the rest.
pub run_plugin_task-rest_of_task :
    (w : World) (provider : EditionProvider) (registry : List Plugin) (run_id : ℕ) (s : Session)
    → run_plugin_task w provider registry run_id s
      ≡ rest_of_task w provider registry run_id (get_row (λ r. r.id == run_id) s.live.runs) s
unfolding run_plugin_task
run_plugin_task-rest_of_task w provider registry run_id s = refl
