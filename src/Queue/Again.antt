-- ===== src/Queue/Again.antt =====
-- A task that is delivered twice.
use sleuthgraph_api.Base.{
  ℕ, ◌≡◌, refl, sym, ap, ◌∙◌, true, false, Option, none, some, List, [], ◌∷◌, inl, inr, ◌⊎◌, arith,
  Bool-cases, ◌==◌, All,
}
use mathlib.Core.Path.{subst}
use sleuthgraph_api.Errors.{Error, Result, ok, err}
use sleuthgraph_api.Model.{Session, World, Db, Entity, PluginRun, RunStatus, running, failed}
use sleuthgraph_api.Sql.{update_where}
use sleuthgraph_api.Licensing.{EditionProvider}
use sleuthgraph_api.Plugins.Base.{Plugin}
use sleuthgraph_api.Plugins.Runner.{RunResult, run, attempt_run}
use sleuthgraph_api.Plugins.Runner.Audit.{run_cases, bind_ok, updated_status}
use sleuthgraph_api.Plugins.Runner.Keeps.{HasEnded, attempt_run_Both}
use sleuthgraph_api.Queue.{
  TaskResult, run_not_found, run_skipped, is_queued, get_row, load_input, or_reason, execute_queued,
  start, run_plugin_task,
}

-- No row of the run is queued.
abbrev pub NotQueued : ℕ → Db → Type 0
NotQueued id db = All (λ r. (r.id == id) ≡ true → is_queued r.status ≡ false) db.runs

-- A delivery that did nothing: the run is not found, or it is not queued.
abbrev pub IsIdle : Result TaskResult → Type 0
IsIdle answer = (answer ≡ ok run_not_found) ⊎ (answer ≡ ok run_skipped)

status_not_queued :
    (id : ℕ) (status : RunStatus) (rows : List PluginRun)
    → is_queued status ≡ false
    → All (λ r. ((r.id == id) ≡ false) ⊎ (r.status ≡ status)) rows
    → All (λ r. (r.id == id) ≡ true → is_queued r.status ≡ false) rows
status_not_queued id status [] h k = tt
status_not_queued id status (r ∷ rows) h k = (
  λ e. elim k.0 [
    | inl other ↦ absurd (let c : true ≡ false = sym e ∙ other in (cc))
    | inr same ↦ rw same h
  ],
  status_not_queued id status rows h k.1,
)

-- The end of a run leaves no row of it queued.
ended_not_queued :
    (id : ℕ) (f : PluginRun → PluginRun) (rows : List PluginRun)
    → ((r : PluginRun) → HasEnded (f r))
    → All (λ r. (r.id == id) ≡ true → is_queued r.status ≡ false) rows
    → All
        (λ r. (r.id == id) ≡ true → is_queued r.status ≡ false)
        (update_where (λ r. r.id == id) f rows)
ended_not_queued id f [] h k = tt
ended_not_queued id f (r ∷ rows) h k = (
  elim (Bool-cases (r.id == id)) [
    | inl e ↦ rw e (λ same. elim (h r) [ inl s ↦ rw s refl | inr s ↦ rw s refl ])
    | inr e ↦ rw e (λ same. k.0 same)
  ],
  ended_not_queued id f rows h k.1,
)

-- What the first row with the id says of a delivery.
Settled : ℕ → Option PluginRun → Type 0
Settled id none = Unit
Settled id (some r) = is_queued r.status ≡ false

get_row-Settled :
    (id : ℕ) (rows : List PluginRun)
    → All (λ r. (r.id == id) ≡ true → is_queued r.status ≡ false) rows
    → Settled id (get_row (λ r. r.id == id) rows)
unfolding Settled
get_row-Settled id [] h = tt
get_row-Settled id (r ∷ rows) h = elim (Bool-cases (r.id == id)) [
  | inl e ↦ rw e (h.0 e)
  | inr e ↦ rw e (get_row-Settled id rows h.1)
]

no_row-NotQueued :
    (id : ℕ) (rows : List PluginRun)
    → get_row (λ r. r.id == id) rows ≡ none
    → All (λ r. (r.id == id) ≡ true → is_queued r.status ≡ false) rows
no_row-NotQueued id [] h = tt
no_row-NotQueued id (r ∷ rows) h = elim (Bool-cases (r.id == id)) [
  | inl e ↦ absurd (ground arith)
  | inr e ↦ (
    (λ k. absurd (let c : true ≡ false = sym k ∙ e in (cc))),
    no_row-NotQueued id rows (ground arith),
  )
]

module _ (w : World) (provider : EditionProvider) (registry : List Plugin) where
  start-IsIdle :
      (row : Option PluginRun) (id : ℕ) (s : Session)
      → Settled id row
      → (IsIdle (start w provider registry row s).0) × ((start w provider registry row s).1 ≡ s)
  unfolding Settled start
  start-IsIdle none id s h = (inl refl, refl)
  start-IsIdle (some r) id s h = rw h (inr refl, refl)

  outcome-NotQueued :
      (row : PluginRun) (s : Session) (m : Result RunResult × Session)
      → (input : Entity)
      → ((e : Error) × (m ≡ (err e, s)))
        ⊎ ((plugin : Plugin) × (m ≡ attempt_run w plugin row row.case_id input row.created_by s))
      → NotQueued row.id s.live × NotQueued row.id s.committed
      → NotQueued row.id m.1.committed
  outcome-NotQueued row s m input (inl (e, h)) k =
      subst (λ x. NotQueued row.id x.1.committed) (sym h) k.1
  outcome-NotQueued row s m input (inr (plugin, h)) k =
      subst (λ x. NotQueued row.id x.1.committed) (sym h)
        ((attempt_run_Both (All (λ r. (r.id == row.id) ≡ true → is_queued r.status ≡ false)) w row
          (ended_not_queued row.id) plugin row.case_id input row.created_by s k).1)

  or_reason-NotQueued :
      (id : ℕ) (m : Result RunResult × Session)
      → NotQueued id m.1.committed
      → NotQueued id (or_reason (λ s. m) m.1).1.committed
  unfolding or_reason
  or_reason-NotQueued id (ok result, t) h = h
  or_reason-NotQueued id (err e, t) h = h

  execute_queued-NotQueued :
      (row : PluginRun) (input : Option Entity) (s : Session)
      → NotQueued row.id (execute_queued w provider registry row input s).1.committed
  unfolding execute_queued
  execute_queued-NotQueued row none s =
      status_not_queued row.id failed _ refl
        (updated_status row.id failed _ s.live.runs (λ r. refl))
  execute_queued-NotQueued row (some input) s =
      let flipped : PluginRun = record row { status = running } in
      let live : Db = record s.live {
        runs = update_where (λ r. r.id == row.id) (λ r. record r { status = running }) s.live.runs;
      } in
      let u : Session = record s { live = live; committed = live } in
      or_reason-NotQueued row.id
        (run w provider registry row.plugin_name row.case_id input row.created_by (some flipped) u)
        (outcome-NotQueued flipped u _ input
          (run_cases w provider registry row.plugin_name row.case_id input row.created_by flipped u
            refl)
          (let flipped_rows =
              status_not_queued row.id running _ refl
                (updated_status row.id running _ s.live.runs (λ r. refl)) in
            (flipped_rows, flipped_rows)))

  found_id :
      (id : ℕ) (rows : List PluginRun) (row : PluginRun)
      → get_row (λ r. r.id == id) rows ≡ some row
      → row.id ≡ id
  found_id id [] row h = absurd (cc)
  found_id id (r ∷ rows) row h = elim (Bool-cases (r.id == id)) [
    | inl e ↦ (let k : r ≡ row = ground arith in ground arith)
    | inr e ↦ found_id id rows row (ground arith)
  ]

  load_input-ok : (o : Option ℕ) (s : Session) → (x : Option Entity) × (load_input o s ≡ (ok x, s))
  unfolding load_input
  load_input-ok none s = (none, refl)
  load_input-ok (some id) s = (get_row (λ e. e.id == id) s.live.entities, refl)

  start_queued-NotQueued :
      (row : PluginRun) (s : Session)
      (x : (x : Option Entity) × (load_input row.input_entity_id s ≡ (ok x, s)))
      → is_queued row.status ≡ true
      → NotQueued row.id (start w provider registry (some row) s).1.committed
  unfolding start
  start_queued-NotQueued row s (x, h) e = rw e (
      subst (λ m. NotQueued row.id m.1.committed)
        (sym (
          bind_ok (load_input row.input_entity_id) (execute_queued w provider registry row) x s s
            h))
        (execute_queued-NotQueued row x s))

  start-Settled :
      (id : ℕ) (row : Option PluginRun) (s : Session)
      → get_row (λ r. r.id == id) s.committed.runs ≡ row
      → Settled id (get_row (λ r. r.id == id) (start w provider registry row s).1.committed.runs)
  unfolding Settled start
  start-Settled id none s h = subst (Settled id) (sym h) tt
  start-Settled id (some row) s h = elim (Bool-cases (is_queued row.status)) [
    | inl e ↦ get_row-Settled id _ (
        subst (λ n. NotQueued n (start w provider registry (some row) s).1.committed)
          (found_id id s.committed.runs row h)
          (start_queued-NotQueued row s (load_input-ok row.input_entity_id s) e))
    | inr e ↦ rw e (subst (Settled id) (sym h) e)
  ]

  IsIdle-step :
      (id : ℕ) (s : Session)
      → s.live ≡ s.committed
      → Settled id (get_row (λ r. r.id == id) s.committed.runs)
      → IsIdle (run_plugin_task w provider registry id s).0
        × ((run_plugin_task w provider registry id s).1 ≡ s)
  unfolding run_plugin_task
  IsIdle-step id s h k =
      let idle =
        start-IsIdle (get_row (λ r. r.id == id) s.live.runs) id s
          (subst (λ db. Settled id (get_row (λ r. r.id == id) db.runs)) (sym h) k) in
      let close : Session → Session = λ t. record t { live = t.committed } in
      let reset : Db → Session = λ db. record s { live = db } in
      (idle.0, ap close idle.1 ∙ ap reset (sym h))

  -- A task delivered to a fresh session leaves a session in which the same task, delivered again,
  -- finds no run or one that is not queued, and changes nothing: whatever the plugin did, and also
  -- where the run was refused, failed or had lost its input.
  pub run_plugin_task_again :
      (id : ℕ) (s : Session)
      → s.live ≡ s.committed
      → (let t : Session = (run_plugin_task w provider registry id s).1 in
          IsIdle (run_plugin_task w provider registry id t).0
          × ((run_plugin_task w provider registry id t).1 ≡ t))
  unfolding run_plugin_task
  run_plugin_task_again id s h = IsIdle-step id (run_plugin_task w provider registry id s).1 refl (
      start-Settled id (get_row (λ r. r.id == id) s.live.runs) s
        (ap (λ db. get_row (λ r. r.id == id) db.runs) (sym h)))
