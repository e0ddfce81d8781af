-- ===== src/Plugins/Runner/Audit.antt =====
-- The audit row of a run that was started, and what the failure handler commits.
use sleuthgraph_api.Base.{
  ℕ, ◌+◌, ◌≡◌, refl, String, Bool, true, false, if◌then◌else◌, Option, some, List, [], ◌∷◌, inl,
  inr, ◌⊎◌, arith, Bool-cases, ◌==◌, All,
}
use sleuthgraph_api.Errors.{other_exception, Error, Result, ok, err, plugin_execution}
use sleuthgraph_api.Model.{
  Session, World, Db, Entity, Relationship, Evidence, PluginRun, RunStatus, running, succeeded,
  failed,
}
use sleuthgraph_api.Sql.{update_where}
use sleuthgraph_api.Action.{Action, pure, draw, try_commit, raise_if, lift, ◌>>=◌, ◌>>◌}
use sleuthgraph_api.Base.{length, ltb}
use sleuthgraph_api.Base.Text.{Text}
use sleuthgraph_api.Licensing.{EditionProvider}
use sleuthgraph_api.Plugins.Base.{Plugin}
use sleuthgraph_api.Plugins.Checks.{is_plugin_error, classify_error, check_run}
use sleuthgraph_api.Plugins.Proposals.{persist}
use sleuthgraph_api.Plugins.Runner.{
  max_proposals, RunResult, marked_failed, finished, execute_plugin, resolve_credentials, fail_run,
  or_fail, attempt_run, audit_row, run, update_run_row,
}

-- Every row of the run has the status.
abbrev pub HasStatus : ℕ → RunStatus → Db → Type 0
HasStatus id status db = All (λ r. ((r.id == id) ≡ false) ⊎ (r.status ≡ status)) db.runs

pub updated_status :
    (id : ℕ) (status : RunStatus) (f : PluginRun → PluginRun) (rows : List PluginRun)
    → ((r : PluginRun) → (f r).status ≡ status)
    → All
        (λ r. ((r.id == id) ≡ false) ⊎ (r.status ≡ status))
        (update_where (λ r. r.id == id) f rows)
updated_status id status f [] h = tt
updated_status id status f (r ∷ rows) h = (
  elim (Bool-cases (r.id == id)) [ inl e ↦ rw e (inr (h r)) | inr e ↦ rw e (inl e) ],
  updated_status id status f rows h,
)

-- The database refused a commit in which every row of the run has failed.
abbrev pub FailureRefused : World → ℕ → Type 0
FailureRefused w id = (n : ℕ) × (db : Db) × (w.commit_accepts n db ≡ false) × HasStatus id failed db

-- What a started run leaves behind: its row succeeded and the call returned, or the call raised one of
-- the runner's own exceptions, and its row failed or the database refused to commit that.
abbrev pub Audited : World → ℕ → Result RunResult × Session → Type 0
Audited w id (ok result, t) = HasStatus id succeeded t.committed × (result.run.status ≡ succeeded)
Audited w id (err e, t) =
    (HasStatus id failed t.committed ⊎ FailureRefused w id) × (is_plugin_error e ≡ true)

-- A call that returned has marked the row as succeeded.
abbrev pub Finished : ℕ → Result RunResult × Session → Type 0
Finished id (ok result, t) = HasStatus id succeeded t.committed × (result.run.status ≡ succeeded)
Finished id (err e, t) = Unit {0}

-- A property of every outcome of a chain holds where it holds of the failures of its first action
-- and of the outcomes of what follows.
bind_cases :
    {A : Type 0} (P : Result RunResult × Session → Type 0) (m : Result A × Session)
    (f : A → Action RunResult)
    → ((e : Error) (t : Session) → P (err e, t))
    → ((a : A) (t : Session) → P (f a t))
    → P (◌>>=◌ {0, 0} (λ s. m) f m.1)
bind_cases P (ok a, t) f hErr hOk = hOk a t
bind_cases P (err e, t) f hErr hOk = hErr e t

-- What is returned after a commit is returned where the commit is taken.
committed_end :
    (id : ℕ) (taken : Bool) (u : Session) (result : RunResult)
    → HasStatus id succeeded u.live
    → result.run.status ≡ succeeded
    → Finished id (
        ◌>>=◌ {0, 0} {A = Unit {0}}
          (λ s.
            if taken
            then (ok tt, record u { committed = u.live })
            else (err other_exception, record u { live = u.committed }))
          (λ x. pure result)
          u)
committed_end id true u result rows same = (rows, same)
committed_end id false u result rows same = tt

module _ (w : World) where
  fail_run-Audited :
      (row : PluginRun) (e : Error) (s : Session) → Audited w row.id (fail_run w row e s)
  unfolding fail_run
  fail_run-Audited row e s =
      let f : PluginRun → PluginRun = marked_failed w (classify_error e) (w.now s.ticks) in
      let live : Db = record s.live { runs = update_where (λ r. r.id == row.id) f s.live.runs } in
      let marked : HasStatus row.id failed live =
        updated_status row.id failed f s.live.runs (λ r. refl) in
      elim (Bool-cases (w.commit_accepts (s.ticks + 1) live)) [
        | inl taken ↦ rw taken (inl marked, ground arith)
        | inr refused ↦ (inr (s.ticks + 1, live, refused, marked), ground arith)
      ]

  -- The end of a run that succeeds, where its commit is taken.
  end-Finished :
      (row : PluginRun) (made : List Entity × List Relationship × List Evidence) (v : Session)
      → Finished row.id (
          (do
            now ← draw w.now
            update_run_row row.id (finished w made now)
            try_commit w.commit_accepts
            pure (record {
              run = finished w made now row;
              entities_created = made.0;
              relationships_created = made.1;
              evidence_created = made.2;
            }))
            v)
  end-Finished row made v =
      let f : PluginRun → PluginRun = finished w made (w.now v.ticks) in
      let live : Db = record v.live { runs = update_where (λ r. r.id == row.id) f v.live.runs } in
      committed_end row.id (w.commit_accepts (v.ticks + 1) live)
        (record v { ticks = v.ticks + 1; live = live })
        (record {
          run = f row;
          entities_created = made.0;
          relationships_created = made.1;
          evidence_created = made.2;
        })
        (updated_status row.id succeeded f v.live.runs (λ r. refl)) refl

  execute_plugin-Finished :
      (plugin : Plugin) (row : PluginRun) (case_id : ℕ) (input : Entity) (created_by : Option ℕ)
      (key : Option Text) (s : Session)
      → Finished row.id (execute_plugin w plugin row case_id input created_by key s)
  unfolding execute_plugin
  execute_plugin-Finished plugin row case_id input created_by key s =
      bind_cases (Finished row.id) (plugin.query input key, s) _ (λ e t. tt)
        (λ result t.
          bind_cases (Finished row.id)
            (raise_if
              (ltb max_proposals
                (length result.entities + length result.relationships + length result.evidence))
              plugin_execution t)
            _ (λ e u. tt)
            (λ done u.
              bind_cases (Finished row.id)
                (persist w case_id input created_by plugin.full_name result u)
                (λ made. do
                  now ← draw w.now
                  update_run_row row.id (finished w made now)
                  try_commit w.commit_accepts
                  pure (record {
                    run = finished w made now row;
                    entities_created = made.0;
                    relationships_created = made.1;
                    evidence_created = made.2;
                  }))
                (λ e v. tt) (λ made v. end-Finished row made v)))

  or_fail-Audited :
      (row : PluginRun) (m : Result RunResult × Session)
      → Finished row.id m
      → Audited w row.id (or_fail w row (λ s. m) m.1)
  unfolding or_fail
  or_fail-Audited row (ok result, t) done = done
  or_fail-Audited row (err e, t) done = fail_run-Audited row e t

  -- Once the audit row stands, an attempt ends in one of two ways: it returns, the row returned and
  -- every committed row with the run's id are succeeded; or it raises one of the runner's own
  -- exceptions, and every committed row with that id is failed, or the database refused a commit in
  -- which they are. No other exception comes out, whatever the plugin returned or raised, and
  -- whichever commits of the run the database refuses.
  pub attempt_run-Audited :
      (plugin : Plugin) (row : PluginRun) (case_id : ℕ) (input : Entity) (created_by : Option ℕ)
      (s : Session)
      → Audited w row.id (attempt_run w plugin row case_id input created_by s)
  unfolding attempt_run
  attempt_run-Audited plugin row case_id input created_by s =
      or_fail-Audited row
        (◌>>=◌ {0, 0} (resolve_credentials w plugin created_by)
          (execute_plugin w plugin row case_id input created_by) s)
        (bind_cases (Finished row.id) (resolve_credentials w plugin created_by s)
          (execute_plugin w plugin row case_id input created_by) (λ e t. tt)
          (λ key t. execute_plugin-Finished plugin row case_id input created_by key t))

pub bind_ok :
    {A B : Type 0} (m : Action A) (f : A → Action B) (a : A) (s t : Session)
    → m s ≡ (ok a, t)
    → ◌>>=◌ {0, 0} m f s ≡ f a t
bind_ok m f a s t h = ground arith

module _ (w : World) where
  audit_row-running :
      (plugin : Plugin) (case_id : ℕ) (input : Entity) (created_by : Option ℕ) (row : PluginRun)
      (s : Session)
      → row.status ≡ running
      → audit_row w plugin case_id input created_by (some row) s ≡ (ok row, s)
  unfolding audit_row
  audit_row-running plugin case_id input created_by row s h = ground arith

  run_checked :
      (checked : Result Plugin) (case_id : ℕ) (input : Entity) (created_by : Option ℕ)
      (row : PluginRun) (s : Session)
      → row.status ≡ running
      → (let m : Result RunResult × Session =
            ◌>>=◌ {0, 0}
              (lift checked)
              (λ plugin.
                ◌>>=◌ {0, 0}
                  (audit_row w plugin case_id input created_by (some row))
                  (λ r. attempt_run w plugin r case_id input created_by))
              s in
          ((e : Error) × (m ≡ (err e, s)))
          ⊎ ((plugin : Plugin) × (m ≡ attempt_run w plugin row case_id input created_by s)))
  run_checked (err e) case_id input created_by row s h = inl (e, refl)
  run_checked (ok plugin) case_id input created_by row s h = inr (
    plugin,
    bind_ok (audit_row w plugin case_id input created_by (some row))
        (λ r. attempt_run w plugin r case_id input created_by) row s s
        (audit_row-running plugin case_id input created_by row s h),
  )

  -- A run whose row is there and running either raises before it starts, and changes nothing, or is attempted.
  pub run_cases :
      (provider : EditionProvider) (registry : List Plugin) (name : String) (case_id : ℕ)
      (input : Entity) (created_by : Option ℕ)
      → (row : PluginRun) (s : Session) → row.status ≡ running
      → (let m : Result RunResult × Session =
            run w provider registry name case_id input created_by (some row) s in
          ((e : Error) × (m ≡ (err e, s)))
          ⊎ ((plugin : Plugin) × (m ≡ attempt_run w plugin row case_id input created_by s)))
  unfolding run
  run_cases provider registry name case_id input created_by row s h =
      run_checked (check_run provider registry name input) case_id input created_by row s h
