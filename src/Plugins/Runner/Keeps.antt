-- ===== src/Plugins/Runner/Keeps.antt =====
-- What a run leaves of a property of the rows of plugin runs, which only the runner itself writes.
use sleuthgraph_api.Base.{ℕ, ◌+◌, ◌≡◌, refl, String, Option, List, inl, inr, ◌⊎◌, ltb, ◌==◌, length}
use sleuthgraph_api.Base.Text.{Text}
use sleuthgraph_api.Errors.{Error, Result, ok, err, plugin_execution}
use sleuthgraph_api.Model.{
  Session, World, Entity, Relationship, Evidence, PluginRun, succeeded, failed,
}
use sleuthgraph_api.Sql.{update_where}
use sleuthgraph_api.Action.{raise_if, try_commit, ◌>>=◌}
use sleuthgraph_api.Plugins.Base.{Plugin}
use sleuthgraph_api.Plugins.Checks.{classify_error}
use sleuthgraph_api.Plugins.Runner.{
  RunResult, update_run_row, resolve_credentials, execute_plugin, fail_run, or_fail, attempt_run,
  finished, marked_failed, max_proposals,
}
use sleuthgraph_api.Plugins.Runner.Keeping.{
  Both, Keeps, Keeps-bind, Keeps-pure, Keeps-lift, Keeps-draw, Keeps-raise_if, try_commit_Both,
  Keeps-try_commit,
}
use sleuthgraph_api.Plugins.Runner.Writes.{persist-Keeps, resolve_credentials-Keeps}

-- A run's row that has ended.
abbrev pub HasEnded : PluginRun → Type 0
HasEnded r = (r.status ≡ succeeded) ⊎ (r.status ≡ failed)

-- Where the ends of a run leave the property, an attempted run does.
module _ (P : List PluginRun → Type 0) (w : World) (row : PluginRun)
    (ended : (f : PluginRun → PluginRun) (rows : List PluginRun)
      → ((r : PluginRun) → HasEnded (f r))
      → P rows
      → P (update_where (λ r. r.id == row.id) f rows)) where
  update_Keeps :
      (f : PluginRun → PluginRun)
      → ((r : PluginRun) → HasEnded (f r))
      → Keeps P (update_run_row row.id f)
  update_Keeps f h = record { kept = λ s b. (ended f s.live.runs h b.0, b.1) }

  finished-Keeps :
      (made : List Entity × List Relationship × List Evidence) (now : ℕ)
      → Keeps P (update_run_row row.id (finished w made now))
  finished-Keeps made now = update_Keeps (finished w made now) λ r. inl refl

  marked_Keeps :
      (message : String) (now : ℕ) → Keeps P (update_run_row row.id (marked_failed w message now))
  marked_Keeps message now = update_Keeps (marked_failed w message now) λ r. inr refl

  execute_Keeps :
      (plugin : Plugin) (case_id : ℕ) (input : Entity) (created_by : Option ℕ) (key : Option Text)
      → Keeps P (execute_plugin w plugin row case_id input created_by key)
  unfolding execute_plugin
  execute_Keeps plugin case_id input created_by key =
      Keeps-bind P _ _ (Keeps-lift P (plugin.query input key)) λ result.
        Keeps-bind P
          (raise_if
            (ltb max_proposals
              (length result.entities + length result.relationships + length result.evidence))
            plugin_execution)
          _ (search (Keeps-raise_if P))
          λ u.
            Keeps-bind P _ _ (persist-Keeps P w case_id created_by input plugin.full_name result)
              λ made. Keeps-bind P _ _ (Keeps-draw P w.now) λ now.
                Keeps-bind P (update_run_row row.id (finished w made now)) _
                  (finished-Keeps made now)
                  λ v.
                    Keeps-bind P (try_commit w.commit_accepts) _
                      (Keeps-try_commit P w.commit_accepts)
                      λ x. Keeps-pure P (record {
                        run = finished w made now row;
                        entities_created = made.0;
                        relationships_created = made.1;
                        evidence_created = made.2;
                      })

  fail_run_Both : (e : Error) (s : Session) → Both P s → Both P (fail_run w row e s).1
  unfolding fail_run
  fail_run_Both e s b =
      try_commit_Both P w.commit_accepts _ (
        (marked_Keeps (classify_error e) (w.now s.ticks)).kept (record s { ticks = s.ticks + 1 }) b)

  or_fail_Both :
      (m : Result RunResult × Session) → Both P m.1 → Both P (or_fail w row (λ s. m) m.1).1
  unfolding or_fail
  or_fail_Both (ok result, t) b = b
  or_fail_Both (err e, t) b = fail_run_Both e t b

  pub attempt_run_Both :
      (plugin : Plugin) (case_id : ℕ) (input : Entity) (created_by : Option ℕ) (s : Session)
      → Both P s
      → Both P (attempt_run w plugin row case_id input created_by s).1
  unfolding attempt_run
  attempt_run_Both plugin case_id input created_by s b =
      or_fail_Both
        (◌>>=◌ {0, 0} (resolve_credentials w plugin created_by)
          (execute_plugin w plugin row case_id input created_by) s)
        ((Keeps-bind P _ _ (resolve_credentials-Keeps P w plugin created_by)
            (execute_Keeps plugin case_id input created_by)).kept
          s b)
