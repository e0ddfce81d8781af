-- ===== src/Plugins/Dispatch/Outcomes.antt =====
-- The outcomes of a dispatch: what is committed when the handler answers.
use sleuthgraph_api.Base.{
  ℕ, ◌+◌, ◌≡◌, refl, Bool, true, false, some, [], ◌∷◌, ◌++◌, inl, inr, ◌⊎◌, Bool-cases,
}
use sleuthgraph_api.Errors.{Result, ok, err, http_exception}
use sleuthgraph_api.Model.{Session, World, Entity, PluginRun, failed}
use sleuthgraph_api.Plugins.Base.{Plugin}
use sleuthgraph_api.Plugins.Runner.Audit.{HasStatus, updated_status}
use sleuthgraph_api.Plugins.Dispatch.{RunReply, queued_row, enqueue_or_fail, dispatch_async}

module _ (w : World) (enqueue_accepts : ℕ → Bool) where
  -- A dispatch either answers 202 with a row that is committed as queued and that Redis has taken, or
  -- raises 503, and then every committed row with the new run's id is failed: none is left queued
  -- without a job.
  pub dispatch_async_lem :
      (plugin : Plugin) (user case_id : ℕ) (input : Entity) (s : Session)
      → let row : PluginRun =
          queued_row plugin user case_id input (w.uuid4 s.ticks) (w.now (s.ticks + 1)) in
        let answer : Result RunReply × Session =
          dispatch_async w enqueue_accepts plugin user case_id input s in
        ((enqueue_accepts row.id ≡ true)
          × (answer.0
              ≡ ok (record {
                status_code = 202;
                run = row;
                entities = [];
                relationships = [];
                evidence = [];
              }))
          × (answer.1.committed.runs ≡ s.live.runs ++ row ∷ []))
        ⊎ ((enqueue_accepts row.id ≡ false)
            × (answer.0 ≡ err (http_exception 503))
            × HasStatus row.id failed answer.1.committed)
  unfolding dispatch_async enqueue_or_fail
  dispatch_async_lem plugin user case_id input s =
      elim (Bool-cases (enqueue_accepts (w.uuid4 s.ticks))) [
        | inl e ↦ inl (e, rw e refl, rw e refl)
        | inr e ↦ inr (
          e,
          rw e refl,
          rw e (
              updated_status (w.uuid4 s.ticks) failed
                (λ r. record r { status = failed; error_message = some "enqueue_failed" }) _
                (λ r. refl)),
        )
      ]
