-- ===== src/Plugins/Sweeper.antt =====
-- plugins/sweeper.py: runs that are pending for too long are marked as failed.
use sleuthgraph_api.Base.{
  ℕ, ◌+◌, ◌-◌, ◌*◌, ◌≡◌, refl, Bool, true, false, ◌&&◌, some, List, [], ◌∷◌, inl, inr, arith,
  Bool-cases, ◌⊎◌, ltb, length, All, keep,
}
use sleuthgraph_api.Errors.{ok}
use sleuthgraph_api.Model.{Session, World, PluginRun, queued, running, failed}
use sleuthgraph_api.Sql.{select, update_where}
use sleuthgraph_api.Action.{Action, pure, gets, draw, modify, commit, ◌>>=◌, ◌>>◌}

-- times count microseconds
abbrev pub minute : ℕ
minute = 60000000

-- `PluginRun.status.in_(["running", "queued"])`
abbrev pub is_pending : PluginRun → Bool
is_pending run = elim run.status [ running ↦ true | queued ↦ true | _ ↦ false ]

-- the WHERE of the statement
abbrev pub is_stale : ℕ → PluginRun → Bool
is_stale cutoff run = is_pending run && ltb run.started_at cutoff

-- the VALUES of the statement
abbrev pub marked_stale : ℕ → PluginRun → PluginRun
marked_stale now run = record run {
  status = failed;
  finished_at = some now;
  error_message = some "Timed out — marked stale by sweeper";
}

-- `sweep_stuck_runs`
unfoldable pub sweep_stuck_runs : World → ℕ → Action ℕ
sweep_stuck_runs w threshold_minutes = do
  now ← draw w.now
  finished_at ← draw w.now
  let cutoff : ℕ = now - threshold_minutes * minute
  stale ← gets λ s. select (is_stale cutoff) s.live.runs
  modify
      λ db. record db { runs = update_where (is_stale cutoff) (marked_stale finished_at) db.runs }
  commit
  pure (length stale)

no_stale :
    (cutoff now : ℕ) (rows : List PluginRun)
    → All (λ r. is_stale cutoff r ≡ false) (update_where (is_stale cutoff) (marked_stale now) rows)
no_stale cutoff now [] = tt
no_stale cutoff now (r ∷ rows) = elim (Bool-cases (is_stale cutoff r)) [
  | inl e ↦ rw e (refl, no_stale cutoff now rows)
  | inr e ↦ rw e (e, no_stale cutoff now rows)
]

pending_count :
    (cutoff now : ℕ) (rows : List PluginRun)
    → length (keep is_pending rows)
      ≡ length (keep (is_stale cutoff) rows)
        + length (keep is_pending (update_where (is_stale cutoff) (marked_stale now) rows))
pending_count cutoff now [] = refl
pending_count cutoff now (r ∷ rows) = ground (arith, pending_count cutoff now rows)

-- Row by row, a stale row has failed, and any other row is as it was.
abbrev pub Swept : ℕ → List PluginRun → List PluginRun → Type 0
Swept cutoff [] [] = Unit
Swept cutoff [] (q ∷ after) = ⊥
Swept cutoff (r ∷ rows) [] = ⊥
Swept cutoff (r ∷ rows) (q ∷ after) =
    (((is_stale cutoff r ≡ true) × (q.id ≡ r.id) × (q.status ≡ failed))
      ⊎ ((is_stale cutoff r ≡ false) × (q ≡ r)))
    × Swept cutoff rows after

update_where-Swept :
    (cutoff now : ℕ) (rows : List PluginRun)
    → Swept cutoff rows (update_where (is_stale cutoff) (marked_stale now) rows)
update_where-Swept cutoff now [] = tt
update_where-Swept cutoff now (r ∷ rows) = (
  elim (Bool-cases (is_stale cutoff r)) [
    | inl e ↦ inl (e, rw e refl, rw e refl)
    | inr e ↦ inr (e, rw e refl)
  ],
  update_where-Swept cutoff now rows,
)

-- A sweep returns; row by row, it commits a stale row (one pending that was started before the cutoff)
-- as failed and any other row as it was; no stale row is left; and the number it returns is by how
-- many fewer rows are pending after it.
pub sweep_stuck_runs_lem :
    (w : World) (threshold_minutes : ℕ) (s : Session)
    → (count : ℕ) × ((sweep_stuck_runs w threshold_minutes s).0 ≡ ok count)
      × Swept
          (w.now s.ticks - threshold_minutes * minute)
          s.live.runs
          (sweep_stuck_runs w threshold_minutes s).1.committed.runs
      × All
          (λ r. is_stale (w.now s.ticks - threshold_minutes * minute) r ≡ false)
          (sweep_stuck_runs w threshold_minutes s).1.committed.runs
      × (length (select is_pending s.live.runs)
          ≡ count
            + length (select is_pending (sweep_stuck_runs w threshold_minutes s).1.committed.runs))
unfolding sweep_stuck_runs
sweep_stuck_runs_lem w threshold_minutes s =
    let cutoff : ℕ = w.now s.ticks - threshold_minutes * minute in
    (
      length (select (is_stale cutoff) s.live.runs),
      refl,
      update_where-Swept cutoff (w.now (s.ticks + 1)) s.live.runs,
      no_stale cutoff (w.now (s.ticks + 1)) s.live.runs,
      pending_count cutoff (w.now (s.ticks + 1)) s.live.runs,
    )
