-- ===== src/Tasks/Sweeps.antt =====
-- The sweeps of apps/backend/integrations/tasks.py: runs and extractions that a dead worker has left
-- running fail. `cutoff` is the clock less the timeout; the loop over the stale visibility runs is
-- taken without other processes between its rounds.
pub mod Stale
pub mod Exact
pub mod Swept
use knowledge_graph_mvp.Prelude.{
  Bool, List, Option, [], any, false, if◌then◌else◌, keep, length, list_eq, ltb, nat_eq, none, some,
  string_eq, suc, true, ℕ, ◌&&◌, ◌==◌, ◌∷◌,
}
use knowledge_graph_mvp.Models.{
  Db, AclDb, SourceDocument, PermissionSyncRun, UserVisibilitySyncRun, GraphExtractionStatus,
  is_running, failed, update_where, running,
}
use knowledge_graph_mvp.VisibilitySync.{invalidate_authorization_evidence, error_code}

-- `started_at < cutoff` on a nullable time.
abbrev pub is_before : ℕ → Option ℕ → Bool
is_before cutoff none = false
is_before cutoff (some t) = ltb t cutoff

unfoldable pub is_stale_permission_run : ℕ → PermissionSyncRun → Bool
is_stale_permission_run cutoff r = is_running r.status && is_before cutoff r.started_at

unfoldable pub expire_permission_run : ℕ → PermissionSyncRun → PermissionSyncRun
expire_permission_run now r = record r {
  status = failed;
  error_code = "stale_run_timeout";
  finished_at = some now;
}

unfoldable pub sweep_stale_permission_sync_runs : ℕ → ℕ → AclDb → ℕ × AclDb
sweep_stale_permission_sync_runs cutoff now db = (
  length (keep (is_stale_permission_run cutoff) db.permission_runs),
  record db {
    permission_runs =
        update_where (is_stale_permission_run cutoff) (expire_permission_run now)
          db.permission_runs;
  },
)

unfoldable pub is_stale_visibility_run : ℕ → UserVisibilitySyncRun → Bool
is_stale_visibility_run cutoff r = is_running r.status && is_before cutoff r.started_at

unfoldable pub expire_visibility_run : ℕ → UserVisibilitySyncRun → UserVisibilitySyncRun
expire_visibility_run now r = record r {
  status = failed;
  error_code = "stale_run_timeout";
  finished_at = some now;
}

-- The row of a stale run, as long as it is stale.
unfoldable pub is_claimed : ℕ → UserVisibilitySyncRun → UserVisibilitySyncRun → Bool
is_claimed cutoff run r = r.pk == run.pk && is_stale_visibility_run cutoff r

unfoldable pub claim : ℕ → ℕ → UserVisibilitySyncRun → Db → Db
claim cutoff now run db = record db {
  visibility_runs =
      update_where (is_claimed cutoff run) (expire_visibility_run now) db.visibility_runs;
}

-- The authorization of a claimed run loses its evidence.
unfoldable pub expire_run : ℕ → ℕ → UserVisibilitySyncRun → ℕ × Db → ℕ × Db
expire_run cutoff now run (swept, db) =
    if any (is_claimed cutoff run) db.visibility_runs
    then (
      suc swept,
      invalidate_authorization_evidence now run.authorization "stale_run_timeout"
          (claim cutoff now run db),
    )
    else (swept, claim cutoff now run db)

unfoldable pub expire_runs : ℕ → ℕ → List UserVisibilitySyncRun → ℕ × Db → ℕ × Db
expire_runs cutoff now [] state = state
expire_runs cutoff now (run ∷ rest) state =
    expire_runs cutoff now rest (expire_run cutoff now run state)

unfoldable pub sweep_stale_user_visibility_sync_runs : ℕ → ℕ → Db → ℕ × Db
sweep_stale_user_visibility_sync_runs cutoff now db =
    expire_runs cutoff now (keep (is_stale_visibility_run cutoff) db.visibility_runs) (0, db)

abbrev pub is_running_extraction : GraphExtractionStatus → Bool
is_running_extraction GraphExtractionStatus.running = true
is_running_extraction _ = false

unfoldable pub is_stale_extraction : ℕ → SourceDocument → Bool
is_stale_extraction cutoff d =
    is_running_extraction d.graph_extraction_status
    && is_before cutoff d.graph_extraction_started_at

unfoldable pub expire_extraction : ℕ → SourceDocument → SourceDocument
expire_extraction now d = record d {
  graph_extraction_status = GraphExtractionStatus.failed;
  graph_extraction_error_summary = "stale_running_timeout";
  graph_extraction_attempts = suc d.graph_extraction_attempts;
  graph_extraction_finished_at = some now;
  updated_at = now;
}

unfoldable pub sweep_stale_graph_extractions : ℕ → ℕ → Db → ℕ × Db
sweep_stale_graph_extractions cutoff now db = (
  length (keep (is_stale_extraction cutoff) db.documents),
  record db {
    documents = update_where (is_stale_extraction cutoff) (expire_extraction now) db.documents;
  },
)
