-- ===== src/VisibilitySync/Run.antt =====
-- The commit of the results, and the whole run of
-- apps/backend/integrations/drive/user_visibility_sync.py.
use knowledge_graph_mvp.Prelude.{
  Bool, List, Option, Result, String, Text, [], and_then, err, given, if◌then◌else◌, keep, length,
  list_eq, nat_eq, none, not, ok, same_set, some, string_eq, ℕ, ◌&&◌, ◌==◌, ◌∷◌,
}
use knowledge_graph_mvp.Models.{
  Env, Db, DriveConnection, GoogleDriveAuthorization, UserDocumentVisibility, UserVisibilitySyncRun,
  failed, get_authorization, get_connection, get_visibility_run, is_denied, is_open, is_unknown,
  is_visible, partial, succeeded, update_where,
}
use knowledge_graph_mvp.SpiceDb.{SpiceDb}
use knowledge_graph_mvp.OauthViewer.{
  OauthViewerReconciliation, reconcile_oauth_viewer_relationships, indexed_ids,
}
use knowledge_graph_mvp.VisibilityClient.{
  DriveAnswer, IndexedVisibilityResult, IndexedVisibilityBatch, check_authorization,
}
use knowledge_graph_mvp.VisibilitySync.{
  SyncException, error_code, other_error, preinvalidate, relationship_error, scope_invalid,
  validated_results, validated_run, visible_ids_of,
}

unfoldable pub committed_row :
    ℕ
    → Text
    → UserVisibilitySyncRun
    → IndexedVisibilityResult
    → UserDocumentVisibility
    → UserDocumentVisibility
committed_row verified_at revision run result v = record v {
  connection_generation = run.connection_generation;
  authorization_generation = run.authorization_generation;
  state = result.state;
  checked_at = verified_at;
  spicedb_revision = if is_visible result.state then revision else [];
  spicedb_verified_at = if is_visible result.state then some verified_at else none;
  reason_code = result.reason_code;
  updated_at = verified_at;
}

-- The row of this run for a document.
unfoldable pub is_row : ℕ → ℕ → ℕ → UserDocumentVisibility → Bool
is_row authorization_id document_id marker v =
    v.authorization == authorization_id
    && (v.source_document == document_id && v.visibility_sync_marker == marker)

-- The loop over the results; each must update one row.
unfoldable pub commit_rows :
    ℕ
    → Text
    → ℕ
    → UserVisibilitySyncRun
    → ℕ
    → List IndexedVisibilityResult
    → List UserDocumentVisibility
    → Result SyncException (List UserDocumentVisibility)
commit_rows verified_at revision marker run authorization_id [] rows = ok rows
commit_rows verified_at revision marker run authorization_id (result ∷ rest) rows =
    let matches = is_row authorization_id result.source_document_id marker in
    let further =
      commit_rows verified_at revision marker run authorization_id rest
        (update_where matches (committed_row verified_at revision run result) rows) in
    if not (length (keep matches rows) == 1)
    then err (other_error "batch_scope_mismatch")
    else further

unfoldable pub finished_run :
    ℕ
    → OauthViewerReconciliation
    → List ℕ
    → List IndexedVisibilityResult
    → UserVisibilitySyncRun
    → UserVisibilitySyncRun
finished_run verified_at reconciliation candidate_ids results run =
    let unknown_count = length (keep (λ r. is_unknown r.state) results) in
    record run {
      documents_considered = length candidate_ids;
      documents_verified_visible = length (keep (λ r. is_visible r.state) results);
      documents_denied = length (keep (λ r. is_denied r.state) results);
      documents_unknown = unknown_count;
      relationships_touched = reconciliation.relationships_touched;
      relationships_deleted = reconciliation.relationships_deleted;
      status = if unknown_count == 0 then succeeded else partial;
      error_code = "";
      finished_at = some verified_at;
    }

-- The two saves at the end of the transaction.
unfoldable pub save_run : ℕ → UserVisibilitySyncRun → ℕ → List UserDocumentVisibility → Db → Db
save_run verified_at run authorization_id rows db = record db {
  visibilities = rows;
  visibility_runs = update_where (λ r. r.pk == run.pk) (λ r. run) db.visibility_runs;
  authorizations =
      if run.documents_unknown == 0
      then update_where (λ a. a.pk == authorization_id)
          (λ a. record a { last_successful_visibility_sync_at = some verified_at })
          db.authorizations
      else db.authorizations;
}

unfoldable pub commit_verified_results :
    Env
    → ℕ
    → ℕ
    → UserVisibilitySyncRun
    → List ℕ
    → List IndexedVisibilityResult
    → OauthViewerReconciliation
    → Db
    → Result SyncException (UserVisibilitySyncRun × Db)
commit_verified_results env verified_at marker run candidate_ids results reconciliation db =
    let found : Option (UserVisibilitySyncRun × DriveConnection × GoogleDriveAuthorization) =
      given (get_connection db run.connection) λ connection.
        given (get_authorization db run.authorization) λ authorization.
          given (get_visibility_run db run.pk)
            λ current. some (current, connection, authorization) in
    elim found [
      | none ↦ err (other_error "DoesNotExist")
      | some loaded ↦
          if scope_invalid env (loaded.0) (loaded.1) (loaded.2)
          then err (other_error "authorization_unavailable")
          else if not (same_set (indexed_ids db (loaded.1).pk candidate_ids) candidate_ids)
          then err (other_error "batch_scope_mismatch")
          else and_then
              (commit_rows verified_at reconciliation.revision marker (loaded.0) (loaded.2).pk
                results db.visibilities)
              λ rows.
                let finished =
                  finished_run verified_at reconciliation candidate_ids results (loaded.0) in
                ok (finished, save_run verified_at finished (loaded.2).pk rows db)
    ]

unfoldable pub mark_failed : ℕ → ℕ → String → Db → Db
mark_failed now run_id code db = record db {
  visibility_runs =
      update_where (λ r. r.pk == run_id && is_open r.status)
        (λ r. record r { status = failed; error_code = code; finished_at = some now })
        db.visibility_runs;
}

module _ {D : Type 0} (get : Text → D → DriveAnswer × D) (sleep : ℕ → D → D) (s : SpiceDb)
    (env : Env) (now marker verified_at failed_at : ℕ) (meanwhile during_write : Db → Db) where
  -- What a run ends with: its row or the code of its error, the database, and the services.
  abbrev pub Ended : Type 0
  Ended = Result String UserVisibilitySyncRun × Db × D × s.World

  -- The handler of every exception.
  unfoldable pub fail_run : ℕ → SyncException → Db → D → s.World → Ended
  fail_run run_id e db d w =
      (err (error_code e), mark_failed failed_at run_id (error_code e) db, d, w)

  unfoldable pub sync_checked :
      ℕ
      → UserVisibilitySyncRun × DriveConnection × GoogleDriveAuthorization
      → List ℕ
      → IndexedVisibilityBatch
      → Db
      → D
      → s.World
      → Ended
  sync_checked run_id (run, connection, authorization) candidate_ids batch db d w =
      elim (validated_results batch run candidate_ids) [
        | err e ↦ fail_run run_id e db d w
        | ok results ↦
            let (reconciled, w') =
              reconcile_oauth_viewer_relationships s env db connection
                authorization.normalized_email (visible_ids_of results) w in
            elim reconciled [
              | err e ↦ fail_run run_id (relationship_error e) (during_write db) d w'
              | ok reconciliation ↦
                  elim (commit_verified_results env verified_at marker run candidate_ids results
                    reconciliation (during_write db)) [
                      | err e ↦ fail_run run_id e (during_write db) d w'
                      | ok saved ↦ (ok (saved.0), saved.1, d, w')
                    ]
            ]
      ]

  -- The run behind the invalidation.
  unfoldable pub sync_prepared : ℕ → List ℕ → Db → D → s.World → Ended
  sync_prepared run_id candidate_ids db d w = elim (validated_run env db run_id) [
    | err e ↦ fail_run run_id e db d w
    | ok loaded ↦
        let (checked, d') = check_authorization get sleep env db (loaded.0).authorization d in
        elim checked [
          | err e ↦ fail_run run_id (other_error e) (meanwhile db) d' w
          | ok batch ↦ sync_checked run_id loaded candidate_ids batch (meanwhile db) d' w
        ]
  ]

  unfoldable pub synchronize_user_visibility : ℕ → Db → D → s.World → Ended
  synchronize_user_visibility run_id db d w = elim (get_visibility_run db run_id) [
    | none ↦ fail_run run_id (other_error "DoesNotExist") db d w
    | some current ↦
        let (prepared, db') = preinvalidate env now marker current db in
        elim prepared [
          | err e ↦ fail_run run_id e db' d w
          | ok candidate_ids ↦ sync_prepared run_id candidate_ids db' d w
        ]
  ]
