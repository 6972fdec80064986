-- ===== src/VisibilitySync.antt =====
-- apps/backend/integrations/drive/user_visibility_sync.py: the run that renews one user's evidence. The
-- database is passed on; a transaction that raises leaves it as it was. `meanwhile` is what other
-- processes do to it while Drive is asked, `during_write` while SpiceDB is written. `marker` is the
-- value of `uuid.uuid4()`; `now`, `verified_at` and `failed_at` are the readings of the clock.
pub mod Run
pub mod Evidence
pub mod Failed
pub mod Closed
pub mod Queue
pub mod Granted
use knowledge_graph_mvp.Prelude.{
  Bool, List, Option, Result, String, [], and_then, contains, err, given, if◌then◌else◌, is_empty,
  keep, length, list_eq, ltb, map, nat_eq, none, not, ok, same_set, some, string_eq, subset, ℕ,
  ◌&&◌, ◌++◌, ◌==◌, ◌||◌, ◌∷◌,
}
use knowledge_graph_mvp.Models.{
  Env, Db, DriveConnection, SourceDocument, GoogleDriveAuthorization, UserDocumentVisibility,
  UserVisibilitySyncRun, effective_root_id, get_authorization, get_connection, get_visibility_run,
  is_active, is_visible, per_user_oauth, required_scopes, unknown, update_where,
}
use knowledge_graph_mvp.SpiceDb.{SpiceDb}
use knowledge_graph_mvp.OauthViewer.{
  OauthViewerReconciliation, reconcile_oauth_viewer_relationships,
}
use knowledge_graph_mvp.VisibilityClient.{
  DriveAnswer, IndexedVisibilityResult, IndexedVisibilityBatch, check_authorization,
}

abbrev pub result_reason_codes : List String
result_reason_codes =
    "" ∷ "drive_api_error" ∷ "inaccessible" ∷ "malformed_response" ∷ "transient_failure" ∷ "trashed"
    ∷ []

abbrev pub controlled_error_codes : List String
controlled_error_codes =
    "authorization_unavailable" ∷ "batch_scope_mismatch" ∷ "credential_refresh_failed"
    ∷ "credential_unavailable" ∷ "document_cap_exceeded" ∷ "oauth_client_unavailable"
    ∷ "permission_authority_mismatch" ∷ "relationship_scope_mismatch"
    ∷ "relationship_verification_mismatch" ∷ "spicedb_operation_failed"
    ∷ "visibility_result_invalid" ∷ []

-- An `OAuthViewerRelationshipError`, or another exception, with its text.
pub data SyncException : Type 0 where
  relationship_error other_error : String → SyncException

unfoldable pub error_code : SyncException → String
error_code (relationship_error code) =
    if contains controlled_error_codes code then code else "spicedb_operation_failed"
error_code (other_error code) =
    if contains controlled_error_codes code then code else "visibility_sync_failed"

-- Every evidence row of the authorization loses its verdict.
unfoldable pub invalidate_authorization_evidence : ℕ → ℕ → String → Db → Db
invalidate_authorization_evidence now authorization_id reason_code db = record db {
  visibilities =
      update_where (λ v. v.authorization == authorization_id)
        (λ v. record v {
          state = unknown;
          spicedb_revision = [];
          spicedb_verified_at = none;
          reason_code = reason_code;
          updated_at = now;
        })
        db.visibilities;
}

-- `update_or_create` under the key of the authorization and the document.
unfoldable pub update_or_create :
    UserDocumentVisibility → List UserDocumentVisibility → List UserDocumentVisibility
update_or_create row [] = row ∷ []
update_or_create row (v ∷ vs) =
    if v.authorization == row.authorization && v.source_document == row.source_document
    then row ∷ vs
    else v ∷ update_or_create row vs

unfoldable pub pending_row : ℕ → ℕ → UserVisibilitySyncRun → ℕ → UserDocumentVisibility
pending_row now marker run document_id = record {
  authorization = run.authorization;
  source_document = document_id;
  connection_generation = run.connection_generation;
  authorization_generation = run.authorization_generation;
  state = unknown;
  checked_at = now;
  visibility_sync_marker = marker;
  spicedb_revision = [];
  spicedb_verified_at = none;
  reason_code = "refresh_pending";
  updated_at = now;
}

-- The loop over the candidates.
unfoldable pub prepare_rows :
    ℕ
    → ℕ
    → UserVisibilitySyncRun
    → List ℕ
    → List UserDocumentVisibility
    → List UserDocumentVisibility
prepare_rows now marker run [] rows = rows
prepare_rows now marker run (id ∷ ids) rows =
    prepare_rows now marker run ids (update_or_create (pending_row now marker run id) rows)

unfoldable pub candidates_of : Db → ℕ → List ℕ
candidates_of db connection_id =
    map (λ d. d.pk) (keep (λ d. d.connection == connection_id && d.active_in_scope) db.documents)

-- `_preinvalidate`, for the run as it is stored: the invalidation is committed in any case.
unfoldable pub preinvalidate :
    Env → ℕ → ℕ → UserVisibilitySyncRun → Db → Result SyncException (List ℕ) × Db
preinvalidate env now marker current db =
    let invalid =
      invalidate_authorization_evidence now current.authorization "refresh_pending" db in
    let candidate_ids = candidates_of invalid current.connection in
    if ltb env.settings.google_user_visibility_max_documents (length candidate_ids)
    then (err (other_error "document_cap_exceeded"), invalid)
    else (
      ok candidate_ids,
      record invalid {
        visibilities = prepare_rows now marker current candidate_ids invalid.visibilities;
      },
    )

unfoldable pub scope_invalid :
    Env → UserVisibilitySyncRun → DriveConnection → GoogleDriveAuthorization → Bool
scope_invalid env run connection a =
    not (env.settings.google_permission_authority == per_user_oauth)
    || (not connection.enabled
        || (not (connection.permission_authority == per_user_oauth)
            || (is_empty (effective_root_id connection)
                || (not (connection.authorization_generation == run.connection_generation)
                    || (not (a.connection == connection.pk)
                        || (not (a.connection_generation == run.connection_generation)
                            || (not (a.authorization_generation == run.authorization_generation)
                                || (not (is_active a.status)
                                    || (not (subset required_scopes a.granted_scopes)
                                        || (is_empty a.encrypted_refresh_credential
                                            || is_empty a.encryption_key_version))))))))))

-- The run with its connection and authorization, as the database has them: `none` is `DoesNotExist`.
unfoldable pub load_run :
    Db → ℕ → Option (UserVisibilitySyncRun × DriveConnection × GoogleDriveAuthorization)
load_run db run_id = given (get_visibility_run db run_id) λ run.
    given (get_connection db run.connection) λ connection.
      given (get_authorization db run.authorization)
        λ authorization. some (run, connection, authorization)

-- The loaded run, where `_validate_scope` passes.
unfoldable pub validated_run :
    Env
    → Db
    → ℕ
    → Result SyncException (UserVisibilitySyncRun × DriveConnection × GoogleDriveAuthorization)
validated_run env db run_id = elim (load_run db run_id) [
  | none ↦ err (other_error "DoesNotExist")
  | some loaded ↦
      if scope_invalid env (loaded.0) (loaded.1) (loaded.2)
      then err (other_error "authorization_unavailable")
      else ok loaded
]

-- The loop over the results; every state is one of the choices.
unfoldable pub collect_results :
    List IndexedVisibilityResult
    → List IndexedVisibilityResult
    → Result SyncException (List IndexedVisibilityResult)
collect_results results [] = ok results
collect_results results (result ∷ rest) =
    let further = collect_results (results ++ result ∷ []) rest in
    if contains (map (λ r. r.source_document_id) results) result.source_document_id
      || not (contains result_reason_codes result.reason_code)
    then err (other_error "visibility_result_invalid")
    else further

unfoldable pub validated_results :
    IndexedVisibilityBatch
    → UserVisibilitySyncRun
    → List ℕ
    → Result SyncException (List IndexedVisibilityResult)
validated_results batch run candidate_ids =
    if not (batch.authorization_id == run.authorization)
      || (not (batch.connection_generation == run.connection_generation)
          || not (batch.authorization_generation == run.authorization_generation))
    then err (other_error "batch_scope_mismatch")
    else and_then (collect_results [] batch.results) λ results.
      if same_set (map (λ r. r.source_document_id) results) candidate_ids
      then ok results
      else err (other_error "batch_scope_mismatch")

unfoldable pub visible_ids_of : List IndexedVisibilityResult → List ℕ
visible_ids_of results = map (λ r. r.source_document_id) (keep (λ r. is_visible r.state) results)
