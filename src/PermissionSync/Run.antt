-- ===== src/PermissionSync/Run.antt =====
-- `_commit_verified_documents` and `synchronize_permissions` of apps/backend/authorization/sync.py.
-- Drive and the directory of the groups are parameters over a state `D`; `meanwhile` is what other
-- processes do to the database while SpiceDB is written.
use knowledge_graph_mvp.Prelude.{
  Bool, Exec, List, Option, Result, String, Text, [], any, call, err, if◌then◌else◌, is_empty, keep,
  length, lift, list_eq, minus, nat_eq, none, not, ok, pure, raise_if, same_set, some, string_eq,
  true, ℕ, ◌&&◌, ◌+◌, ◌==◌, ◌>>=◌, ◌>>◌, ◌∷◌,
}
use knowledge_graph_mvp.Models.{
  get_connection, DriveConnection, delegated_acl, SourceDocument, AclDb, PermissionSyncRun,
  update_where, failed, partial, succeeded, Env,
}
use knowledge_graph_mvp.SpiceDb.{PermissionTuple, SpiceDb, tuple_eq}
use knowledge_graph_mvp.Identifiers.{connection_prefix}
use knowledge_graph_mvp.OauthViewer.{touches_of}
use knowledge_graph_mvp.GoogleGroups.{GroupMembership}
use knowledge_graph_mvp.PermissionSync.{SyncException, permission_sync_error, other_error}
use knowledge_graph_mvp.PermissionSync.State.{SyncResult, desired_state}
use knowledge_graph_mvp.PermissionSync.Scan.{
  DrivePermissionResource, exclude, persist_complete_scan,
}

-- Codes and names of types have at most 64 characters, so that nothing is cut off.
unfoldable pub error_code : SyncException → String
error_code (permission_sync_error code) = code
error_code (other_error name) = name

module _ (connection_id : ℕ) (revision : Text) (now : ℕ) where
  -- The document is still the one whose access list was turned into relationships.
  unfoldable pub is_current_version : ℕ × Text → SourceDocument → Bool
  is_current_version (document_id, version) d =
      d.pk == document_id
      && (d.connection == connection_id
          && (d.active_in_scope && d.source_permissions_version == version))

  unfoldable pub verify : Text → SourceDocument → SourceDocument
  verify version d = record d {
    retrieval_eligible = true;
    exclusion_reason = "";
    spicedb_permissions_version = version;
    spicedb_revision = revision;
    spicedb_verified_at = some now;
    updated_at = now;
  }

  -- The loop over the eligible documents, with the count of the updated rows.
  unfoldable pub enable_documents :
      List (ℕ × Text) → ℕ × List SourceDocument → ℕ × List SourceDocument
  enable_documents [] state = state
  enable_documents (e ∷ es) (verified, rows) = enable_documents es (
    verified + length (keep (is_current_version e) rows),
    update_where (is_current_version e) (verify (e.1)) rows,
  )

  unfoldable pub exclude_documents : List (ℕ × String) → List SourceDocument → List SourceDocument
  exclude_documents [] rows = rows
  exclude_documents (e ∷ es) rows =
      exclude_documents es
        (update_where (λ d. d.pk == e.0 && d.connection == connection_id) (exclude now (e.1)) rows)

  unfoldable pub commit_verified_documents : SyncResult → AclDb → ℕ × AclDb
  commit_verified_documents result db =
      let (verified, rows) =
        enable_documents result.eligible_document_versions (0, db.tables.documents) in
      (
        verified,
        record db {
          tables = record db.tables {
            documents = exclude_documents result.excluded_document_reasons rows;
          };
        },
      )

-- `run.save(update_fields=...)`: the status, the counts, the code and the time of the end.
unfoldable pub save_run : PermissionSyncRun → AclDb → AclDb
save_run run db = record db {
  permission_runs =
      update_where (λ r. r.pk == run.pk)
        (λ r. record r {
          status = run.status;
          documents_seen = run.documents_seen;
          folders_seen = run.folders_seen;
          groups_resolved = run.groups_resolved;
          relationships_touched = run.relationships_touched;
          relationships_deleted = run.relationships_deleted;
          documents_verified = run.documents_verified;
          documents_excluded = run.documents_excluded;
          error_code = run.error_code;
          finished_at = run.finished_at;
        })
        db.permission_runs;
}

unfoldable pub failed_run : ℕ → String → PermissionSyncRun → PermissionSyncRun
failed_run now code run = record run { status = failed; error_code = code; finished_at = some now }

-- The save of a refused run writes these columns only.
unfoldable pub save_refused : ℕ → PermissionSyncRun → AclDb → AclDb
save_refused now run db = record db {
  permission_runs =
      update_where (λ r. r.pk == run.pk) (failed_run now "permission_authority_mismatch")
        db.permission_runs;
}

unfoldable pub count_type : String → List DrivePermissionResource → ℕ
count_type kind resources = length (keep (λ r. r.resource_type == kind) resources)

-- What a run has written to SpiceDB and to the documents.
pub record Reconciled : Type 0 where
  pub revision : Text
  pub touched : ℕ
  pub deleted : ℕ

unfoldable pub finished_run :
    ℕ
    → List DrivePermissionResource
    → SyncResult
    → Reconciled
    → ℕ
    → PermissionSyncRun
    → PermissionSyncRun
finished_run now resources result reconciled verified run = record run {
  documents_seen = count_type "document" resources;
  folders_seen = count_type "folder" resources;
  groups_resolved = result.groups_resolved;
  relationships_touched = reconciled.touched;
  relationships_deleted = reconciled.deleted;
  documents_verified = verified;
  documents_excluded = length result.excluded_document_reasons;
  status = if is_empty result.excluded_document_reasons then succeeded else partial;
  error_code = "";
  finished_at = some now;
}

module _ (s : SpiceDb) where
  -- SpiceDB is made to hold the desired relationships under the prefix, and is read back. Whatever the
  -- client raises stands as an `RpcError`.
  unfoldable pub reconcile : Text → List PermissionTuple → Exec s.World SyncException Reconciled
  reconcile prefix desired = do
    lift (
        raise_if (any (λ item. item.relation == "oauth_viewer") desired)
          (permission_sync_error "oauth_viewer_in_delegated_state"))
    current ← call (other_error "RpcError") (s.read_managed_tuples prefix [])
    let touches = touches_of desired current
    let deletes = minus current desired
    revision ← call (other_error "RpcError") (s.write_updates touches deletes)
    verified ← call (other_error "RpcError") (s.read_managed_tuples prefix revision)
    lift (
        raise_if (not (same_set verified desired))
          (permission_sync_error "relationship_verification_mismatch"))
    pure (record { revision = revision; touched = length touches; deleted = length deletes })

-- What a run ends with: its row or the code of its error, the database, and the services.
abbrev pub Ended : Type 0 → Type 0 → Type 0
Ended D W = Result String PermissionSyncRun × AclDb × D × W

module _ {D W : Type 0} (finished_at : ℕ) where
  -- The handler of every exception.
  unfoldable pub fail_run : PermissionSyncRun → SyncException → AclDb → D → W → Ended D W
  fail_run run e db d w =
      (err (error_code e), save_run (failed_run finished_at (error_code e) run) db, d, w)

module _ {D : Type 0} (s : SpiceDb) (verified_at finished_at : ℕ) (meanwhile : AclDb → AclDb)
    (run : PermissionSyncRun) where
  -- Behind the desired state: SpiceDB, the documents, and the end of the run.
  unfoldable pub finish_run :
      List DrivePermissionResource
      → SyncResult
      → AclDb
      → D
      → Result SyncException Reconciled × s.World
      → Ended D s.World
  finish_run resources result db d (err e, w) = fail_run finished_at run e (meanwhile db) d w
  finish_run resources result db d (ok written, w) =
      let (verified, committed) =
        commit_verified_documents run.connection written.revision verified_at result
          (meanwhile db) in
      let finished = finished_run finished_at resources result written verified run in
      (ok finished, save_run finished committed, d, w)

  unfoldable pub sync_desired :
      List DrivePermissionResource
      → AclDb
      → s.World
      → Result SyncException SyncResult × D
      → Ended D s.World
  sync_desired resources db w (err e, d) = fail_run finished_at run e db d w
  sync_desired resources db w (ok result, d) =
      finish_run resources result db d
        (reconcile s (connection_prefix run.connection) result.desired w)

  module _ (resolve : ℕ → List Text → D → Option (List (Text × GroupMembership)) × D) (env : Env)
      (marker now : ℕ) where
    unfoldable pub sync_listed :
        AclDb → s.World → Result String (List DrivePermissionResource) × D → Ended D s.World
    sync_listed db w (err name, d) = fail_run finished_at run (other_error name) db d w
    sync_listed db w (ok resources, d) =
        let scanned = persist_complete_scan env run.connection marker now resources db in
        sync_desired resources scanned w (desired_state resolve env run.connection scanned d)

    module _
        (list_resources : DriveConnection
          → D
          → Result String (List DrivePermissionResource) × D) where
      unfoldable pub sync_connection :
          Option DriveConnection → AclDb → D → s.World → Ended D s.World
      sync_connection none db d w = (err "DoesNotExist", db, d, w)
      sync_connection (some connection) db d w =
          let started = sync_listed db w (list_resources connection d) in
          if not (connection.permission_authority == delegated_acl)
          then (err "permission_authority_mismatch", save_refused finished_at run db, d, w)
          else started

      unfoldable pub synchronize_permissions : AclDb → D → s.World → Ended D s.World
      synchronize_permissions db d w =
          sync_connection (get_connection db.tables run.connection) db d w
