-- ===== src/PermissionSync/Scan.antt =====
-- `_persist_complete_scan` of apps/backend/authorization/sync.py: the resources that Drive listed are
-- stored with their access lists, and what the scan has not seen becomes inactive. The value of
-- `uuid4()` is the argument `marker`; the clock is read once.
use knowledge_graph_mvp.Prelude.{
  Bool, List, Option, String, Text, [], false, first, if◌then◌else◌, keep, list_eq, nat_eq, none,
  not, some, string_eq, true, ℕ, ◌&&◌, ◌==◌, ◌∷◌,
}
use knowledge_graph_mvp.DriveAcl.{
  Permission, has_public_link, has_domain_visibility, source_permissions_version,
}
use knowledge_graph_mvp.Models.{
  Env, SourceDocument, DriveFolder, DriveFolderPermissionSnapshot, DrivePermissionSnapshot, AclDb,
  update_where, upsert,
}

-- `DrivePermissionResource` of integrations/drive/client.py.
pub record DrivePermissionResource : Type 0 where
  pub resource_type : String
  pub drive_id : Text
  pub parent_folder_ids : List Text
  pub permissions : List Permission
  pub permissions_fetch_failed : Bool

-- Evidence that is taken back, with the reason.
unfoldable pub exclude : ℕ → String → SourceDocument → SourceDocument
exclude now reason d = record d {
  retrieval_eligible = false;
  exclusion_reason = reason;
  spicedb_permissions_version = [];
  spicedb_revision = [];
  spicedb_verified_at = none;
  updated_at = now;
}

module _ (env : Env) (connection_id marker now : ℕ) where
  unfoldable pub is_folder_row : Text → DriveFolder → Bool
  is_folder_row drive_id f = f.connection == connection_id && f.drive_folder_id == drive_id

  unfoldable pub seen_folder : DrivePermissionResource → DriveFolder → DriveFolder
  seen_folder r f = record f {
    parent_folder_ids = r.parent_folder_ids;
    source_permissions_version = source_permissions_version env.sha256 r.permissions;
    active_in_scope = true;
    last_seen_sync_marker = marker;
    updated_at = now;
  }

  unfoldable pub new_folder : DrivePermissionResource → DriveFolder
  new_folder r = record {
    connection = connection_id;
    drive_folder_id = r.drive_id;
    parent_folder_ids = r.parent_folder_ids;
    source_permissions_version = source_permissions_version env.sha256 r.permissions;
    active_in_scope = true;
    last_seen_sync_marker = marker;
    updated_at = now;
  }

  unfoldable pub folder_snapshot : DrivePermissionResource → DriveFolderPermissionSnapshot
  folder_snapshot r = record {
    connection = connection_id;
    drive_folder_id = r.drive_id;
    raw_permissions = r.permissions;
    permissions_complete = not r.permissions_fetch_failed;
    captured_at = now;
  }

  unfoldable pub persist_folder : DrivePermissionResource → AclDb → AclDb
  persist_folder r db = record db {
    folders = upsert (is_folder_row r.drive_id) (seen_folder r) (new_folder r) db.folders;
    folder_snapshots =
        upsert (λ s. s.connection == connection_id && s.drive_folder_id == r.drive_id)
          (λ s. folder_snapshot r) (folder_snapshot r) db.folder_snapshots;
  }

  unfoldable pub is_document_row : Text → SourceDocument → Bool
  is_document_row drive_id d = d.connection == connection_id && d.drive_file_id == drive_id

  unfoldable pub seen_document : DrivePermissionResource → SourceDocument → SourceDocument
  seen_document r d = record d {
    parent_folder_ids = r.parent_folder_ids;
    source_permissions_version = source_permissions_version env.sha256 r.permissions;
    last_permission_sync_time = some now;
    active_in_scope = true;
    last_seen_sync_marker = marker;
    updated_at = now;
  }

  unfoldable pub document_snapshot : DrivePermissionResource → ℕ → DrivePermissionSnapshot
  document_snapshot r pk = record {
    source_document = pk;
    raw_permissions = r.permissions;
    permissions_complete = not r.permissions_fetch_failed;
    has_public_link = has_public_link r.permissions;
    has_domain_visibility = has_domain_visibility r.permissions;
    captured_at = now;
  }

  unfoldable pub set_reason : String → SourceDocument → SourceDocument
  set_reason reason d = record d { exclusion_reason = reason }

  -- The stored document, where there is one, is marked if its access list could not be read.
  unfoldable pub mark_incomplete :
      DrivePermissionResource → Option SourceDocument → List SourceDocument → List SourceDocument
  mark_incomplete r none rows = rows
  mark_incomplete r (some document) rows =
      if r.permissions_fetch_failed
      then update_where (λ d. d.pk == document.pk) (set_reason "permission_metadata_incomplete")
          rows
      else rows

  -- The rows of documents behind one resource.
  unfoldable pub persisted_documents :
      DrivePermissionResource → List SourceDocument → List SourceDocument
  persisted_documents r rows =
      let updated = update_where (is_document_row r.drive_id) (seen_document r) rows in
      mark_incomplete r (first (keep (is_document_row r.drive_id) updated)) updated

  unfoldable pub persisted_snapshots :
      DrivePermissionResource
      → List SourceDocument
      → List DrivePermissionSnapshot
      → List DrivePermissionSnapshot
  persisted_snapshots r documents rows =
      elim (first (keep (is_document_row r.drive_id) documents)) [
        | none ↦ rows
        | some document ↦
            upsert (λ s. s.source_document == document.pk) (λ s. document_snapshot r document.pk)
              (document_snapshot r document.pk) rows
      ]

  unfoldable pub persist_document : DrivePermissionResource → AclDb → AclDb
  persist_document r db = record db {
    tables = record db.tables { documents = persisted_documents r db.tables.documents };
    document_snapshots = persisted_snapshots r db.tables.documents db.document_snapshots;
  }

  unfoldable pub persist_resources : List DrivePermissionResource → AclDb → AclDb
  persist_resources [] db = db
  persist_resources (r ∷ rs) db =
      persist_resources rs
        (if r.resource_type == "folder" then persist_folder r db else persist_document r db)

  unfoldable pub is_unseen_folder : DriveFolder → Bool
  is_unseen_folder f =
      f.connection == connection_id
      && (f.active_in_scope && not (f.last_seen_sync_marker == marker))

  unfoldable pub is_unseen_document : SourceDocument → Bool
  is_unseen_document d =
      d.connection == connection_id
      && (d.active_in_scope && not (d.last_seen_sync_marker == marker))

  unfoldable pub leave_scope : SourceDocument → SourceDocument
  leave_scope d = record (exclude now "inactive_in_scope" d) { active_in_scope = false }

  unfoldable pub sweep : AclDb → AclDb
  sweep db = record db {
    folders =
        update_where is_unseen_folder (λ f. record f { active_in_scope = false; updated_at = now })
          db.folders;
    tables = record db.tables {
      documents = update_where is_unseen_document leave_scope db.tables.documents;
    };
  }

  unfoldable pub persist_complete_scan : List DrivePermissionResource → AclDb → AclDb
  persist_complete_scan resources db = sweep (persist_resources resources db)
