-- ===== src/Models/Acl.antt =====
-- The tables of the delegated permission sync: folders, the captured access lists and the runs. A
-- folder is known by its connection and Drive id, a pair that is unique; primary keys play no part.
use knowledge_graph_mvp.Prelude.{
  Bool, List, Option, String, Text, [], any, if◌then◌else◌, ℕ, ◌++◌, ◌∷◌,
}
use knowledge_graph_mvp.DriveAcl.{Permission}
use knowledge_graph_mvp.Models.Authorization.{RunStatus}
use knowledge_graph_mvp.Models.Store.{Db, update_where}

pub record DriveFolder : Type 0 where
  pub connection : ℕ
  pub drive_folder_id : Text
  pub parent_folder_ids : List Text
  pub source_permissions_version : Text
  pub active_in_scope : Bool
  pub last_seen_sync_marker : ℕ
  pub updated_at : ℕ

pub record DriveFolderPermissionSnapshot : Type 0 where
  pub connection : ℕ
  pub drive_folder_id : Text
  pub raw_permissions : List Permission
  pub permissions_complete : Bool
  pub captured_at : ℕ

pub record DrivePermissionSnapshot : Type 0 where
  pub source_document : ℕ
  pub raw_permissions : List Permission
  pub permissions_complete : Bool
  pub has_public_link : Bool
  pub has_domain_visibility : Bool
  pub captured_at : ℕ

pub record PermissionSyncRun : Type 0 where
  pub pk : ℕ
  pub connection : ℕ
  pub status : RunStatus
  pub documents_seen : ℕ
  pub folders_seen : ℕ
  pub groups_resolved : ℕ
  pub relationships_touched : ℕ
  pub relationships_deleted : ℕ
  pub documents_verified : ℕ
  pub documents_excluded : ℕ
  pub error_code : String
  pub started_at : Option ℕ
  pub finished_at : Option ℕ

-- The tables of `Db` with those above.
pub record AclDb : Type 0 where
  pub tables : Db
  pub folders : List DriveFolder
  pub folder_snapshots : List DriveFolderPermissionSnapshot
  pub document_snapshots : List DrivePermissionSnapshot
  pub permission_runs : List PermissionSyncRun

-- `objects.update_or_create` of the row that a test selects.
unfoldable pub upsert : {A : Type 0} → (A → Bool) → (A → A) → A → List A → List A
unfolding any update_where
upsert test change created rows =
    if any test rows then update_where test change rows else rows ++ created ∷ []
