-- ===== src/PermissionSync/State.antt =====
-- The relationships that the captured access lists of a connection ask for: `_acl_tuples` and
-- `_desired_state` of apps/backend/authorization/sync.py. An entry that `_acl_tuples` reads has passed
-- `_resource_acl_reason`, so that its keys `type` and `role` are there.
use knowledge_graph_mvp.Prelude.{
  List, Option, Result, String, Text, [], add, contains, err, if◌then◌else◌, is_empty, keep, length,
  list_eq, map, nat_eq, none, not, ok, some, string_eq, to_set, union, ℕ, ◌&&◌, ◌++◌, ◌==◌, ◌||◌,
  ◌∷◌,
}
use knowledge_graph_mvp.DriveAcl.{Permission, is_set, is_label}
use knowledge_graph_mvp.GoogleGroups.{GroupMembership}
use knowledge_graph_mvp.Models.{Env, SourceDocument, DriveFolder, AclDb}
use knowledge_graph_mvp.SpiceDb.{PermissionTuple, tuple_eq}
use knowledge_graph_mvp.Identifiers.{
  document_object_id, folder_object_id, user_object_id, group_object_id,
}
use knowledge_graph_mvp.PermissionSync.{
  SyncException, permission_sync_error, CapturedAcl, folder_acl, document_acl, principal_email,
  referenced_groups, resource_acl_reason, document_reason, safely_inherited, role_relation,
}
use knowledge_graph_mvp.PermissionSync.Hierarchy.{folder_ids, validate_acyclic, include_descendants}

pub record SyncResult : Type 0 where
  pub desired : List PermissionTuple
  pub eligible_document_versions : List (ℕ × Text)
  pub excluded_document_reasons : List (ℕ × String)
  pub groups_resolved : ℕ

module _ (env : Env) (connection_id : ℕ) where
  unfoldable pub acl_tuple : String → Text → Permission → PermissionTuple
  acl_tuple resource_type resource_id p =
      let is_user = is_label p.type "user" in
      let email = principal_email p in
      record {
        resource_type = resource_type;
        resource_id = resource_id;
        relation = role_relation p.role;
        subject_type = if is_user then "kgm/user" else "kgm/group";
        subject_id =
            if is_user
            then user_object_id env.sha256 connection_id email
            else group_object_id env.sha256 connection_id email;
        subject_relation = if is_user then "" else "member";
      }

  unfoldable pub acl_tuples :
      String → Text → List Permission → List Text → List Text → List PermissionTuple
  acl_tuples resource_type resource_id permissions parent_ids ids = to_set (
      map (acl_tuple resource_type resource_id)
        (keep (λ p. not (is_set p.deleted || safely_inherited p parent_ids ids)) permissions))

  unfoldable pub member_tuple : Text → String → Text → String → PermissionTuple
  member_tuple resource_id subject_type subject_id subject_relation = record {
    resource_type = "kgm/group";
    resource_id = resource_id;
    relation = "member";
    subject_type = subject_type;
    subject_id = subject_id;
    subject_relation = subject_relation;
  }

  unfoldable pub group_tuples : Text × GroupMembership → List PermissionTuple
  group_tuples (group_email, membership) =
      let resource_id = group_object_id env.sha256 connection_id group_email in
      map
        (λ email.
          member_tuple resource_id "kgm/user" (user_object_id env.sha256 connection_id email) "")
        membership.users
      ++ map
          (λ child.
            member_tuple resource_id "kgm/group" (group_object_id env.sha256 connection_id child)
              "member")
          membership.child_groups

  unfoldable pub membership_tuples : List (Text × GroupMembership) → List PermissionTuple
  membership_tuples [] = []
  membership_tuples (m ∷ ms) = union (group_tuples m) (membership_tuples ms)

  unfoldable pub parent_tuple : String → Text → Text → PermissionTuple
  parent_tuple resource_type resource_id parent_id = record {
    resource_type = resource_type;
    resource_id = resource_id;
    relation = "parent";
    subject_type = "kgm/folder";
    subject_id = folder_object_id env.sha256 connection_id parent_id;
    subject_relation = "";
  }

  -- The links to the parents that are folders of the connection, and the entries of the access list.
  unfoldable pub resource_tuples :
      String → Text → List Permission → List Text → List Text → List PermissionTuple
  resource_tuples resource_type resource_id permissions parent_ids ids =
      union (map (parent_tuple resource_type resource_id) (keep (contains ids) parent_ids))
        (acl_tuples resource_type resource_id permissions parent_ids ids)

abbrev pub raw_of : Option CapturedAcl → List Permission
raw_of none = []
raw_of (some acl) = acl.raw_permissions

-- What the loop over the documents finds of one: a reason, or its relationships.
pub data Verdict : Type 0 where
  excluded : String → Verdict
  eligible : List PermissionTuple → Verdict

unfoldable pub record_verdict : SyncResult → SourceDocument → Verdict → SyncResult
record_verdict result d (excluded reason) = record result {
  excluded_document_reasons = result.excluded_document_reasons ++ (d.pk, reason) ∷ [];
}
record_verdict result d (eligible tuples) = record result {
  desired = union tuples result.desired;
  eligible_document_versions =
      result.eligible_document_versions ++ (d.pk, d.source_permissions_version) ∷ [];
}

module _ (env : Env) (connection_id : ℕ) (db : AclDb) (unresolved_groups ids : List Text) where
  unfoldable pub folder_reason : DriveFolder → String
  folder_reason f = resource_acl_reason (folder_acl db f) unresolved_groups

  -- The loop over the folders: their relationships, and the folders with a refused access list.
  unfoldable pub scan_folders : List DriveFolder → List PermissionTuple × List Text
  scan_folders [] = ([], [])
  scan_folders (f ∷ fs) =
      let (tuples, invalid) = scan_folders fs in
      if folder_reason f == ""
      then (
        union
            (resource_tuples env connection_id "kgm/folder"
              (folder_object_id env.sha256 connection_id f.drive_folder_id)
              (raw_of (folder_acl db f)) f.parent_folder_ids ids)
            tuples,
        invalid,
      )
      else (tuples, add f.drive_folder_id invalid)

  unfoldable pub judge_document : List Text → SourceDocument → Verdict
  judge_document invalid_folders d =
      let acl = document_acl db d in
      let reason = document_reason d acl unresolved_groups invalid_folders in
      let tuples =
        resource_tuples env connection_id "kgm/document" (document_object_id connection_id d.pk)
          (raw_of acl) d.parent_folder_ids ids in
      if not (reason == "")
      then excluded reason
      else if is_empty tuples
      then excluded "no_effective_grants"
      else eligible tuples

  unfoldable pub scan_documents : List Text → SyncResult → List SourceDocument → SyncResult
  scan_documents invalid_folders result [] = result
  scan_documents invalid_folders result (d ∷ ds) =
      scan_documents invalid_folders (record_verdict result d (judge_document invalid_folders d)) ds

unfoldable pub active_folders : AclDb → ℕ → List DriveFolder
active_folders db connection_id =
    keep (λ f. f.connection == connection_id && f.active_in_scope) db.folders

unfoldable pub active_documents : AclDb → ℕ → List SourceDocument
active_documents db connection_id =
    keep (λ d. d.connection == connection_id && d.active_in_scope) db.tables.documents

-- What a resolution leaves: `none` is a `GroupResolutionError`, with every group unresolved.
abbrev pub memberships_of : Option (List (Text × GroupMembership)) → List (Text × GroupMembership)
memberships_of none = []
memberships_of (some ms) = ms

abbrev pub unresolved_of : List Text → Option (List (Text × GroupMembership)) → List Text
unresolved_of group_emails none = group_emails
unresolved_of group_emails (some ms) = []

-- The state behind the resolution of the groups.
unfoldable pub build_state :
    Env → ℕ → AclDb → List Text → Option (List (Text × GroupMembership)) → SyncResult
build_state env connection_id db group_emails resolved =
    let memberships = memberships_of resolved in
    let unresolved = unresolved_of group_emails resolved in
    let folders = active_folders db connection_id in
    let (tuples, invalid) =
      scan_folders env connection_id db unresolved (folder_ids folders) folders in
    scan_documents env connection_id db unresolved (folder_ids folders)
      (include_descendants invalid folders)
      (record {
        desired = union (membership_tuples env connection_id memberships) tuples;
        eligible_document_versions = [];
        excluded_document_reasons = [];
        groups_resolved = length memberships;
      })
      (active_documents db connection_id)

unfoldable pub groups_of : AclDb → ℕ → List Text
groups_of db connection_id = referenced_groups (
    map (folder_acl db) (active_folders db connection_id)
    ++ map (document_acl db) (active_documents db connection_id))

module _ {D : Type 0}
    (resolve : ℕ → List Text → D → Option (List (Text × GroupMembership)) × D) where
  -- The memberships of the groups that are named, where there is one.
  unfoldable pub resolve_groups : ℕ → AclDb → D → Option (List (Text × GroupMembership)) × D
  resolve_groups connection_id db d =
      let group_emails = groups_of db connection_id in
      let found = resolve connection_id group_emails d in
      if is_empty group_emails then (some [], d) else found

  unfoldable pub desired_state : Env → ℕ → AclDb → D → Result SyncException SyncResult × D
  desired_state env connection_id db d =
      let (resolved, d') = resolve_groups connection_id db d in
      elim (validate_acyclic (active_folders db connection_id)) [
        | err code ↦ (err (permission_sync_error code), d)
        | ok _ ↦ (ok (build_state env connection_id db (groups_of db connection_id) resolved), d')
      ]
