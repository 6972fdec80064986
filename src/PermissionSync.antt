-- ===== src/PermissionSync.antt =====
-- apps/backend/authorization/sync.py: the access lists of Drive are judged, and turned into the
-- relationships that SpiceDB shall hold.
pub mod Hierarchy
pub mod State
pub mod Scan
pub mod Run
pub mod Written
pub mod Managed
pub mod Judged
pub mod Tuples
pub mod Collected
pub mod Eligible
pub mod Committed
pub mod Rows
pub mod Listed
pub mod Stored
pub mod Sound
pub mod Ends
pub mod Total
pub mod Synchronized
use knowledge_graph_mvp.Prelude.{
  Bool, List, Option, String, Text, [], add, all, any, contains, false, first, if◌then◌else◌,
  is_empty, keep, list_eq, lower, nat_eq, none, not, some, string_eq, strip, union, ◌&&◌, ◌==◌,
  ◌||◌, ◌∷◌,
}
use knowledge_graph_mvp.DriveAcl.{
  Permission, PermissionDetail, is_set, is_label, has_public_link, has_domain_visibility,
}
use knowledge_graph_mvp.Models.{Env, DriveConnection, SourceDocument, DriveFolder, AclDb}
use knowledge_graph_mvp.SpiceDb.{PermissionTuple, tuple_eq}
use knowledge_graph_mvp.Identifiers.{
  document_object_id, folder_object_id, user_object_id, group_object_id,
}
use knowledge_graph_mvp.PermissionSync.Hierarchy.{folder_ids, validate_acyclic, include_descendants}

abbrev pub supported_roles : List String
supported_roles = "reader" ∷ "commenter" ∷ "writer" ∷ "fileOrganizer" ∷ "organizer" ∷ "owner" ∷ []

-- A `PermissionSyncError` with its code, or another exception with the name of its type.
pub data SyncException : Type 0 where
  permission_sync_error other_error : String → SyncException

-- The columns of a permission snapshot that are judged.
pub record CapturedAcl : Type 0 where
  pub raw_permissions : List Permission
  pub permissions_complete : Bool

-- `_snapshot` of a folder and of a document; `none` is a row without a snapshot.
unfoldable pub folder_acl : AclDb → DriveFolder → Option CapturedAcl
folder_acl db f =
    elim (first (
      keep (λ s. s.connection == f.connection && s.drive_folder_id == f.drive_folder_id)
        db.folder_snapshots)) [
          | none ↦ none
          | some s ↦ some (record {
            raw_permissions = s.raw_permissions;
            permissions_complete = s.permissions_complete;
          })
        ]

unfoldable pub document_acl : AclDb → SourceDocument → Option CapturedAcl
document_acl db d = elim (first (keep (λ s. s.source_document == d.pk) db.document_snapshots)) [
  | none ↦ none
  | some s ↦ some (record {
    raw_permissions = s.raw_permissions;
    permissions_complete = s.permissions_complete;
  })
]

unfoldable pub principal_email : Permission → Text
principal_email p = elim p.email_address [ none ↦ [] | some email ↦ lower (strip email) ]

-- The e-mails of the groups that one access list names.
unfoldable pub acl_groups : List Permission → List Text
acl_groups [] = []
acl_groups (p ∷ ps) =
    let rest = acl_groups ps in
    if is_set p.deleted
    then rest
    else if is_label p.type "group" && not (is_empty (principal_email p))
    then add (principal_email p) rest
    else rest

unfoldable pub referenced_groups : List (Option CapturedAcl) → List Text
referenced_groups [] = []
referenced_groups (none ∷ acls) = referenced_groups acls
referenced_groups (some acl ∷ acls) =
    union (acl_groups acl.raw_permissions) (referenced_groups acls)

-- The reason that the first refused entry of an access list gives; "" is none.
unfoldable pub permissions_reason : List Text → List Permission → String
permissions_reason unresolved_groups [] = ""
permissions_reason unresolved_groups (p ∷ ps) =
    let rest = permissions_reason unresolved_groups ps in
    let email = principal_email p in
    if is_set p.deleted
    then rest
    else if not (any (is_label p.role) supported_roles)
        || (not (is_label p.type "user" || is_label p.type "group") || is_empty email)
    then "unsupported_permission"
    else if is_set p.pending_owner
    then "permission_metadata_incomplete"
    else if is_label p.type "group" && contains unresolved_groups email
    then "group_membership_unresolved"
    else rest

unfoldable pub resource_acl_reason : Option CapturedAcl → List Text → String
resource_acl_reason none unresolved_groups = "permission_metadata_incomplete"
resource_acl_reason (some acl) unresolved_groups =
    if not acl.permissions_complete
    then "permission_metadata_incomplete"
    else if has_public_link acl.raw_permissions
    then "public_link_not_supported"
    else if has_domain_visibility acl.raw_permissions
    then "domain_wide_visibility_not_supported"
    else permissions_reason unresolved_groups acl.raw_permissions

unfoldable pub document_reason :
    SourceDocument → Option CapturedAcl → List Text → List Text → String
document_reason d acl unresolved_groups invalid_folders =
    if d.exclusion_reason == "unsupported_mime_type"
    then d.exclusion_reason
    else if any (contains invalid_folders) d.parent_folder_ids
    then "permission_metadata_incomplete"
    else resource_acl_reason acl unresolved_groups

-- An inherited detail whose source is a parent that is a folder of the connection.
unfoldable pub is_known_source : List Text → List Text → PermissionDetail → Bool
is_known_source parent_ids ids detail = elim detail.inherited_from [
  | none ↦ false
  | some source ↦ contains parent_ids source && contains ids source
]

unfoldable pub safely_inherited : Permission → List Text → List Text → Bool
safely_inherited p parent_ids ids = elim p.permission_details [
  | none ↦ false
  | some details ↦
      not (is_empty details)
      && (all (λ d. is_set d.inherited) details && all (is_known_source parent_ids ids) details)
]

-- `ROLE_RELATIONS.get(role, role)`
unfoldable pub role_relation : Option String → String
role_relation none = ""
role_relation (some role) = if role == "fileOrganizer" then "file_organizer" else role
