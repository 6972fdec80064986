-- ===== src/Examples/Acl.antt =====
-- A delegated run: a folder with one reader, a document that inherits from it and names a writer, and
-- a document with a public link.
use knowledge_graph_mvp.Prelude.{
  In, List, Option, Result, String, Text, [], add, after_last, all, any, ap, call, codes, contains,
  decimal, decimal_rounds, err, false, first, inl, inr, insert_by, is_space, join, json_string,
  keep, lift, list_eq, lower, lower_char, lstrip, minus, nat_eq, none, ok, pure, raise, refl,
  replace_char, same_set, some, sort_by, starts_with, string_eq, strip, subset, suc, text_ltb,
  texts_ltb, to_set, true, union, words, words_from, ℕ, ◌>>=◌, ◌↔◌, ◌∷◌, ◌≡◌, ◌⊎◌,
}
use knowledge_graph_mvp.PermissionSync.Hierarchy.Ancestors.{IsAncestor}
use knowledge_graph_mvp.Models.Twin.{is_permission_verified_iff}
use knowledge_graph_mvp.PermissionSync.Listed.{last_listed, is_listed_folder, is_listed_document}
use knowledge_graph_mvp.PermissionSync.Stored.{persist-stored}
use knowledge_graph_mvp.PermissionSync.State.{
  acl_tuple, acl_tuples, member_tuple, group_tuples, membership_tuples, parent_tuple,
  resource_tuples, record_verdict, folder_reason, scan_folders, judge_document, scan_documents,
  active_folders, active_documents, build_state, groups_of, resolve_groups, desired_state,
}
use knowledge_graph_mvp.PermissionSync.Hierarchy.{
  edges_in, edges, remove, walk, walks, weights, search, validate_acyclic, children, spread,
  descend, include_descendants,
}
use knowledge_graph_mvp.PermissionSync.{
  folder_acl, document_acl, principal_email, acl_groups, referenced_groups, permissions_reason,
  resource_acl_reason, document_reason, is_known_source, safely_inherited, role_relation,
}
use knowledge_graph_mvp.OauthViewer.{
  authority_mismatch, validated_connection, validated_user_id, collect_ids, indexed_ids,
  direct_grant, desired_tuples, validate_current_scope, touches_of, reconcile_scope,
  reconcile_oauth_viewer_relationships, delete_oauth_viewer_relationships,
}
use knowledge_graph_mvp.Identifiers.{
  connection_prefix, document_object_id, digest, folder_object_id, group_object_id, user_object_id,
}
use knowledge_graph_mvp.DriveAcl.{
  Permission, has_public_link, has_domain_visibility, ascii_string, insert_on, sort_on,
  canonical_permission, permission_key, source_permissions_version,
}
use knowledge_graph_mvp.GoogleGroups.{GroupMembership}
use knowledge_graph_mvp.Models.{
  AclDb, DriveConnection, SourceDocument, PermissionSyncRun, RunStatus, delegated_acl, DriveFolder,
  update_where, get_connection, get_authorization, get_visibility_run, get_document, upsert,
  is_permission_verified, permission_verified,
}
use knowledge_graph_mvp.SpiceDb.{PermissionTuple, tuple_ltb, min_tuple, is_direct_grant}
use knowledge_graph_mvp.SpiceDb.Laws.{list_server, list_server-Serves, list_server-Answers}
use knowledge_graph_mvp.PermissionSync.Scan.{
  DrivePermissionResource, exclude, is_folder_row, seen_folder, new_folder, folder_snapshot,
  persist_folder, is_document_row, seen_document, document_snapshot, set_reason, mark_incomplete,
  persisted_documents, persisted_snapshots, persist_document, persist_resources, is_unseen_folder,
  is_unseen_document, leave_scope, sweep, persist_complete_scan,
}
use knowledge_graph_mvp.PermissionSync.Run.{
  synchronize_permissions, Ended, error_code, is_current_version, verify, enable_documents,
  exclude_documents, commit_verified_documents, save_run, failed_run, save_refused, count_type,
  finished_run, reconcile, fail_run, finish_run, sync_desired, sync_listed, sync_connection,
  Reconciled,
}
use knowledge_graph_mvp.PermissionSync.Synchronized.{
  HasSynchronized, synchronize_permissions-HasSynchronized,
}
use knowledge_graph_mvp.PermissionSync.Sound.{AllSound, Keeps, Keeps-refl}
use knowledge_graph_mvp.PermissionSync.Ends.{failed-Keeps, synchronize_permissions-AllSound}
use knowledge_graph_mvp.PermissionSync.Total.{reconcile-build_state_total}
use knowledge_graph_mvp.PermissionSync.Eligible.{IsGrounded, judged}
use knowledge_graph_mvp.PermissionSync.Hierarchy.Cycles.{validate_acyclic_iff}
use knowledge_graph_mvp.PermissionSync.Hierarchy.Descendants.{IsBelow, include_descendants-IsBelow}
use knowledge_graph_mvp.Examples.{env, db, connection, document, email}
use knowledge_graph_mvp.Examples.Access.{world}

abbrev pub permission : String → String → Text → Permission
permission type role email = record {
  id = none;
  type = some type;
  role = some role;
  email_address = some email;
  domain = none;
  allow_file_discovery = none;
  deleted = none;
  pending_owner = none;
  inherited = none;
  inherited_from = none;
  permission_details = none;
}

abbrev reader : Permission
reader = permission "user" "reader" (codes "a@x.io")

-- The reader again, inherited from the folder.
abbrev inherited_reader : Permission
inherited_reader = record reader {
  permission_details = some (
      record {
        inherited = some true;
        inherited_from = some (codes "root");
        permission_type = none;
        role = none;
      }
      ∷ []);
}

abbrev resource : String → Text → List Text → List Permission → DrivePermissionResource
resource kind id parents permissions = record {
  resource_type = kind;
  drive_id = id;
  parent_folder_ids = parents;
  permissions = permissions;
  permissions_fetch_failed = false;
}

abbrev pub resources : List DrivePermissionResource
resources =
    resource "folder" (codes "root") [] (reader ∷ [])
    ∷ resource "document" (codes "f7") (codes "root" ∷ [])
        (inherited_reader ∷ permission "group" "writer" (codes "g@x.io") ∷ [])
    ∷ resource "document" (codes "f8") (codes "root" ∷ []) (permission "anyone" "reader" [] ∷ [])
    ∷ []

abbrev pub acl_db : AclDb
acl_db = record {
  tables = record db {
    connections = record connection { permission_authority = delegated_acl } ∷ [];
  };
  folders = [];
  folder_snapshots = [];
  document_snapshots = [];
  permission_runs = [];
}

abbrev pub permission_run : PermissionSyncRun
permission_run = record {
  pk = 5;
  connection = 1;
  status = RunStatus.running;
  documents_seen = 0;
  folders_seen = 0;
  groups_resolved = 0;
  relationships_touched = 0;
  relationships_deleted = 0;
  documents_verified = 0;
  documents_excluded = 0;
  error_code = "";
  started_at = none;
  finished_at = none;
}

abbrev pub list_resources : DriveConnection → ℕ → Result String (List DrivePermissionResource) × ℕ
list_resources c calls = (ok resources, suc calls)

abbrev pub resolve : ℕ → List Text → ℕ → Option (List (Text × GroupMembership)) × ℕ
resolve connection_id groups calls = (
  some ((codes "g@x.io", record { users = codes "b@x.io" ∷ []; child_groups = [] }) ∷ []),
  suc calls,
)

abbrev pub ended : Ended ℕ (List PermissionTuple)
ended =
    synchronize_permissions list_server 101 102 (λ x. x) permission_run resolve env 77 100
      list_resources acl_db 0 world

abbrev finished : PermissionSyncRun
finished = record permission_run {
  status = RunStatus.partial;
  documents_seen = 2;
  folders_seen = 1;
  groups_resolved = 1;
  relationships_touched = 4;
  relationships_deleted = 2;
  documents_verified = 1;
  documents_excluded = 1;
  finished_at = some 102;
}

-- The public document is excluded, the other one is verified, and the direct grants that were there
-- are deleted.
ended_run : ended.0 ≡ ok finished
unfolding keep any all first insert_by sort_by contains add to_set union minus subset same_set
    is_space lower_char lower lstrip strip starts_with after_last decimal_rounds decimal text_ltb
    texts_ltb join words_from words replace_char json_string pure raise lift call ◌>>=◌ update_where
    get_connection get_authorization get_visibility_run get_document upsert has_public_link
    has_domain_visibility ascii_string insert_on sort_on canonical_permission permission_key
    source_permissions_version connection_prefix document_object_id digest folder_object_id
    user_object_id group_object_id tuple_ltb min_tuple is_direct_grant authority_mismatch
    validated_connection validated_user_id collect_ids indexed_ids direct_grant desired_tuples
    validate_current_scope touches_of reconcile_scope reconcile_oauth_viewer_relationships
    delete_oauth_viewer_relationships folder_acl document_acl principal_email acl_groups
    referenced_groups permissions_reason resource_acl_reason document_reason is_known_source
    safely_inherited role_relation edges_in edges remove walk walks weights search validate_acyclic
    children spread descend include_descendants acl_tuple acl_tuples member_tuple group_tuples
    membership_tuples parent_tuple resource_tuples record_verdict folder_reason scan_folders
    judge_document scan_documents active_folders active_documents build_state groups_of
    resolve_groups desired_state exclude is_folder_row seen_folder new_folder folder_snapshot
    persist_folder is_document_row seen_document document_snapshot set_reason mark_incomplete
    persisted_documents persisted_snapshots persist_document persist_resources is_unseen_folder
    is_unseen_document leave_scope sweep persist_complete_scan error_code is_current_version verify
    enable_documents exclude_documents commit_verified_documents save_run failed_run save_refused
    count_type finished_run reconcile fail_run finish_run sync_desired sync_listed sync_connection
    synchronize_permissions
ended_run = refl

synchronize_permissions-HasSynchronized_example :
    HasSynchronized list_server list_server-Serves 101 102
      (λ x. x)
      permission_run
      env
      resolve
      77
      100
      list_resources
      acl_db
      ended.1
      0
      world
      ended.3
synchronize_permissions-HasSynchronized_example =
    synchronize_permissions-HasSynchronized list_server list_server-Serves 101 102 (λ x. x)
      permission_run env resolve 77 100 list_resources acl_db ended.1 0 ended.2 world ended.3
      finished (ap (λ x. (x, ended.1, ended.2, ended.3)) ended_run)

-- The rows of the installation are sound: both documents are in scope.
pub acl_db-AllSound : AllSound acl_db.tables.documents
acl_db-AllSound d (inl e) h = ap (λ x. x.active_in_scope) e
acl_db-AllSound d (inr (inl e)) h = ap (λ x. x.active_in_scope) e
acl_db-AllSound d (inr (inr z)) h = absurd z

synchronize_permissions-AllSound_example : AllSound (ended.1).tables.documents
synchronize_permissions-AllSound_example =
    synchronize_permissions-AllSound list_server 101 102 (λ x. x) permission_run resolve env 77 100
      list_resources (λ x sound. sound) acl_db 0 world acl_db-AllSound

-- Drive does not answer.
abbrev broken_list : DriveConnection → ℕ → Result String (List DrivePermissionResource) × ℕ
broken_list c calls = (err "HttpError", calls)

abbrev broken : Ended ℕ (List PermissionTuple)
broken =
    synchronize_permissions list_server 101 102 (λ x. x) permission_run resolve env 77 100
      broken_list acl_db 0 world

broken_run : broken.0 ≡ err "HttpError"
unfolding synchronize_permissions sync_connection sync_listed fail_run error_code get_connection
    first keep
broken_run = refl

failed-Keeps_example : Keeps acl_db.tables.documents (broken.1).tables.documents
failed-Keeps_example =
    failed-Keeps list_server 101 102 (λ x. x) permission_run resolve env 77 100 broken_list
      (λ x. Keeps-refl x.tables.documents) acl_db broken.1 0 broken.2 world broken.3 "HttpError"
      (ap (λ x. (x, broken.1, broken.2, broken.3)) broken_run)

abbrev scanned : AclDb
scanned = persist_complete_scan env 1 77 100 resources acl_db

reconcile-build_state_total_example :
    (r : Reconciled) × (w' : List PermissionTuple) × (reconcile list_server
        (connection_prefix 1)
        (build_state env 1 scanned [] none).desired
        world
      ≡ (ok r, w'))
reconcile-build_state_total_example =
    reconcile-build_state_total list_server list_server-Serves list_server-Answers 1 env scanned []
      none world

-- Two folders that are each other's parents, and one below them.
abbrev folder_in : Text → List Text → DriveFolder
folder_in id parents = record {
  connection = 1;
  drive_folder_id = id;
  parent_folder_ids = parents;
  source_permissions_version = [];
  active_in_scope = true;
  last_seen_sync_marker = 77;
  updated_at = 0;
}

abbrev looped : List DriveFolder
looped =
    folder_in (codes "a") (codes "b" ∷ [])
    ∷ folder_in (codes "b") (codes "a" ∷ [])
    ∷ folder_in (codes "c") (codes "b" ∷ [])
    ∷ []

looped_stops : validate_acyclic looped ≡ err "folder_hierarchy_cycle"
unfolding keep any all first insert_by sort_by contains add to_set union minus subset same_set
    is_space lower_char lower lstrip strip starts_with after_last decimal_rounds decimal text_ltb
    texts_ltb join words_from words replace_char json_string update_where get_connection
    get_authorization get_visibility_run get_document upsert has_public_link has_domain_visibility
    ascii_string insert_on sort_on canonical_permission permission_key source_permissions_version
    connection_prefix document_object_id digest folder_object_id user_object_id group_object_id
    edges_in edges remove walk walks weights search validate_acyclic children spread descend
    include_descendants acl_tuple acl_tuples member_tuple group_tuples membership_tuples
    parent_tuple resource_tuples record_verdict folder_reason scan_folders judge_document
    scan_documents active_folders active_documents build_state groups_of resolve_groups
    desired_state exclude is_folder_row seen_folder new_folder folder_snapshot persist_folder
    is_document_row seen_document document_snapshot set_reason mark_incomplete persisted_documents
    persisted_snapshots persist_document persist_resources is_unseen_folder is_unseen_document
    leave_scope sweep persist_complete_scan
looped_stops = refl

validate_acyclic_iff_example :
    (validate_acyclic looped ≡ err "folder_hierarchy_cycle") ↔ ((x : Text) × IsAncestor looped x x)
validate_acyclic_iff_example = validate_acyclic_iff looped

include_descendants-IsBelow_example :
    In (codes "c") (include_descendants (codes "a" ∷ []) looped)
    ↔ ((top : Text) × In top (codes "a" ∷ []) × IsBelow looped top (codes "c"))
include_descendants-IsBelow_example =
    include_descendants-IsBelow (codes "a" ∷ []) looped (codes "c")

-- The document as the scan leaves it.
abbrev scanned_document : SourceDocument
scanned_document =
    seen_document env 1 77 100
      (resource "document" (codes "f7") (codes "root" ∷ [])
        (inherited_reader ∷ permission "group" "writer" (codes "g@x.io") ∷ []))
      (document 7)

scanned_document-In : In scanned_document (active_documents scanned 1)
unfolding keep any all first insert_by sort_by contains add to_set union minus subset same_set
    is_space lower_char lower lstrip strip starts_with after_last decimal_rounds decimal text_ltb
    texts_ltb join words_from words replace_char json_string update_where get_connection
    get_authorization get_visibility_run get_document upsert has_public_link has_domain_visibility
    ascii_string insert_on sort_on canonical_permission permission_key source_permissions_version
    connection_prefix document_object_id digest folder_object_id user_object_id group_object_id
    edges_in edges remove walk walks weights search validate_acyclic children spread descend
    include_descendants acl_tuple acl_tuples member_tuple group_tuples membership_tuples
    parent_tuple resource_tuples record_verdict folder_reason scan_folders judge_document
    scan_documents active_folders active_documents build_state groups_of resolve_groups
    desired_state exclude is_folder_row seen_folder new_folder folder_snapshot persist_folder
    is_document_row seen_document document_snapshot set_reason mark_incomplete persisted_documents
    persisted_snapshots persist_document persist_resources is_unseen_folder is_unseen_document
    leave_scope sweep persist_complete_scan
scanned_document-In = inl refl

judged_example :
    (IsGrounded env 1 scanned [] (some []) scanned_document
      × In
          (scanned_document.pk, scanned_document.source_permissions_version)
          (build_state env 1 scanned [] (some [])).eligible_document_versions)
    ⊎ ((reason : String) × In
          (scanned_document.pk, reason)
          (build_state env 1 scanned [] (some [])).excluded_document_reasons)
judged_example = judged env 1 scanned [] (some []) scanned_document scanned_document-In

abbrev stored_folder : DriveFolder
stored_folder = new_folder env 1 77 100 (resource "folder" (codes "root") [] (reader ∷ []))

persist-stored_example :
    (folder_acl (persist_complete_scan env 1 77 100 resources acl_db) stored_folder
      ≡ last_listed (is_listed_folder 1 stored_folder) resources (folder_acl acl_db stored_folder))
    × (document_acl (persist_complete_scan env 1 77 100 resources acl_db) (document 7)
        ≡ last_listed
            (is_listed_document 1 acl_db.tables.documents (document 7))
            resources
            (document_acl acl_db (document 7)))
persist-stored_example = persist-stored env 1 77 100 resources acl_db stored_folder (document 7)

is_permission_verified_iff_example :
    (is_permission_verified env.settings 100 (document 7) (codes "v1") ≡ true) ↔ (
      (permission_verified env.settings 100 (document 7) ≡ true)
      × ((document 7).source_permissions_version ≡ codes "v1"))
is_permission_verified_iff_example =
    is_permission_verified_iff env.settings 100 (document 7) (codes "v1")
