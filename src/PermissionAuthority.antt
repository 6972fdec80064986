-- ===== src/PermissionAuthority.antt =====
-- apps/backend/integrations/permission_authority.py: a connection is switched to the other permission
-- authority. A `PermissionAuthoritySwitchError` is the label that it carries. The values of
-- `uuid.uuid4()` are arguments: `generation` for the connection, `fresh` for each authorization.
-- `meanwhile` is what other processes do to the database while SpiceDB is cleaned up.
pub mod Denial
pub mod Switched
pub mod Outcome
pub mod Closed
use knowledge_graph_mvp.Prelude.{
  Bool, Exec, Result, String, [], call, contains, err, false, if◌then◌else◌, is_empty, keep, length,
  lift, list_eq, map, nat_eq, none, not, ok, pure, raise_if, some, string_eq, true, ℕ, ◌&&◌, ◌==◌,
  ◌>>=◌, ◌>>◌,
}
use knowledge_graph_mvp.Models.{
  Env, Db, DriveConnection, SourceDocument, GoogleDriveAuthorization, UserDocumentVisibility,
  denied, disconnected, effective_root_id, get_connection, is_succeeded, pending,
  permission_authority_values, update_where,
}
use knowledge_graph_mvp.SpiceDb.{SpiceDb}
use knowledge_graph_mvp.Identifiers.{connection_prefix}

pub record PermissionAuthoritySwitchResult : Type 0 where
  pub connection_id : ℕ
  pub previous_authority : String
  pub permission_authority : String
  pub documents_invalidated : ℕ
  pub authorizations_invalidated : ℕ
  pub relationships_deleted : ℕ
  pub changed : Bool

unfoldable pub validate_target : Env → String → Result String (Unit {0})
validate_target env target =
    if not (contains permission_authority_values target)
    then err "permission_authority_invalid"
    else raise_if (not (env.settings.google_permission_authority == target))
        "configured_authority_mismatch"

unfoldable pub disconnect : (ℕ → ℕ) → ℕ → GoogleDriveAuthorization → GoogleDriveAuthorization
disconnect fresh now a = record a {
  authorization_generation = fresh a.pk;
  status = disconnected;
  encrypted_refresh_credential = [];
  encryption_key_version = [];
  granted_scopes = [];
  disconnected_at = some now;
  last_successful_visibility_sync_at = none;
  updated_at = now;
}

-- The authorizations of the connection end, and their evidence rows are deleted.
unfoldable pub invalidate_authorizations : (ℕ → ℕ) → ℕ → ℕ → Db → Db
invalidate_authorizations fresh now connection_id db =
    let pks = map (λ a. a.pk) (keep (λ a. a.connection == connection_id) db.authorizations) in
    record db {
      visibilities = keep (λ v. not (contains pks v.authorization)) db.visibilities;
      authorizations =
          update_where (λ a. a.connection == connection_id) (disconnect fresh now)
            db.authorizations;
    }

unfoldable pub invalidate_document : ℕ → SourceDocument → SourceDocument
invalidate_document now d = record d {
  retrieval_eligible = false;
  source_permissions_version = [];
  spicedb_permissions_version = [];
  spicedb_revision = [];
  spicedb_verified_at = none;
  updated_at = now;
}

-- A successful extraction with a content is put back in the queue.
unfoldable pub requeue_document : ℕ → SourceDocument → SourceDocument
requeue_document now d =
    if is_succeeded d.graph_extraction_status && not (is_empty d.content_hash)
    then record d {
      graph_extraction_status = pending;
      graph_extraction_queued_at = none;
      updated_at = now;
    }
    else d

unfoldable pub disable : ℕ → ℕ → DriveConnection → DriveConnection
disable generation now c = record c {
  enabled = false;
  authorization_generation = generation;
  updated_at = now;
}

-- The transaction behind its guards.
unfoldable pub denied_db : (ℕ → ℕ) → ℕ → ℕ → ℕ → Db → Db
denied_db fresh generation now connection_id db =
    invalidate_authorizations fresh now connection_id (record db {
      connections =
          update_where (λ c. c.pk == connection_id) (disable generation now) db.connections;
      documents =
          update_where (λ d. d.connection == connection_id)
            (λ d. requeue_document now (invalidate_document now d)) db.documents;
    })

-- What `_deny_connection` returns, with the database that it commits.
pub record Denied : Type 0 where
  pub connection : DriveConnection
  pub documents_invalidated : ℕ
  pub authorizations_invalidated : ℕ
  pub database : Db

unfoldable pub deny_connection : (ℕ → ℕ) → ℕ → ℕ → ℕ → Db → Result String Denied
deny_connection fresh generation now connection_id db = elim (get_connection db connection_id) [
  | none ↦ err "connection_unavailable"
  | some connection ↦
      if is_empty (effective_root_id connection)
      then err "selected_root_missing"
      else ok (record {
        connection = disable generation now connection;
        documents_invalidated = length (keep (λ d. d.connection == connection_id) db.documents);
        authorizations_invalidated =
            length (keep (λ a. a.connection == connection_id) db.authorizations);
        database = denied_db fresh generation now connection_id db;
      })
]

unfoldable pub activate : String → ℕ → DriveConnection → DriveConnection
activate target now c = record c {
  permission_authority = target;
  permission_authority_changed_at = some now;
  enabled = true;
  updated_at = now;
}

-- The last transaction: the connection must have the generation that the denial gave it. A row that
-- is gone by then is the uncaught `DriveConnection.DoesNotExist`.
unfoldable pub activate_connection : String → ℕ → ℕ → ℕ → Db → Result String Db
activate_connection target generation now connection_id db =
    elim (get_connection db connection_id) [
      | none ↦ err "DoesNotExist"
      | some connection ↦
          if not (connection.authorization_generation == generation)
          then err "connection_changed_during_cutover"
          else ok (record db {
            connections =
                update_where (λ c. c.pk == connection_id) (activate target now) db.connections;
          })
    ]

module _ (s : SpiceDb) where
  unfoldable pub delete_connection_relationships : ℕ → Exec s.World String ℕ
  delete_connection_relationships connection_id = do
    let prefix = connection_prefix connection_id
    current ← call "spicedb_cleanup_failed" (s.read_managed_tuples prefix [])
    revision ← call "spicedb_cleanup_failed" (s.write_updates [] current)
    verified ← call "spicedb_cleanup_failed" (s.read_managed_tuples prefix revision)
    lift (raise_if (not (is_empty verified)) "spicedb_cleanup_incomplete")
    pure (length current)

  module _ (env : Env) (fresh : ℕ → ℕ) (generation now later : ℕ) (meanwhile : Db → Db) where
    -- The outcome, the database and the server after the cleanup and the activation.
    unfoldable pub finish_switch :
        ℕ
        → String
        → String
        → Denied
        → s.World
        → Result String PermissionAuthoritySwitchResult × Db × s.World
    finish_switch connection_id previous target denial w =
        let (deleted, w') = delete_connection_relationships connection_id w in
        elim deleted [
          | err e ↦ (err e, meanwhile denial.database, w')
          | ok count ↦
              elim (activate_connection target denial.connection.authorization_generation later
                connection_id (meanwhile denial.database)) [
                  | err e ↦ (err e, meanwhile denial.database, w')
                  | ok db' ↦ (
                    ok (record {
                      connection_id = connection_id;
                      previous_authority = previous;
                      permission_authority = target;
                      documents_invalidated = denial.documents_invalidated;
                      authorizations_invalidated = denial.authorizations_invalidated;
                      relationships_deleted = count;
                      changed = true;
                    }),
                    db',
                    w',
                  )
                ]
        ]

    -- The rest of the switch for a connection that is found.
    unfoldable pub switch_connection :
        DriveConnection
        → ℕ
        → String
        → Db
        → s.World
        → Result String PermissionAuthoritySwitchResult × Db × s.World
    switch_connection current connection_id target db w =
        if current.permission_authority == target
        then (
          ok (record {
            connection_id = current.pk;
            previous_authority = current.permission_authority;
            permission_authority = current.permission_authority;
            documents_invalidated = 0;
            authorizations_invalidated = 0;
            relationships_deleted = 0;
            changed = false;
          }),
          db,
          w,
        )
        else elim (deny_connection fresh generation now connection_id db) [
          | err e ↦ (err e, db, w)
          | ok denial ↦ finish_switch connection_id current.permission_authority target denial w
        ]

    unfoldable pub switch_permission_authority :
        ℕ → String → Db → s.World → Result String PermissionAuthoritySwitchResult × Db × s.World
    switch_permission_authority connection_id target db w = elim (validate_target env target) [
      | err e ↦ (err e, db, w)
      | ok _ ↦ elim (get_connection db connection_id) [
        | none ↦ (err "connection_unavailable", db, w)
        | some current ↦ switch_connection current connection_id target db w
      ]
    ]
