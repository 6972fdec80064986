-- ===== src/OauthViewer.antt =====
-- apps/backend/authorization/oauth_viewer.py: one user's direct grants are made to match a set of
-- documents. An `OAuthViewerRelationshipError` is the label that it carries.
pub mod Desired
pub mod Reconciled
pub mod Total
use knowledge_graph_mvp.Prelude.{
  Bool, Exec, List, Result, String, Text, [], add, after_last, and_then, any, call, contains, err,
  if◌then◌else◌, is_empty, keep, length, lift, list_eq, lower, ltb, map, minus, nat_eq, none, not,
  ok, pure, raise_if, same_set, some, string_eq, to_set, ℕ, ◌&&◌, ◌==◌, ◌>>=◌, ◌>>◌, ◌||◌, ◌∷◌,
}
use knowledge_graph_mvp.Models.{
  Env, Db, DriveConnection, SourceDocument, get_connection, effective_root_id, per_user_oauth,
}
use knowledge_graph_mvp.SpiceDb.{PermissionTuple, SpiceDb, tuple_eq, min_tuple, is_direct_grant}
use knowledge_graph_mvp.Identity.{normalize_trusted_email}
use knowledge_graph_mvp.Identifiers.{connection_prefix, document_object_id, user_object_id}

pub record OauthViewerReconciliation : Type 0 where
  pub revision : Text
  pub relationships_touched : ℕ
  pub relationships_deleted : ℕ

-- The connection as it stands in the database may not be used.
unfoldable pub authority_mismatch : Env → DriveConnection → DriveConnection → Bool
authority_mismatch env connection current =
    not current.enabled
    || (not (current.permission_authority == per_user_oauth)
        || (not (env.settings.google_permission_authority == per_user_oauth)
            || (not (current.authorization_generation == connection.authorization_generation)
                || is_empty (effective_root_id current))))

unfoldable pub validated_connection : Env → Db → DriveConnection → Result String DriveConnection
validated_connection env db connection =
    if connection.pk == 0
    then err "permission_authority_mismatch"
    else elim (get_connection db connection.pk) [
      | none ↦ err "permission_authority_mismatch"
      | some current ↦
          if authority_mismatch env connection current
          then err "permission_authority_mismatch"
          else ok current
    ]

unfoldable pub validated_user_id : Env → DriveConnection → Text → Result String Text
validated_user_id env connection user_email =
    let allowed_domain = lower env.settings.google_user_oauth_allowed_domain in
    elim (normalize_trusted_email env user_email) [
      | none ↦ err "identity_invalid"
      | some normalized_email ↦
          if not (after_last b'@' normalized_email == allowed_domain)
            || not (lower connection.workspace_domain == allowed_domain)
          then err "identity_domain_mismatch"
          else ok (user_object_id env.sha256 connection.pk normalized_email)
    ]

-- The loop of `_desired_tuples` over the ids, `ids` being those collected so far.
unfoldable pub collect_ids : ℕ → List ℕ → List ℕ → Result String (List ℕ)
collect_ids limit ids [] = ok ids
collect_ids limit ids (document_id ∷ rest) =
    let ids' = add document_id ids in
    let more = collect_ids limit ids' rest in
    if document_id == 0
    then err "document_scope_invalid"
    else if ltb limit (length ids')
    then err "document_scope_exceeds_cap"
    else more

-- The primary keys of the active documents of the connection among `ids`.
unfoldable pub indexed_ids : Db → ℕ → List ℕ → List ℕ
indexed_ids db connection ids = to_set (
    map (λ d. d.pk)
      (keep (λ d. d.connection == connection && (d.active_in_scope && contains ids d.pk))
        db.documents))

unfoldable pub direct_grant : ℕ → Text → ℕ → PermissionTuple
direct_grant connection user_id document_id = record {
  resource_type = "kgm/document";
  resource_id = document_object_id connection document_id;
  relation = "oauth_viewer";
  subject_type = "kgm/user";
  subject_id = user_id;
  subject_relation = "";
}

unfoldable pub desired_tuples :
    Env → Db → DriveConnection → Text → List ℕ → Result String (List PermissionTuple)
desired_tuples env db connection user_id source_document_ids =
    and_then (collect_ids env.settings.google_user_visibility_max_documents [] source_document_ids)
      λ ids.
        if same_set (indexed_ids db connection.pk ids) ids
        then ok (to_set (map (direct_grant connection.pk user_id) ids))
        else err "document_scope_invalid"

unfoldable pub validate_current_scope :
    List PermissionTuple → Text → Text → Result String (Unit {0})
validate_current_scope current prefix user_id =
    raise_if (any (λ item. not (is_direct_grant prefix user_id item)) current)
      "relationship_scope_mismatch"

-- `desired - current`, and one of the desired tuples where that is empty.
unfoldable pub touches_of : List PermissionTuple → List PermissionTuple → List PermissionTuple
touches_of [] current = []
touches_of (t ∷ ts) current = elim (minus (t ∷ ts) current) [
  | [] ↦ min_tuple t ts ∷ []
  | u ∷ us ↦ u ∷ us
]

module _ (s : SpiceDb) where
  -- The body of the `try`, and the test behind it.
  unfoldable pub reconcile_scope :
      Text → Text → List PermissionTuple → Exec s.World String OauthViewerReconciliation
  reconcile_scope prefix user_id desired = do
    current ← call "spicedb_operation_failed" (s.read_oauth_viewer_tuples prefix user_id [])
    lift (validate_current_scope current prefix user_id)
    let touches = touches_of desired current
    let deletes = minus current desired
    revision ← call "spicedb_operation_failed" (s.write_updates touches deletes)
    verified ← call "spicedb_operation_failed" (s.read_oauth_viewer_tuples prefix user_id revision)
    lift (validate_current_scope verified prefix user_id)
    lift (raise_if (not (same_set verified desired)) "relationship_verification_mismatch")
    pure (record {
      revision = revision;
      relationships_touched = length touches;
      relationships_deleted = length deletes;
    })

  unfoldable pub reconcile_oauth_viewer_relationships :
      Env → Db → DriveConnection → Text → List ℕ → Exec s.World String OauthViewerReconciliation
  reconcile_oauth_viewer_relationships env db connection user_email source_document_ids = do
    current ← lift (validated_connection env db connection)
    user_id ← lift (validated_user_id env current user_email)
    desired ← lift (desired_tuples env db current user_id source_document_ids)
    reconcile_scope (connection_prefix current.pk) user_id desired

  unfoldable pub delete_oauth_viewer_relationships :
      Env → Db → DriveConnection → Text → Exec s.World String OauthViewerReconciliation
  delete_oauth_viewer_relationships env db connection user_email =
      reconcile_oauth_viewer_relationships env db connection user_email []
