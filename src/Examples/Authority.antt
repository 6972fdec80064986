-- ===== src/Examples/Authority.antt =====
-- Concrete runs of the switch of the permission authority.
use knowledge_graph_mvp.Prelude.{
  In, [], add, after_last, all, any, call, contains, decimal, decimal_rounds, first, inl, insert_by,
  is_space, keep, lift, list_eq, lower, lower_char, lstrip, minus, nat_eq, ok, pure, refl, sort_by,
  starts_with, string_eq, strip, subset, subst, sym, to_set, true, ◌>>=◌, ◌∷◌, ◌≡◌, ◌≢◌,
}
use knowledge_graph_mvp.Models.{
  Db, SourceDocument, at_least, delegated_acl, effective_root_id, get_authorization, get_document,
  per_user_oauth, update_where, get_connection,
}
use knowledge_graph_mvp.SpiceDb.{is_direct_grant}
use knowledge_graph_mvp.SpiceDb.Laws.{list_server, list_server-Serves}
use knowledge_graph_mvp.Identity.{normalize_trusted_email}
use knowledge_graph_mvp.Identifiers.{connection_prefix, digest, document_object_id, user_object_id}
use knowledge_graph_mvp.Lookup.{
  allowed_source_document_ids, active_mode_connections, authorization_joins, authorization_unusable,
  authorized_ids, collect_allowed, conclude, connected_users, connection_ids, current_authorization,
  document_joins, domain_mismatch, fresh_per_user_documents, granted, is_fresh_evidence,
  per_user_allowed_ids, restricted, select_documents, usable_authorization,
  valid_direct_resource_ids, visibility_cutoff,
}
use knowledge_graph_mvp.PermissionAuthority.{
  switch_permission_authority, denied_db, disable, disconnect, invalidate_authorizations,
  invalidate_document, requeue_document, activate_connection, delete_connection_relationships,
  deny_connection, finish_switch, switch_connection, validate_target,
}
use knowledge_graph_mvp.PermissionAuthority.Denial.{denied_db-IsDenied}
use knowledge_graph_mvp.PermissionAuthority.Outcome.{Outcome, switch_permission_authority-Outcome}
use knowledge_graph_mvp.PermissionAuthority.Closed.{allowed-Elsewhere}
use knowledge_graph_mvp.Examples.{env, db, connection, email}
use knowledge_graph_mvp.Examples.Access.{world}

-- The connection is still in the delegated mode.
abbrev old_db : Db
old_db = record db { connections = record connection { permission_authority = delegated_acl } ∷ [] }

-- The switch of connection 1 clears both relationships and reports it.
switch_run :
    (switch_permission_authority list_server env
      (λ pk. pk)
      9
      100
      101
      (λ d. d)
      1
      per_user_oauth
      old_db
      world).0
    ≡ ok (record {
      connection_id = 1;
      previous_authority = delegated_acl;
      permission_authority = per_user_oauth;
      documents_invalidated = 2;
      authorizations_invalidated = 1;
      relationships_deleted = 2;
      changed = true;
    })
unfolding switch_permission_authority validate_target get_connection first keep contains
    switch_connection deny_connection effective_root_id finish_switch
    delete_connection_relationships ◌>>=◌ call lift pure activate_connection connection_prefix
    denied_db invalidate_authorizations disable starts_with decimal decimal_rounds update_where
    minus disconnect
switch_run = refl

switch_permission_authority-Outcome_example :
    Outcome list_server list_server-Serves 1 per_user_oauth old_db world (
      switch_permission_authority list_server env
        (λ pk. pk)
        9
        100
        101
        (λ d. d)
        1
        per_user_oauth
        old_db
        world)
switch_permission_authority-Outcome_example =
    switch_permission_authority-Outcome list_server list_server-Serves 1 per_user_oauth old_db world
      env (λ pk. pk) 9 100 101 (λ d. d) (λ d denial. denial)

-- A second connection is denied; the user of the first keeps a document.
abbrev closed_db : Db
closed_db =
    denied_db (λ pk. pk) 9 100 2
      (record db { connections = connection ∷ record connection { pk = 2 } ∷ [] })

closed_run : allowed_source_document_ids list_server env 100 closed_db email world ≡ (7 ∷ [], world)
unfolding allowed_source_document_ids normalize_trusted_email any conclude collect_allowed
    active_mode_connections contains keep ◌>>=◌ connection_ids per_user_allowed_ids
    current_authorization domain_mismatch after_last effective_root_id usable_authorization
    authorization_unusable subset connection_prefix digest document_object_id user_object_id
    authorization_joins authorized_ids connected_users document_joins fresh_per_user_documents
    granted is_fresh_evidence restricted select_documents valid_direct_resource_ids
    visibility_cutoff at_least get_authorization get_document all first insert_by sort_by call pure
    add to_set decimal decimal_rounds is_space lower lower_char lstrip starts_with strip
    is_direct_grant denied_db invalidate_authorizations disable disconnect invalidate_document
    requeue_document update_where
closed_run = refl

allowed-Elsewhere_example :
    (d : SourceDocument) × In d closed_db.documents × (d.pk ≡ 7) × (d.connection ≢ 2)
allowed-Elsewhere_example =
    allowed-Elsewhere list_server list_server-Serves env 100 closed_db 2
      (denied_db-IsDenied (λ pk. pk) 9 100 2
        (record db { connections = connection ∷ record connection { pk = 2 } ∷ [] }))
      email world 7 (subst (λ p. In 7 p.0) (sym closed_run) (inl refl))
