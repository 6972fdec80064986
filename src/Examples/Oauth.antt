-- ===== src/Examples/Oauth.antt =====
-- Concrete runs of the reconciliation of direct grants.
use knowledge_graph_mvp.Prelude.{
  In, List, Text, [], add, after_last, all, any, call, codes, contains, decimal, decimal_rounds,
  false, first, inl, inr, is_space, keep, lift, list_eq, lower, lower_char, lstrip, minus, nat_eq,
  ok, pure, refl, same_set, starts_with, string_eq, strip, subset, text_ltb, texts_ltb, to_set,
  true, ℕ, ◌>>=◌, ◌↔◌, ◌∷◌, ◌≡◌, ◌⊎◌,
}
use knowledge_graph_mvp.SpiceDb.{PermissionTuple, is_direct_grant, min_tuple, tuple_ltb}
use knowledge_graph_mvp.SpiceDb.Laws.{list_server, list_server-Serves, list_server-Answers}
use knowledge_graph_mvp.Identity.{normalize_trusted_email}
use knowledge_graph_mvp.Identifiers.{connection_prefix, digest, document_object_id, user_object_id}
use knowledge_graph_mvp.Models.{DriveConnection, SourceDocument, effective_root_id, get_connection}
use knowledge_graph_mvp.OauthViewer.{
  OauthViewerReconciliation, reconcile_oauth_viewer_relationships, reconcile_scope,
  validated_connection, validated_user_id, direct_grant, authority_mismatch, collect_ids,
  desired_tuples, indexed_ids, touches_of, validate_current_scope,
}
use knowledge_graph_mvp.OauthViewer.Reconciled.{reconcile-exact}
use knowledge_graph_mvp.OauthViewer.Total.{reconcile_scope_total}
use knowledge_graph_mvp.Examples.{env, db, connection, email, user, grant}

-- The server grants document 8; the user is to have document 7.
abbrev before : List PermissionTuple
before = grant (codes "c1_d8") ∷ []

abbrev report : OauthViewerReconciliation
report = record { revision = codes "r"; relationships_touched = 1; relationships_deleted = 1 }

run :
    reconcile_oauth_viewer_relationships list_server env db connection email (7 ∷ []) before
    ≡ (ok report, grant (codes "c1_d7") ∷ [])
unfolding reconcile_oauth_viewer_relationships ◌>>=◌ lift validated_connection get_connection first
    keep authority_mismatch effective_root_id validated_user_id normalize_trusted_email any
    after_last desired_tuples collect_ids add same_set subset connection_prefix digest
    document_object_id user_object_id direct_grant indexed_ids reconcile_scope touches_of
    validate_current_scope all call pure contains minus to_set decimal decimal_rounds is_space lower
    lower_char lstrip strip starts_with text_ltb texts_ltb is_direct_grant min_tuple tuple_ltb
run = refl

reconcile-exact_example :
    (current : DriveConnection) × (subject : Text) × (validated_connection env db connection
      ≡ ok current)
    × (validated_user_id env current email ≡ ok subject)
    × ((d : ℕ)
        → In d (7 ∷ [])
        → (row : SourceDocument) × In row db.documents
          × (row.pk ≡ d)
          × (row.connection ≡ current.pk)
          × (row.active_in_scope ≡ true))
    × ((t : PermissionTuple)
        → In t (grant (codes "c1_d7") ∷ []) ↔ (
            ((d : ℕ) × In d (7 ∷ []) × (t ≡ direct_grant current.pk subject d))
            ⊎ (In t before × (is_direct_grant (connection_prefix current.pk) subject t ≡ false))))
reconcile-exact_example =
    reconcile-exact list_server list_server-Serves env db connection email (7 ∷ []) before
      (grant (codes "c1_d7") ∷ []) report run

desired_scoped :
    (t : PermissionTuple)
    → In t (grant (codes "c1_d7") ∷ [])
    → is_direct_grant (codes "c1_") user t ≡ true
unfolding is_direct_grant starts_with
desired_scoped t (inl e) = rw e refl
desired_scoped t (inr e) = absurd e

reconcile_scope_total_example :
    (r : OauthViewerReconciliation) × (w' : List PermissionTuple) × (reconcile_scope list_server
        (codes "c1_")
        user
        (grant (codes "c1_d7") ∷ [])
        before
      ≡ (ok r, w'))
reconcile_scope_total_example =
    reconcile_scope_total list_server list_server-Serves list_server-Answers (codes "c1_") user
      (grant (codes "c1_d7") ∷ []) desired_scoped before
