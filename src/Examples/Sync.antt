-- ===== src/Examples/Sync.antt =====
-- A visibility run that succeeds: document 7 is visible, document 8 is not, and both were granted.
use knowledge_graph_mvp.Prelude.{
  List, Result, String, [], add, after_last, all, any, ap, call, contains, decimal, decimal_rounds,
  first, is_space, keep, lift, list_eq, lower, lower_char, lstrip, minus, nat_eq, ok, pure, refl,
  same_set, some, starts_with, string_eq, strip, subset, text_ltb, texts_ltb, to_set, ℕ, ◌>>=◌, ◌∷◌,
  ◌≡◌,
}
use knowledge_graph_mvp.Models.{
  Db, UserVisibilitySyncRun, VisibilityState, verified_visible, RunStatus, effective_root_id,
  get_authorization, get_connection, get_visibility_run, update_where,
}
use knowledge_graph_mvp.SpiceDb.{PermissionTuple, is_direct_grant, min_tuple, tuple_ltb}
use knowledge_graph_mvp.SpiceDb.Laws.{list_server, list_server-Serves}
use knowledge_graph_mvp.Identity.{normalize_trusted_email}
use knowledge_graph_mvp.Identifiers.{connection_prefix, digest, document_object_id, user_object_id}
use knowledge_graph_mvp.OauthViewer.{
  reconcile_oauth_viewer_relationships, authority_mismatch, collect_ids, desired_tuples,
  direct_grant, indexed_ids, reconcile_scope, touches_of, validate_current_scope,
  validated_connection, validated_user_id,
}
use knowledge_graph_mvp.VisibilityClient.{IndexedVisibilityBatch}
use knowledge_graph_mvp.VisibilitySync.{
  validated_results, collect_results, scope_invalid, visible_ids_of,
}
use knowledge_graph_mvp.VisibilitySync.Run.{
  sync_checked, commit_rows, commit_verified_results, committed_row, finished_run, is_row, save_run,
}
use knowledge_graph_mvp.VisibilitySync.Granted.{IsGranted, sync_checked-IsGranted}
use knowledge_graph_mvp.Examples.{env, connection, authorization, visibility}
use knowledge_graph_mvp.Examples.Access.{world}
use knowledge_graph_mvp.Examples.Visibility.{get, sleep, run, sync_db}

abbrev batch : IndexedVisibilityBatch
batch = record {
  authorization_id = 3;
  connection_generation = 4;
  authorization_generation = 6;
  results =
      record { source_document_id = 7; state = verified_visible; reason_code = "" }
      ∷ record {
        source_document_id = 8;
        state = VisibilityState.denied;
        reason_code = "inaccessible";
      }
      ∷ [];
}

abbrev checked_db : Db
checked_db = record sync_db {
  visibilities =
      record (visibility 7) { visibility_sync_marker = 77 }
      ∷ record (visibility 8) { visibility_sync_marker = 77 }
      ∷ [];
}

abbrev checked : Result String UserVisibilitySyncRun × Db × ℕ × List PermissionTuple
checked =
    sync_checked get sleep list_server env 100 77 101 102 (λ x. x) (λ x. x) 11
      (run, connection, authorization) (7 ∷ 8 ∷ []) batch checked_db 0 world

abbrev finished : UserVisibilitySyncRun
finished = record run {
  status = RunStatus.succeeded;
  documents_considered = 2;
  documents_verified_visible = 1;
  documents_denied = 1;
  relationships_touched = 1;
  relationships_deleted = 1;
  finished_at = some 101;
}

checked_run : checked.0 ≡ ok finished
unfolding sync_checked validated_results collect_results visible_ids_of
    reconcile_oauth_viewer_relationships commit_verified_results commit_rows committed_row is_row
    finished_run save_run get_visibility_run get_authorization scope_invalid ◌>>=◌ lift
    validated_connection get_connection first keep authority_mismatch effective_root_id
    validated_user_id normalize_trusted_email any after_last desired_tuples collect_ids add same_set
    subset connection_prefix digest document_object_id user_object_id direct_grant indexed_ids
    reconcile_scope touches_of validate_current_scope all call pure contains minus to_set decimal
    decimal_rounds is_space lower lower_char lstrip strip starts_with text_ltb texts_ltb
    is_direct_grant min_tuple tuple_ltb update_where
checked_run = refl

sync_checked-IsGranted_example :
    IsGranted get sleep list_server list_server-Serves env 100 77 101 102
      (λ x. x)
      (λ x. x)
      11
      run
      connection
      authorization
      (7 ∷ 8 ∷ [])
      batch
      checked_db
      world
      checked.3
sync_checked-IsGranted_example =
    sync_checked-IsGranted get sleep list_server list_server-Serves env 100 77 101 102 (λ x. x)
      (λ x. x) 11 run connection authorization (7 ∷ 8 ∷ []) batch checked_db 0 checked.2 world
      checked.3 finished checked.1 (ap (λ x. (x, checked.1, checked.2, checked.3)) checked_run)
