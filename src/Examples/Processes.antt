-- ===== src/Examples/Processes.antt =====
-- Background tasks: an extraction that opens the gate of a document, the sweeps, and a sequence of
-- processes.
use knowledge_graph_mvp.Prelude.{
  In, Text, [], add, all, any, codes, contains, false, first, inl, inr, insert_by, keep, list_eq,
  minus, nat_eq, refl, same_set, some, sort_by, string_eq, subset, suc, sym, to_set, true, union, ℕ,
  ◌∙◌, ◌∷◌, ◌≡◌,
}
use knowledge_graph_mvp.Tasks.Sweeps.Stale.{IsStaleRun, IsStaleExtraction}
use knowledge_graph_mvp.VisibilitySync.{
  error_code, invalidate_authorization_evidence, update_or_create, pending_row, prepare_rows,
  candidates_of, preinvalidate, scope_invalid, load_run, validated_run, collect_results,
  validated_results, visible_ids_of,
}
use knowledge_graph_mvp.Models.{
  Db, AclDb, SourceDocument, PermissionSyncRun, UserVisibilitySyncRun, RunStatus,
  GraphExtractionStatus, update_where, get_connection, get_authorization, get_visibility_run,
  get_document,
}
use knowledge_graph_mvp.SpiceDb.Laws.{list_server}
use knowledge_graph_mvp.PermissionSync.Sound.{AllSound}
use knowledge_graph_mvp.VisibilitySync.Evidence.{AllUnverified}
use knowledge_graph_mvp.Tasks.{
  TaskDb, TaskEnd, Extracted, extracted, queue_document_extraction, transition, is_target,
  set_graph_extraction_state, is_per_user, is_ready, open_gate, mark_per_user_content_ready,
  current_content_hash, max_retries, fail_extraction, succeed_extraction, after_extraction,
  run_extraction,
}
use knowledge_graph_mvp.Tasks.Steps.{expected_of}
use knowledge_graph_mvp.Tasks.Gate.{OpensOnly, queue_document_extraction-OpensOnly}
use knowledge_graph_mvp.Tasks.Sweeps.{
  sweep_stale_user_visibility_sync_runs, sweep_stale_permission_sync_runs,
  sweep_stale_graph_extractions, is_stale_visibility_run, is_stale_permission_run,
  is_stale_extraction, expire_permission_run, expire_extraction, expire_visibility_run, is_claimed,
  claim, expire_run, expire_runs,
}
use knowledge_graph_mvp.Tasks.Sweeps.Exact.{IsSweep}
use knowledge_graph_mvp.Tasks.Sweeps.Swept.{
  sweeps-clear, sweep_stale_user_visibility_sync_runs-AllUnverified, HasKeys,
}
use knowledge_graph_mvp.System.{Steps, stays, delegated_run, extraction_sweep, Steps-AllSound}
use knowledge_graph_mvp.Examples.{env, db, document}
use knowledge_graph_mvp.Examples.Access.{world}
use knowledge_graph_mvp.Examples.Visibility.{run, sync_db}
use knowledge_graph_mvp.Examples.Acl.{
  acl_db, acl_db-AllSound, ended, permission_run, resolve, list_resources,
}

-- Document 7 has a new content and no evidence yet.
abbrev waiting_document : SourceDocument
waiting_document = record (document 7) {
  content_hash = codes "h";
  retrieval_eligible = false;
  graph_extraction_status = GraphExtractionStatus.pending;
}

abbrev task_db : TaskDb
task_db = record {
  tables = record db { documents = waiting_document ∷ [] };
  contents = record { source_document = 7; content_hash = codes "h" } ∷ [];
}

abbrev pub extract : ℕ → Text → ℕ → Extracted × ℕ
extract document_id content_hash calls = (extracted "extracted", suc calls)

abbrev task : TaskEnd × TaskDb × ℕ
task = queue_document_extraction env 0 100 101 7 extract (λ x. x) [] task_db 0

-- The task takes the stored content, succeeds, and opens the gate.
task_run :
    (task.1).tables.documents
    ≡ record waiting_document {
      graph_extraction_status = GraphExtractionStatus.succeeded;
      graph_extraction_started_at = some 100;
      graph_extraction_finished_at = some 101;
      retrieval_eligible = true;
      updated_at = 101;
    }
      ∷ []
unfolding keep any all first insert_by sort_by contains add to_set union minus subset same_set
    update_where get_connection get_authorization get_visibility_run get_document transition
    is_target set_graph_extraction_state is_per_user is_ready open_gate mark_per_user_content_ready
    current_content_hash max_retries fail_extraction succeed_extraction after_extraction
    run_extraction queue_document_extraction is_stale_permission_run expire_permission_run
    sweep_stale_permission_sync_runs is_stale_visibility_run expire_visibility_run is_claimed claim
    expire_run expire_runs sweep_stale_user_visibility_sync_runs is_stale_extraction
    expire_extraction sweep_stale_graph_extractions error_code invalidate_authorization_evidence
    update_or_create pending_row prepare_rows candidates_of preinvalidate scope_invalid load_run
    validated_run collect_results validated_results visible_ids_of
task_run = refl

queue_document_extraction-OpensOnly_example :
    OpensOnly env 7 (expected_of task_db 7 []) task_db (task.1)
queue_document_extraction-OpensOnly_example =
    queue_document_extraction-OpensOnly env 0 100 101 7 extract (λ x. x) [] task_db 0
      (λ x d i h. (d, i, refl, h))

-- A visibility run that started at 10, and the clock is at 100 with a timeout of 60.
abbrev stuck_db : Db
stuck_db = record sync_db {
  visibility_runs = record run { status = RunStatus.running; started_at = some 10 } ∷ [];
}

one_run : HasKeys stuck_db.visibility_runs
one_run r r' (inl p) (inl q) e = p ∙ sym q
one_run r r' (inr z) j e = absurd z
one_run r r' (inl p) (inr z) e = absurd z

sweep_stale_user_visibility_sync_runs-AllUnverified_example :
    ((r : UserVisibilitySyncRun)
      → In r stuck_db.visibility_runs
      → IsStaleRun 40 r.status r.started_at
      → AllUnverified r.authorization
          ((sweep_stale_user_visibility_sync_runs 40 100 stuck_db).1).visibilities)
    × ((r : UserVisibilitySyncRun)
        → In r ((sweep_stale_user_visibility_sync_runs 40 100 stuck_db).1).visibility_runs
        → ¬ IsStaleRun 40 r.status r.started_at)
sweep_stale_user_visibility_sync_runs-AllUnverified_example =
    sweep_stale_user_visibility_sync_runs-AllUnverified 40 100 stuck_db one_run

one_run_is_swept : (sweep_stale_user_visibility_sync_runs 40 100 stuck_db).0 ≡ 1
unfolding keep any all first insert_by sort_by contains add to_set union minus subset same_set
    update_where get_connection get_authorization get_visibility_run get_document transition
    is_target set_graph_extraction_state is_per_user is_ready open_gate mark_per_user_content_ready
    current_content_hash max_retries fail_extraction succeed_extraction after_extraction
    run_extraction queue_document_extraction is_stale_permission_run expire_permission_run
    sweep_stale_permission_sync_runs is_stale_visibility_run expire_visibility_run is_claimed claim
    expire_run expire_runs sweep_stale_user_visibility_sync_runs is_stale_extraction
    expire_extraction sweep_stale_graph_extractions error_code invalidate_authorization_evidence
    update_or_create pending_row prepare_rows candidates_of preinvalidate scope_invalid load_run
    validated_run collect_results validated_results visible_ids_of
one_run_is_swept = refl

abbrev swept_acl : AclDb
swept_acl = record acl_db {
  permission_runs = record permission_run { started_at = some 10 } ∷ permission_run ∷ [];
}

abbrev swept_db : Db
swept_db = record db {
  documents =
      record (document 7) {
        graph_extraction_status = GraphExtractionStatus.running;
        graph_extraction_started_at = some 10;
      }
      ∷ document 8
      ∷ [];
}

sweeps-clear_example :
    IsSweep
      (λ (r : PermissionSyncRun). IsStaleRun 40 r.status r.started_at)
      (expire_permission_run 100)
      swept_acl.permission_runs
      ((sweep_stale_permission_sync_runs 40 100 swept_acl).1).permission_runs
    × IsSweep
        (IsStaleExtraction 40)
        (expire_extraction 100)
        swept_db.documents
        ((sweep_stale_graph_extractions 40 100 swept_db).1).documents
sweeps-clear_example = sweeps-clear 40 100 swept_acl swept_db

-- The delegated run of the other example, and the sweep behind it.
abbrev swept_after : Db
swept_after = (sweep_stale_graph_extractions 40 100 (ended.1).tables).1

two-Steps : Steps list_server env list_resources resolve extract acl_db.tables swept_after
two-Steps =
    extraction_sweep 40 100
      (delegated_run acl_db permission_run 101 102 77 100 (λ x. x) 0 world stays (λ x. stays))

Steps-AllSound_example : AllSound swept_after.documents
Steps-AllSound_example =
    Steps-AllSound list_server env list_resources resolve extract acl_db.tables swept_after
      two-Steps acl_db-AllSound
