-- ===== src/Tasks.antt =====
-- apps/backend/integrations/tasks.py: the background tasks on a document's extraction, and the sweeps
-- of what a dead worker has left running. The pipeline behind a task is a parameter, `meanwhile` what
-- other processes do to the database while it runs.
pub mod Steps
pub mod Gate
pub mod Kept
pub mod Sweeps
use knowledge_graph_mvp.Prelude.{
  Bool, List, Option, String, Text, [], any, false, first, if◌then◌else◌, is_empty, keep, list_eq,
  ltb, nat_eq, none, not, some, string_eq, suc, true, ℕ, ◌&&◌, ◌==◌,
}
use knowledge_graph_mvp.Models.{
  Env, Db, DriveConnection, SourceDocument, GraphExtractionStatus, update_where, get_connection,
  per_user_oauth, is_succeeded, failed, running, skipped, succeeded,
}

-- The columns of `SourceDocumentContent` that the tasks read.
pub record SourceDocumentContent : Type 0 where
  pub source_document : ℕ
  pub content_hash : Text

pub record TaskDb : Type 0 where
  pub tables : Db
  pub contents : List SourceDocumentContent

abbrev pub is_failed : GraphExtractionStatus → Bool
is_failed GraphExtractionStatus.failed = true
is_failed _ = false

-- What `_set_graph_extraction_state` writes; a time that is `none` was not passed.
pub record Transition : Type 0 where
  pub status : GraphExtractionStatus
  pub error_summary : String
  pub started_at : Option ℕ
  pub finished_at : Option ℕ

abbrev or_old : Option ℕ → Option ℕ → Option ℕ
or_old none old = old
or_old (some t) old = some t

unfoldable pub transition : ℕ → Transition → SourceDocument → SourceDocument
transition now t d = record d {
  graph_extraction_status = t.status;
  graph_extraction_error_summary = t.error_summary;
  graph_extraction_attempts =
      if is_failed t.status then suc d.graph_extraction_attempts else d.graph_extraction_attempts;
  graph_extraction_started_at = or_old t.started_at d.graph_extraction_started_at;
  graph_extraction_finished_at = or_old t.finished_at d.graph_extraction_finished_at;
  updated_at = now;
}

-- The row, with the content that is expected; `none` expects nothing.
unfoldable pub is_target : ℕ → Option Text → SourceDocument → Bool
is_target document_id none d = d.pk == document_id
is_target document_id (some content_hash) d = d.pk == document_id && d.content_hash == content_hash

unfoldable pub set_graph_extraction_state :
    ℕ → ℕ → Option Text → Transition → TaskDb → Bool × TaskDb
set_graph_extraction_state now document_id expected t db = (
  any (is_target document_id expected) db.tables.documents,
  record db {
    tables = record db.tables {
      documents =
          update_where (is_target document_id expected) (transition now t) db.tables.documents;
    };
  },
)

-- The connection of a document, in the per-user mode and on.
unfoldable pub is_per_user : Db → SourceDocument → Bool
is_per_user db d = elim (get_connection db d.connection) [
  | none ↦ false
  | some c ↦ c.enabled && c.permission_authority == per_user_oauth
]

unfoldable pub is_ready : TaskDb → ℕ → Text → SourceDocument → Bool
is_ready db document_id expected d =
    d.pk == document_id
    && (d.content_hash == expected
        && (any (λ c. c.source_document == d.pk && c.content_hash == expected) db.contents
            && (d.active_in_scope
                && (d.exclusion_reason == ""
                    && (is_succeeded d.graph_extraction_status
                        && (is_per_user db.tables d
                            && not (is_empty d.source_permissions_version)))))))

unfoldable pub open_gate : ℕ → SourceDocument → SourceDocument
open_gate now d = record d { retrieval_eligible = true; updated_at = now }

unfoldable pub mark_per_user_content_ready : Env → ℕ → ℕ → Text → TaskDb → TaskDb
mark_per_user_content_ready env now document_id expected db =
    if not (env.settings.google_permission_authority == per_user_oauth) then db else record db {
      tables = record db.tables {
        documents =
            update_where (is_ready db document_id expected) (open_gate now) db.tables.documents;
      };
    }

unfoldable pub current_content_hash : TaskDb → ℕ → Text
current_content_hash db document_id =
    elim (first (keep (λ c. c.source_document == document_id) db.contents)) [
      | none ↦ []
      | some c ↦ c.content_hash
    ]

-- What the pipeline ends with: the status of its result, or an exception by the name of its type, with
-- the answer whether it is retryable.
pub data Extracted : Type 0 where
  extracted : String → Extracted
  raised : String → Bool → Extracted

-- What a task ends with.
pub data TaskEnd : Type 0 where
  returned : String → TaskEnd
  retried : TaskEnd
  raises : String → TaskEnd

abbrev pub stale : TaskEnd
stale = returned "skipped_stale_content_version"

unfoldable pub max_retries : ℕ
max_retries = 3

module _ (env : Env) (retries now finished_at document_id : ℕ) where
  unfoldable pub fail_extraction : String → Text → TaskDb → TaskEnd × TaskDb
  fail_extraction name expected db =
      let (updated, db') =
        set_graph_extraction_state finished_at document_id (some expected)
          (record {
            status = GraphExtractionStatus.failed;
            error_summary = name;
            started_at = none;
            finished_at = some finished_at;
          })
          db in
      (if updated then raises name else stale, db')

  unfoldable pub succeed_extraction : String → Text → TaskDb → TaskEnd × TaskDb
  succeed_extraction status expected db =
      let done = status == "extracted" in
      let (updated, db') =
        set_graph_extraction_state finished_at document_id (some expected)
          (record {
            status =
                if done then GraphExtractionStatus.succeeded else GraphExtractionStatus.skipped;
            error_summary = if done then "" else status;
            started_at = none;
            finished_at = some finished_at;
          })
          db in
      if not updated then (stale, db') else (
        returned status,
        if done then mark_per_user_content_ready env finished_at document_id expected db' else db',
      )

  unfoldable pub after_extraction : Extracted → Text → TaskDb → TaskEnd × TaskDb
  after_extraction (raised name retryable) expected db =
      if retryable && not (current_content_hash db document_id == expected)
      then (stale, db)
      else if retryable && ltb retries max_retries
      then (retried, db)
      else fail_extraction name expected db
  after_extraction (extracted status) expected db =
      if status == "skipped_stale_content_version"
      then (returned status, db)
      else succeed_extraction status expected db

  module _ {G : Type 0} (extract : ℕ → Text → G → Extracted × G) (meanwhile : TaskDb → TaskDb) where
    unfoldable pub run_extraction : Text → TaskDb → G → TaskEnd × TaskDb × G
    run_extraction expected db g =
        let (updated, started) =
          set_graph_extraction_state now document_id (some expected)
            (record {
              status = GraphExtractionStatus.running;
              error_summary = "";
              started_at = some now;
              finished_at = none;
            })
            db in
        let (outcome, g') = extract document_id expected g in
        let (end', db') = after_extraction outcome expected (meanwhile started) in
        if not updated then (stale, started, g) else (end', db', g')

    -- An `expected_content_hash` that is `None` or empty is [].
    unfoldable pub queue_document_extraction : Text → TaskDb → G → TaskEnd × TaskDb × G
    queue_document_extraction expected_content_hash db g =
        let expected =
          if is_empty expected_content_hash
          then current_content_hash db document_id
          else expected_content_hash in
        let (updated, db_skipped) =
          set_graph_extraction_state now document_id none
            (record {
              status = GraphExtractionStatus.skipped;
              error_summary = "skipped_no_content";
              started_at = none;
              finished_at = some now;
            })
            db in
        if is_empty expected
        then (returned "skipped_no_content", db_skipped, g)
        else run_extraction expected db g
