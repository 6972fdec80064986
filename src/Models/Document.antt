-- ===== src/Models/Document.antt =====
-- `SourceDocument`, its permission snapshot and its visibility evidence.
use knowledge_graph_mvp.Prelude.{
  Bool, List, Option, String, Text, false, leb, list_eq, nat_eq, none, some, string_eq, true, ℕ,
  ◌&&◌, ◌-◌, ◌==◌,
}
use knowledge_graph_mvp.Models.Settings.{Settings}

pub data GraphExtractionStatus : Type 0 where
  pending running succeeded failed skipped : GraphExtractionStatus

pub record SourceDocument : Type 0 where
  pub pk : ℕ
  pub connection : ℕ
  pub drive_file_id : Text
  pub title : Text
  pub mime_type : String
  pub drive_url : Text
  pub modified_time : Option ℕ
  pub content_hash : Text
  pub parent_folder_ids : List Text
  pub source_permissions_version : Text
  pub last_permission_sync_time : Option ℕ
  pub active_in_scope : Bool
  pub last_seen_sync_marker : ℕ
  pub spicedb_permissions_version : Text
  pub spicedb_revision : Text
  pub spicedb_verified_at : Option ℕ
  pub graph_extraction_status : GraphExtractionStatus
  pub graph_extraction_error_summary : String
  pub graph_extraction_attempts : ℕ
  pub graph_extraction_queued_at : Option ℕ
  pub graph_extraction_started_at : Option ℕ
  pub graph_extraction_finished_at : Option ℕ
  pub retrieval_eligible : Bool
  pub exclusion_reason : String
  pub updated_at : ℕ

abbrev pub is_succeeded : GraphExtractionStatus → Bool
is_succeeded succeeded = true
is_succeeded _ = false

-- `column >= cutoff` on a nullable time: NULL passes no comparison.
unfoldable pub at_least : ℕ → Option ℕ → Bool
at_least cutoff none = false
at_least cutoff (some t) = leb cutoff t

unfoldable pub permission_verification_cutoff : Settings → ℕ → ℕ
permission_verification_cutoff settings now = now - settings.permission_verification_max_age_seconds

-- `SourceDocumentQuerySet.permission_verified`, as the test on one row.
unfoldable pub permission_verified : Settings → ℕ → SourceDocument → Bool
unfolding at_least permission_verification_cutoff
permission_verified settings now d =
    d.active_in_scope
    && (d.retrieval_eligible
        && (at_least (permission_verification_cutoff settings now) d.spicedb_verified_at
            && d.spicedb_permissions_version == d.source_permissions_version))

-- `SourceDocument.is_permission_verified`: the twin on an instance, with both versions pinned.
unfoldable pub is_permission_verified : Settings → ℕ → SourceDocument → Text → Bool
unfolding at_least permission_verification_cutoff
is_permission_verified settings now d version =
    d.active_in_scope
    && (d.retrieval_eligible
        && (at_least (permission_verification_cutoff settings now) d.spicedb_verified_at
            && (d.source_permissions_version == version
                && d.spicedb_permissions_version == version)))

pub data VisibilityState : Type 0 where
  verified_visible denied unknown : VisibilityState

abbrev pub is_visible : VisibilityState → Bool
is_visible verified_visible = true
is_visible _ = false

abbrev pub is_denied : VisibilityState → Bool
is_denied denied = true
is_denied _ = false

abbrev pub is_unknown : VisibilityState → Bool
is_unknown unknown = true
is_unknown _ = false

pub record UserDocumentVisibility : Type 0 where
  pub authorization : ℕ
  pub source_document : ℕ
  pub connection_generation : ℕ
  pub authorization_generation : ℕ
  pub state : VisibilityState
  pub checked_at : ℕ
  pub visibility_sync_marker : ℕ
  pub spicedb_revision : Text
  pub spicedb_verified_at : Option ℕ
  pub reason_code : String
  pub updated_at : ℕ
