-- ===== src/Examples.antt =====
-- A small installation in the per-user mode, for the concrete runs: one connection, two documents
-- and one user, who may see the first document.
pub mod Ids
pub mod Oauth
pub mod Access
pub mod Answers
pub mod Authority
pub mod Visibility
pub mod Chunks
pub mod Sync
pub mod Groups
pub mod Acl
pub mod Processes
use knowledge_graph_mvp.Prelude.{
  List, Option, Text, [], any, codes, decimal, list_eq, nat_eq, none, some, string_eq, true, ℕ,
  ◌++◌, ◌==◌, ◌∷◌,
}
use knowledge_graph_mvp.Models.{
  Env, Db, DriveConnection, SourceDocument, GoogleDriveAuthorization, UserDocumentVisibility,
  folder, active, succeeded, verified_visible, unknown, per_user_oauth, required_scopes,
}
use knowledge_graph_mvp.SpiceDb.{PermissionTuple}
use knowledge_graph_mvp.Retrieval.Types.{RetrievalEvidence}
use knowledge_graph_mvp.Retrieval.Context.{AssembledContext}
use knowledge_graph_mvp.Retrieval.Services.{GeneratedAnswer}

abbrev pub email : Text
email = codes "a@x.io"

abbrev pub user : Text
user = codes "c1_u1:a@x.io"

abbrev pub env : Env
env = record {
  settings = record {
    google_permission_authority = per_user_oauth;
    google_user_oauth_allowed_domain = codes "x.io";
    google_user_visibility_max_age_seconds = 50;
    google_user_visibility_max_users = 5;
    google_user_visibility_max_documents = 10;
    permission_verification_max_age_seconds = 50;
    query_context_max_chars = 200;
  };
  sha256 = λ t. t;
  valid_email = λ t. any (λ c. c == b'@') t;
}

abbrev pub connection : DriveConnection
connection = record {
  pk = 1;
  workspace_domain = codes "x.io";
  scope_type = folder;
  root_folder_id = codes "root";
  shared_drive_id = [];
  permission_authority = per_user_oauth;
  authorization_generation = 4;
  permission_authority_changed_at = none;
  enabled = true;
  updated_at = 0;
}

abbrev pub document : ℕ → SourceDocument
document pk = record {
  pk = pk;
  connection = 1;
  drive_file_id = codes "f" ++ decimal pk;
  title = codes "Plan";
  mime_type = "text/plain";
  drive_url = codes "https://drive";
  modified_time = none;
  content_hash = [];
  parent_folder_ids = [];
  source_permissions_version = codes "v1";
  last_permission_sync_time = none;
  active_in_scope = true;
  last_seen_sync_marker = 0;
  spicedb_permissions_version = codes "v1";
  spicedb_revision = codes "r";
  spicedb_verified_at = some 90;
  graph_extraction_status = succeeded;
  graph_extraction_error_summary = "";
  graph_extraction_attempts = 0;
  graph_extraction_queued_at = none;
  graph_extraction_started_at = none;
  graph_extraction_finished_at = none;
  retrieval_eligible = true;
  exclusion_reason = "";
  updated_at = 0;
}

abbrev pub authorization : GoogleDriveAuthorization
authorization = record {
  pk = 3;
  connection = 1;
  google_issuer = "accounts.google.com";
  google_subject = codes "s";
  normalized_email = email;
  workspace_domain = codes "x.io";
  encrypted_refresh_credential = codes "z";
  encryption_key_version = codes "k";
  granted_scopes = required_scopes;
  connection_generation = 4;
  authorization_generation = 6;
  status = active;
  last_successful_visibility_sync_at = none;
  disconnected_at = none;
  updated_at = 0;
}

abbrev pub visibility : ℕ → UserDocumentVisibility
visibility document_id = record {
  authorization = 3;
  source_document = document_id;
  connection_generation = 4;
  authorization_generation = 6;
  state = verified_visible;
  checked_at = 80;
  visibility_sync_marker = 0;
  spicedb_revision = codes "r";
  spicedb_verified_at = some 80;
  reason_code = "";
  updated_at = 80;
}

abbrev pub db : Db
db = record {
  connections = connection ∷ [];
  documents = document 7 ∷ document 8 ∷ [];
  authorizations = authorization ∷ [];
  visibilities = visibility 7 ∷ [];
  visibility_runs = [];
}

-- The user's direct grant of a document, written out.
abbrev pub grant : Text → PermissionTuple
grant resource_id = record {
  resource_type = "kgm/document";
  resource_id = resource_id;
  relation = "oauth_viewer";
  subject_type = "kgm/user";
  subject_id = user;
  subject_relation = "";
}

-- Neo4j finds a passage in each document, and the generator repeats the context.
abbrev pub retrieve : Text → List ℕ → Option RetrievalEvidence
retrieve question allowed = some (record {
  chunks =
      record { source_document_id = 7; chunk_id = codes "p"; text = codes "hello  there" }
      ∷ record { source_document_id = 8; chunk_id = codes "q"; text = codes "secret" }
      ∷ [];
  facts = [];
})

abbrev pub generate : Text → AssembledContext → Option GeneratedAnswer
generate question context = some (record { answer = context.text; supported = true })
