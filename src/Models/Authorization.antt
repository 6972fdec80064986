-- ===== src/Models/Authorization.antt =====
-- `GoogleDriveAuthorization` and the durable runs of the visibility sync.
use knowledge_graph_mvp.Prelude.{Bool, List, Option, String, Text, [], false, none, true, ℕ, ◌∷◌}

pub data AuthorizationStatus : Type 0 where
  active scope_missing refresh_failed revoked disconnected : AuthorizationStatus

abbrev pub is_active : AuthorizationStatus → Bool
is_active active = true
is_active _ = false

pub record GoogleDriveAuthorization : Type 0 where
  pub pk : ℕ
  pub connection : ℕ
  pub google_issuer : String
  pub google_subject : Text
  pub normalized_email : Text
  pub workspace_domain : Text
  pub encrypted_refresh_credential : Text
  pub encryption_key_version : Text
  pub granted_scopes : List String
  pub connection_generation : ℕ
  pub authorization_generation : ℕ
  pub status : AuthorizationStatus
  pub last_successful_visibility_sync_at : Option ℕ
  pub disconnected_at : Option ℕ
  pub updated_at : ℕ

-- `GOOGLE_ISSUERS` and `REQUIRED_SCOPES` of integrations/drive/user_oauth.py.
abbrev pub google_issuers : List String
google_issuers = "accounts.google.com" ∷ "https://accounts.google.com" ∷ []

abbrev pub required_scopes : List String
required_scopes =
    "https://www.googleapis.com/auth/drive.metadata.readonly"
    ∷ "https://www.googleapis.com/auth/userinfo.email" ∷ "openid" ∷ []

pub data RunStatus : Type 0 where
  queued running succeeded partial failed : RunStatus

abbrev pub is_queued : RunStatus → Bool
is_queued queued = true
is_queued _ = false

abbrev pub is_running : RunStatus → Bool
is_running running = true
is_running _ = false

-- `status in {QUEUED, RUNNING}`
abbrev pub is_open : RunStatus → Bool
is_open queued = true
is_open running = true
is_open _ = false

pub record UserVisibilitySyncRun : Type 0 where
  pub pk : ℕ
  pub connection : ℕ
  pub authorization : ℕ
  pub connection_generation : ℕ
  pub authorization_generation : ℕ
  pub status : RunStatus
  pub documents_considered : ℕ
  pub documents_verified_visible : ℕ
  pub documents_denied : ℕ
  pub documents_unknown : ℕ
  pub relationships_touched : ℕ
  pub relationships_deleted : ℕ
  pub error_code : String
  pub started_at : Option ℕ
  pub finished_at : Option ℕ

-- `UserVisibilitySyncRun.create_for_authorization`, at the primary key that the database gives.
unfoldable pub create_for_authorization : ℕ → GoogleDriveAuthorization → UserVisibilitySyncRun
create_for_authorization pk authorization = record {
  pk = pk;
  connection = authorization.connection;
  authorization = authorization.pk;
  connection_generation = authorization.connection_generation;
  authorization_generation = authorization.authorization_generation;
  status = queued;
  documents_considered = 0;
  documents_verified_visible = 0;
  documents_denied = 0;
  documents_unknown = 0;
  relationships_touched = 0;
  relationships_deleted = 0;
  error_code = "";
  started_at = none;
  finished_at = none;
}
