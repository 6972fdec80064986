-- ===== src/Models/Settings.antt =====
-- The values of apps/backend/config/settings.py that the modelled code reads.
use knowledge_graph_mvp.Prelude.{Bool, String, Text, ℕ}

pub record Settings : Type 0 where
  pub google_permission_authority : String
  pub google_user_oauth_allowed_domain : Text
  pub google_user_visibility_max_age_seconds : ℕ
  pub google_user_visibility_max_users : ℕ
  pub google_user_visibility_max_documents : ℕ
  pub permission_verification_max_age_seconds : ℕ
  pub query_context_max_chars : ℕ

-- The settings, `hashlib.sha256(...).hexdigest()` and Django's `validate_email`, which is not part
-- of the repository: `valid_email` is true where it raises nothing.
pub record Env : Type 0 where
  pub settings : Settings
  pub sha256 : Text → Text
  pub valid_email : Text → Bool
