-- ===== src/Models/Connection.antt =====
-- `DriveConnection` of apps/backend/integrations/models.py.
use knowledge_graph_mvp.Prelude.{Bool, List, Option, String, Text, [], ℕ, ◌∷◌}

pub data ScopeType : Type 0 where
  folder shared_drive : ScopeType

-- The values of `DriveConnection.PermissionAuthority`; the column is a plain text.
abbrev pub delegated_acl : String
delegated_acl = "delegated_acl"

abbrev pub per_user_oauth : String
per_user_oauth = "per_user_oauth"

abbrev pub permission_authority_values : List String
permission_authority_values = delegated_acl ∷ per_user_oauth ∷ []

pub record DriveConnection : Type 0 where
  pub pk : ℕ
  pub workspace_domain : Text
  pub scope_type : ScopeType
  pub root_folder_id : Text
  pub shared_drive_id : Text
  pub permission_authority : String
  pub authorization_generation : ℕ
  pub permission_authority_changed_at : Option ℕ
  pub enabled : Bool
  pub updated_at : ℕ

root_of : ScopeType → DriveConnection → Text
root_of shared_drive c = c.shared_drive_id
root_of folder c = c.root_folder_id

unfoldable pub effective_root_id : DriveConnection → Text
unfolding root_of
effective_root_id c = root_of c.scope_type c
