-- ===== src/VisibilitySync/Queue.antt =====
-- `queue_user_visibility_sync` of apps/backend/integrations/drive/user_visibility_sync.py. `new_pk` is the
-- key that the database gives to a new run. Beside the outcome and the database stand the keys that
-- `dispatch` was called with.
pub mod Owned
use knowledge_graph_mvp.Prelude.{
  Bool, List, Result, String, Text, [], err, false, first, if◌then◌else◌, is_empty, keep, list_eq,
  lower, ltb, nat_eq, none, not, ok, some, string_eq, subset, ℕ, ◌&&◌, ◌++◌, ◌==◌, ◌||◌, ◌∷◌,
}
use knowledge_graph_mvp.Models.{
  Env, Db, DriveConnection, GoogleDriveAuthorization, UserVisibilitySyncRun,
  create_for_authorization, effective_root_id, get_connection, is_active, is_open, is_running,
  per_user_oauth, required_scopes, running,
}
use knowledge_graph_mvp.Identity.{normalize_trusted_email}
use knowledge_graph_mvp.Lookup.{connected_users}
use knowledge_graph_mvp.VisibilitySync.{invalidate_authorization_evidence}

-- The columns that the filter reaches through the connection.
unfoldable pub connection_joins : Db → GoogleDriveAuthorization → Bool
connection_joins db a = elim (get_connection db a.connection) [
  | none ↦ false
  | some c ↦ c.enabled && c.permission_authority == per_user_oauth
]

unfoldable pub active_authorizations : Db → Text → List GoogleDriveAuthorization
active_authorizations db normalized_email =
    keep
      (λ a. a.normalized_email == normalized_email && (is_active a.status && connection_joins db a))
      db.authorizations

unfoldable pub queue_scope_invalid : Env → GoogleDriveAuthorization → DriveConnection → Bool
queue_scope_invalid env a connection =
    let allowed_domain = lower env.settings.google_user_oauth_allowed_domain in
    not (lower a.workspace_domain == allowed_domain)
    || (not (lower connection.workspace_domain == allowed_domain)
        || (is_empty (effective_root_id connection)
            || (not (a.connection_generation == connection.authorization_generation)
                || (not (subset required_scopes a.granted_scopes)
                    || (is_empty a.encrypted_refresh_credential
                        || is_empty a.encryption_key_version)))))

abbrev pub Queued : Type 0
Queued = Result String UserVisibilitySyncRun × Db × List ℕ

unfoldable pub active_runs : Db → GoogleDriveAuthorization → List UserVisibilitySyncRun
active_runs db a = keep (λ r. r.authorization == a.pk && is_open r.status) db.visibility_runs

-- No run is under way: the first that waits, or a new one, is dispatched.
unfoldable pub dispatch_run :
    ℕ → Db → GoogleDriveAuthorization → List UserVisibilitySyncRun → Queued
dispatch_run new_pk db a [] =
    let run = create_for_authorization new_pk a in
    (ok run, record db { visibility_runs = db.visibility_runs ++ run ∷ [] }, new_pk ∷ [])
dispatch_run new_pk db a (run ∷ rest) = (ok run, db, run.pk ∷ [])

unfoldable pub pick_run : ℕ → Db → GoogleDriveAuthorization → Queued
pick_run new_pk db a = elim (first (keep (λ r. is_running r.status) (active_runs db a))) [
  | some under_way ↦ (ok under_way, db, [])
  | none ↦ dispatch_run new_pk db a (active_runs db a)
]

unfoldable pub queue_authorization :
    Env → ℕ → ℕ → Db → GoogleDriveAuthorization → DriveConnection → Queued
queue_authorization env now new_pk db a connection =
    if queue_scope_invalid env a connection
    then (err "authorization_unavailable", db, [])
    else if ltb env.settings.google_user_visibility_max_users (connected_users db connection)
    then (
      err "authorization_unavailable",
      invalidate_authorization_evidence now a.pk "user_cap_exceeded" db,
      [],
    )
    else pick_run new_pk db a

-- The one authorization of the user, and its connection.
unfoldable pub queue_found : Env → ℕ → ℕ → Db → List GoogleDriveAuthorization → Queued
queue_found env now new_pk db (a ∷ []) = elim (get_connection db a.connection) [
  | none ↦ (err "authorization_unavailable", db, [])
  | some connection ↦ queue_authorization env now new_pk db a connection
]
queue_found env now new_pk db _ = (err "authorization_unavailable", db, [])

unfoldable pub queue_user_visibility_sync : Env → ℕ → ℕ → Text → Db → Queued
queue_user_visibility_sync env now new_pk user_email db =
    elim (normalize_trusted_email env user_email) [
      | none ↦ (err "authorization_unavailable", db, [])
      | some normalized_email ↦
          if not (env.settings.google_permission_authority == per_user_oauth)
          then (err "permission_authority_mismatch", db, [])
          else queue_found env now new_pk db (active_authorizations db normalized_email)
    ]
