-- ===== src/Lookup.antt =====
-- apps/backend/authorization/lookup.py: which documents a user may ask about. The clock is read
-- once for each call, `now`; ids are positive numbers, so the tests of their Python types hold.
pub mod Fresh
pub mod Evidence
pub mod Granted
pub mod Access
pub mod Recheck
use knowledge_graph_mvp.Prelude.{
  Bool, Exec, List, Option, Result, Text, [], after_last, call, contains, err, false, if◌then◌else◌,
  is_empty, keep, leb, length, list_eq, lower, ltb, map, nat_eq, none, not, ok, pure, raise, some,
  sort_by, string_eq, strip, subset, take, to_set, true, ℕ, ◌&&◌, ◌++◌, ◌-◌, ◌==◌, ◌>>=◌, ◌>>◌,
  ◌||◌, ◌∷◌,
}
use knowledge_graph_mvp.Models.{
  Env, Db, DriveConnection, SourceDocument, GoogleDriveAuthorization, UserDocumentVisibility,
  at_least, delegated_acl, effective_root_id, get_authorization, get_document, google_issuers,
  is_active, is_visible, per_user_oauth, permission_authority_values, permission_verified,
  required_scopes, skipped,
}
use knowledge_graph_mvp.SpiceDb.{PermissionTuple, SpiceDb, tuple_eq, is_direct_grant}
use knowledge_graph_mvp.Identity.{normalize_trusted_email}
use knowledge_graph_mvp.Identifiers.{connection_prefix, document_object_id, user_object_id}

unfoldable pub visibility_cutoff : Env → ℕ → ℕ
visibility_cutoff env now = now - env.settings.google_user_visibility_max_age_seconds

unfoldable pub active_mode_connections : Env → Db → List DriveConnection
active_mode_connections env db =
    let authority = env.settings.google_permission_authority in
    let connections = keep (λ c. c.enabled && c.permission_authority == authority) db.connections in
    if not (contains permission_authority_values authority)
    then []
    else if authority == per_user_oauth && not (length connections == 1)
    then []
    else connections

-- The connection is not open to users of the e-mail's domain.
unfoldable pub domain_mismatch : Env → DriveConnection → Text → Bool
domain_mismatch env connection normalized_email =
    let allowed_domain = lower (strip env.settings.google_user_oauth_allowed_domain) in
    is_empty allowed_domain
    || (not (after_last b'@' normalized_email == allowed_domain)
        || (not (lower (strip connection.workspace_domain) == allowed_domain)
            || is_empty (effective_root_id connection)))

unfoldable pub authorization_unusable : Env → DriveConnection → GoogleDriveAuthorization → Bool
authorization_unusable env connection a =
    let allowed_domain = lower (strip env.settings.google_user_oauth_allowed_domain) in
    not (is_active a.status)
    || (not (contains google_issuers a.google_issuer)
        || (is_empty a.google_subject
            || (not (lower (strip a.workspace_domain) == allowed_domain)
                || (not (a.connection_generation == connection.authorization_generation)
                    || (not (subset required_scopes a.granted_scopes)
                        || (is_empty a.encrypted_refresh_credential
                            || is_empty a.encryption_key_version))))))

-- The active authorizations of the connection's present generation.
unfoldable pub connected_users : Db → DriveConnection → ℕ
connected_users db connection = length (
    keep
      (λ a.
        a.connection == connection.pk
        && (is_active a.status && a.connection_generation == connection.authorization_generation))
      db.authorizations)

-- The one authorization that was found, if it passes; none if there are several, or none.
unfoldable pub usable_authorization :
    Env → Db → DriveConnection → List GoogleDriveAuthorization → Option GoogleDriveAuthorization
usable_authorization env db connection (a ∷ []) =
    if authorization_unusable env connection a
    then none
    else if ltb env.settings.google_user_visibility_max_users (connected_users db connection)
    then none
    else some a
usable_authorization env db connection _ = none

unfoldable pub current_authorization :
    Env → Db → DriveConnection → Text → Option GoogleDriveAuthorization
current_authorization env db connection normalized_email =
    if domain_mismatch env connection normalized_email
    then none
    else usable_authorization env db connection (
        take 2 (
          keep (λ a. a.connection == connection.pk && a.normalized_email == normalized_email)
            db.authorizations))

-- The columns that the filter reaches through the two foreign keys of the evidence row.
unfoldable pub authorization_joins :
    Db → DriveConnection → GoogleDriveAuthorization → UserDocumentVisibility → Bool
authorization_joins db connection authorization v = elim (get_authorization db v.authorization) [
  | none ↦ false
  | some a ↦
      is_active a.status
      && (a.connection_generation == connection.authorization_generation
          && a.authorization_generation == authorization.authorization_generation)
]

unfoldable pub document_joins : DriveConnection → SourceDocument → Bool
document_joins connection d =
    d.connection == connection.pk
    && (d.active_in_scope && (d.retrieval_eligible && not (is_empty d.source_permissions_version)))

-- The evidence row itself: this user's, of the present generations, visible, fresh and verified.
unfoldable pub is_fresh_evidence :
    Env → ℕ → DriveConnection → GoogleDriveAuthorization → UserDocumentVisibility → Bool
is_fresh_evidence env now connection authorization v =
    v.authorization == authorization.pk
    && (v.connection_generation == connection.authorization_generation
        && (v.authorization_generation == authorization.authorization_generation
            && (is_visible v.state
                && (leb (visibility_cutoff env now) v.checked_at
                    && (at_least (visibility_cutoff env now) v.spicedb_verified_at
                        && not (is_empty v.spicedb_revision))))))

-- `source_document_id__in`, where a restriction is given.
unfoldable pub restricted : Option (List ℕ) → ℕ → Bool
restricted none pk = true
restricted (some wanted) pk = contains wanted pk

-- The documents of the rows that pass, `source_document_ids` being the optional restriction.
unfoldable pub select_documents :
    Env
    → ℕ
    → Db
    → DriveConnection
    → GoogleDriveAuthorization
    → Option (List ℕ)
    → List UserDocumentVisibility
    → List SourceDocument
select_documents env now db connection authorization ids [] = []
select_documents env now db connection authorization ids (v ∷ vs) =
    let rest = select_documents env now db connection authorization ids vs in
    elim (get_document db v.source_document) [
      | none ↦ rest
      | some d ↦
          if is_fresh_evidence env now connection authorization v
            && (authorization_joins db connection authorization v
                && (document_joins connection d && restricted ids d.pk))
          then d ∷ rest
          else rest
    ]

unfoldable pub fresh_per_user_documents :
    Env
    → ℕ
    → Db
    → DriveConnection
    → GoogleDriveAuthorization
    → Option (List ℕ)
    → List SourceDocument
fresh_per_user_documents env now db connection authorization ids =
    sort_by (λ d. d.pk) (select_documents env now db connection authorization ids db.visibilities)

-- The resource ids of the user's direct grants, and none at all if another tuple is among them.
unfoldable pub valid_direct_resource_ids : Env → List PermissionTuple → Text → Text → List Text
valid_direct_resource_ids env tuples prefix user_id =
    let valid = to_set (map (λ t. t.resource_id) (keep (is_direct_grant prefix user_id) tuples)) in
    if not (length valid == length (to_set tuples))
      || ltb env.settings.google_user_visibility_max_documents (length valid)
    then []
    else valid

-- The keys of the documents whose object ids are among `resources`.
unfoldable pub granted : ℕ → List Text → List SourceDocument → List ℕ
granted connection resources documents =
    map (λ d. d.pk) (keep (λ d. contains resources (document_object_id connection d.pk)) documents)

-- Any exception, and the early `return ()`: both end the lookup with no document.
pub data Stop : Type 0 where
  raised returned : Stop

-- `tuple(sorted(set(allowed)))` behind the loop, and the handler of its exceptions.
unfoldable pub conclude : {W : Type 0} → Result Stop (List ℕ) × W → List ℕ × W
conclude (ok allowed, w) = (sort_by (λ n. n) (to_set allowed), w)
conclude (err stop, w) = ([], w)

module _ (s : SpiceDb) (env : Env) (now : ℕ) (db : Db) where
  unfoldable pub delegated_allowed_ids : DriveConnection → Text → Exec s.World Stop (List ℕ)
  delegated_allowed_ids connection normalized_email = do
    resources ←
        call raised (s.lookup_documents (user_object_id env.sha256 connection.pk normalized_email))
    pure (
        if is_empty resources
        then []
        else granted connection.pk (to_set resources) (
            keep (λ d. d.connection == connection.pk && permission_verified env.settings now d)
              db.documents))

  -- The rest of `_per_user_allowed_ids`, for a user with a current authorization.
  unfoldable pub authorized_ids :
      DriveConnection → Text → GoogleDriveAuthorization → Exec s.World Stop (List ℕ)
  authorized_ids connection normalized_email authorization = do
    let user_id = user_object_id env.sha256 connection.pk normalized_email
    let prefix = connection_prefix connection.pk
    tuples ← call raised (s.read_oauth_viewer_tuples prefix user_id [])
    let resources = valid_direct_resource_ids env tuples prefix user_id
    pure (
        if is_empty resources
        then []
        else granted connection.pk resources
            (fresh_per_user_documents env now db connection authorization none))

  unfoldable pub per_user_allowed_ids : DriveConnection → Text → Exec s.World Stop (List ℕ)
  per_user_allowed_ids connection normalized_email =
      elim (current_authorization env db connection normalized_email) [
        | none ↦ pure []
        | some authorization ↦ authorized_ids connection normalized_email authorization
      ]

  unfoldable pub connection_ids : DriveConnection → Text → Exec s.World Stop (List ℕ)
  connection_ids connection normalized_email =
      let authority = env.settings.google_permission_authority in
      if authority == per_user_oauth
      then per_user_allowed_ids connection normalized_email
      else if authority == delegated_acl
      then delegated_allowed_ids connection normalized_email
      else raise returned

  -- The loop over the connections, `allowed` being what was collected so far.
  unfoldable pub collect_allowed : Text → List DriveConnection → List ℕ → Exec s.World Stop (List ℕ)
  collect_allowed normalized_email [] allowed = pure allowed
  collect_allowed normalized_email (connection ∷ rest) allowed = do
    ids ← connection_ids connection normalized_email
    collect_allowed normalized_email rest (allowed ++ ids)

  unfoldable pub allowed_source_document_ids : Text → s.World → List ℕ × s.World
  allowed_source_document_ids user_email w = elim (normalize_trusted_email env user_email) [
    | none ↦ ([], w)
    | some normalized_email ↦
        conclude (collect_allowed normalized_email (active_mode_connections env db) [] w)
  ]
