-- ===== src/VisibilityClient.antt =====
-- apps/backend/integrations/drive/user_visibility_client.py: whether one user sees the indexed documents.
-- Google Drive is a parameter: `get` answers a request for a file, and `sleep` waits, in quarters of
-- a second. Building the service from the stored credential is left out.
pub mod Verdicts
pub mod Checked
use knowledge_graph_mvp.Prelude.{
  Bool, Exec, List, Option, Result, String, Text, [], any, contains, err, false, if◌then◌else◌,
  is_empty, keep, length, lift, list_eq, ltb, nat_eq, none, not, ok, pure, some, string_eq, subset,
  suc, true, zero, ℕ, ◌&&◌, ◌+◌, ◌==◌, ◌>>=◌, ◌>>◌, ◌^◌, ◌||◌, ◌∷◌,
}
use knowledge_graph_mvp.Models.{
  Env, Db, SourceDocument, GoogleDriveAuthorization, VisibilityState, DriveConnection, denied,
  effective_root_id, get_authorization, get_connection, is_active, per_user_oauth, required_scopes,
  unknown, verified_visible,
}

-- What a request for `id` and `trashed` of a file gives: a dict, in which `none` is a value that is
-- absent or of another type; another value; an HTTP error with the reasons in its body, which has
-- `none` where the `errors` of the body are no iterable, so that reading them raises; an `OSError` or
-- `TimeoutError`; any other exception.
pub data DriveAnswer : Type 0 where
  payload : Option Text → Option Bool → DriveAnswer
  not_a_dict : DriveAnswer
  http_error : ℕ → Option (List String) → DriveAnswer
  network_error : DriveAnswer
  other_exception : DriveAnswer

pub record IndexedVisibilityResult : Type 0 where
  pub source_document_id : ℕ
  pub state : VisibilityState
  pub reason_code : String

pub record IndexedVisibilityBatch : Type 0 where
  pub authorization_id : ℕ
  pub connection_generation : ℕ
  pub authorization_generation : ℕ
  pub results : List IndexedVisibilityResult

abbrev pub max_attempts : ℕ
max_attempts = 3

abbrev pub transient_http_statuses : List ℕ
transient_http_statuses = 429 ∷ 500 ∷ 502 ∷ 503 ∷ 504 ∷ []

abbrev pub transient_google_reasons : List String
transient_google_reasons =
    "rateLimitExceeded" ∷ "userRateLimitExceeded" ∷ "dailyLimitExceeded" ∷ "backendError" ∷ []

-- What one attempt comes to: another attempt, a result, or an exception that is not caught.
pub data Verdict : Type 0 where
  retry : Verdict
  settled : VisibilityState → String → Verdict
  uncaught : Verdict

unfoldable pub has_transient_reason : List String → Bool
has_transient_reason = any (contains transient_google_reasons)

unfoldable pub judge_error : Bool → Bool → ℕ → Verdict
judge_error is_last transient status =
    if transient && not is_last
    then retry
    else if contains (403 ∷ 404 ∷ 410 ∷ []) status && not transient
    then settled denied "inaccessible"
    else settled unknown (if transient then "transient_failure" else "drive_api_error")

-- The reasons are read only where the status is not a transient one.
unfoldable pub judge_http : Bool → ℕ → Option (List String) → Verdict
judge_http is_last status body =
    if contains transient_http_statuses status then judge_error is_last true status else elim body [
      | none ↦ uncaught
      | some reasons ↦ judge_error is_last (has_transient_reason reasons) status
    ]

unfoldable pub judge_payload : SourceDocument → Option Text → Option Bool → Verdict
judge_payload document none trashed = settled unknown "malformed_response"
judge_payload document (some id) trashed =
    if not (id == document.drive_file_id)
    then settled unknown "malformed_response"
    else elim trashed [ some false ↦ settled verified_visible "" | _ ↦ settled denied "trashed" ]

-- `is_last` is true at the last attempt.
unfoldable pub judge : Bool → SourceDocument → DriveAnswer → Verdict
judge is_last document (payload id trashed) = judge_payload document id trashed
judge is_last document not_a_dict = settled unknown "malformed_response"
judge is_last document (http_error status body) = judge_http is_last status body
judge is_last document network_error =
    if is_last then settled unknown "transient_failure" else retry
judge is_last document other_exception = uncaught

unfoldable pub load_authorization :
    Env → Db → ℕ → Result String (GoogleDriveAuthorization × DriveConnection)
load_authorization env db authorization_id = elim (get_authorization db authorization_id) [
  | none ↦ err "authorization_unavailable"
  | some a ↦ elim (get_connection db a.connection) [
    | none ↦ err "authorization_unavailable"
    | some c ↦
        if not (env.settings.google_permission_authority == per_user_oauth)
          || (not c.enabled
              || (not (c.permission_authority == per_user_oauth)
                  || (is_empty (effective_root_id c)
                      || (not (is_active a.status)
                          || (not (a.connection_generation == c.authorization_generation)
                              || (not (subset required_scopes a.granted_scopes)
                                  || (is_empty a.encrypted_refresh_credential
                                      || is_empty a.encryption_key_version)))))))
        then err "authorization_unavailable"
        else ok (a, c)
  ]
]

unfoldable pub indexed_documents : Env → Db → DriveConnection → Result String (List SourceDocument)
indexed_documents env db connection =
    let documents = keep (λ d. d.connection == connection.pk && d.active_in_scope) db.documents in
    if ltb env.settings.google_user_visibility_max_documents (length documents)
    then err "document_cap_exceeded"
    else ok documents

module _ {D : Type 0} (get : Text → D → DriveAnswer × D) (sleep : ℕ → D → D) where
  -- `left` attempts are left, and `attempt` were made. The last `raise` is for no attempts left.
  unfoldable pub check_one : ℕ → ℕ → SourceDocument → Exec D String IndexedVisibilityResult
  check_one zero attempt document d = (err "AssertionError", d)
  check_one (suc left) attempt document d =
      let (answer, d') = get document.drive_file_id d in
      elim (judge (left == 0) document answer) [
        | retry ↦ check_one left (attempt + 1) document (sleep (2 ^ attempt) d')
        | settled state reason ↦ (
          ok (record { source_document_id = document.pk; state = state; reason_code = reason }),
          d',
        )
        | uncaught ↦ (err "uncaught", d')
      ]

  unfoldable pub check_documents :
      List SourceDocument → Exec D String (List IndexedVisibilityResult)
  check_documents [] = pure []
  check_documents (document ∷ rest) = do
    result ← check_one max_attempts 0 document
    results ← check_documents rest
    pure (result ∷ results)

  unfoldable pub check_authorization : Env → Db → ℕ → Exec D String IndexedVisibilityBatch
  check_authorization env db authorization_id = do
    loaded ← lift (load_authorization env db authorization_id)
    documents ← lift (indexed_documents env db (loaded.1))
    results ← check_documents documents
    pure (record {
      authorization_id = (loaded.0).pk;
      connection_generation = (loaded.0).connection_generation;
      authorization_generation = (loaded.0).authorization_generation;
      results = results;
    })
