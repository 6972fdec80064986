-- ===== src/Examples/Visibility.antt =====
-- Concrete runs of the visibility checks and of the sync.
use knowledge_graph_mvp.Prelude.{
  In, List, Result, String, Text, [], all, any, ap, arith, contains, decimal, err, false, first,
  inl, inr, is_space, keep, lift, list_eq, lower, lower_char, lstrip, nat_eq, none, ok, pure, refl,
  some, string_eq, strip, subset, subst, suc, sym, zero, ℕ, ◌>>=◌, ◌∙◌, ◌∷◌, ◌≡◌, ◌≢◌, ◌⊎◌,
}
use knowledge_graph_mvp.Models.{
  Db, UserVisibilitySyncRun, queued, verified_visible, get_visibility_run, effective_root_id,
  get_authorization, get_connection, update_where,
}
use knowledge_graph_mvp.SpiceDb.{PermissionTuple}
use knowledge_graph_mvp.SpiceDb.Laws.{list_server, list_server-Serves}
use knowledge_graph_mvp.Identity.{normalize_trusted_email}
use knowledge_graph_mvp.Lookup.Access.{PerUserAccess, DelegatedAccess}
use knowledge_graph_mvp.VisibilityClient.{
  DriveAnswer, IndexedVisibilityResult, check_one, http_error, judge, judge_error, judge_payload,
  other_exception, payload, check_authorization, check_documents, indexed_documents,
  load_authorization, judge_http,
}
use knowledge_graph_mvp.VisibilitySync.{
  preinvalidate, candidates_of, error_code, invalidate_authorization_evidence, load_run,
  pending_row, prepare_rows, scope_invalid, update_or_create, validated_run,
}
use knowledge_graph_mvp.VisibilitySync.Queue.{
  queue_user_visibility_sync, active_authorizations, active_runs, connection_joins, dispatch_run,
  pick_run, queue_authorization, queue_found, queue_scope_invalid,
}
use knowledge_graph_mvp.VisibilitySync.Queue.Owned.{IsOwned, queue_user_visibility_sync-IsOwned}
use knowledge_graph_mvp.Lookup.{connected_users}
use knowledge_graph_mvp.VisibilityClient.Verdicts.{Shows, IsExpected}
use knowledge_graph_mvp.VisibilityClient.Checked.{check_one-Shows, check_one_total, IsAttempt}
use knowledge_graph_mvp.VisibilitySync.Run.{
  synchronize_user_visibility, fail_run, mark_failed, sync_prepared,
}
use knowledge_graph_mvp.VisibilitySync.Evidence.{AllUnverified}
use knowledge_graph_mvp.VisibilitySync.Failed.{HasFailed}
use knowledge_graph_mvp.VisibilitySync.Closed.{synchronize-HasFailed, unverified-Elsewhere}
use knowledge_graph_mvp.Examples.{env, db, email, document}
use knowledge_graph_mvp.Examples.Access.{world, allowed_run}

-- The first request fails for a moment; the state counts the requests.
abbrev pub get : Text → ℕ → DriveAnswer × ℕ
get id zero = (http_error 503 (some []), 1)
get id (suc n) = (payload (some id) (some false), suc (suc n))

abbrev pub sleep : ℕ → ℕ → ℕ
sleep quarters n = n

abbrev seen : IndexedVisibilityResult
seen = record { source_document_id = 7; state = verified_visible; reason_code = "" }

check_run : check_one get sleep 3 0 (document 7) 0 ≡ (ok seen, 2)
unfolding check_one judge judge_payload judge_error judge_http contains any decimal
check_run = refl

check_one-Shows_example :
    (◌≡◌ {A = ℕ} 7 7)
    × (verified_visible ≡ verified_visible
        → (at : ℕ) × IsAttempt get sleep (document 7) 3 0 0 at
          × Shows (document 7) (get (document 7).drive_file_id at).0)
check_one-Shows_example = check_one-Shows get sleep 3 0 (document 7) 0 2 seen check_run

get-IsExpected : (id : Text) (n : ℕ) → IsExpected (get id n).0
get-IsExpected id zero = record { expected_exception = λ h. cc; reasons_listed = λ status h. cc }
get-IsExpected id (suc n) = record { expected_exception = λ h. cc; reasons_listed = λ status h. cc }

check_one_total_example :
    (result : IndexedVisibilityResult) × (n : ℕ) × (check_one get sleep 3 0 (document 7) 0
      ≡ (ok result, n))
check_one_total_example = check_one_total get sleep get-IsExpected 2 0 (document 7) 0

abbrev pub run : UserVisibilitySyncRun
run = record {
  pk = 11;
  connection = 1;
  authorization = 3;
  connection_generation = 4;
  authorization_generation = 6;
  status = queued;
  documents_considered = 0;
  documents_verified_visible = 0;
  documents_denied = 0;
  documents_unknown = 0;
  relationships_touched = 0;
  relationships_deleted = 0;
  error_code = "";
  started_at = none;
  finished_at = none;
}

abbrev pub sync_db : Db
sync_db = record db { visibility_runs = run ∷ [] }

-- Drive breaks down in an unexpected way.
abbrev broken : Text → ℕ → DriveAnswer × ℕ
broken id n = (other_exception, n)

abbrev ended : Result String UserVisibilitySyncRun × Db × ℕ × List PermissionTuple
ended =
    synchronize_user_visibility broken sleep list_server env 100 77 101 102 (λ x. x) (λ x. x) 11
      sync_db 0 world

sync_run : ended.0 ≡ err "visibility_sync_failed"
unfolding synchronize_user_visibility get_visibility_run first keep preinvalidate candidates_of
    invalidate_authorization_evidence sync_prepared validated_run load_run get_connection
    get_authorization scope_invalid effective_root_id subset all contains check_authorization
    update_where lift pure ◌>>=◌ check_documents check_one indexed_documents judge
    load_authorization fail_run mark_failed error_code pending_row prepare_rows update_or_create
    decimal
sync_run = refl

found_run : get_visibility_run sync_db 11 ≡ some run
unfolding get_visibility_run keep first
found_run = refl

synchronize-HasFailed_example : HasFailed 3 11 ended.1
synchronize-HasFailed_example =
    synchronize-HasFailed broken sleep list_server env 100 77 101 102 (λ x. x) (λ x. x) run
      (λ x h. h) (λ x h. h) 11 sync_db ended.1 0 ended.2 world ended.3 "visibility_sync_failed"
      found_run (ap (λ x. (x, ended.1, ended.2, ended.3)) sync_run)

other_unverified : AllUnverified 5 db.visibilities
other_unverified v (inl e) k = absurd (omega (arith, ap (λ x. x.authorization) (sym e) ∙ k))
other_unverified v (inr i) k = absurd i

unverified-Elsewhere_example :
    (address : Text) × (normalize_trusted_email env email ≡ some address)
    × (((access : PerUserAccess env 100 db world address 7) × (access.authorization.pk ≢ 5))
        ⊎ DelegatedAccess env 100 db (list_server-Serves.views world) address 7)
unverified-Elsewhere_example =
    unverified-Elsewhere list_server list_server-Serves env 100 db 5 other_unverified email world 7
      (subst (λ p. In 7 p.0) (sym allowed_run) (inl refl))

-- The waiting run is dispatched.
queue_run : queue_user_visibility_sync env 100 12 email sync_db ≡ (ok run, sync_db, 11 ∷ [])
unfolding queue_user_visibility_sync normalize_trusted_email any strip lstrip is_space lower
    lower_char queue_found active_authorizations connection_joins keep first get_connection
    queue_authorization queue_scope_invalid effective_root_id subset all contains connected_users
    pick_run active_runs dispatch_run
queue_run = refl

queue_user_visibility_sync-IsOwned_example :
    IsOwned env sync_db email (queue_user_visibility_sync env 100 12 email sync_db)
queue_user_visibility_sync-IsOwned_example =
    queue_user_visibility_sync-IsOwned env 100 12 sync_db email
