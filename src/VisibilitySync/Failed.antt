-- ===== src/VisibilitySync/Failed.antt =====
-- A run that fails leaves the user without evidence, and is marked.
use knowledge_graph_mvp.Prelude.{
  Bool, In, List, Result, String, Text, ap, arith, err, false, inl, inr, list_eq, nat_eq, ok, refl,
  same_key, string_eq, sym, true, ℕ, ◌&&◌, ◌==◌, ◌∙◌, ◌≡◌,
}
use knowledge_graph_mvp.Models.{
  Env, Db, DriveConnection, GoogleDriveAuthorization, UserVisibilitySyncRun, In-update_where,
  is_open,
}
use knowledge_graph_mvp.SpiceDb.{SpiceDb}
use knowledge_graph_mvp.OauthViewer.{
  OauthViewerReconciliation, reconcile_oauth_viewer_relationships,
}
use knowledge_graph_mvp.VisibilityClient.{
  DriveAnswer, IndexedVisibilityResult, IndexedVisibilityBatch, check_authorization,
}
use knowledge_graph_mvp.VisibilitySync.Evidence.{AllUnverified}
use knowledge_graph_mvp.VisibilitySync.Run.{
  fail_run, mark_failed, commit_verified_results, sync_checked, sync_prepared,
}
use knowledge_graph_mvp.VisibilitySync.{
  SyncException, validated_run, error_code, other_error, relationship_error, validated_results,
  visible_ids_of,
}

-- The authorization has no verdict, and the run is not open.
abbrev pub HasFailed : ℕ → ℕ → Db → Type 0
HasFailed authorization_id run_id db =
    AllUnverified authorization_id db.visibilities
    × ((r : UserVisibilitySyncRun)
        → In r db.visibility_runs
        → r.pk ≡ run_id
        → is_open r.status ≡ false)

-- Other processes give the authorization no verdict.
abbrev pub KeepsUnverified : ℕ → (Db → Db) → Type 0
KeepsUnverified authorization_id change =
    (db : Db)
    → AllUnverified authorization_id db.visibilities
    → AllUnverified authorization_id (change db).visibilities

mark_failed-closed :
    (now run_id : ℕ) (code : String) (db : Db) (r : UserVisibilitySyncRun)
    → In r (mark_failed now run_id code db).visibility_runs
    → r.pk ≡ run_id
    → is_open r.status ≡ false
unfolding mark_failed
mark_failed-closed now run_id code db r i k =
    let (old, j, e) =
      In-update_where (λ x. x.pk == run_id && is_open x.status) _ r db.visibility_runs i in
    elim e [
      | inl (t, p) ↦ ap (λ x. is_open x.status) p
      | inr (t, p) ↦
          ap (λ x. is_open x.status) p
          ∙ was_closed old.pk (is_open old.status)
              (same_key old.pk run_id (ap (λ x. x.pk) (sym p) ∙ k)) t
    ]
  where
    was_closed :
        (pk : ℕ) (b : Bool) → (pk == run_id) ≡ true → ((pk == run_id) && b) ≡ false → b ≡ false
    was_closed pk true e t = ground arith
    was_closed pk false e t = refl

module _ {D : Type 0} (get : Text → D → DriveAnswer × D) (sleep : ℕ → D → D) (s : SpiceDb)
    (env : Env) (now marker verified_at failed_at : ℕ) (meanwhile during_write : Db → Db)
    (authorization_id run_id : ℕ) where
  -- An ended run, if it ended in an error, has failed.
  abbrev pub FailsClosed : Result String UserVisibilitySyncRun × Db × D × s.World → Type 0
  FailsClosed (err code, db, d, w) = HasFailed authorization_id run_id db
  FailsClosed (ok run, db, d, w) = Unit

  pub fail_run-FailsClosed :
      (e : SyncException) (db : Db) (d : D) (w : s.World)
      → AllUnverified authorization_id db.visibilities
      → FailsClosed (
          fail_run get sleep s env now marker verified_at failed_at meanwhile during_write run_id e
            db d w)
  unfolding fail_run mark_failed
  fail_run-FailsClosed e db d w h = (h, mark_failed-closed failed_at run_id (error_code e) db)

  module _ (keeps : KeepsUnverified authorization_id meanwhile)
      (keeps' : KeepsUnverified authorization_id during_write) where
    sync_checked-FailsClosed :
        (run : UserVisibilitySyncRun) (connection : DriveConnection)
        (authorization : GoogleDriveAuthorization) (candidate_ids : List ℕ)
        (batch : IndexedVisibilityBatch) (db : Db) (d : D) (w : s.World)
        → AllUnverified authorization_id db.visibilities
        → FailsClosed (
            sync_checked get sleep s env now marker verified_at failed_at meanwhile during_write
              run_id
              (run, connection, authorization)
              candidate_ids
              batch
              db
              d
              w)
    unfolding sync_checked
    sync_checked-FailsClosed run connection authorization candidate_ids batch db d w h =
        go (validated_results batch run candidate_ids)
      where
        T : Type 0
        T = Result String UserVisibilitySyncRun × Db × D × s.World

        fail : SyncException → Db → s.World → T
        fail e db' w' =
            fail_run get sleep s env now marker verified_at failed_at meanwhile during_write run_id
              e db' d w'

        commit :
            OauthViewerReconciliation
            → List IndexedVisibilityResult
            → Result SyncException (UserVisibilitySyncRun × Db)
        commit reconciliation results =
            commit_verified_results env verified_at marker run candidate_ids results reconciliation
              (during_write db)

        committed :
            (w' : s.World) (o : Result SyncException (UserVisibilitySyncRun × Db))
            → FailsClosed (elim o as (λ _. T) [
              | err e ↦ fail e (during_write db) w'
              | ok saved ↦ (ok (saved.0), saved.1, d, w')
            ])
        committed w' (err e) = fail_run-FailsClosed e (during_write db) d w' (keeps' db h)
        committed w' (ok saved) = tt

        reconciled :
            (results : List IndexedVisibilityResult)
            (p : Result String OauthViewerReconciliation × s.World)
            → FailsClosed (elim p.0 as (λ _. T) [
              | err e ↦ fail (relationship_error e) (during_write db) p.1
              | ok reconciliation ↦ elim (commit reconciliation results) as (λ _. T) [
                | err e ↦ fail e (during_write db) p.1
                | ok saved ↦ (ok (saved.0), saved.1, d, p.1)
              ]
            ])
        reconciled results (err e, w') =
            fail_run-FailsClosed (relationship_error e) (during_write db) d w' (keeps' db h)
        reconciled results (ok r, w') = committed w' (commit r results)

        go :
            (o : Result SyncException (List IndexedVisibilityResult))
            → FailsClosed (elim o as (λ _. T) [
              | err e ↦ fail e db w
              | ok results ↦
                  let (p0, p1) =
                    reconcile_oauth_viewer_relationships s env db connection
                      authorization.normalized_email
                      (visible_ids_of results)
                      w in
                  elim p0 as (λ _. T) [
                    | err e ↦ fail (relationship_error e) (during_write db) p1
                    | ok reconciliation ↦ elim (commit reconciliation results) as (λ _. T) [
                      | err e ↦ fail e (during_write db) p1
                      | ok saved ↦ (ok (saved.0), saved.1, d, p1)
                    ]
                  ]
            ])
        go (err e) = fail_run-FailsClosed e db d w h
        go (ok results) = reconciled results (
            reconcile_oauth_viewer_relationships s env db connection authorization.normalized_email
              (visible_ids_of results) w)

    pub sync_prepared-FailsClosed :
        (candidate_ids : List ℕ) (db : Db) (d : D) (w : s.World)
        → AllUnverified authorization_id db.visibilities
        → FailsClosed (
            sync_prepared get sleep s env now marker verified_at failed_at meanwhile during_write
              run_id candidate_ids db d w)
    unfolding sync_prepared
    sync_prepared-FailsClosed candidate_ids db d w h = go (validated_run env db run_id)
      where
        T : Type 0
        T = Result String UserVisibilitySyncRun × Db × D × s.World

        fail : SyncException → Db → D → T
        fail e db' d' =
            fail_run get sleep s env now marker verified_at failed_at meanwhile during_write run_id
              e db' d' w

        checked :
            (run : UserVisibilitySyncRun) (connection : DriveConnection)
            (authorization : GoogleDriveAuthorization)
            (p : Result String IndexedVisibilityBatch × D)
            → FailsClosed (elim p.0 as (λ _. T) [
              | err e ↦ fail (other_error e) (meanwhile db) p.1
              | ok batch ↦
                  sync_checked get sleep s env now marker verified_at failed_at meanwhile
                    during_write run_id
                    (run, connection, authorization)
                    candidate_ids
                    batch
                    (meanwhile db)
                    p.1
                    w
            ])
        checked run connection authorization (err e, d') =
            fail_run-FailsClosed (other_error e) (meanwhile db) d' w (keeps db h)
        checked run connection authorization (ok batch, d') =
            sync_checked-FailsClosed run connection authorization candidate_ids batch (meanwhile db)
              d' w (keeps db h)

        go :
            (o : Result SyncException
              (UserVisibilitySyncRun × DriveConnection × GoogleDriveAuthorization))
            → FailsClosed (elim o as (λ _. T) [
              | err e ↦ fail e db d
              | ok loaded ↦
                  let (p0, p1) = check_authorization get sleep env db (loaded.0).authorization d in
                  elim p0 as (λ _. T) [
                    | err e ↦ fail (other_error e) (meanwhile db) p1
                    | ok batch ↦
                        sync_checked get sleep s env now marker verified_at failed_at meanwhile
                          during_write run_id loaded candidate_ids batch
                          (meanwhile db)
                          p1
                          w
                  ]
            ])
        go (err e) = fail_run-FailsClosed e db d w h
        go (ok (run, connection, authorization)) =
            checked run connection authorization
              (check_authorization get sleep env db run.authorization d)
