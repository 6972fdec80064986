-- ===== src/VisibilitySync/Granted.antt =====
-- What a run that succeeds leaves in SpiceDB: grants of the documents that were found visible.
use knowledge_graph_mvp.Prelude.{
  Bool-cases, In, List, Option, Result, String, Text, ap, err, false, if◌then◌else◌, inl, inr,
  list_eq, nat_eq, none, ok, refl, some, string_eq, subst, true, ℕ, ◌==◌, ◌↔◌, ◌∙◌, ◌≡◌, ◌⊎◌,
}
use knowledge_graph_mvp.Models.{
  Env, Db, DriveConnection, GoogleDriveAuthorization, UserVisibilitySyncRun, SourceDocument,
  get_connection, get_connection-In,
}
use knowledge_graph_mvp.SpiceDb.{SpiceDb, PermissionTuple, is_direct_grant}
use knowledge_graph_mvp.SpiceDb.Laws.{Serves}
use knowledge_graph_mvp.Identifiers.{connection_prefix}
use knowledge_graph_mvp.OauthViewer.{
  OauthViewerReconciliation, reconcile_oauth_viewer_relationships, direct_grant, validated_user_id,
  authority_mismatch, validated_connection,
}
use knowledge_graph_mvp.OauthViewer.Reconciled.{reconcile-exact}
use knowledge_graph_mvp.VisibilityClient.{
  DriveAnswer, IndexedVisibilityResult, IndexedVisibilityBatch,
}
use knowledge_graph_mvp.VisibilitySync.Run.{sync_checked, fail_run, commit_verified_results}
use knowledge_graph_mvp.VisibilitySync.{
  SyncException, validated_results, visible_ids_of, error_code, relationship_error,
}

-- The connection that passes the test is the stored one.
validated_connection-In :
    (env : Env) (db : Db) (connection current : DriveConnection)
    → validated_connection env db connection ≡ ok current
    → In current db.connections × (current.pk ≡ connection.pk)
unfolding validated_connection
validated_connection-In env db connection current h = elim (Bool-cases (connection.pk == 0)) [
  | inl e ↦ absurd (refused (rw e at h))
  | inr e ↦ stored (get_connection db connection.pk) refl (rw e at h)
]
  where
    refused :
        ◌≡◌ {A = Result String DriveConnection} (err "permission_authority_mismatch") (ok current)
        → ⊥
    refused k = cc

    stored :
        (o : Option DriveConnection)
        → get_connection db connection.pk ≡ o
        → elim o as (λ _. Result String DriveConnection) [
          | none ↦ err "permission_authority_mismatch"
          | some c ↦
              if authority_mismatch env connection c
              then err "permission_authority_mismatch"
              else ok c
        ]
          ≡ ok current
        → In current db.connections × (current.pk ≡ connection.pk)
    stored none p k = absurd (refused k)
    stored (some c) p k = elim (Bool-cases (authority_mismatch env connection c)) [
      | inl e ↦ absurd (refused (rw e at k))
      | inr e ↦ get_connection-In db connection.pk current (p ∙ ap some (same (rw e at k)))
    ]
      where
        same : ◌≡◌ {A = Result String DriveConnection} (ok c) (ok current) → c ≡ current
        same q = cc

module _ {D : Type 0} (get : Text → D → DriveAnswer × D) (sleep : ℕ → D → D) (s : SpiceDb)
    (law : Serves s) (env : Env) (now marker verified_at failed_at : ℕ)
    (meanwhile during_write : Db → Db) (run_id : ℕ) (run : UserVisibilitySyncRun)
    (connection : DriveConnection) (authorization : GoogleDriveAuthorization)
    (candidate_ids : List ℕ) (batch : IndexedVisibilityBatch) (db : Db) where
  -- The relationships `after` are the user's direct grants of the documents that the batch found
  -- visible, each an active document of the run's connection as it is stored, beside those of `before`
  -- that are outside the user's scope.
  abbrev pub IsGranted : List PermissionTuple → List PermissionTuple → Type 0
  IsGranted before after =
      (results : List IndexedVisibilityResult) × (current : DriveConnection) × (user : Text)
      × (validated_results batch run candidate_ids ≡ ok results)
      × (In current db.connections × (current.pk ≡ connection.pk))
      × (validated_user_id env current authorization.normalized_email ≡ ok user)
      × ((id : ℕ)
          → In id (visible_ids_of results)
          → (row : SourceDocument) × In row db.documents
            × (row.pk ≡ id)
            × (row.connection ≡ current.pk)
            × (row.active_in_scope ≡ true))
      × ((t : PermissionTuple)
          → In t after ↔ (
              ((id : ℕ) × In id (visible_ids_of results) × (t ≡ direct_grant current.pk user id))
              ⊎ (In t before × (is_direct_grant (connection_prefix current.pk) user t ≡ false))))

  -- A run that reports success has left, on a server that keeps the laws of `Serves`, as the user's
  -- direct grants in its connection exactly those of the documents that the batch found visible, each
  -- an active document of that connection, and has kept everything outside that scope.
  pub sync_checked-IsGranted :
      (d d' : D) (w w' : s.World) (finished : UserVisibilitySyncRun) (db' : Db)
      → sync_checked get sleep s env now marker verified_at failed_at meanwhile during_write run_id
          (run, connection, authorization)
          candidate_ids
          batch
          db
          d
          w
        ≡ (ok finished, db', d', w')
      → IsGranted (law.tuples w) (law.tuples w')
  unfolding sync_checked fail_run
  sync_checked-IsGranted d d' w w' finished db' h =
      go (validated_results batch run candidate_ids) refl h
    where
      T : Type 0
      T = Result String UserVisibilitySyncRun × Db × D × s.World

      fail : SyncException → Db → s.World → T
      fail e b v =
          fail_run get sleep s env now marker verified_at failed_at meanwhile during_write run_id e
            b d v

      not_failed :
          (e : SyncException) (b : Db) (v : s.World) → fail e b v ≡ (ok finished, db', d', w') → ⊥
      not_failed e b v k = different (error_code e) (ap (λ x. x.0) k)
        where
          different :
              (code : String)
              → ◌≡◌ {A = Result String UserVisibilitySyncRun} (err code) (ok finished)
              → ⊥
          different code q = cc

      commit :
          OauthViewerReconciliation
          → List IndexedVisibilityResult
          → Result SyncException (UserVisibilitySyncRun × Db)
      commit r results =
          commit_verified_results env verified_at marker run candidate_ids results r
            (during_write db)

      reconcile : List IndexedVisibilityResult → Result String OauthViewerReconciliation × s.World
      reconcile results =
          reconcile_oauth_viewer_relationships s env db connection authorization.normalized_email
            (visible_ids_of results) w

      committed :
          (v : s.World) (o : Result SyncException (UserVisibilitySyncRun × Db))
          → elim o as (λ _. T) [
            | err e ↦ fail e (during_write db) v
            | ok saved ↦ (ok (saved.0), saved.1, d, v)
          ]
            ≡ (ok finished, db', d', w')
          → v ≡ w'
      committed v (err e) k = absurd (not_failed e (during_write db) v k)
      committed v (ok saved) k = ap (λ x. x.3) k

      reconciled :
          (results : List IndexedVisibilityResult)
          → validated_results batch run candidate_ids ≡ ok results
          → (p : Result String OauthViewerReconciliation × s.World) → reconcile results ≡ p
          → elim p.0 as (λ _. T) [
            | err e ↦ fail (relationship_error e) (during_write db) p.1
            | ok r ↦ elim (commit r results) as (λ _. T) [
              | err e ↦ fail e (during_write db) p.1
              | ok saved ↦ (ok (saved.0), saved.1, d, p.1)
            ]
          ]
            ≡ (ok finished, db', d', w')
          → IsGranted (law.tuples w) (law.tuples w')
      reconciled results q (err e, v) p k =
          absurd (not_failed (relationship_error e) (during_write db) v k)
      reconciled results q (ok r, v) p k =
          let (current, user, passed, valid, indexed, exact) =
            reconcile-exact s law env db connection authorization.normalized_email
              (visible_ids_of results) w v r p in
          subst (λ x. IsGranted (law.tuples w) (law.tuples x)) (committed v (commit r results) k)
            (
              results,
              current,
              user,
              q,
              validated_connection-In env db connection current passed,
              valid,
              indexed,
              exact,
            )

      go :
          (o : Result SyncException (List IndexedVisibilityResult))
          → validated_results batch run candidate_ids ≡ o
          → elim o as (λ _. T) [
            | err e ↦ fail e db w
            | ok results ↦
                let (p0, p1) = reconcile results in
                elim p0 as (λ _. T) [
                  | err e ↦ fail (relationship_error e) (during_write db) p1
                  | ok r ↦ elim (commit r results) as (λ _. T) [
                    | err e ↦ fail e (during_write db) p1
                    | ok saved ↦ (ok (saved.0), saved.1, d, p1)
                  ]
                ]
          ]
            ≡ (ok finished, db', d', w')
          → IsGranted (law.tuples w) (law.tuples w')
      go (err e) q k = absurd (not_failed e db w k)
      go (ok results) q k = reconciled results q (reconcile results) refl k
