-- ===== src/VisibilitySync/Closed.antt =====
-- The failed run as its caller sees it, and what the lookup makes of it.
use knowledge_graph_mvp.Prelude.{
  In, List, Option, Result, String, Text, err, inl, inr, none, ok, some, subst, sym, ℕ, ◌∙◌, ◌≡◌,
  ◌≢◌, ◌⊎◌,
}
use knowledge_graph_mvp.Models.{
  Env, Db, UserVisibilitySyncRun, VisibilityState, get_visibility_run, verified_visible,
}
use knowledge_graph_mvp.SpiceDb.{SpiceDb}
use knowledge_graph_mvp.SpiceDb.Laws.{Serves}
use knowledge_graph_mvp.Lookup.{allowed_source_document_ids}
use knowledge_graph_mvp.Identity.{normalize_trusted_email}
use knowledge_graph_mvp.Lookup.Access.{PerUserAccess, DelegatedAccess, allowed-Right}
use knowledge_graph_mvp.VisibilityClient.{DriveAnswer}
use knowledge_graph_mvp.VisibilitySync.Evidence.{AllUnverified, preinvalidate-AllUnverified}
use knowledge_graph_mvp.VisibilitySync.Run.{synchronize_user_visibility, fail_run, sync_prepared}
use knowledge_graph_mvp.VisibilitySync.Failed.{
  FailsClosed, HasFailed, KeepsUnverified, fail_run-FailsClosed, sync_prepared-FailsClosed,
}
use knowledge_graph_mvp.VisibilitySync.{SyncException, preinvalidate, other_error}

module _ {D : Type 0} (get : Text → D → DriveAnswer × D) (sleep : ℕ → D → D) (s : SpiceDb)
    (env : Env) (now marker verified_at failed_at : ℕ) (meanwhile during_write : Db → Db)
    (current : UserVisibilitySyncRun) (keeps : KeepsUnverified current.authorization meanwhile)
    (keeps' : KeepsUnverified current.authorization during_write) where
  -- A run that raises, at whatever step, leaves its authorization without a single verdict, and is
  -- not open any more, as long as no other process gives the authorization a verdict meanwhile.
  pub synchronize-HasFailed :
      (run_id : ℕ) (db db' : Db) (d d' : D) (w w' : s.World) (code : String)
      → get_visibility_run db run_id ≡ some current
      → synchronize_user_visibility get sleep s env now marker verified_at failed_at meanwhile
          during_write run_id db d w
        ≡ (err code, db', d', w')
      → HasFailed current.authorization run_id db'
  unfolding synchronize_user_visibility
  synchronize-HasFailed run_id db db' d d' w w' code e h =
      subst Closed h (started (get_visibility_run db run_id) e)
    where
      T : Type 0
      T = Result String UserVisibilitySyncRun × Db × D × s.World

      Closed : T → Type 0
      Closed =
          FailsClosed get sleep s env now marker verified_at failed_at meanwhile during_write
            current.authorization run_id

      fail : SyncException → Db → T
      fail x b =
          fail_run get sleep s env now marker verified_at failed_at meanwhile during_write run_id x
            b d w

      prepared :
          (p : Result SyncException (List ℕ) × Db)
          → AllUnverified current.authorization p.1.visibilities
          → Closed (elim p.0 as (λ _. T) [
            | err x ↦ fail x p.1
            | ok ids ↦
                sync_prepared get sleep s env now marker verified_at failed_at meanwhile
                  during_write run_id ids p.1 d w
          ])
      prepared (err x, b) k =
          fail_run-FailsClosed get sleep s env now marker verified_at failed_at meanwhile
            during_write current.authorization run_id x b d w k
      prepared (ok ids, b) k =
          sync_prepared-FailsClosed get sleep s env now marker verified_at failed_at meanwhile
            during_write current.authorization run_id keeps keeps' ids b d w k

      started :
          (o : Option UserVisibilitySyncRun)
          → o ≡ some current
          → Closed (elim o as (λ _. T) [
            | none ↦ fail (other_error "DoesNotExist") db
            | some run ↦
                let (p0, p1) = preinvalidate env now marker run db in
                elim p0 as (λ _. T) [
                  | err x ↦ fail x p1
                  | ok ids ↦
                      sync_prepared get sleep s env now marker verified_at failed_at meanwhile
                        during_write run_id ids p1 d w
                ]
          ])
      started none q = cc
      started (some run) q = prepared (preinvalidate env now marker run db) (
          subst
            (λ z.
              AllUnverified z.authorization (preinvalidate env now marker run db).1.visibilities)
            (same q) (preinvalidate-AllUnverified env now marker run db))
        where
          same : some run ≡ some current → run ≡ current
          same r = cc

-- Without a verdict, the lookup allows nothing through an authorization: what it allows comes from
-- another authorization or from a delegated permission, with a server that keeps the laws of `Serves`.
pub unverified-Elsewhere :
    (s : SpiceDb) (law : Serves s) (env : Env) (now : ℕ) (db : Db) (authorization_id : ℕ)
    → AllUnverified authorization_id db.visibilities
    → (user_email : Text) (w : s.World) (id : ℕ)
    → In id (allowed_source_document_ids s env now db user_email w).0
    → (email : Text) × (normalize_trusted_email env user_email ≡ some email)
      × (((access : PerUserAccess env now db (law.tuples w) email id) × (access.authorization.pk
              ≢ authorization_id))
          ⊎ DelegatedAccess env now db (law.views w) email id)
unverified-Elsewhere s law env now db authorization_id none_left user_email w id i =
    let (email, e, right) = allowed-Right s law env now db user_email w id i in
    (
      email,
      e,
      elim right [
        | inl a ↦ inl (
          a,
          λ k. conflict (
              sym a.evidence.visible
              ∙ (none_left a.evidence.row a.evidence.row_stored
                  (a.evidence.of_authorization ∙ k)).0),
        )
        | inr a ↦ inr a
      ],
    )
  where
    conflict : verified_visible ≡ VisibilityState.unknown → ⊥
    conflict k = cc
