-- ===== src/Tasks/Sweeps/Swept.antt =====
-- What the sweeps leave: nothing stale is running, and a user whose run was swept has no verdict.
use mathlib.Core.Bool.{true≢false}
use knowledge_graph_mvp.Tasks.Sweeps.Stale.{
  IsStaleRun, IsStaleExtraction, is_stale_extraction_iff, is_stale_iff,
}
use knowledge_graph_mvp.Prelude.{
  ==-refl, Bool-cases, In, In-keep, In-keep_of, In-map_of, List, Option, String, [], any, any-of,
  ap, arith, eq_of_==, false, if◌then◌else◌, inl, inr, keep, list_eq, nat_eq, refl, string_eq,
  subst, sym, true, ℕ, ◌&&◌, ◌==◌, ◌∙◌, ◌∷◌, ◌≡◌, ◌⊎◌,
}
use knowledge_graph_mvp.Models.{
  Db, AclDb, PermissionSyncRun, UserVisibilitySyncRun, In-update_where, update_where, RunStatus,
  failed, is_running, GraphExtractionStatus,
}
use knowledge_graph_mvp.VisibilitySync.{invalidate_authorization_evidence}
use knowledge_graph_mvp.VisibilitySync.Evidence.{Unverified, AllUnverified, invalidated}
use knowledge_graph_mvp.Tasks.Sweeps.{
  is_stale_permission_run, expire_permission_run, sweep_stale_permission_sync_runs,
  is_stale_visibility_run, expire_visibility_run, is_stale_extraction, expire_extraction,
  sweep_stale_graph_extractions, claim, is_before, is_claimed, expire_run, expire_runs,
  sweep_stale_user_visibility_sync_runs,
}
use knowledge_graph_mvp.Tasks.Sweeps.Exact.{IsSweep, update_where-IsSweep}

-- The sweeps of the permission runs and of the extractions expire exactly the rows that are running and
-- started before the cutoff, and leave every other row as it was.
pub sweeps-clear :
    (cutoff now : ℕ) (acl : AclDb) (db : Db)
    → IsSweep
        (λ (r : PermissionSyncRun). IsStaleRun cutoff r.status r.started_at)
        (expire_permission_run now)
        acl.permission_runs
        ((sweep_stale_permission_sync_runs cutoff now acl).1).permission_runs
      × IsSweep
          (IsStaleExtraction cutoff)
          (expire_extraction now)
          db.documents
          ((sweep_stale_graph_extractions cutoff now db).1).documents
unfolding sweep_stale_permission_sync_runs sweep_stale_graph_extractions expire_permission_run
    expire_extraction is_stale_permission_run
sweeps-clear cutoff now acl db = (
  update_where-IsSweep (is_stale_permission_run cutoff) _ (expire_permission_run now)
      acl.permission_runs (λ r. is_stale_iff cutoff r.status r.started_at) (λ r s. failed_run s.0),
  update_where-IsSweep (is_stale_extraction cutoff) _ (expire_extraction now) db.documents
      (is_stale_extraction_iff cutoff) (λ d s. failed_extraction s.0),
)
  where
    failed_run : RunStatus.failed ≡ RunStatus.running → ⊥
    failed_run h = cc

    failed_extraction : GraphExtractionStatus.failed ≡ GraphExtractionStatus.running → ⊥
    failed_extraction h = cc

-- An invalidation gives no user a verdict.
invalidate-AllUnverified :
    (now other id : ℕ) (reason : String) (db : Db)
    → AllUnverified id db.visibilities
    → AllUnverified id (invalidate_authorization_evidence now other reason db).visibilities
unfolding invalidate_authorization_evidence
invalidate-AllUnverified now other id reason db h v i k =
    let (old, j, e) = In-update_where (λ x. x.authorization == other) _ v db.visibilities i in
    elim e [
      | inl (t, p) ↦ subst Unverified (sym p) (refl, refl, refl)
      | inr (t, p) ↦ h v (subst (λ x. In x db.visibilities) (sym p) j) k
    ]

-- What is left to do: each run that remains is still there, or its user has no verdict; and each stale
-- run is one that remains.
record IsUnderWay (cutoff : ℕ) (remaining : List UserVisibilitySyncRun) (db : Db) : Type 0 where
  dealt :
      (r : UserVisibilitySyncRun)
      → In r remaining
      → In r db.visibility_runs ⊎ AllUnverified r.authorization db.visibilities
  stale_remain :
      (r : UserVisibilitySyncRun)
      → In r db.visibility_runs
      → is_stale_visibility_run cutoff r ≡ true
      → In r remaining

-- Primary keys are unique.
abbrev pub HasKeys : List UserVisibilitySyncRun → Type 0
HasKeys runs = (r r' : UserVisibilitySyncRun) → In r runs → In r' runs → r.pk ≡ r'.pk → r ≡ r'

module _ (cutoff now : ℕ) where
  claimed-stale :
      (run r : UserVisibilitySyncRun) (db : Db)
      → In r (claim cutoff now run db).visibility_runs
      → is_stale_visibility_run cutoff r ≡ true
      → In r db.visibility_runs × (is_claimed cutoff run r ≡ false)
  unfolding claim expire_visibility_run is_stale_visibility_run
  claimed-stale run r db i h =
      let (old, j, k) =
        In-update_where (is_claimed cutoff run) (expire_visibility_run now) r db.visibility_runs
          i in
      elim k [
        | inl (e, p) ↦ absurd (ended r.status r.started_at (ap (λ x. x.status) p) h)
        | inr (e, p) ↦ (
          subst (λ x. In x db.visibility_runs) (sym p) j,
          subst (λ x. is_claimed cutoff run x ≡ false) (sym p) e,
        )
      ]
    where
      ended :
          (status : RunStatus) (t : Option ℕ)
          → status ≡ failed
          → is_running status && is_before cutoff t ≡ true
          → ⊥
      ended status t e q = absurd (off status e (ground arith))
        where
          off : (x : RunStatus) → x ≡ failed → is_running x ≡ true → ⊥
          off x e' q' = true≢false (sym q' ∙ ap is_running e')

  claim-keeps :
      (run r : UserVisibilitySyncRun) (db : Db)
      → In r db.visibility_runs
      → is_claimed cutoff run r ≡ false
      → In r (claim cutoff now run db).visibility_runs
  unfolding claim update_where
  claim-keeps run r db i e =
      subst
        (λ x.
          In x
            (update_where (is_claimed cutoff run) (expire_visibility_run now) db.visibility_runs))
        (rw e refl)
        (In-map_of (λ x. if is_claimed cutoff run x then expire_visibility_run now x else x) r
          db.visibility_runs i)

  expire_run-keeps :
      (run : UserVisibilitySyncRun) (id swept : ℕ) (db : Db)
      → AllUnverified id db.visibilities
      → AllUnverified id ((expire_run cutoff now run (swept, db)).1).visibilities
  unfolding expire_run claim
  expire_run-keeps run id swept db h =
      elim (Bool-cases (any (is_claimed cutoff run) db.visibility_runs)) [
        | inl e ↦
            rw (e, expire_run)
              (invalidate-AllUnverified now run.authorization id "stale_run_timeout"
                (claim cutoff now run db) h)
        | inr e ↦ rw (e, expire_run) h
      ]

  expire_runs-keeps :
      (runs : List UserVisibilitySyncRun) (id : ℕ) (state : ℕ × Db)
      → AllUnverified id (state.1).visibilities
      → AllUnverified id ((expire_runs cutoff now runs state).1).visibilities
  unfolding expire_runs
  expire_runs-keeps [] id state h = h
  expire_runs-keeps (run ∷ rest) id (swept, db) h =
      expire_runs-keeps rest id (expire_run cutoff now run (swept, db))
        (expire_run-keeps run id swept db h)

  -- The head of the list is dealt with.
  expire_run-done :
      (run : UserVisibilitySyncRun) (rest : List UserVisibilitySyncRun) (swept : ℕ) (db : Db)
      → is_stale_visibility_run cutoff run ≡ true
      → IsUnderWay cutoff (run ∷ rest) db
      → AllUnverified run.authorization ((expire_run cutoff now run (swept, db)).1).visibilities
  unfolding expire_run claim is_claimed
  expire_run-done run rest swept db stale way =
      elim (Bool-cases (any (is_claimed cutoff run) db.visibility_runs)) [
        | inl e ↦
            rw (e, expire_run)
              (invalidated now run.authorization "stale_run_timeout" (claim cutoff now run db))
        | inr e ↦
            rw (e, expire_run)
              (elim (way.dealt run (inl refl)) [
                | inr h ↦ h
                | inl i ↦ absurd (
                    true≢false (
                      sym (
                        any-of (is_claimed cutoff run) run db.visibility_runs i
                          (rw (==-refl run.pk, stale) refl))
                      ∙ e))
              ])
      ]

  claim-IsUnderWay :
      (run : UserVisibilitySyncRun) (rest : List UserVisibilitySyncRun) (db after : Db)
      → HasKeys (run ∷ rest)
      → IsUnderWay cutoff (run ∷ rest) db
      → after.visibility_runs ≡ (claim cutoff now run db).visibility_runs
      → AllUnverified run.authorization after.visibilities
      → ((id : ℕ) → AllUnverified id db.visibilities → AllUnverified id after.visibilities)
      → IsUnderWay cutoff rest after
  unfolding is_claimed
  claim-IsUnderWay run rest db after keys way p done keeps = record {
    dealt = λ r i. elim (way.dealt r (inr i)) [
      | inr h ↦ inr (keeps r.authorization h)
      | inl j ↦ elim (Bool-cases (is_claimed cutoff run r)) [
        | inl e ↦ inr (
            subst (λ x. AllUnverified x.authorization after.visibilities)
              (keys run r (inl refl) (inr i) (sym (eq_of_== r.pk run.pk (ground arith)))) done)
        | inr e ↦ inl (subst (In r) (sym p) (claim-keeps run r db j e))
      ]
    ];
    stale_remain = λ r i h.
        let (j, e) = claimed-stale run r db (subst (In r) p i) h in
        elim (way.stale_remain r j h) [
          | inr k ↦ k
          | inl q ↦ absurd (claimed_self r e h (ap (λ x. x.pk) q))
        ];
  }
    where
      claimed_self :
          (r : UserVisibilitySyncRun)
          → r.pk == run.pk && is_stale_visibility_run cutoff r ≡ false
          → is_stale_visibility_run cutoff r ≡ true
          → r.pk ≡ run.pk
          → ⊥
      claimed_self r e h q = ground arith

  expire_run-runs :
      (run : UserVisibilitySyncRun) (swept : ℕ) (db : Db)
      → ((expire_run cutoff now run (swept, db)).1).visibility_runs
        ≡ (claim cutoff now run db).visibility_runs
  unfolding expire_run invalidate_authorization_evidence
  expire_run-runs run swept db =
      elim (Bool-cases (any (is_claimed cutoff run) db.visibility_runs)) [
        | inl e ↦ rw (e, expire_run) refl
        | inr e ↦ rw (e, expire_run) refl
      ]

  HasSwept : List UserVisibilitySyncRun → Db → Type 0
  HasSwept runs after =
      ((r : UserVisibilitySyncRun) → In r runs → AllUnverified r.authorization after.visibilities)
      × ((r : UserVisibilitySyncRun)
          → In r after.visibility_runs
          → is_stale_visibility_run cutoff r ≡ false)

  expire_runs-HasSwept :
      (runs : List UserVisibilitySyncRun) (state : ℕ × Db)
      → HasKeys runs
      → ((r : UserVisibilitySyncRun) → In r runs → is_stale_visibility_run cutoff r ≡ true)
      → IsUnderWay cutoff runs (state.1)
      → HasSwept runs ((expire_runs cutoff now runs state).1)
  unfolding expire_runs HasSwept
  expire_runs-HasSwept [] state keys stale way = (
    λ r i. absurd i,
    λ r i. elim (Bool-cases (is_stale_visibility_run cutoff r)) [
      | inl e ↦ absurd (way.stale_remain r i e)
      | inr e ↦ e
    ],
  )
  expire_runs-HasSwept (run ∷ rest) (swept, db) keys stale way =
      let next = expire_run cutoff now run (swept, db) in
      let done = expire_run-done run rest swept db (stale run (inl refl)) way in
      let (unverified, clear) =
        expire_runs-HasSwept rest next (λ r r' i i'. keys r r' (inr i) (inr i'))
          (λ r i. stale r (inr i))
          (claim-IsUnderWay run rest db (next.1) keys way (expire_run-runs run swept db) done
            (λ id. expire_run-keeps run id swept db)) in
      (
        λ r i. elim i [
          | inl p ↦
              subst
                (λ x.
                  AllUnverified x.authorization ((expire_runs cutoff now rest next).1).visibilities)
                (sym p) (expire_runs-keeps rest run.authorization next done)
          | inr j ↦ unverified r j
        ],
        clear,
      )

  -- After the sweep of the visibility runs, none that started before the cutoff is running, and the user
  -- of each run that was has no verdict, if the runs have distinct primary keys.
  pub sweep_stale_user_visibility_sync_runs-AllUnverified :
      (db : Db)
      → HasKeys db.visibility_runs
      → ((r : UserVisibilitySyncRun)
          → In r db.visibility_runs
          → IsStaleRun cutoff r.status r.started_at
          → AllUnverified r.authorization
              ((sweep_stale_user_visibility_sync_runs cutoff now db).1).visibilities)
        × ((r : UserVisibilitySyncRun)
            → In r ((sweep_stale_user_visibility_sync_runs cutoff now db).1).visibility_runs
            → ¬ IsStaleRun cutoff r.status r.started_at)
  unfolding sweep_stale_user_visibility_sync_runs HasSwept is_stale_visibility_run
  sweep_stale_user_visibility_sync_runs-AllUnverified db keys =
      let test = is_stale_visibility_run cutoff in
      let kept : (r : UserVisibilitySyncRun)
          → In r (keep test db.visibility_runs)
          → In r db.visibility_runs × (test r ≡ true) =
        λ r. In-keep test r db.visibility_runs in
      let (unverified, clear) =
        expire_runs-HasSwept (keep test db.visibility_runs) (0, db)
          (λ r r' i i'. keys r r' ((kept r i).0) ((kept r' i').0)) (λ r i. (kept r i).1)
          (record {
            dealt = λ r i. inl ((kept r i).0);
            stale_remain = λ r i h. In-keep_of test r db.visibility_runs i h;
          }) in
      (
        λ r i h. unverified r (
            In-keep_of test r db.visibility_runs i
              ((is_stale_iff cutoff r.status r.started_at).1 h)),
        λ r i h. true≢false (sym ((is_stale_iff cutoff r.status r.started_at).1 h) ∙ clear r i),
      )
