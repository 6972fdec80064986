-- ===== src/System.antt =====
-- The processes that write the documents' rows, as a step relation: delegated runs of
-- apps/backend/authorization/sync.py, extraction tasks and the sweep of the extractions of
-- apps/backend/integrations/tasks.py. While a run or a task waits for a service, any steps of the
-- others come between: what `meanwhile` does is a sequence of steps itself.
use knowledge_graph_mvp.Prelude.{List, Option, Result, String, Text, ap, inl, inr, sym, ℕ, ◌∙◌, ◌≡◌}
use knowledge_graph_mvp.GoogleGroups.{GroupMembership}
use knowledge_graph_mvp.Models.{Env, Db, AclDb, DriveConnection, PermissionSyncRun, In-update_where}
use knowledge_graph_mvp.SpiceDb.{SpiceDb}
use knowledge_graph_mvp.PermissionSync.Scan.{DrivePermissionResource}
use knowledge_graph_mvp.PermissionSync.Run.{synchronize_permissions}
use knowledge_graph_mvp.PermissionSync.Sound.{AllSound}
use knowledge_graph_mvp.PermissionSync.Ends.{synchronize_permissions-AllSound}
use knowledge_graph_mvp.Tasks.{TaskDb, Extracted, queue_document_extraction}
use knowledge_graph_mvp.Tasks.Kept.{queue_document_extraction-AllSound}
use knowledge_graph_mvp.Tasks.Sweeps.{
  is_stale_extraction, expire_extraction, sweep_stale_graph_extractions,
}

sweep_sound :
    (cutoff now : ℕ) (db : Db)
    → AllSound db.documents
    → AllSound ((sweep_stale_graph_extractions cutoff now db).1).documents
unfolding sweep_stale_graph_extractions expire_extraction
sweep_sound cutoff now db sound d i h =
    let (old, j, k) =
      In-update_where (is_stale_extraction cutoff) (expire_extraction now) d db.documents i in
    let (same_scope, same_gate) =
      elim k
        as (λ _.
          (d.active_in_scope ≡ old.active_in_scope)
          × (old.retrieval_eligible ≡ d.retrieval_eligible)) [
            | inl (e, p) ↦ (ap (λ x. x.active_in_scope) p, ap (λ x. x.retrieval_eligible) (sym p))
            | inr (e, p) ↦ (ap (λ x. x.active_in_scope) p, ap (λ x. x.retrieval_eligible) (sym p))
          ] in
    same_scope ∙ sound old j (same_gate ∙ h)

module _ {D G : Type 0} (s : SpiceDb) (env : Env)
    (list_resources : DriveConnection → D → Result String (List DrivePermissionResource) × D)
    (resolve : ℕ → List Text → D → Option (List (Text × GroupMembership)) × D)
    (extract : ℕ → Text → G → Extracted × G) where
  -- `Steps a b`: the processes get from the database `a` to `b`.
  pub data Steps : Db → Db → Type 0 where
    stays : {a : Db} → Steps a a
    delegated_run :
        {a : Db} (db : AclDb) (run : PermissionSyncRun) (verified_at finished_at marker now : ℕ)
        (meanwhile : AclDb → AclDb) (d : D) (w : s.World)
        → Steps a db.tables
        → ((x : AclDb) → Steps x.tables (meanwhile x).tables)
        → Steps a
            ((synchronize_permissions s verified_at finished_at meanwhile run resolve env marker now
                list_resources db d w).1
              ).tables
    extraction_task :
        {a : Db} (db : TaskDb) (retries now finished_at document_id : ℕ) (content_hash : Text)
        (meanwhile : TaskDb → TaskDb) (g : G)
        → Steps a db.tables
        → ((x : TaskDb) → Steps x.tables (meanwhile x).tables)
        → Steps a
            ((queue_document_extraction env retries now finished_at document_id extract meanwhile
                content_hash db g).1
              ).tables
    extraction_sweep :
        {a b : Db} (cutoff now : ℕ)
        → Steps a b
        → Steps a ((sweep_stale_graph_extractions cutoff now b).1)

  -- In whatever order the processes come, an eligible document stays in scope.
  pub Steps-AllSound : (a b : Db) → Steps a b → AllSound a.documents → AllSound b.documents
  Steps-AllSound a b stays sound = sound
  Steps-AllSound a b
        (delegated_run db run verified_at finished_at marker now meanwhile d w before others)
        sound =
      synchronize_permissions-AllSound s verified_at finished_at meanwhile run resolve env marker
        now list_resources (λ x. Steps-AllSound x.tables (meanwhile x).tables (others x)) db d w
        (Steps-AllSound a db.tables before sound)
  Steps-AllSound a b
        (extraction_task db retries now finished_at document_id content_hash meanwhile g before
          others)
        sound =
      queue_document_extraction-AllSound env retries now finished_at document_id extract meanwhile
        content_hash db g (λ x. Steps-AllSound x.tables (meanwhile x).tables (others x))
        (Steps-AllSound a db.tables before sound)
  Steps-AllSound a b (extraction_sweep cutoff now before) sound =
      sweep_sound cutoff now _ (Steps-AllSound a _ before sound)
