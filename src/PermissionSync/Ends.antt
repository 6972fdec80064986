-- ===== src/PermissionSync/Ends.antt =====
-- The ends of a delegated run and the documents' rows: a run that raises gives no evidence, and every
-- run keeps eligible documents in scope.
use knowledge_graph_mvp.Prelude.{
  Bool-cases, List, Option, Result, String, Text, err, inl, inr, list_eq, nat_eq, none, not, ok,
  refl, some, string_eq, subst, sym, ℕ, ◌==◌, ◌≡◌,
}
use knowledge_graph_mvp.GoogleGroups.{GroupMembership}
use knowledge_graph_mvp.Models.{
  Env, SourceDocument, DriveConnection, AclDb, PermissionSyncRun, get_connection, delegated_acl,
}
use knowledge_graph_mvp.SpiceDb.{SpiceDb}
use knowledge_graph_mvp.PermissionSync.{SyncException}
use knowledge_graph_mvp.PermissionSync.State.{SyncResult}
use knowledge_graph_mvp.PermissionSync.Scan.{DrivePermissionResource}
use knowledge_graph_mvp.PermissionSync.Run.{
  Reconciled, Ended, commit_verified_documents, fail_run, sync_desired, synchronize_permissions,
  save_run, save_refused, finish_run, sync_connection, sync_listed,
}
use knowledge_graph_mvp.PermissionSync.Committed.{commit-row}
use knowledge_graph_mvp.PermissionSync.Sound.{
  Keeps, AllSound, Keeps-refl, persist_complete_scan-Keeps, Keeps-trans,
}

abbrev rows : AclDb → List SourceDocument
rows db = db.tables.documents

-- The rows that a commit leaves.
abbrev committed : ℕ → ℕ → Text → SyncResult → AclDb → List SourceDocument
committed connection_id verified_at revision result db =
    ((commit_verified_documents connection_id revision verified_at result db).1).tables.documents

module _ {D : Type 0} (s : SpiceDb) (verified_at finished_at : ℕ) (meanwhile : AclDb → AclDb)
    (run : PermissionSyncRun) (R : List SourceDocument → List SourceDocument → Type 0)
    (kept : (a b : List SourceDocument) → Keeps a b → R a b)
    (trans : (a b c : List SourceDocument) → R a b → R b c → R a c)
    (other : (x : AclDb) → R x.tables.documents (meanwhile x).tables.documents) where
  -- A run that raises has changed the rows in the way of `R`; one that returns has committed besides.
  EndsIn : List SourceDocument → Ended D s.World → Type 0
  EndsIn before (err code, db, d, w) = R before db.tables.documents
  EndsIn before (ok r, db, d, w) =
      (middle : AclDb) × (revision : Text) × (result : SyncResult) × R before
        middle.tables.documents
      × (db.tables.documents ≡ committed run.connection verified_at revision result middle)

  finish_run-EndsIn :
      (before : List SourceDocument) (resources : List DrivePermissionResource)
      (result : SyncResult) (db : AclDb) (d : D) (p : Result SyncException Reconciled × s.World)
      → R before db.tables.documents
      → EndsIn before (finish_run s verified_at finished_at meanwhile run resources result db d p)
  unfolding EndsIn finish_run fail_run save_run
  finish_run-EndsIn before resources result db d (err e, w) r = trans before _ _ r (other db)
  finish_run-EndsIn before resources result db d (ok written, w) r =
      (meanwhile db, written.revision, result, trans before _ _ r (other db), refl)

  sync_desired-EndsIn :
      (before : List SourceDocument) (resources : List DrivePermissionResource) (db : AclDb)
      (w : s.World) (p : Result SyncException SyncResult × D)
      → R before db.tables.documents
      → EndsIn before (sync_desired s verified_at finished_at meanwhile run resources db w p)
  unfolding EndsIn sync_desired fail_run save_run
  sync_desired-EndsIn before resources db w (err e, d) r = r
  sync_desired-EndsIn before resources db w (ok result, d) r =
      finish_run-EndsIn before resources result db d _ r

  module _ (resolve : ℕ → List Text → D → Option (List (Text × GroupMembership)) × D) (env : Env)
      (marker now : ℕ) where
    sync_listed-EndsIn :
        (db : AclDb) (w : s.World) (p : Result String (List DrivePermissionResource) × D)
        → EndsIn db.tables.documents
            (sync_listed s verified_at finished_at meanwhile run resolve env marker now db w p)
    unfolding EndsIn sync_listed fail_run save_run
    sync_listed-EndsIn db w (err name, d) = kept _ _ (Keeps-refl _)
    sync_listed-EndsIn db w (ok resources, d) =
        sync_desired-EndsIn db.tables.documents resources _ w _
          (kept _ _ (persist_complete_scan-Keeps env run.connection marker now resources db))

    module _
        (list_resources : DriveConnection
          → D
          → Result String (List DrivePermissionResource) × D) where
      sync_connection-EndsIn :
          (o : Option DriveConnection) (db : AclDb) (d : D) (w : s.World)
          → EndsIn db.tables.documents (
              sync_connection s verified_at finished_at meanwhile run resolve env marker now
                list_resources o db d w)
      unfolding EndsIn sync_connection save_refused
      sync_connection-EndsIn none db d w = kept _ _ (Keeps-refl _)
      sync_connection-EndsIn (some connection) db d w =
          elim (Bool-cases (not (connection.permission_authority == delegated_acl))) [
            | inl e ↦
                rw e (kept db.tables.documents db.tables.documents (Keeps-refl db.tables.documents))
            | inr e ↦ rw e (sync_listed-EndsIn db w (list_resources connection d))
          ]

      synchronize_permissions-EndsIn :
          (db : AclDb) (d : D) (w : s.World)
          → EndsIn db.tables.documents (
              synchronize_permissions s verified_at finished_at meanwhile run resolve env marker now
                list_resources db d w)
      unfolding synchronize_permissions
      synchronize_permissions-EndsIn db d w =
          sync_connection-EndsIn (get_connection db.tables run.connection) db d w

-- A commit keeps eligible documents in scope.
committed_sound :
    (connection_id verified_at : ℕ) (revision : Text) (result : SyncResult) (db : AclDb)
    → AllSound db.tables.documents
    → AllSound (committed connection_id verified_at revision result db)
committed_sound connection_id verified_at revision result db sound d i h =
    elim ((commit-row connection_id revision verified_at result db d i h).1) [
      | inl v ↦ v.in_scope
      | inr j ↦ sound d j h
    ]

module _ {D : Type 0} (s : SpiceDb) (verified_at finished_at : ℕ) (meanwhile : AclDb → AclDb)
    (run : PermissionSyncRun)
    (resolve : ℕ → List Text → D → Option (List (Text × GroupMembership)) × D) (env : Env)
    (marker now : ℕ)
    (list_resources : DriveConnection → D → Result String (List DrivePermissionResource) × D) where
  abbrev synchronized : AclDb → D → s.World → Ended D s.World
  synchronized db d w =
      synchronize_permissions s verified_at finished_at meanwhile run resolve env marker now
        list_resources db d w

  -- A run that raises, at whatever step, has made no document eligible and has given none other
  -- evidence, as long as other processes do neither while SpiceDB is written.
  pub failed-Keeps :
      ((x : AclDb) → Keeps x.tables.documents (meanwhile x).tables.documents)
      → (db db' : AclDb) (d d' : D) (w w' : s.World) (code : String)
      → synchronized db d w ≡ (err code, db', d', w')
      → Keeps db.tables.documents db'.tables.documents
  unfolding EndsIn
  failed-Keeps other db db' d d' w w' code h =
      subst
        (EndsIn s verified_at finished_at meanwhile run Keeps (λ a b k. k) Keeps-trans other
          db.tables.documents)
        h
        (synchronize_permissions-EndsIn s verified_at finished_at meanwhile run Keeps (λ a b k. k)
          Keeps-trans other resolve env marker now list_resources db d w)

  -- However a run ends, an eligible document is in scope afterwards, if
  -- this held before and other processes keep it.
  pub synchronize_permissions-AllSound :
      ((x : AclDb) → AllSound x.tables.documents → AllSound (meanwhile x).tables.documents)
      → (db : AclDb) (d : D) (w : s.World) → AllSound db.tables.documents
      → AllSound ((synchronized db d w).1).tables.documents
  unfolding EndsIn
  synchronize_permissions-AllSound other db d w sound = at_end (synchronized db d w) (
      synchronize_permissions-EndsIn s verified_at finished_at meanwhile run
        (λ a b. AllSound a → AllSound b) (λ a b k. k.sound) (λ a b c f g x. g (f x)) other resolve
        env marker now list_resources db d w)
    where
      at_end :
          (e : Ended D s.World)
          → EndsIn s verified_at finished_at meanwhile run
              (λ a b. AllSound a → AllSound b)
              (λ a b k. k.sound)
              (λ a b c f g x. g (f x))
              other
              db.tables.documents
              e
          → AllSound (e.1).tables.documents
      at_end (err code, db', d', w') h = h sound
      at_end (ok r, db', d', w') h =
          let (middle, revision, result, k, p) = h in
          subst AllSound (sym p)
            (committed_sound run.connection verified_at revision result middle (k sound))
