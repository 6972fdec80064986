-- ===== src/PermissionSync/Synchronized.antt =====
-- What a delegated run that returns has done: in SpiceDB, and in the documents' rows.
use knowledge_graph_mvp.Prelude.{
  Bool-cases, In, List, Option, Result, String, Text, ap, eq_of_==, err, false, inl, inr, list_eq,
  nat_eq, none, not, ok, refl, some, starts_with, string_eq, subst, sym, true, true_of_not, ℕ, ◌==◌,
  ◌↔◌, ◌∙◌, ◌≡◌, ◌⊎◌,
}
use knowledge_graph_mvp.PermissionSync.Hierarchy.Ancestors.{IsAncestor}
use knowledge_graph_mvp.GoogleGroups.{GroupMembership}
use knowledge_graph_mvp.Models.{
  Env, SourceDocument, DriveConnection, AclDb, PermissionSyncRun, get_connection, delegated_acl,
}
use knowledge_graph_mvp.SpiceDb.{SpiceDb, PermissionTuple}
use knowledge_graph_mvp.SpiceDb.Laws.{Serves}
use knowledge_graph_mvp.Identifiers.{connection_prefix, document_object_id}
use knowledge_graph_mvp.PermissionSync.{SyncException, permission_sync_error}
use knowledge_graph_mvp.PermissionSync.Hierarchy.{validate_acyclic}
use knowledge_graph_mvp.PermissionSync.Hierarchy.Cycles.{validate_acyclic_iff}
use knowledge_graph_mvp.PermissionSync.State.{
  SyncResult, desired_state, build_state, groups_of, active_folders, resolve_groups,
}
use knowledge_graph_mvp.PermissionSync.Scan.{DrivePermissionResource, persist_complete_scan}
use knowledge_graph_mvp.PermissionSync.Run.{
  Reconciled, Ended, reconcile, finish_run, sync_desired, sync_listed, sync_connection,
  synchronize_permissions, save_run, fail_run, save_refused,
}
use knowledge_graph_mvp.PermissionSync.Written.{reconcile-exact_written}
use knowledge_graph_mvp.PermissionSync.Eligible.{IsGrounded, eligible_entry-IsGrounded}
use knowledge_graph_mvp.PermissionSync.Committed.{IsVerified, IsSpared, commit-row}

module _ (env : Env) (s : SpiceDb) (law : Serves s) (connection_id : ℕ) where
  -- A document's row has the evidence of this run: SpiceDB holds a relationship of the document, which
  -- was judged with the version of the access list that the row has now.
  pub record IsProven (scanned : AclDb) (resolved : Option (List (Text × GroupMembership)))
      (w : s.World) (row : SourceDocument) : Type 0 where
    pub document : SourceDocument
    pub grounded :
        IsGrounded env connection_id scanned (groups_of scanned connection_id) resolved document
    pub same_document : row.pk ≡ document.pk
    pub same_version : row.source_permissions_version ≡ document.source_permissions_version
    pub proven_version : row.spicedb_permissions_version ≡ row.source_permissions_version
    pub granted :
        (t : PermissionTuple) × In t (law.tuples w)
        × (t.resource_type ≡ "kgm/document")
        × (t.resource_id ≡ document_object_id connection_id row.pk)

  -- What is there after a run that returned, `scanned` being the database behind its scan and
  -- `others` the one behind the writes of other processes.
  pub record IsSynchronized (scanned others db' : AclDb)
      (resolved : Option (List (Text × GroupMembership))) (w w' : s.World) : Type 0 where
    -- No folder is above itself.
    pub acyclic : (x : Text) → IsAncestor (active_folders scanned connection_id) x x → ⊥
    -- The relationships of the connection are exactly the desired ones, all others are kept.
    pub exact :
        (t : PermissionTuple)
        → In t (law.tuples w') ↔ (
            In t
              (build_state env connection_id scanned
                (groups_of scanned connection_id)
                resolved).desired
            ⊎ (In t (law.tuples w)
                × (starts_with (connection_prefix connection_id) t.resource_id ≡ false)))
    -- An eligible row is proven by this run, or is one that the run neither judged eligible at its
    -- present version nor excluded.
    pub rows :
        (row : SourceDocument)
        → In row db'.tables.documents
        → row.retrieval_eligible ≡ true
        → IsProven scanned resolved w' row
          ⊎ (In row others.tables.documents
              × IsSpared connection_id
                  (build_state env connection_id scanned
                    (groups_of scanned connection_id)
                    resolved).excluded_document_reasons
                  row)

-- A desired state stands on a hierarchy without a cycle, and on what the groups resolved to.
module _ {D : Type 0} (resolve : ℕ → List Text → D → Option (List (Text × GroupMembership)) × D)
    (env : Env) (connection_id : ℕ) (db : AclDb) where
  desired_state-ok :
      (d d' : D) (result : SyncResult)
      → desired_state resolve env connection_id db d ≡ (ok result, d')
      → (validate_acyclic (active_folders db connection_id) ≡ ok tt)
        × (result
            ≡ build_state env connection_id db
                (groups_of db connection_id)
                ((resolve_groups resolve connection_id db d).0))
  unfolding desired_state
  desired_state-ok d d' result h =
      split (resolve_groups resolve connection_id db d)
        (validate_acyclic (active_folders db connection_id)) refl h
    where
      split :
          (p : Option (List (Text × GroupMembership)) × D) (v : Result String (Unit {0}))
          → validate_acyclic (active_folders db connection_id) ≡ v
          → elim v as (λ _. Result SyncException SyncResult × D) [
            | err code ↦ (err (permission_sync_error code), d)
            | ok _ ↦ (ok (build_state env connection_id db (groups_of db connection_id) (p.0)), p.1)
          ]
            ≡ (ok result, d')
          → (validate_acyclic (active_folders db connection_id) ≡ ok tt)
            × (result ≡ build_state env connection_id db (groups_of db connection_id) (p.0))
      split p (err code) e k = cc
      split p (ok u) e k = (e, cc)

no_cycle :
    (db : AclDb) (connection_id : ℕ)
    → validate_acyclic (active_folders db connection_id) ≡ ok tt
    → (x : Text) → IsAncestor (active_folders db connection_id) x x
    → ⊥
no_cycle db connection_id h x a =
    let stopped = (validate_acyclic_iff (active_folders db connection_id)).1 (x, a) in
    apart (sym stopped ∙ h)
  where
    apart : ◌≡◌ {A = Result String (Unit {0})} (err "folder_hierarchy_cycle") (ok tt) → ⊥
    apart q = cc

module _ (s : SpiceDb) (law : Serves s) (verified_at : ℕ) (run : PermissionSyncRun)
    (env : Env) where
  -- A row that the commit has verified, where SpiceDB holds what was desired.
  proven :
      (scanned : AclDb) (resolved : Option (List (Text × GroupMembership))) (w : s.World)
      (revision : Text) (row : SourceDocument)
      → IsVerified run.connection revision verified_at
          (build_state env run.connection scanned
            (groups_of scanned run.connection)
            resolved).eligible_document_versions
          row
      → ((t : PermissionTuple)
          → In t
              (build_state env run.connection scanned
                (groups_of scanned run.connection)
                resolved).desired
          → In t (law.tuples w))
      → IsProven env s law run.connection scanned resolved w row
  proven scanned resolved w revision row v held =
      let (document, p, g) =
        eligible_entry-IsGrounded env run.connection scanned (groups_of scanned run.connection)
          resolved v.entry v.listed in
      let same : row.pk ≡ document.pk = v.of_document ∙ ap (λ e. e.0) p in
      let (t, i, a, b) = g.has_grant in
      record {
        document = document;
        grounded = g;
        same_document = same;
        same_version = v.same_version ∙ ap (λ e. e.1) p;
        proven_version = v.proven_version ∙ sym v.same_version;
        granted = (t, held t i, a, b ∙ ap (document_object_id run.connection) (sym same));
      }

module _ {D : Type 0} (s : SpiceDb) (law : Serves s) (verified_at finished_at : ℕ)
    (meanwhile : AclDb → AclDb) (run : PermissionSyncRun) (env : Env) where
  -- The end of a run behind its desired state.
  finish_run-IsSynchronized :
      (resources : List DrivePermissionResource) (resolved : Option (List (Text × GroupMembership)))
      (scanned db' : AclDb) (d d' : D) (w w' : s.World) (r : PermissionSyncRun)
      → validate_acyclic (active_folders scanned run.connection) ≡ ok tt
      → finish_run s verified_at finished_at meanwhile run resources
          (build_state env run.connection scanned (groups_of scanned run.connection) resolved)
          scanned
          d
          (reconcile s
            (connection_prefix run.connection)
            (build_state env run.connection scanned
              (groups_of scanned run.connection)
              resolved).desired
            w)
        ≡ (ok r, db', d', w')
      → IsSynchronized env s law run.connection scanned (meanwhile scanned) db' resolved w w'
  unfolding finish_run fail_run save_run
  finish_run-IsSynchronized resources resolved scanned db' d d' w w' r acyclic h =
      split (reconcile s (connection_prefix run.connection) result.desired w) refl h
    where
      result : SyncResult
      result = build_state env run.connection scanned (groups_of scanned run.connection) resolved

      split :
          (p : Result SyncException Reconciled × s.World)
          → reconcile s (connection_prefix run.connection) result.desired w ≡ p
          → finish_run s verified_at finished_at meanwhile run resources result scanned d p
            ≡ (ok r, db', d', w')
          → IsSynchronized env s law run.connection scanned (meanwhile scanned) db' resolved w w'
      split (err e, w2) q k = cc
      split (ok written, w2) q k =
          let (clean, exact) =
            reconcile-exact_written s law (connection_prefix run.connection) result.desired w w2
              written q in
          let same_w : w2 ≡ w' = ap (λ p. p.3) k in
          let same_rows = ap (λ p. (p.1).tables.documents) k in
          record {
            acyclic = no_cycle scanned run.connection acyclic;
            exact =
                subst
                  (λ v.
                    (t : PermissionTuple)
                    → In t (law.tuples v) ↔ (
                        In t result.desired
                        ⊎ (In t (law.tuples w)
                            × (starts_with (connection_prefix run.connection) t.resource_id
                                ≡ false))))
                  same_w exact;
            rows = λ row i h.
                let (spared, place) =
                  commit-row run.connection written.revision verified_at result (meanwhile scanned)
                    row (subst (In row) (sym same_rows) i) h in
                elim place [
                  | inr j ↦ inr (j, spared)
                  | inl v ↦ inl (
                      subst (λ x. IsProven env s law run.connection scanned resolved x row) same_w
                        (proven s law verified_at run env scanned resolved w2 written.revision row v
                          (λ t i. (exact t).1 (inl i))))
                ];
          }

  module _ (resolve : ℕ → List Text → D → Option (List (Text × GroupMembership)) × D)
      (marker now : ℕ)
      (list_resources : DriveConnection
        → D
        → Result String (List DrivePermissionResource) × D) where
    -- What a run has done behind a scan, with the groups as they were resolved from `d`.
    abbrev pub IsSynchronizedFrom : AclDb → AclDb → D → s.World → s.World → Type 0
    IsSynchronizedFrom scanned db' d w w' =
        IsSynchronized env s law run.connection scanned (meanwhile scanned) db'
          ((resolve_groups resolve run.connection scanned d).0) w w'

    -- What a run that returned has done: its connection has the delegated authority, and all that
    -- Drive listed has been scanned.
    pub record HasSynchronized (db db' : AclDb) (d : D) (w w' : s.World) : Type 0 where
      pub connection : DriveConnection
      pub is_connection : get_connection db.tables run.connection ≡ some connection
      pub is_delegated : connection.permission_authority ≡ delegated_acl
      pub resources : List DrivePermissionResource
      pub after_listing : D
      pub are_listed : list_resources connection d ≡ (ok resources, after_listing)
      pub synchronized :
          IsSynchronizedFrom
            (persist_complete_scan env run.connection marker now resources db)
            db'
            after_listing
            w
            w'

    sync_desired-IsSynchronizedFrom :
        (resources : List DrivePermissionResource) (scanned db' : AclDb) (d d' : D) (w w' : s.World)
        (r : PermissionSyncRun)
        → sync_desired s verified_at finished_at meanwhile run resources scanned w
            (desired_state resolve env run.connection scanned d)
          ≡ (ok r, db', d', w')
        → IsSynchronizedFrom scanned db' d w w'
    unfolding sync_desired fail_run
    sync_desired-IsSynchronizedFrom resources scanned db' d d' w w' r h =
        split (desired_state resolve env run.connection scanned d) refl h
      where
        split :
            (p : Result SyncException SyncResult × D)
            → desired_state resolve env run.connection scanned d ≡ p
            → sync_desired s verified_at finished_at meanwhile run resources scanned w p
              ≡ (ok r, db', d', w')
            → IsSynchronizedFrom scanned db' d w w'
        split (err e, d1) q k = cc
        split (ok result, d1) q k =
            let (acyclic, same) =
              desired_state-ok resolve env run.connection scanned d d1 result q in
            finish_run-IsSynchronized resources _ scanned db' d1 d' w w' r acyclic (
              subst
                (λ x.
                  finish_run s verified_at finished_at meanwhile run resources x scanned d1
                    (reconcile s (connection_prefix run.connection) x.desired w)
                  ≡ (ok r, db', d', w'))
                same k)

    sync_listed-HasSynchronized :
        (connection : DriveConnection) (db db' : AclDb) (d d' : D) (w w' : s.World)
        (r : PermissionSyncRun)
        → get_connection db.tables run.connection ≡ some connection
        → connection.permission_authority ≡ delegated_acl
        → (p : Result String (List DrivePermissionResource) × D) → list_resources connection d ≡ p
        → sync_listed s verified_at finished_at meanwhile run resolve env marker now db w p
          ≡ (ok r, db', d', w')
        → HasSynchronized db db' d w w'
    unfolding sync_listed fail_run
    sync_listed-HasSynchronized connection db db' d d' w w' r c a (err name, d1) l h = cc
    sync_listed-HasSynchronized connection db db' d d' w w' r c a (ok resources, d1) l h = record {
      connection = connection;
      is_connection = c;
      is_delegated = a;
      resources = resources;
      after_listing = d1;
      are_listed = l;
      synchronized = sync_desired-IsSynchronizedFrom resources _ db' d1 d' w w' r h;
    }

    sync_connection-HasSynchronized :
        (o : Option DriveConnection) (db db' : AclDb) (d d' : D) (w w' : s.World)
        (r : PermissionSyncRun)
        → get_connection db.tables run.connection ≡ o
        → sync_connection s verified_at finished_at meanwhile run resolve env marker now
            list_resources o db d w
          ≡ (ok r, db', d', w')
        → HasSynchronized db db' d w w'
    unfolding sync_connection
    sync_connection-HasSynchronized none db db' d d' w w' r c h = cc
    sync_connection-HasSynchronized (some connection) db db' d d' w w' r c h =
        elim (Bool-cases (not (connection.permission_authority == delegated_acl))) [
          | inl e ↦ absurd (refused (rw (e, sync_connection) at h))
          | inr e ↦
              sync_listed-HasSynchronized connection db db' d d' w w' r c
                (eq_of_== connection.permission_authority delegated_acl (true_of_not _ e))
                (list_resources connection d) refl (rw (e, sync_connection) at h)
        ]
      where
        refused :
            ◌≡◌ {A = Ended D s.World}
              (err "permission_authority_mismatch", save_refused finished_at run db, d, w)
              (ok r, db', d', w')
            → ⊥
        refused q = cc

    -- A run that returns, on a SpiceDB server that keeps its laws, is of a connection with the
    -- delegated authority, has scanned all that Drive listed, and found no cycle of folders. The
    -- relationships of the connection are exactly the desired ones afterwards, all others are kept, and
    -- each eligible document is proven by the run, or left as other processes have it and not excluded.
    pub synchronize_permissions-HasSynchronized :
        (db db' : AclDb) (d d' : D) (w w' : s.World) (r : PermissionSyncRun)
        → synchronize_permissions s verified_at finished_at meanwhile run resolve env marker now
            list_resources db d w
          ≡ (ok r, db', d', w')
        → HasSynchronized db db' d w w'
    unfolding synchronize_permissions
    synchronize_permissions-HasSynchronized db db' d d' w w' r h =
        sync_connection-HasSynchronized (get_connection db.tables run.connection) db db' d d' w w' r
          refl h
