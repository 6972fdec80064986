-- ===== src/PermissionSync/Sound.antt =====
-- The evidence of the documents through a delegated run: nothing but the commit gives any, and an
-- eligible document is in scope.
use knowledge_graph_mvp.Prelude.{
  Bool, Bool-cases, In, List, Option, String, [], ap, arith, false, if◌then◌else◌, inl, inr,
  list_eq, nat_eq, none, not, refl, some, string_eq, subst, sym, true, ℕ, ◌&&◌, ◌==◌, ◌∙◌, ◌∷◌, ◌≡◌,
}
use knowledge_graph_mvp.Models.{Env, SourceDocument, AclDb, In-update_where, update_where}
use knowledge_graph_mvp.PermissionSync.Scan.{
  DrivePermissionResource, exclude, seen_document, set_reason, leave_scope, is_unseen_document,
  mark_incomplete, persisted_documents, persist_folder, persist_document, persist_resources, sweep,
  persist_complete_scan,
}

-- The same row, with the same evidence.
pub record HasEvidenceOf (old d : SourceDocument) : Type 0 where
  pub same_pk : old.pk ≡ d.pk
  pub was_eligible : old.retrieval_eligible ≡ true
  pub same_version : old.spicedb_permissions_version ≡ d.spicedb_permissions_version
  pub same_revision : old.spicedb_revision ≡ d.spicedb_revision
  pub same_time : old.spicedb_verified_at ≡ d.spicedb_verified_at

-- An eligible document is in scope.
abbrev pub IsSound : SourceDocument → Type 0
IsSound d = d.retrieval_eligible ≡ true → d.active_in_scope ≡ true

abbrev pub AllSound : List SourceDocument → Type 0
AllSound rows = (d : SourceDocument) → In d rows → IsSound d

-- No row has become eligible, or has got other evidence, and sound rows have stayed so.
pub record Keeps (rows rows' : List SourceDocument) : Type 0 where
  pub no_new :
      (d : SourceDocument)
      → In d rows'
      → d.retrieval_eligible ≡ true
      → (old : SourceDocument) × In old rows × HasEvidenceOf old d
  pub sound : AllSound rows → AllSound rows'

HasEvidenceOf-refl : (d : SourceDocument) → d.retrieval_eligible ≡ true → HasEvidenceOf d d
HasEvidenceOf-refl d h = record {
  same_pk = refl;
  was_eligible = h;
  same_version = refl;
  same_revision = refl;
  same_time = refl;
}

HasEvidenceOf-trans :
    (a b c : SourceDocument) → HasEvidenceOf a b → HasEvidenceOf b c → HasEvidenceOf a c
HasEvidenceOf-trans a b c h k = record {
  same_pk = h.same_pk ∙ k.same_pk;
  was_eligible = h.was_eligible;
  same_version = h.same_version ∙ k.same_version;
  same_revision = h.same_revision ∙ k.same_revision;
  same_time = h.same_time ∙ k.same_time;
}

pub Keeps-refl : (rows : List SourceDocument) → Keeps rows rows
Keeps-refl rows = record { no_new = λ d i h. (d, i, HasEvidenceOf-refl d h); sound = λ s. s }

pub Keeps-trans : (a b c : List SourceDocument) → Keeps a b → Keeps b c → Keeps a c
Keeps-trans a b c h k = record {
  no_new = λ d i e.
      let (m, j, p) = k.no_new d i e in
      let (o, l, q) = h.no_new m j p.was_eligible in (o, l, HasEvidenceOf-trans o m d q p);
  sound = λ s. k.sound (h.sound s);
}

Keeps-update_where :
    (test : SourceDocument → Bool) (change : SourceDocument → SourceDocument)
    (rows : List SourceDocument)
    → ((d : SourceDocument) → (change d).retrieval_eligible ≡ true → HasEvidenceOf d (change d))
    → ((d : SourceDocument) → IsSound d → IsSound (change d))
    → Keeps rows (update_where test change rows)
Keeps-update_where test change rows same sound = record {
  no_new = λ d i h.
      let (old, j, k) = In-update_where test change d rows i in
      (
        old,
        j,
        elim k [
          | inl (t, p) ↦
              subst (HasEvidenceOf old) (sym p)
                (same old (ap (λ z. z.retrieval_eligible) (sym p) ∙ h))
          | inr (t, p) ↦
              subst (HasEvidenceOf old) (sym p)
                (HasEvidenceOf-refl old (ap (λ z. z.retrieval_eligible) (sym p) ∙ h))
        ],
      );
  sound = λ s d i.
      let (old, j, k) = In-update_where test change d rows i in
      elim k [
        | inl (t, p) ↦ subst IsSound (sym p) (sound old (s old j))
        | inr (t, p) ↦ subst IsSound (sym p) (s old j)
      ];
}

-- The changes of a scan.
pub exclude-Keeps :
    (test : SourceDocument → Bool) (now : ℕ) (reason : String) (rows : List SourceDocument)
    → Keeps rows (update_where test (exclude now reason) rows)
unfolding exclude
exclude-Keeps test now reason rows =
    Keeps-update_where test (exclude now reason) rows (λ d h. absurd (ground arith))
      (λ d s h. absurd (ground arith))

module _ (env : Env) (connection_id marker now : ℕ) where
  seen-Keeps :
      (test : SourceDocument → Bool) (r : DrivePermissionResource) (rows : List SourceDocument)
      → Keeps rows (update_where test (seen_document env connection_id marker now r) rows)
  unfolding seen_document
  seen-Keeps test r rows =
      Keeps-update_where test (seen_document env connection_id marker now r) rows
        (λ d h. record {
          same_pk = refl;
          was_eligible = h;
          same_version = refl;
          same_revision = refl;
          same_time = refl;
        })
        (λ d s h. refl)

  reason-Keeps :
      (test : SourceDocument → Bool) (reason : String) (rows : List SourceDocument)
      → Keeps rows (update_where test (set_reason env connection_id marker now reason) rows)
  unfolding set_reason
  reason-Keeps test reason rows =
      Keeps-update_where test (set_reason env connection_id marker now reason) rows
        (λ d h. record {
          same_pk = refl;
          was_eligible = h;
          same_version = refl;
          same_revision = refl;
          same_time = refl;
        })
        (λ d s h. s h)

  leave-Keeps :
      (test : SourceDocument → Bool) (rows : List SourceDocument)
      → Keeps rows (update_where test (leave_scope env connection_id marker now) rows)
  unfolding leave_scope exclude
  leave-Keeps test rows =
      Keeps-update_where test (leave_scope env connection_id marker now) rows
        (λ d h. absurd (ground arith)) (λ d s h. absurd (ground arith))

  mark_incomplete-Keeps :
      (r : DrivePermissionResource) (o : Option SourceDocument) (rows : List SourceDocument)
      → Keeps rows (mark_incomplete env connection_id marker now r o rows)
  unfolding mark_incomplete
  mark_incomplete-Keeps r none rows = Keeps-refl rows
  mark_incomplete-Keeps r (some document) rows = elim (Bool-cases r.permissions_fetch_failed) [
    | inl e ↦ rw e (reason-Keeps (λ d. d.pk == document.pk) "permission_metadata_incomplete" rows)
    | inr e ↦ rw e (Keeps-refl rows)
  ]

  persisted_documents-Keeps :
      (r : DrivePermissionResource) (rows : List SourceDocument)
      → Keeps rows (persisted_documents env connection_id marker now r rows)
  unfolding persisted_documents
  persisted_documents-Keeps r rows =
      Keeps-trans rows _ _ (seen-Keeps _ r rows) (mark_incomplete-Keeps r _ _)

  resource-Keeps :
      (r : DrivePermissionResource) (is_folder : Bool) (db : AclDb)
      → Keeps db.tables.documents
          (if is_folder
            then persist_folder env connection_id marker now r db
            else persist_document env connection_id marker now r db).tables.documents
  unfolding persist_folder persist_document
  resource-Keeps r true db = Keeps-refl db.tables.documents
  resource-Keeps r false db = persisted_documents-Keeps r db.tables.documents

  persist_resources-Keeps :
      (rs : List DrivePermissionResource) (db : AclDb)
      → Keeps db.tables.documents
          (persist_resources env connection_id marker now rs db).tables.documents
  unfolding persist_resources
  persist_resources-Keeps [] db = Keeps-refl db.tables.documents
  persist_resources-Keeps (r ∷ rs) db =
      Keeps-trans db.tables.documents _ _ (resource-Keeps r (r.resource_type == "folder") db)
        (persist_resources-Keeps rs _)

  pub persist_complete_scan-Keeps :
      (rs : List DrivePermissionResource) (db : AclDb)
      → Keeps db.tables.documents
          (persist_complete_scan env connection_id marker now rs db).tables.documents
  unfolding persist_complete_scan sweep
  persist_complete_scan-Keeps rs db =
      Keeps-trans db.tables.documents _ _ (persist_resources-Keeps rs db) (leave-Keeps _ _)

  -- Behind the scan every active document of the connection has been seen by it.
  pub persist_complete_scan-seen :
      (rs : List DrivePermissionResource) (db : AclDb) (d : SourceDocument)
      → In d (persist_complete_scan env connection_id marker now rs db).tables.documents
      → d.connection ≡ connection_id
      → d.active_in_scope ≡ true
      → d.last_seen_sync_marker ≡ marker
  unfolding persist_complete_scan sweep leave_scope is_unseen_document
  persist_complete_scan-seen rs db d i c a =
      let (old, j, k) =
        In-update_where (is_unseen_document env connection_id marker now)
          (leave_scope env connection_id marker now) d
          (persist_resources env connection_id marker now rs db).tables.documents i in
      elim k [
        | inl (t, p) ↦ absurd (gone (ap (λ z. z.active_in_scope) p) a)
        | inr (t, p) ↦
            ap (λ z. z.last_seen_sync_marker) p
            ∙ marked old t (ap (λ z. z.connection) (sym p) ∙ c)
                (ap (λ z. z.active_in_scope) (sym p) ∙ a)
      ]
    where
      gone : d.active_in_scope ≡ false → d.active_in_scope ≡ true → ⊥
      gone x y = cc

      marked :
          (old : SourceDocument)
          → old.connection == connection_id
              && (old.active_in_scope && not (old.last_seen_sync_marker == marker))
            ≡ false
          → old.connection ≡ connection_id
          → old.active_in_scope ≡ true
          → old.last_seen_sync_marker ≡ marker
      marked old t x y = ground arith
