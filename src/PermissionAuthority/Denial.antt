-- ===== src/PermissionAuthority/Denial.antt =====
-- What the denial leaves in the database: nothing that the connection could grant access by.
use mathlib.Core.Bool.{true≢false}
use knowledge_graph_mvp.Prelude.{
  Bool, Bool-cases, In, In-contains, In-keep, In-keep_of, In-map_of, List, [], ap, contains, false,
  inl, inr, is_empty, keep, list_eq, map, nat_eq, none, not, refl, same_key, string_eq, subst, sym,
  true, ℕ, ◌&&◌, ◌==◌, ◌∙◌, ◌≡◌, ◌≢◌,
}
use knowledge_graph_mvp.Models.{
  Db, DriveConnection, SourceDocument, GoogleDriveAuthorization, UserDocumentVisibility,
  In-update_where, disconnected, is_succeeded,
}
use knowledge_graph_mvp.PermissionAuthority.{
  denied_db, disable, disconnect, invalidate_authorizations, invalidate_document, requeue_document,
}

-- The connection's documents, authorizations and evidence rows are all invalid.
pub record IsCleared (connection_id : ℕ) (db : Db) : Type 0 where
  pub ineligible :
      (d : SourceDocument)
      → In d db.documents
      → d.connection ≡ connection_id
      → (d.retrieval_eligible ≡ false)
        × (d.spicedb_verified_at ≡ none)
        × (d.source_permissions_version ≡ [])
  pub ended :
      (a : GoogleDriveAuthorization)
      → In a db.authorizations
      → a.connection ≡ connection_id
      → (a.status ≡ disconnected) × (a.encrypted_refresh_credential ≡ []) × (a.granted_scopes ≡ [])
  pub forgotten :
      (v : UserDocumentVisibility) (a : GoogleDriveAuthorization)
      → In v db.visibilities
      → In a db.authorizations
      → a.connection ≡ connection_id
      → v.authorization ≢ a.pk

-- The connection is disabled, beside.
pub record IsDenied (connection_id : ℕ) (db : Db) : Type 0 where
  pub disabled :
      (c : DriveConnection) → In c db.connections → c.pk ≡ connection_id → c.enabled ≡ false
  pub cleared : IsCleared connection_id db

false_of_not : (b : Bool) → not b ≡ true → b ≡ false
false_of_not true h = cc
false_of_not false h = refl

requeued :
    (now : ℕ) (d : SourceDocument)
    → let x = requeue_document now (invalidate_document now d) in
      (x.retrieval_eligible ≡ false)
      × (x.spicedb_verified_at ≡ none)
      × (x.source_permissions_version ≡ [])
unfolding requeue_document invalidate_document
requeued now d =
    elim (Bool-cases (is_succeeded d.graph_extraction_status && not (is_empty d.content_hash))) [
      | inl e ↦ rw e (refl, refl, refl)
      | inr e ↦ rw e (refl, refl, refl)
    ]

module _ (fresh : ℕ → ℕ) (generation now id : ℕ) (db : Db) where
  denied_connection :
      (c : DriveConnection)
      → In c (denied_db fresh generation now id db).connections
      → c.pk ≡ id
      → c.enabled ≡ false
  unfolding denied_db disable invalidate_authorizations
  denied_connection c i k =
      let (old, j, e) =
        In-update_where (λ x. x.pk == id) (disable generation now) c db.connections i in
      elim e [
        | inl (t, p) ↦ ap (λ x. x.enabled) p
        | inr (t, p) ↦
            absurd (true≢false (sym (same_key old.pk id (ap (λ x. x.pk) (sym p) ∙ k)) ∙ t))
      ]

  denied_document :
      (d : SourceDocument)
      → In d (denied_db fresh generation now id db).documents
      → d.connection ≡ id
      → (d.retrieval_eligible ≡ false)
        × (d.spicedb_verified_at ≡ none)
        × (d.source_permissions_version ≡ [])
  unfolding denied_db invalidate_authorizations
  denied_document d i k =
      let (old, j, e) =
        In-update_where (λ x. x.connection == id)
          (λ x. requeue_document now (invalidate_document now x)) d db.documents i in
      elim e [
        | inl (t, p) ↦
            subst
              (λ x.
                (x.retrieval_eligible ≡ false)
                × (x.spicedb_verified_at ≡ none)
                × (x.source_permissions_version ≡ []))
              (sym p) (requeued now old)
        | inr (t, p) ↦
            absurd (
              true≢false
                (sym (same_key old.connection id (ap (λ x. x.connection) (sym p) ∙ k)) ∙ t))
      ]

  denied_authorization :
      (a : GoogleDriveAuthorization)
      → In a (denied_db fresh generation now id db).authorizations
      → a.connection ≡ id
      → (a.status ≡ disconnected)
        × (a.encrypted_refresh_credential ≡ [])
        × (a.granted_scopes ≡ [])
        × In a.pk (map (λ x. x.pk) (keep (λ x. x.connection == id) db.authorizations))
  unfolding denied_db invalidate_authorizations disconnect
  denied_authorization a i k =
      let (old, j, e) =
        In-update_where (λ x. x.connection == id) (disconnect fresh now) a db.authorizations i in
      elim e [
        | inl (t, p) ↦ (
          ap (λ x. x.status) p,
          ap (λ x. x.encrypted_refresh_credential) p,
          ap (λ x. x.granted_scopes) p,
          subst (λ z. In z (map (λ x. x.pk) (keep (λ x. x.connection == id) db.authorizations)))
              (ap (λ x. x.pk) (sym p))
              (In-map_of (λ x. x.pk) old _
                (In-keep_of (λ x. x.connection == id) old db.authorizations j t)),
        )
        | inr (t, p) ↦
            absurd (
              true≢false
                (sym (same_key old.connection id (ap (λ x. x.connection) (sym p) ∙ k)) ∙ t))
      ]

  -- The denial denies: afterwards the connection is disabled, and none of its documents,
  -- authorizations or evidence rows is valid.
  pub denied_db-IsDenied : IsDenied id (denied_db fresh generation now id db)
  unfolding denied_db invalidate_authorizations
  denied_db-IsDenied = record {
    disabled = denied_connection;
    cleared = record {
      ineligible = denied_document;
      ended = λ a i k. let (p, q, r, _) = denied_authorization a i k in (p, q, r);
      forgotten = λ v a i j k e.
          let (_, _, _, l) = denied_authorization a j k in
          let (_, t) = In-keep (λ x. not (contains pks x.authorization)) v db.visibilities i in
          true≢false (
            sym (In-contains pks v.authorization (subst (λ z. In z pks) (sym e) l))
            ∙ false_of_not (contains pks v.authorization) t);
    };
  }
    where
      pks : List ℕ
      pks = map (λ x. x.pk) (keep (λ x. x.connection == id) db.authorizations)
