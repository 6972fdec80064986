-- ===== src/PermissionSync/Committed.antt =====
-- What the last transaction of a delegated run leaves in the documents' rows.
use knowledge_graph_mvp.Prelude.{
  In, List, String, Text, [], ap, arith, eq_of_==, false, inl, inr, list_eq, nat_eq, refl, some,
  string_eq, subst, sym, true, ℕ, ◌&&◌, ◌==◌, ◌∙◌, ◌∷◌, ◌≡◌, ◌⊎◌,
}
use knowledge_graph_mvp.PermissionSync.Scan.{exclude}
use knowledge_graph_mvp.Models.{SourceDocument, AclDb, In-update_where}
use knowledge_graph_mvp.PermissionSync.State.{SyncResult}
use knowledge_graph_mvp.PermissionSync.Run.{
  enable_documents, exclude_documents, commit_verified_documents, is_current_version, verify,
}

-- The row is none of those that the run excludes.
abbrev pub IsSpared : ℕ → List (ℕ × String) → SourceDocument → Type 0
IsSpared connection_id xs d =
    (x : ℕ × String) → In x xs → d.pk ≡ x.0 → d.connection ≡ connection_id → ⊥

module _ (connection_id : ℕ) (revision : Text) (now : ℕ) where
  -- The row is still the one that was judged, and has the evidence of this run.
  pub record IsVerified (es : List (ℕ × Text)) (d : SourceDocument) : Type 0 where
    pub entry : ℕ × Text
    pub listed : In entry es
    pub of_document : d.pk ≡ entry.0
    pub of_connection : d.connection ≡ connection_id
    pub in_scope : d.active_in_scope ≡ true
    pub same_version : d.source_permissions_version ≡ entry.1
    pub proven_version : d.spicedb_permissions_version ≡ entry.1
    pub at_revision : d.spicedb_revision ≡ revision
    pub verified_at : d.spicedb_verified_at ≡ some now

  verify-IsVerified :
      (e : ℕ × Text) (es : List (ℕ × Text)) (old d : SourceDocument)
      → In e es
      → is_current_version connection_id revision now e old ≡ true
      → d ≡ verify connection_id revision now (e.1) old
      → IsVerified es d
  unfolding is_current_version verify
  verify-IsVerified (pk, version) es old d i h p = subst (IsVerified es) (sym p) (record {
    entry = (pk, version);
    listed = i;
    of_document = eq_of_== old.pk pk (ground arith);
    of_connection = eq_of_== old.connection connection_id (ground arith);
    in_scope = ground arith;
    same_version = eq_of_== old.source_permissions_version version (ground arith);
    proven_version = refl;
    at_revision = refl;
    verified_at = refl;
  })

  later :
      (e : ℕ × Text) (es : List (ℕ × Text)) (d : SourceDocument)
      → IsVerified es d
      → IsVerified (e ∷ es) d
  later e es d v = record {
    entry = v.entry;
    listed = inr v.listed;
    of_document = v.of_document;
    of_connection = v.of_connection;
    in_scope = v.in_scope;
    same_version = v.same_version;
    proven_version = v.proven_version;
    at_revision = v.at_revision;
    verified_at = v.verified_at;
  }

  enable_documents-row :
      (es : List (ℕ × Text)) (n : ℕ) (rows : List SourceDocument) (d : SourceDocument)
      → In d ((enable_documents connection_id revision now es (n, rows)).1)
      → In d rows ⊎ IsVerified es d
  unfolding enable_documents
  enable_documents-row [] n rows d i = inl i
  enable_documents-row (e ∷ es) n rows d i = elim (enable_documents-row es _ _ d i) [
    | inr v ↦ inr (later e es d v)
    | inl j ↦
        let (old, k, h) = In-update_where _ _ d rows j in
        elim h [
          | inl (t, p) ↦ inr (verify-IsVerified e (e ∷ es) old d (inl refl) t p)
          | inr (t, p) ↦ inl (subst (λ x. In x rows) (sym p) k)
        ]
  ]

  exclude_documents-row :
      (xs : List (ℕ × String)) (rows : List SourceDocument) (d : SourceDocument)
      → In d (exclude_documents connection_id revision now xs rows)
      → (In d rows × IsSpared connection_id xs d) ⊎ (d.retrieval_eligible ≡ false)
  unfolding exclude_documents exclude
  exclude_documents-row [] rows d i = inl (i, λ x z p q. absurd z)
  exclude_documents-row (x ∷ xs) rows d i = elim (exclude_documents-row xs _ d i) [
    | inr e ↦ inr e
    | inl (j, spared) ↦
        let (old, k, h) = In-update_where _ _ d rows j in
        elim h [
          | inl (t, p) ↦ inr (ap (λ z. z.retrieval_eligible) p)
          | inr (t, p) ↦ inl (
            subst (λ z. In z rows) (sym p) k,
            λ y m a b. elim m [
              | inl q ↦
                  missed (x.0) old t (ap (λ z. z.pk) (sym p) ∙ a ∙ ap (λ z. z.0) q)
                    (ap (λ z. z.connection) (sym p) ∙ b)
              | inr m' ↦ spared y m' a b
            ],
          )
        ]
  ]
    where
      missed :
          (pk : ℕ) (old : SourceDocument)
          → old.pk == pk && old.connection == connection_id ≡ false
          → old.pk ≡ pk
          → old.connection ≡ connection_id
          → ⊥
      missed pk old t a b = ground arith

  -- A row that is eligible behind the commit has the evidence of this run, or is as it was before;
  -- in both cases the run does not exclude it.
  pub commit-row :
      (result : SyncResult) (db : AclDb) (d : SourceDocument)
      → In d ((commit_verified_documents connection_id revision now result db).1).tables.documents
      → d.retrieval_eligible ≡ true
      → IsSpared connection_id result.excluded_document_reasons d
        × (IsVerified result.eligible_document_versions d ⊎ In d db.tables.documents)
  unfolding commit_verified_documents
  commit-row result db d i h = elim (exclude_documents-row result.excluded_document_reasons _ d i) [
    | inr e ↦ absurd (ground arith)
    | inl (j, spared) ↦ (
      spared,
      elim (enable_documents-row result.eligible_document_versions 0 db.tables.documents d j) [
        | inl k ↦ inr k
        | inr v ↦ inl v
      ],
    )
  ]
