-- ===== src/PermissionSync/Stored.antt =====
-- What the scan stores of the listed resources is what the judgement reads.
use knowledge_graph_mvp.Prelude.{
  Bool, Bool-cases, List, Option, Text, [], ap, false, first, if◌then◌else◌, inl, inr, keep,
  list_eq, nat_eq, none, not, refl, some, string_eq, sym, true, ℕ, ◌&&◌, ◌==◌, ◌∙◌, ◌∷◌, ◌≡◌, ◌⊎◌,
}
use knowledge_graph_mvp.PermissionSync.{document_acl, folder_acl}
use knowledge_graph_mvp.PermissionSync.Scan.{
  persist_folder, persist_complete_scan, persist_resources, mark_incomplete,
  DrivePermissionResource, is_document_row, persist_document, persisted_documents, seen_document,
  set_reason, sweep,
}
use knowledge_graph_mvp.Models.{update_where, Env, AclDb, DriveFolder, SourceDocument}
use knowledge_graph_mvp.PermissionSync.Listed.{
  last_listed, document_step, folder_step, has_key, is_listed_document, is_listed_folder,
  last_listed-same, persist, row_key,
}

is_file : ℕ → Text → SourceDocument → Bool
is_file connection_id drive_id d = d.connection == connection_id && d.drive_file_id == drive_id

row_key-∷ :
    (connection_id : ℕ) (drive_id : Text) (x : SourceDocument) (xs : List SourceDocument)
    → row_key connection_id drive_id (x ∷ xs)
      ≡ (if is_file connection_id drive_id x then some x.pk else row_key connection_id drive_id xs)
unfolding first keep is_file
row_key-∷ connection_id drive_id x xs =
    elim (Bool-cases (x.connection == connection_id && x.drive_file_id == drive_id)) [
      | inl e ↦ rw (e, row_key) refl
      | inr e ↦ rw (e, row_key) refl
    ]

-- An update that keeps a row's keys keeps what a file's key is.
row_key-update_where :
    (connection_id : ℕ) (drive_id : Text) (test : SourceDocument → Bool)
    (change : SourceDocument → SourceDocument) (rows : List SourceDocument)
    → ((x : SourceDocument) → (change x).pk ≡ x.pk)
    → ((x : SourceDocument)
        → is_file connection_id drive_id (change x) ≡ is_file connection_id drive_id x)
    → row_key connection_id drive_id (update_where test change rows)
      ≡ row_key connection_id drive_id rows
unfolding update_where
row_key-update_where connection_id drive_id test change [] k h = refl
row_key-update_where connection_id drive_id test change (x ∷ xs) k h =
    row_key-∷ connection_id drive_id (if test x then change x else x) (update_where test change xs)
    ∙ (λ i.
        if same_file (Bool-cases (test x)) i
        then some (same_key (Bool-cases (test x)) i)
        else row_key-update_where connection_id drive_id test change xs k h i)
    ∙ sym (row_key-∷ connection_id drive_id x xs)
  where
    same_file :
        (test x ≡ true) ⊎ (test x ≡ false)
        → is_file connection_id drive_id (if test x then change x else x)
          ≡ is_file connection_id drive_id x
    same_file (inl e) = rw e (h x)
    same_file (inr e) = rw e refl

    same_key : (test x ≡ true) ⊎ (test x ≡ false) → (if test x then change x else x).pk ≡ x.pk
    same_key (inl e) = rw e (k x)
    same_key (inr e) = rw e refl

module _ (env : Env) (connection_id marker now : ℕ) where
  row_key-mark_incomplete :
      (drive_id : Text) (r : DrivePermissionResource) (o : Option SourceDocument)
      (rows : List SourceDocument)
      → row_key connection_id drive_id (mark_incomplete env connection_id marker now r o rows)
        ≡ row_key connection_id drive_id rows
  unfolding mark_incomplete set_reason is_file
  row_key-mark_incomplete drive_id r none rows = refl
  row_key-mark_incomplete drive_id r (some d) rows = elim (Bool-cases r.permissions_fetch_failed) [
    | inl e ↦ rw e (
        row_key-update_where connection_id drive_id (λ x. x.pk == d.pk)
          (set_reason env connection_id marker now "permission_metadata_incomplete") rows
          (λ x. refl) (λ x. refl))
    | inr e ↦ rw e refl
  ]

  row_key-persist :
      (drive_id : Text) (r : DrivePermissionResource) (db : AclDb)
      → row_key connection_id drive_id (persist env connection_id marker now r db).tables.documents
        ≡ row_key connection_id drive_id db.tables.documents
  unfolding persist_folder persist_document persisted_documents seen_document is_file
  row_key-persist drive_id r db = elim (Bool-cases (r.resource_type == "folder")) [
    | inl e ↦ rw e refl
    | inr e ↦ rw e (
        row_key-mark_incomplete drive_id r _ _
        ∙ row_key-update_where connection_id drive_id
            (is_document_row env connection_id marker now r.drive_id)
            (seen_document env connection_id marker now r) db.tables.documents (λ x. refl)
            (λ x. refl))
  ]

  folders-stored :
      (rs : List DrivePermissionResource) (db : AclDb) (f : DriveFolder)
      → folder_acl (persist_resources env connection_id marker now rs db) f
        ≡ last_listed (is_listed_folder connection_id f) rs (folder_acl db f)
  unfolding persist_resources last_listed
  folders-stored [] db f = refl
  folders-stored (r ∷ rs) db f =
      folders-stored rs (persist env connection_id marker now r db) f
      ∙ ap (last_listed (is_listed_folder connection_id f) rs)
          (folder_step env connection_id marker now r db f)

  documents-stored :
      (rs : List DrivePermissionResource) (db : AclDb) (d : SourceDocument)
      → document_acl (persist_resources env connection_id marker now rs db) d
        ≡ last_listed
            (is_listed_document connection_id db.tables.documents d)
            rs
            (document_acl db d)
  unfolding persist_resources last_listed
  documents-stored [] db d = refl
  documents-stored (r ∷ rs) db d =
      documents-stored rs (persist env connection_id marker now r db) d
      ∙ last_listed-same _ (is_listed_document connection_id db.tables.documents d) rs _ (λ x.
        ap (λ key. not (x.resource_type == "folder") && has_key d.pk key)
          (row_key-persist x.drive_id r db))
      ∙ ap (last_listed (is_listed_document connection_id db.tables.documents d) rs)
          (document_step env connection_id marker now r db d)

  -- After a scan the access list that is read for a folder or document is that of the last resource
  -- that Drive listed for it, complete unless it could not be read, and the one from before where
  -- Drive listed none.
  pub persist-stored :
      (rs : List DrivePermissionResource) (db : AclDb) (f : DriveFolder) (d : SourceDocument)
      → (folder_acl (persist_complete_scan env connection_id marker now rs db) f
          ≡ last_listed (is_listed_folder connection_id f) rs (folder_acl db f))
        × (document_acl (persist_complete_scan env connection_id marker now rs db) d
            ≡ last_listed
                (is_listed_document connection_id db.tables.documents d)
                rs
                (document_acl db d))
  unfolding persist_complete_scan sweep folder_acl document_acl
  persist-stored rs db f d = (folders-stored rs db f, documents-stored rs db d)
