-- ===== src/PermissionSync/Listed.antt =====
-- What one listed resource changes of the access lists that are read.
use mathlib.Core.Bool.{true≢false}
use knowledge_graph_mvp.Prelude.{
  ==-refl, Bool, Bool-cases, List, Option, Text, [], ap, arith, eq_of_==, false, first,
  if◌then◌else◌, inl, inr, keep, list_eq, nat_eq, none, not, refl, some, string_eq, subst, sym,
  true, ℕ, ◌&&◌, ◌==◌, ◌∙◌, ◌∷◌, ◌≡◌,
}
use knowledge_graph_mvp.Models.{
  upsert, DriveFolderPermissionSnapshot, AclDb, DriveFolder, DrivePermissionSnapshot, Env,
  SourceDocument,
}
use knowledge_graph_mvp.PermissionSync.{CapturedAcl, folder_acl, document_acl}
use knowledge_graph_mvp.PermissionSync.Scan.{
  DrivePermissionResource, folder_snapshot, persist_document, persist_folder, document_snapshot,
  is_document_row, persisted_snapshots,
}
use knowledge_graph_mvp.PermissionSync.Rows.{find-upsert, other-upsert}

-- The access list of a resource, complete unless it could not be read.
abbrev pub acl_of : DrivePermissionResource → CapturedAcl
acl_of r = record {
  raw_permissions = r.permissions;
  permissions_complete = not r.permissions_fetch_failed;
}

-- The last of the resources that pass a test decides; without one it is as before.
unfoldable pub last_listed :
    (DrivePermissionResource → Bool)
    → List DrivePermissionResource
    → Option CapturedAcl
    → Option CapturedAcl
last_listed test [] before = before
last_listed test (r ∷ rs) before = last_listed test rs (if test r then some (acl_of r) else before)

pub last_listed-same :
    (test test' : DrivePermissionResource → Bool) (rs : List DrivePermissionResource)
    (before : Option CapturedAcl)
    → ((r : DrivePermissionResource) → test r ≡ test' r)
    → last_listed test rs before ≡ last_listed test' rs before
unfolding last_listed
last_listed-same test test' [] before h = refl
last_listed-same test test' (r ∷ rs) before h =
    rw (h r) (last_listed-same test test' rs (if test' r then some (acl_of r) else before) h)

abbrev captured_folder : Option DriveFolderPermissionSnapshot → Option CapturedAcl
captured_folder o = elim o [
  | none ↦ none
  | some s ↦ some (record {
    raw_permissions = s.raw_permissions;
    permissions_complete = s.permissions_complete;
  })
]

abbrev captured_document : Option DrivePermissionSnapshot → Option CapturedAcl
captured_document o = elim o [
  | none ↦ none
  | some s ↦ some (record {
    raw_permissions = s.raw_permissions;
    permissions_complete = s.permissions_complete;
  })
]

abbrev pub is_listed_folder : ℕ → DriveFolder → DrivePermissionResource → Bool
is_listed_folder connection_id f r =
    r.resource_type == "folder"
    && (f.connection == connection_id && f.drive_folder_id == r.drive_id)

abbrev pub has_key : ℕ → Option ℕ → Bool
has_key pk none = false
has_key pk (some found) = found == pk

-- The primary key of the first row of a file.
abbrev pub row_key : ℕ → Text → List SourceDocument → Option ℕ
row_key connection_id drive_id rows =
    elim (first (keep (λ d. d.connection == connection_id && d.drive_file_id == drive_id) rows)) [
      | none ↦ none
      | some d ↦ some d.pk
    ]

abbrev pub is_listed_document :
    ℕ → List SourceDocument → SourceDocument → DrivePermissionResource → Bool
is_listed_document connection_id rows d r =
    not (r.resource_type == "folder") && has_key d.pk (row_key connection_id r.drive_id rows)

-- A test on two columns, with the same columns otherwise, tells rows apart.
key_apart :
    (a b c : ℕ) (x y z : Text)
    → (a == b && x == y) ≡ false
    → (c == b && z == y) ≡ true
    → (c == a && z == x) ≡ false
key_apart a b c x y z h k = elim (Bool-cases (c == a && z == x)) [
  | inr e ↦ e
  | inl e ↦
      let p : c ≡ a = eq_of_== c a (ground arith) in
      let q : z ≡ x = eq_of_== z x (ground arith) in
      absurd (
        true≢false (
          sym
            (subst (λ v. (v == b && x == y) ≡ true) p (subst (λ v. (c == b && v == y) ≡ true) q k))
          ∙ h))
]

module _ (env : Env) (connection_id marker now : ℕ) where
  abbrev pub persist : DrivePermissionResource → AclDb → AclDb
  persist r db =
      if r.resource_type == "folder"
      then persist_folder env connection_id marker now r db
      else persist_document env connection_id marker now r db

  pub folder_step :
      (r : DrivePermissionResource) (db : AclDb) (f : DriveFolder)
      → folder_acl (persist r db) f
        ≡ (if is_listed_folder connection_id f r then some (acl_of r) else folder_acl db f)
  unfolding folder_acl persist_folder persist_document folder_snapshot
  folder_step r db f = elim (Bool-cases (r.resource_type == "folder")) [
    | inr e ↦ rw e refl
    | inl e ↦ elim (Bool-cases (f.connection == connection_id && f.drive_folder_id == r.drive_id)) [
      | inl e' ↦
          rw (e, e')
            (let c : f.connection ≡ connection_id =
                eq_of_== f.connection connection_id (ground arith) in
              let i : f.drive_folder_id ≡ r.drive_id =
                eq_of_== f.drive_folder_id r.drive_id (ground arith) in
              rw (c, i)
                (ap captured_folder (
                  find-upsert
                    (λ s. s.connection == connection_id && s.drive_folder_id == r.drive_id)
                    (folder_snapshot env connection_id marker now r)
                    (rw (==-refl connection_id) (==-refl r.drive_id)) db.folder_snapshots)))
      | inr e' ↦
          rw (e, e')
            (ap captured_folder (
              other-upsert
                (λ s. s.connection == f.connection && s.drive_folder_id == f.drive_folder_id)
                (λ s. s.connection == connection_id && s.drive_folder_id == r.drive_id)
                (folder_snapshot env connection_id marker now r)
                (key_apart f.connection connection_id connection_id f.drive_folder_id r.drive_id
                  r.drive_id e' (rw (==-refl connection_id) (==-refl r.drive_id)))
                (λ s.
                  key_apart f.connection connection_id s.connection f.drive_folder_id r.drive_id
                    s.drive_folder_id e')
                db.folder_snapshots))
    ]
  ]

  -- The snapshots behind a resource of which the given row was found.
  found_step :
      (r : DrivePermissionResource) (rows : List DrivePermissionSnapshot) (d : SourceDocument)
      (found : Option SourceDocument)
      → captured_document (
          first (
            keep
              (λ s. s.source_document == d.pk)
              (elim found as (λ _. List DrivePermissionSnapshot) [
                | none ↦ rows
                | some document ↦
                    upsert
                      (λ s. s.source_document == document.pk)
                      (λ s. document_snapshot env connection_id marker now r document.pk)
                      (document_snapshot env connection_id marker now r document.pk)
                      rows
              ])))
        ≡ (if has_key d.pk (elim found as (λ _. Option ℕ) [ none ↦ none | some x ↦ some x.pk ])
            then some (acl_of r)
            else captured_document (first (keep (λ s. s.source_document == d.pk) rows)))
  unfolding document_snapshot
  found_step r rows d none = refl
  found_step r rows d (some x) = elim (Bool-cases (x.pk == d.pk)) [
    | inl e ↦
        let same : x.pk ≡ d.pk = eq_of_== x.pk d.pk e in
        rw (same, ==-refl d.pk)
          (ap captured_document (
            find-upsert (λ s. s.source_document == d.pk)
              (document_snapshot env connection_id marker now r d.pk) (==-refl d.pk) rows))
    | inr e ↦ rw e (
        ap captured_document (
          other-upsert (λ s. s.source_document == d.pk) (λ s. s.source_document == x.pk)
            (document_snapshot env connection_id marker now r x.pk) e
            (λ s h. subst (λ z. (z == d.pk) ≡ false) (sym (eq_of_== s.source_document x.pk h)) e)
            rows))
  ]

  pub document_step :
      (r : DrivePermissionResource) (db : AclDb) (d : SourceDocument)
      → document_acl (persist r db) d ≡ (
          if is_listed_document connection_id db.tables.documents d r
          then some (acl_of r)
          else document_acl db d)
  unfolding document_acl persist_folder persist_document persisted_snapshots is_document_row
  document_step r db d = elim (Bool-cases (r.resource_type == "folder")) [
    | inl e ↦ rw e refl
    | inr e ↦ rw e (
        found_step r db.document_snapshots d (
          first (
            keep (λ x. x.connection == connection_id && x.drive_file_id == r.drive_id)
              db.tables.documents)))
  ]
