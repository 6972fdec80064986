-- ===== src/PermissionSync/Eligible.antt =====
-- The state that a delegated run builds: which documents it takes for eligible, and on what ground.
use knowledge_graph_mvp.Prelude.{
  Bool-cases, In, In-add_of, In-add_self, In-contains, In-map, In-union, List, List-cases, Option,
  String, Text, [], add, any, any-of, ap, arith, contains, false, inl, inr, is_empty, keep, length,
  list_eq, nat_eq, refl, string_eq, subst, sym, union, ℕ, ◌==◌, ◌∷◌, ◌≡◌, ◌⊎◌,
}
use knowledge_graph_mvp.GoogleGroups.{GroupMembership}
use knowledge_graph_mvp.Models.{Env, SourceDocument, DriveFolder, AclDb}
use knowledge_graph_mvp.SpiceDb.{PermissionTuple, tuple_eq}
use knowledge_graph_mvp.PermissionSync.{CapturedAcl, document_acl}
use knowledge_graph_mvp.PermissionSync.Hierarchy.{folder_ids, include_descendants}
use knowledge_graph_mvp.PermissionSync.State.{
  Verdict, scan_folders, folder_reason, judge_document, active_folders, parent_tuple, acl_tuple,
  resource_tuples, raw_of, SyncResult, active_documents, build_state, eligible, membership_tuples,
  memberships_of, unresolved_of, excluded,
}
use knowledge_graph_mvp.PermissionSync.Tuples.{
  IsManaged, acl_tuples-In, document_tuples-IsManaged, folder_tuples-IsManaged,
}
use knowledge_graph_mvp.PermissionSync.Judged.{IsSupported, judge_document-IsEligible}
use knowledge_graph_mvp.PermissionSync.Collected.{HasScanned, scan_documents-HasScanned}
use knowledge_graph_mvp.PermissionSync.Hierarchy.Descendants.{IsBelow, include_descendants-IsBelow}
use knowledge_graph_mvp.Identifiers.{document_object_id}

module _ (env : Env) (connection_id : ℕ) where
  -- A relationship that a resource asks for is one of its own.
  pub resource_tuples-own :
      (resource_type : String) (resource_id : Text) (acl : Option CapturedAcl)
      (parent_ids ids : List Text) (t : PermissionTuple)
      → In t
          (resource_tuples env connection_id resource_type resource_id (raw_of acl) parent_ids ids)
      → (t.resource_type ≡ resource_type) × (t.resource_id ≡ resource_id)
  unfolding resource_tuples parent_tuple acl_tuple
  resource_tuples-own resource_type resource_id acl parent_ids ids t i =
      elim ((In-union t _ _).0 i) [
        | inl j ↦
            let (x, k, e) = In-map _ t (keep (contains ids) parent_ids) j in
            (ap (λ z. z.resource_type) e, ap (λ z. z.resource_id) e)
        | inr j ↦
            let (p, k, d, e) =
              acl_tuples-In env connection_id resource_type resource_id (raw_of acl) parent_ids ids
                t j in
            (ap (λ z. z.resource_type) e, ap (λ z. z.resource_id) e)
      ]

  module _ (db : AclDb) (unresolved ids : List Text) where
    -- A folder whose access list is refused is among the invalid ones.
    scan_folders-invalid :
        (f : DriveFolder) (fs : List DriveFolder)
        → In f fs
        → (folder_reason env connection_id db unresolved ids f == "") ≡ false
        → In f.drive_folder_id ((scan_folders env connection_id db unresolved ids fs).1)
    unfolding scan_folders
    scan_folders-invalid f [] i h = absurd i
    scan_folders-invalid f (g ∷ gs) (inl e) h =
        let h' : (folder_reason env connection_id db unresolved ids g == "") ≡ false =
          subst (λ z. (folder_reason env connection_id db unresolved ids z == "") ≡ false) e h in
        rw (h', scan_folders)
          (subst
            (λ z.
              In z.drive_folder_id
                (add g.drive_folder_id ((scan_folders env connection_id db unresolved ids gs).1)))
            (sym e)
            (In-add_self g.drive_folder_id
              ((scan_folders env connection_id db unresolved ids gs).1)))
    scan_folders-invalid f (g ∷ gs) (inr i) h =
        elim (Bool-cases (folder_reason env connection_id db unresolved ids g == "")) [
          | inl e ↦ rw (e, scan_folders) (scan_folders-invalid f gs i h)
          | inr e ↦ rw (e, scan_folders) (In-add_of _ _ _ (scan_folders-invalid f gs i h))
        ]

  module _ (db : AclDb) (group_emails : List Text)
      (resolved : Option (List (Text × GroupMembership))) where
    abbrev pub folders : List DriveFolder
    folders = active_folders db connection_id

    -- A folder of the connection that the run refuses.
    abbrev pub IsRefused : DriveFolder → Type 0
    IsRefused f =
        In f folders
        × ((folder_reason env connection_id db (unresolved_of group_emails resolved)
                (folder_ids folders) f
              == "")
            ≡ false)

    -- The documents' judgement under what the folders gave.
    abbrev invalid : List Text
    invalid =
        include_descendants
          ((scan_folders env connection_id db (unresolved_of group_emails resolved)
            (folder_ids folders) folders).1)
          folders

    abbrev judge : SourceDocument → Verdict
    judge =
        judge_document env connection_id db (unresolved_of group_emails resolved)
          (folder_ids folders) invalid

    abbrev result : SyncResult
    result = build_state env connection_id db group_emails resolved

    abbrev before : SyncResult
    before = record {
      desired = union (membership_tuples env connection_id (memberships_of resolved)) (
          (scan_folders env connection_id db (unresolved_of group_emails resolved)
            (folder_ids folders) folders).0);
      eligible_document_versions = [];
      excluded_document_reasons = [];
      groups_resolved = length (memberships_of resolved);
    }

    scanned : HasScanned judge before result (active_documents db connection_id)
    unfolding build_state
    scanned =
        scan_documents-HasScanned env connection_id db (unresolved_of group_emails resolved)
          (folder_ids folders) invalid before (active_documents db connection_id)

    -- Every desired relationship lies under the connection's prefix, and none is an `oauth_viewer`.
    pub desired-IsManaged : (t : PermissionTuple) → In t result.desired → IsManaged connection_id t
    desired-IsManaged t i = elim ((scanned.desired_iff t).0 i) [
      | inl j ↦
          folder_tuples-IsManaged env connection_id db (unresolved_of group_emails resolved)
            (folder_ids folders) (memberships_of resolved) folders t j
      | inr (d, k, (tuples, e, j)) ↦
          document_tuples-IsManaged env connection_id db (unresolved_of group_emails resolved)
            (folder_ids folders) invalid d tuples e t j
    ]

    -- What makes a document eligible: it is active, its access list is complete and supported, none
    -- of its parents is a refused folder or below one, and SpiceDB is asked for a relationship of it.
    pub record IsGrounded (d : SourceDocument) : Type 0 where
      pub is_active : In d (active_documents db connection_id)
      pub supported_type : (d.exclusion_reason == "unsupported_mime_type") ≡ false
      pub supported : IsSupported (document_acl db d) (unresolved_of group_emails resolved)
      pub no_refused_above :
          (parent : Text)
          → In parent d.parent_folder_ids
          → (f : DriveFolder) → IsRefused f
          → IsBelow folders f.drive_folder_id parent
          → ⊥
      pub has_grant :
          (t : PermissionTuple) × In t result.desired
          × (t.resource_type ≡ "kgm/document")
          × (t.resource_id ≡ document_object_id connection_id d.pk)

    eligible-IsGrounded :
        (d : SourceDocument) (tuples : List PermissionTuple)
        → In d (active_documents db connection_id)
        → judge d ≡ eligible tuples
        → IsGrounded d
    eligible-IsGrounded d tuples i e =
        let h =
          judge_document-IsEligible env connection_id db (unresolved_of group_emails resolved)
            (folder_ids folders) invalid d tuples e in
        record {
          is_active = i;
          supported_type = h.supported_type;
          supported = h.supported;
          no_refused_above = λ p j f r b.
              outside invalid d.parent_folder_ids p h.outside_invalid j (
                (include_descendants-IsBelow _ folders p).1 (
                  f.drive_folder_id,
                  scan_folders-invalid db (unresolved_of group_emails resolved) (folder_ids folders)
                      f folders (r.0) (r.1),
                  b,
                ));
          has_grant = elim (List-cases tuples) [
            | inl n ↦ absurd (none_left tuples h.has_grant n)
            | inr (t, ts, c) ↦
                let j : In t tuples = subst (In t) (sym c) (inl refl) in
                let (a, b) =
                  resource_tuples-own "kgm/document" (document_object_id connection_id d.pk)
                    (document_acl db d) d.parent_folder_ids (folder_ids folders) t
                    (subst (In t) h.are_its j) in
                (t, (scanned.desired_iff t).1 (inr (d, i, (tuples, e, j))), a, b)
          ];
        }
      where
        outside :
            (xs parents : List Text) (p : Text)
            → any (contains xs) parents ≡ false
            → In p parents
            → In p xs
            → ⊥
        outside xs parents p n i j =
            ground (arith, any-of (contains xs) p parents i (In-contains xs p j))

        none_left : (ts : List PermissionTuple) → is_empty ts ≡ false → ts ≡ [] → ⊥
        none_left [] n e = cc
        none_left (t ∷ ts) n e = cc

    -- Each active document of the connection is eligible with its version, and grounded, or it is
    -- excluded with a reason.
    pub judged :
        (d : SourceDocument)
        → In d (active_documents db connection_id)
        → (IsGrounded d × In (d.pk, d.source_permissions_version) result.eligible_document_versions)
          ⊎ ((reason : String) × In (d.pk, reason) result.excluded_document_reasons)
    judged d i = split (judge d) refl
      where
        split :
            (v : Verdict)
            → judge d ≡ v
            → (IsGrounded d
                × In (d.pk, d.source_permissions_version) result.eligible_document_versions)
              ⊎ ((reason : String) × In (d.pk, reason) result.excluded_document_reasons)
        split (excluded reason) e =
            inr (reason, (scanned.excluded_iff (d.pk, reason)).1 (inr (d, i, (reason, e, refl))))
        split (eligible tuples) e = inl (
          eligible-IsGrounded d tuples i e,
          (scanned.eligible_iff (d.pk, d.source_permissions_version)).1
              (inr (d, i, (tuples, e, refl))),
        )

    -- An eligible entry is of a grounded document, with the version of its access list.
    pub eligible_entry-IsGrounded :
        (e : ℕ × Text)
        → In e result.eligible_document_versions
        → (d : SourceDocument) × (e ≡ (d.pk, d.source_permissions_version)) × IsGrounded d
    eligible_entry-IsGrounded e i = elim ((scanned.eligible_iff e).0 i) [
      | inl z ↦ absurd z
      | inr (d, k, (tuples, h, p)) ↦ (d, p, eligible-IsGrounded d tuples k h)
    ]

    -- An excluded entry is of an active document.
    pub excluded_entry-In :
        (e : ℕ × String)
        → In e result.excluded_document_reasons
        → (d : SourceDocument) × In d (active_documents db connection_id) × (d.pk ≡ e.0)
    excluded_entry-In e i = elim ((scanned.excluded_iff e).0 i) [
      | inl z ↦ absurd z
      | inr (d, k, (reason, h, p)) ↦ (d, k, ap (λ z. z.0) (sym p))
    ]
