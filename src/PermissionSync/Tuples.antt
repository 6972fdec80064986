-- ===== src/PermissionSync/Tuples.antt =====
-- The relationships of the desired state lie under the connection's prefix, and none of them is a
-- direct grant of the other authority.
use knowledge_graph_mvp.Prelude.{
  Bool-cases, In, In-append, In-keep, In-map, In-to_set, In-union, List, Option, String, Text, [],
  any, arith, contains, eq_of_==, false, inl, inr, keep, list_eq, map, nat_eq, not, refl,
  starts_with, string_eq, subst, sym, true, union, ℕ, ◌==◌, ◌||◌, ◌∷◌, ◌≡◌,
}
use knowledge_graph_mvp.DriveAcl.{Permission, is_set, is_label}
use knowledge_graph_mvp.GoogleGroups.{GroupMembership}
use knowledge_graph_mvp.Models.{Env, SourceDocument, DriveFolder, AclDb}
use knowledge_graph_mvp.SpiceDb.{PermissionTuple, tuple_eq}
use knowledge_graph_mvp.Identifiers.{connection_prefix, document_object_id, group_object_id}
use knowledge_graph_mvp.Identifiers.Scope.{prefix-folder, prefix-group, prefix-document}
use knowledge_graph_mvp.PermissionSync.{
  CapturedAcl, supported_roles, safely_inherited, folder_acl, document_acl,
}
use knowledge_graph_mvp.PermissionSync.Judged.{
  IsSupported, judge_document-IsEligible, resource_acl_reason-IsSupported,
}
use knowledge_graph_mvp.PermissionSync.Managed.{role-managed}
use knowledge_graph_mvp.PermissionSync.State.{
  eligible, acl_tuple, acl_tuples, parent_tuple, resource_tuples, group_tuples, membership_tuples,
  member_tuple, raw_of, folder_reason, scan_folders, judge_document,
}

-- A relationship that a delegated run may ask for.
abbrev pub IsManaged : ℕ → PermissionTuple → Type 0
IsManaged connection_id t =
    ((t.relation == "oauth_viewer") ≡ false)
    × (starts_with (connection_prefix connection_id) t.resource_id ≡ true)

module _ (env : Env) (connection_id : ℕ) where
  pub acl_tuples-In :
      (resource_type : String) (resource_id : Text) (permissions : List Permission)
      (parent_ids ids : List Text) (t : PermissionTuple)
      → In t (acl_tuples env connection_id resource_type resource_id permissions parent_ids ids)
      → (p : Permission) × In p permissions
        × (is_set p.deleted ≡ false)
        × (t ≡ acl_tuple env connection_id resource_type resource_id p)
  unfolding acl_tuples
  acl_tuples-In resource_type resource_id permissions parent_ids ids t i =
      let kept : List Permission =
        keep (λ p. not (is_set p.deleted || safely_inherited p parent_ids ids)) permissions in
      let (p, j, e) =
        In-map (acl_tuple env connection_id resource_type resource_id) t kept
          ((In-to_set t _).0 i) in
      let (k, h) = In-keep _ p permissions j in (p, k, ground arith, e)

  resource_tuples-IsManaged :
      (resource_type : String) (resource_id : Text) (permissions : List Permission)
      (parent_ids ids : List Text) (t : PermissionTuple)
      → starts_with (connection_prefix connection_id) resource_id ≡ true
      → ((p : Permission)
          → In p permissions
          → is_set p.deleted ≡ false
          → any (is_label p.role) supported_roles ≡ true)
      → In t
          (resource_tuples env connection_id resource_type resource_id permissions parent_ids ids)
      → IsManaged connection_id t
  unfolding resource_tuples parent_tuple acl_tuple
  resource_tuples-IsManaged resource_type resource_id permissions parent_ids ids t under roles i =
      elim ((In-union t _ _).0 i) [
        | inl j ↦
            let (x, k, e) =
              In-map (parent_tuple env connection_id resource_type resource_id) t
                (keep (contains ids) parent_ids) j in
            subst (IsManaged connection_id) (sym e) (refl, under)
        | inr j ↦
            let (p, k, d, e) =
              acl_tuples-In resource_type resource_id permissions parent_ids ids t j in
            subst (IsManaged connection_id) (sym e) (role-managed p.role (roles p k d), under)
      ]

  member-IsManaged :
      (email : Text) (subject_type : String) (subject_id : Text) (subject_relation : String)
      → IsManaged connection_id (
          member_tuple env connection_id
            (group_object_id env.sha256 connection_id email)
            subject_type
            subject_id
            subject_relation)
  unfolding member_tuple
  member-IsManaged email subject_type subject_id subject_relation =
      (refl, prefix-group env.sha256 connection_id email)

  group_tuples-IsManaged :
      (m : Text × GroupMembership) (t : PermissionTuple)
      → In t (group_tuples env connection_id m)
      → IsManaged connection_id t
  unfolding group_tuples
  group_tuples-IsManaged (email, membership) t i =
      elim (In-append t (map _ membership.users) (map _ membership.child_groups) i) [
        | inl j ↦
            let (x, k, e) = In-map _ t membership.users j in
            subst (IsManaged connection_id) (sym e) (member-IsManaged email _ _ _)
        | inr j ↦
            let (x, k, e) = In-map _ t membership.child_groups j in
            subst (IsManaged connection_id) (sym e) (member-IsManaged email _ _ _)
      ]

  membership_tuples-IsManaged :
      (ms : List (Text × GroupMembership)) (t : PermissionTuple)
      → In t (membership_tuples env connection_id ms)
      → IsManaged connection_id t
  unfolding membership_tuples
  membership_tuples-IsManaged [] t i = absurd i
  membership_tuples-IsManaged (m ∷ ms) t i =
      elim ((In-union t (group_tuples env connection_id m) _).0 i) [
        | inl j ↦ group_tuples-IsManaged m t j
        | inr j ↦ membership_tuples-IsManaged ms t j
      ]

  -- The roles of a resource without a reason.
  supported_roles-of :
      (acl : Option CapturedAcl) (unresolved : List Text)
      → IsSupported acl unresolved
      → (p : Permission) → In p (raw_of acl)
      → is_set p.deleted ≡ false
      → any (is_label p.role) supported_roles ≡ true
  supported_roles-of acl unresolved ok_acl p i d =
      (ok_acl.accepted p (subst (λ o. In p (raw_of o)) ok_acl.is_captured i) d).role_supported

  module _ (db : AclDb) (unresolved ids : List Text) where
    scan_folders-IsManaged :
        (fs : List DriveFolder) (t : PermissionTuple)
        → In t ((scan_folders env connection_id db unresolved ids fs).0)
        → IsManaged connection_id t
    unfolding scan_folders folder_reason
    scan_folders-IsManaged [] t i = absurd i
    scan_folders-IsManaged (f ∷ fs) t i =
        elim (Bool-cases (folder_reason env connection_id db unresolved ids f == "")) [
          | inl e ↦ elim ((In-union t _ _).0 (rw (e, scan_folders) at i)) [
            | inl j ↦
                resource_tuples-IsManaged "kgm/folder" _ (raw_of (folder_acl db f))
                  f.parent_folder_ids ids t
                  (prefix-folder env.sha256 connection_id f.drive_folder_id)
                  (supported_roles-of (folder_acl db f) unresolved (
                    resource_acl_reason-IsSupported (folder_acl db f) unresolved (eq_of_== _ "" e)))
                  j
            | inr j ↦ scan_folders-IsManaged fs t j
          ]
          | inr e ↦ scan_folders-IsManaged fs t (rw (e, scan_folders) at i)
        ]

    -- Each relationship of a folder is managed by the run, and so is each that an eligible document
    -- asks for.
    pub document_tuples-IsManaged :
        (invalid : List Text) (d : SourceDocument) (tuples : List PermissionTuple)
        → judge_document env connection_id db unresolved ids invalid d ≡ eligible tuples
        → (t : PermissionTuple) → In t tuples
        → IsManaged connection_id t
    document_tuples-IsManaged invalid d tuples h t i =
        let e = judge_document-IsEligible env connection_id db unresolved ids invalid d tuples h in
        resource_tuples-IsManaged "kgm/document" (document_object_id connection_id d.pk)
          (raw_of (document_acl db d)) d.parent_folder_ids ids t
          (prefix-document connection_id d.pk)
          (supported_roles-of (document_acl db d) unresolved e.supported) (subst (In t) e.are_its i)

    pub folder_tuples-IsManaged :
        (ms : List (Text × GroupMembership)) (fs : List DriveFolder) (t : PermissionTuple)
        → In t (
            union
              (membership_tuples env connection_id ms)
              ((scan_folders env connection_id db unresolved ids fs).0))
        → IsManaged connection_id t
    folder_tuples-IsManaged ms fs t i =
        elim ((In-union t (membership_tuples env connection_id ms) _).0 i) [
          | inl j ↦ membership_tuples-IsManaged ms t j
          | inr j ↦ scan_folders-IsManaged fs t j
        ]
