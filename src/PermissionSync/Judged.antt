-- ===== src/PermissionSync/Judged.antt =====
-- What the judgement of a resource rests on: its access list, its type and the folders above it.
use knowledge_graph_mvp.Prelude.{
  Bool, Bool-cases, In, List, Option, String, Text, any, arith, contains, eq_of_==, false,
  if◌then◌else◌, inl, inr, is_empty, label_eq_iff, list_eq, nat_eq, none, not, refl, some,
  string_eq, sym, true, true_of_not, ℕ, ◌==◌, ◌∙◌, ◌≡◌,
}
use knowledge_graph_mvp.DriveAcl.{Permission, is_set, has_public_link, has_domain_visibility}
use knowledge_graph_mvp.Models.{Env, SourceDocument, AclDb}
use knowledge_graph_mvp.SpiceDb.{PermissionTuple, tuple_eq}
use knowledge_graph_mvp.Identifiers.{document_object_id}
use knowledge_graph_mvp.PermissionSync.{
  CapturedAcl, permissions_reason, resource_acl_reason, document_reason, document_acl,
}
use knowledge_graph_mvp.PermissionSync.Managed.{
  IsAccepted, permissions_reason-IsAccepted, unless_label,
}
use knowledge_graph_mvp.PermissionSync.State.{
  excluded, eligible, resource_tuples, raw_of, judge_document,
}

-- What a resource without a reason has.
pub record IsSupported (acl : Option CapturedAcl) (unresolved : List Text) : Type 0 where
  pub captured : CapturedAcl
  pub is_captured : acl ≡ some captured
  pub complete : captured.permissions_complete ≡ true
  pub no_public_link : has_public_link captured.raw_permissions ≡ false
  pub no_domain_visibility : has_domain_visibility captured.raw_permissions ≡ false
  pub accepted :
      (p : Permission)
      → In p captured.raw_permissions
      → is_set p.deleted ≡ false
      → IsAccepted unresolved p

pub resource_acl_reason-IsSupported :
    (acl : Option CapturedAcl) (unresolved : List Text)
    → resource_acl_reason acl unresolved ≡ ""
    → IsSupported acl unresolved
unfolding resource_acl_reason
resource_acl_reason-IsSupported none unresolved h =
    absurd (ground (arith, label_eq_iff "permission_metadata_incomplete" ""))
resource_acl_reason-IsSupported (some acl) unresolved h =
    let (a, h1) =
      unless_label (not acl.permissions_complete) "permission_metadata_incomplete" _ refl h in
    let (b, h2) =
      unless_label (has_public_link acl.raw_permissions) "public_link_not_supported" _ refl h1 in
    let (c, h3) =
      unless_label (has_domain_visibility acl.raw_permissions)
        "domain_wide_visibility_not_supported" (permissions_reason unresolved acl.raw_permissions)
        refl h2 in
    record {
      captured = acl;
      is_captured = refl;
      complete = true_of_not acl.permissions_complete a;
      no_public_link = b;
      no_domain_visibility = c;
      accepted = λ p i d. permissions_reason-IsAccepted unresolved p acl.raw_permissions h3 i d;
    }

pub document_reason-IsSupported :
    (d : SourceDocument) (acl : Option CapturedAcl) (unresolved invalid : List Text)
    → document_reason d acl unresolved invalid ≡ ""
    → ((d.exclusion_reason == "unsupported_mime_type") ≡ false)
      × (any (contains invalid) d.parent_folder_ids ≡ false)
      × IsSupported acl unresolved
unfolding document_reason
document_reason-IsSupported d acl unresolved invalid h =
    elim (Bool-cases (d.exclusion_reason == "unsupported_mime_type")) [
      | inl e ↦ absurd (
          sticky (
            sym (eq_of_== d.exclusion_reason "unsupported_mime_type" e)
            ∙ (rw (e, document_reason) at h)))
      | inr e ↦
          let (b, k) =
            unless_label (any (contains invalid) d.parent_folder_ids)
              "permission_metadata_incomplete" (resource_acl_reason acl unresolved) refl
              (rw (e, document_reason) at h) in
          (e, b, resource_acl_reason-IsSupported acl unresolved k)
    ]
  where
    sticky : ◌≡◌ {A = String} "unsupported_mime_type" "" → ⊥
    sticky p = ground (arith, label_eq_iff "unsupported_mime_type" "")

-- The branches of the judgement of a document that make it eligible.
both_passed :
    (a b : Bool) (reason : String) (ts tuples : List PermissionTuple)
    → (if a then excluded reason else if b then excluded "no_effective_grants" else eligible ts)
      ≡ eligible tuples
    → (a ≡ false) × (b ≡ false) × (tuples ≡ ts)
both_passed true b reason ts tuples h = cc
both_passed false true reason ts tuples h = cc
both_passed false false reason ts tuples h = (refl, refl, cc)

module _ (env : Env) (connection_id : ℕ) (db : AclDb) (unresolved ids : List Text) where
  pub record IsEligible (invalid : List Text) (d : SourceDocument) (tuples : List PermissionTuple)
      : Type 0 where
    pub supported_type : (d.exclusion_reason == "unsupported_mime_type") ≡ false
    pub outside_invalid : any (contains invalid) d.parent_folder_ids ≡ false
    pub supported : IsSupported (document_acl db d) unresolved
    pub has_grant : is_empty tuples ≡ false
    pub are_its :
        tuples
        ≡ resource_tuples env connection_id "kgm/document"
            (document_object_id connection_id d.pk)
            (raw_of (document_acl db d))
            d.parent_folder_ids
            ids

  pub judge_document-IsEligible :
      (invalid : List Text) (d : SourceDocument) (tuples : List PermissionTuple)
      → judge_document env connection_id db unresolved ids invalid d ≡ eligible tuples
      → IsEligible invalid d tuples
  unfolding judge_document
  judge_document-IsEligible invalid d tuples h =
      let its : List PermissionTuple =
        resource_tuples env connection_id "kgm/document" (document_object_id connection_id d.pk)
          (raw_of (document_acl db d)) d.parent_folder_ids ids in
      let reason : String = document_reason d (document_acl db d) unresolved invalid in
      let (a, b, e) = both_passed (not (reason == "")) (is_empty its) reason its tuples h in
      let (c, k, sup) =
        document_reason-IsSupported d (document_acl db d) unresolved invalid
          (eq_of_== reason "" (true_of_not _ a)) in
      record {
        supported_type = c;
        outside_invalid = k;
        supported = sup;
        has_grant = rw e b;
        are_its = e;
      }
